-- ===== src/Auth/Limiter.antt =====
-- internal/auth/ratelimit.go: the rate limiter. A method holds the mutex from its start to its end.
use network_skill_lab.Prelude.{
  Bool, Option, String, Time, false, if◌then◌else◌, leb, ltb, none, second, some, str_eq, sub_time,
  true, ℕ, ◌&&◌, ◌*◌, ◌+◌, ◌==◌,
}

pub record Entry : Type 0 where
  pub failures : ℕ
  pub last_failure : Time
  pub blocked_until : Time

-- `map[string]*limiterEntry`
abbrev pub Entries : Type 0
Entries = String → Option Entry

-- `MaxLoginFailures`, `LoginBlockFor`
abbrev pub max_login_failures : ℕ
max_login_failures = 10

abbrev pub login_block_for : ℕ
login_block_for = 60 * second

abbrev pub no_entries : Entries
no_entries key = none

abbrev pub set : String → Option Entry → Entries → Entries
set key value entries other = if str_eq key other then value else entries other

-- The verdict, and the map that is left.
unfoldable pub allow : String → Time → Entries → Bool × Entries
allow key now entries = if str_eq key "" then (true, entries) else elim (entries key) [
  | none ↦ (true, entries)
  | some e ↦
      if ltb now e.blocked_until
      then (false, entries)
      else if e.blocked_until == 0
      then (true, entries)
      else (true, set key none entries)
]

-- One entry of the loop of `prune`.
abbrev keep_fresh : Time → Option Entry → Option Entry
keep_fresh now none = none
keep_fresh now (some e) =
    if ltb login_block_for (sub_time now e.last_failure) && ltb e.blocked_until now
    then none
    else some e

unfoldable pub prune : Time → Entries → Entries
prune now entries key = keep_fresh now (entries key)

abbrev new_entry : Entry
new_entry = record { failures = 0; last_failure = 0; blocked_until = 0 }

abbrev or_new : Option Entry → Entry
or_new none = new_entry
or_new (some e) = e

-- The count that `now` finds: it starts again where the last failure is too old.
abbrev pub recent : Time → Entry → ℕ
recent now e = if ltb login_block_for (sub_time now e.last_failure) then 0 else e.failures

-- What `Fail` makes of an entry.
unfoldable pub failed : Time → Entry → Entry
failed now e =
    let count = recent now e + 1 in
    if leb max_login_failures count
    then record { failures = 0; last_failure = now; blocked_until = now + login_block_for }
    else record e { failures = count; last_failure = now }

unfoldable pub fail : String → Time → Entries → Entries
fail key now entries =
    if str_eq key ""
    then entries
    else prune now (set key (some (failed now (or_new (entries key)))) entries)

unfoldable pub reset : String → Entries → Entries
reset key entries = if str_eq key "" then entries else set key none entries
