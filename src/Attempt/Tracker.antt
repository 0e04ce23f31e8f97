-- ===== src/Attempt/Tracker.antt =====
-- The trackers of service.go: who is connected to an attempt, and its idle timer. All of them change
-- under `s.mu`, so each function here is one atomic step.
use network_skill_lab.Prelude.{
  Bool, List, Option, String, [], false, if◌then◌else◌, none, some, str_eq, suc, ℕ, ◌+◌, ◌-◌, ◌==◌,
  ◌∷◌,
}

-- `idle` names the channel that `arm` made; a closed channel is `none`. `stop` is closed when the
-- tracker leaves the map.
pub record Tracker : Type 0 where
  pub conns : ℕ
  pub idle : Option ℕ

-- `next_timer` numbers the channels, so that no two are the same.
pub record Trackers : Type 0 where
  pub table : List (String × Tracker)
  pub next_timer : ℕ

unfoldable pub find : String → List (String × Tracker) → Option Tracker
find id [] = none
find id ((key, t) ∷ rest) = if str_eq key id then some t else find id rest

unfoldable pub put : String → Tracker → List (String × Tracker) → List (String × Tracker)
put id t [] = (id, t) ∷ []
put id t ((key, u) ∷ rest) = if str_eq key id then (id, t) ∷ rest else (key, u) ∷ put id t rest

unfoldable pub remove : String → List (String × Tracker) → List (String × Tracker)
remove id [] = []
remove id ((key, t) ∷ rest) =
    let others = remove id rest in if str_eq key id then others else (key, t) ∷ others

abbrev pub disarm : Tracker → Tracker
disarm t = record t { idle = none }

-- `arm`: a timer that runs is left alone.
unfoldable pub arm : String → Tracker → Trackers → Trackers
unfolding put
arm id t s = elim t.idle [
  | some timer ↦ record s { table = put id t s.table }
  | none ↦ record {
    table = put id (record t { idle = some s.next_timer }) s.table;
    next_timer = suc s.next_timer;
  }
]

unfoldable pub connected : String → Trackers → Trackers
unfolding find put
connected id s = elim (find id s.table) [
  | none ↦ s
  | some t ↦ record s { table = put id (disarm (record t { conns = t.conns + 1 })) s.table }
]

-- `if t.conns > 0 { t.conns-- }` is the subtraction that stops at 0.
abbrev drop_conn : Tracker → Tracker
drop_conn t = record t { conns = t.conns - 1 }

unfoldable pub disconnected : String → Trackers → Trackers
unfolding find put arm
disconnected id s = elim (find id s.table) [
  | none ↦ s
  | some t ↦
      let u = drop_conn t in
      if u.conns == 0 then arm id u s else record s { table = put id u s.table }
]

unfoldable pub track : String → Trackers → Trackers
unfolding find arm
track id s = elim (find id s.table) [
  | none ↦ arm id (record { conns = 0; idle = none }) s
  | some t ↦ s
]

unfoldable pub untrack : String → Trackers → Trackers
unfolding remove
untrack id s = record s { table = remove id s.table }

abbrev pub is_timer : ℕ → Option ℕ → Bool
is_timer timer none = false
is_timer timer (some running) = running == timer

abbrev has_timer : ℕ → Option Tracker → Bool
has_timer timer none = false
has_timer timer (some t) = is_timer timer t.idle

-- What a timer that fires asks before it expires the attempt.
unfoldable pub armed : String → ℕ → Trackers → Bool
unfolding find
armed id timer s = has_timer timer (find id s.table)
