-- ===== src/Auth/Block.antt =====
-- When the limiter refuses a client.
use network_skill_lab.Prelude.{
  Bool-cases, List, String, Time, [], ap, arith, eq_iff, false, if◌then◌else◌, inl, inr, leb,
  length, ltb, none, some, str_eq, suc, true, ℕ, ◌+◌, ◌<◌, ◌||◌, ◌∙◌, ◌∷◌, ◌≡◌, ◌≤◌,
}
use network_skill_lab.Auth.Limiter.{
  Entry, Entries, allow, prune, failed, fail, max_login_failures, login_block_for, recent,
}

-- The failures of a client, each at most a block after the one before it.
abbrev pub InRow : Time → List Time → Type 0
InRow last [] = Unit
InRow last (t ∷ times) = (last ≤ t) × (t ≤ last + login_block_for) × InRow t times

abbrev pub fails : String → List Time → Entries → Entries
fails key [] entries = entries
fails key (t ∷ times) entries = fails key times (fail key t entries)

abbrev pub last_of : Time → List Time → Time
last_of last [] = last
last_of last (t ∷ times) = last_of t times

-- `Fail` keeps the entry of its own client.
fail-own :
    (key : String) (t : Time) (entries : Entries) (e : Entry)
    → str_eq key "" ≡ false
    → entries key ≡ some e
    → fail key t entries key ≡ some (failed t e)
unfolding fail prune failed
fail-own key t entries e named h = ground (arith, eq_iff key key)

-- The entry of a client that has failed `count` times.
abbrev counted : ℕ → Time → Entry
counted count last = record { failures = count; last_failure = last; blocked_until = 0 }

abbrev blocked : Time → Entry
blocked last = record { failures = 0; last_failure = last; blocked_until = last + login_block_for }

recent-counted :
    (count : ℕ) (last t : Time) → t ≤ last + login_block_for → recent t (counted count last) ≡ count
recent-counted count last t soon = ground arith

failed-counted :
    (count : ℕ) (last t : Time)
    → t ≤ last + login_block_for
    → count + 1 < max_login_failures
    → failed t (counted count last) ≡ counted (count + 1) t
unfolding failed
failed-counted count last t soon few = rw (recent-counted count last t soon) (ground arith)

failed-blocked :
    (count : ℕ) (last t : Time)
    → t ≤ last + login_block_for
    → count + 1 ≡ max_login_failures
    → failed t (counted count last) ≡ blocked t
unfolding failed
failed-blocked count last t soon full = rw (recent-counted count last t soon) (ground arith)

-- What a row of failures leaves, by their number.
abbrev after_row : ℕ → Time → Entry
after_row count last = if ltb count max_login_failures then counted count last else blocked last

failed-row :
    (count : ℕ) (last t : Time)
    → t ≤ last + login_block_for
    → count < max_login_failures
    → failed t (counted count last) ≡ after_row (count + 1) t
failed-row count last t soon few = elim (Bool-cases (ltb (count + 1) max_login_failures)) [
  | inl e ↦ rw e (failed-counted count last t soon (ground (arith, e)))
  | inr e ↦ rw e (failed-blocked count last t soon (ground (arith, e)))
]

fails-row :
    (key : String) (times : List Time) (entries : Entries) (count : ℕ) (last : Time)
    → str_eq key "" ≡ false
    → entries key ≡ some (counted count last)
    → InRow last times
    → count < max_login_failures
    → count + length times ≤ max_login_failures
    → fails key times entries key ≡ some (after_row (count + length times) (last_of last times))
fails-row key [] entries count last named h row few total =
    let e : count + 0 ≡ count = omega arith in
    let below : ltb count max_login_failures ≡ true = ground (arith, few) in rw (h, e, below)
fails-row key (t ∷ []) entries count last named h row few total =
    let e : count + suc 0 ≡ count + 1 = omega arith in
    rw (fail-own key t entries (counted count last) named h)
      (ap some (failed-row count last t row.1 few))
fails-row key (t ∷ u ∷ times) entries count last named h row few total =
    let e : count + length (t ∷ u ∷ times) ≡ (count + 1) + length (u ∷ times) = omega arith in
    let few' : count + 1 < max_login_failures = omega (arith, total) in
    let h' =
      fail-own key t entries (counted count last) named h
      ∙ ap some (failed-counted count last t row.1 few') in
    rw e (
      fails-row key (u ∷ times) (fail key t entries) (count + 1) t named h' row.2 few'
        (omega (arith, total)))

fail-first :
    (key : String) (t : Time) (entries : Entries)
    → str_eq key "" ≡ false
    → entries key ≡ none
    → fail key t entries key ≡ some (counted 1 t)
unfolding fail prune failed
fail-first key t entries named h = ground (arith, eq_iff key key)

-- A client with a key, of which nothing is known, fails up to ten times, each at most a minute after
-- the one before it: with up to nine failures it is not refused, and behind the tenth it is refused
-- until a minute has passed since that one.
pub failures_block :
    (key : String) (entries : Entries) (t : Time) (times : List Time) (now : Time)
    → str_eq key "" ≡ false
    → entries key ≡ none
    → InRow t times
    → 1 + length times ≤ max_login_failures
    → (allow key now (fails key (t ∷ times) entries)).0
      ≡ (ltb (1 + length times) max_login_failures || leb (last_of t times + login_block_for) now)
unfolding allow
failures_block key entries t times now named none_known row total =
    let known = fail-first key t entries named none_known in
    let left = fails-row key times (fail key t entries) 1 t named known row (omega arith) total in
    elim (Bool-cases (ltb (1 + length times) max_login_failures)) [
      | inl e ↦ let left' = rw e at left in rw (named, left', e) (ground arith)
      | inr e ↦ let left' = rw e at left in rw (named, left', e) (ground arith)
    ]
