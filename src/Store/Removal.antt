-- ===== src/Store/Removal.antt =====
-- What the removal of a row does to the table, and which rows the list of the ended attempts has.
use network_skill_lab.Prelude.{
  All, Bool, Bool-cases, List, Option-cases, String, Time, [], arith, eq_iff, false, inl, inr,
  length, none, some, str_eq, subst, suc, take, true, zero, ℕ, ◌||◌, ◌∷◌, ◌≡◌, ◌≢◌,
}
use network_skill_lab.Store.Model.{Attempt}
use network_skill_lab.Store.Attempts.{
  Attempts, get, delete, ends_earlier, insert_by_end, ended_before, all_ended_before,
  list_terminal_ended_before,
}

-- The table has a row with this id.
abbrev pub has : String → Attempts → Bool
has id [] = false
has id (a ∷ rows) = str_eq a.id id || has id rows

pub has-delete : (id : String) (rows : Attempts) → has id rows ≡ true → delete id rows ≢ none
unfolding delete
has-delete id [] h e = cc
has-delete id (a ∷ rows) h e = ground (arith, has-delete id rows)

pub length-delete :
    (id : String) (rows rows' : Attempts)
    → delete id rows ≡ some rows'
    → length rows ≡ suc (length rows')
unfolding delete
length-delete id [] rows' e = cc
length-delete id (a ∷ rows) rows' e = elim (Bool-cases (str_eq a.id id)) [
  | inl same ↦ ground arith
  | inr other ↦ elim (Option-cases (delete id rows)) [
    | inl f ↦ ground arith
    | inr (rest, f) ↦ ground (arith, length-delete id rows rest f)
  ]
]

pub get-delete :
    (id j : String) (rows rows' : Attempts)
    → delete id rows ≡ some rows'
    → str_eq id j ≡ false
    → get j rows' ≡ get j rows
unfolding delete get
get-delete id j [] rows' e h = cc
get-delete id j (a ∷ rows) rows' e h = elim (Option-cases (delete id rows)) [
  | inl f ↦ ground (arith, eq_iff a.id id, eq_iff a.id j, eq_iff id j)
  | inr (rest, f) ↦
      ground (arith, get-delete id j rows rest f h, eq_iff a.id id, eq_iff a.id j, eq_iff id j)
]

module _ {ℓ} (P : Attempt → Type ℓ) where
  pub All-delete :
      (id : String) (rows rows' : Attempts) → delete id rows ≡ some rows' → All P rows → All P rows'
  unfolding delete
  All-delete id [] rows' e h = absurd cc
  All-delete id (a ∷ rows) rows' e h = elim (Bool-cases (str_eq a.id id)) [
    | inl same ↦ let e' : rows ≡ rows' = ground (arith, e) in subst (All P) e' h.1
    | inr other ↦ elim (Option-cases (delete id rows)) [
      | inl f ↦ absurd (ground (arith, e))
      | inr (rest, f) ↦
          let e' : a ∷ rest ≡ rows' = ground (arith, e) in
          let kept : All P (a ∷ rest) = (h.0, All-delete id rows rest f h.1) in
          subst (All P) e' kept
    ]
  ]

  All-insert_by_end :
      (a : Attempt) (rows : List Attempt) → P a → All P rows → All P (insert_by_end a rows)
  unfolding insert_by_end
  All-insert_by_end a [] p h = (p, tt)
  All-insert_by_end a (b ∷ rows) p h = elim (Bool-cases (ends_earlier a b)) [
    | inl e ↦ rw e (p, h)
    | inr e ↦ rw e (h.0, All-insert_by_end a rows p h.1)
  ]

  All-take : (n : ℕ) (rows : List Attempt) → All P rows → All P (take n rows)
  All-take zero rows h = tt
  All-take (suc n) [] h = tt
  All-take (suc n) (a ∷ rows) h = (h.0, All-take n rows h.1)

All-ended {ℓ} :
    (P : Attempt → Type ℓ) (before : Time) (rows : Attempts)
    → All P rows
    → All (λ a. P a × (ended_before before a ≡ true)) (all_ended_before before rows)
unfolding all_ended_before
All-ended P before [] h = tt
All-ended P before (a ∷ rows) h = elim (Bool-cases (ended_before before a)) [
  | inl e ↦ rw e (
      All-insert_by_end (λ b. P b × (ended_before before b ≡ true)) a _ (h.0, e)
        (All-ended P before rows h.1))
  | inr e ↦ rw e (All-ended P before rows h.1)
]

-- What holds of all rows holds of those that are listed, which ended before the time.
pub All-listed {ℓ} :
    (P : Attempt → Type ℓ) (before : Time) (n : ℕ) (rows : Attempts)
    → All P rows
    → All (λ a. P a × (ended_before before a ≡ true)) (list_terminal_ended_before before n rows)
unfolding list_terminal_ended_before
All-listed P before n rows h = All-take _ n _ (All-ended P before rows h)

has-cons :
    (b : Attempt) (rows : Attempts) (xs : List Attempt)
    → All (λ a. has a.id rows ≡ true) xs
    → All (λ a. has a.id (b ∷ rows) ≡ true) xs
has-cons b rows [] h = tt
has-cons b rows (x ∷ xs) h = (ground (arith, h.0), has-cons b rows xs h.1)

pub rows-has : (rows : Attempts) → All (λ a. has a.id rows ≡ true) rows
rows-has [] = tt
rows-has (a ∷ rows) = (ground (arith, eq_iff a.id a.id), has-cons a rows rows (rows-has rows))
