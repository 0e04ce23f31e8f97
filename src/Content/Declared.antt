-- ===== src/Content/Declared.antt =====
-- content/validate_rules.go: what `known` and the errors on missing names say of the checkpoints of a
-- lab themselves.
use mathlib.Core.List.{Memᴰ}
use mathlib.Core.List.Memᴰ.{head, tail, not-nil, cases_cons}
use network_skill_lab.Prelude.{
  All, All-map, Bool-cases, List, Option, Option-cases, String, [], ap, eq_iff, inl, inr, none,
  refl, some, str_eq, sym, true, ℕ, ◌+◌, ◌<◌, ◌∷◌, ◌≡◌, ◌⊎◌,
}
use network_skill_lab.Content.Lab.{Checkpoint}
use network_skill_lab.Content.Requires.{known, requires_of, missing_of, missing, ids_of, is_known}
use network_skill_lab.Content.Acyclic.{IsRanking}

-- Each required name is the id of a checkpoint.
abbrev pub AllDeclared : List Checkpoint → Type 0
AllDeclared cps = All (λ cp. All (λ q. Memᴰ q (ids_of cps)) cp.requires) cps

-- Each checkpoint is replaced by a later one with its id, or stands above all that it requires.
abbrev pub Rises : (String → ℕ) → List Checkpoint → Type 0
Rises rank [] = Unit
Rises rank (cp ∷ cps) =
    (Memᴰ cp.id (ids_of cps) ⊎ All (λ q. rank q < rank cp.id) cp.requires) × Rises rank cps

known-Mem :
    (cps : List Checkpoint) (id : String) → is_known (known cps id) ≡ true → Memᴰ id (ids_of cps)
unfolding known
known-Mem [] id h = absurd (cc)
known-Mem (cp ∷ cps) id h = elim (Option-cases (known cps id)) [
  | inr (later, e) ↦ tail (known-Mem cps id (ap is_known e))
  | inl e ↦ elim (Bool-cases (str_eq cp.id id)) [
    | inl same ↦ head (sym ((eq_iff cp.id id).0 same))
    | inr other ↦ absurd (let h' = rw (e, other) at h in cc)
  ]
]

Mem-known :
    (cps : List Checkpoint) (id : String) → Memᴰ id (ids_of cps) → is_known (known cps id) ≡ true
unfolding known
Mem-known [] id m = absurd (not-nil m)
Mem-known (cp ∷ cps) id m = elim (Option-cases (known cps id)) [
  | inr (later, e) ↦ rw e refl
  | inl e ↦ elim (cases_cons m) [
    | inl same ↦ rw (e, (eq_iff cp.id id).1 (sym same)) refl
    | inr later ↦ absurd (let there = rw e at (Mem-known cps id later) in cc)
  ]
]

module _ (cps : List Checkpoint) where
  missing_of-nil :
      (i : ℕ) (ids : List String) → All (λ q. Memᴰ q (ids_of cps)) ids → missing_of cps i ids ≡ []
  missing_of-nil i [] h = refl
  missing_of-nil i (id ∷ ids) h = rw (Mem-known cps id h.0) (missing_of-nil i ids h.1)

  pub AllDeclared-missing :
      (i : ℕ) (rest : List Checkpoint)
      → All (λ cp. All (λ q. Memᴰ q (ids_of cps)) cp.requires) rest
      → missing cps i rest ≡ []
  AllDeclared-missing i [] h = refl
  AllDeclared-missing i (cp ∷ rest) h =
      rw (missing_of-nil i cp.requires h.0) (AllDeclared-missing (i + 1) rest h.1)

  pub there-AllDeclared :
      (rest : List Checkpoint)
      → All (λ cp. All (λ q. is_known (known cps q) ≡ true) cp.requires) rest
      → All (λ cp. All (λ q. Memᴰ q (ids_of cps)) cp.requires) rest
  there-AllDeclared rest h =
      All-map _ _ rest (λ cp all. All-map _ _ cp.requires (λ q t. known-Mem cps q t) all) h

module _ (rank : String → ℕ) where
  pub IsRanking-Rises : (cps : List Checkpoint) → IsRanking (requires_of cps) rank → Rises rank cps
  unfolding known
  IsRanking-Rises [] h = tt
  IsRanking-Rises (cp ∷ cps) h = (first (known cps cp.id) refl, IsRanking-Rises cps later)
    where
      first :
          (o : Option Checkpoint)
          → known cps cp.id ≡ o
          → Memᴰ cp.id (ids_of cps) ⊎ All (λ q. rank q < rank cp.id) cp.requires
      first (some c) e = inl (known-Mem cps cp.id (ap is_known e))
      first none e = inr (rw (e, (eq_iff cp.id cp.id).1 refl) at (h cp.id))

      later : IsRanking (requires_of cps) rank
      later id = elim (Option-cases (known cps id)) [
        | inl e ↦ rw e tt
        | inr (c, e) ↦ let old = rw e at (h id) in rw e old
      ]

  pub Rises-IsRanking : (cps : List Checkpoint) → Rises rank cps → IsRanking (requires_of cps) rank
  unfolding known
  Rises-IsRanking [] h id = tt
  Rises-IsRanking (cp ∷ cps) h id = elim (Option-cases (known cps id)) [
    | inr (c, e) ↦ let old = rw e at (Rises-IsRanking cps h.1 id) in rw e old
    | inl e ↦ elim (Bool-cases (str_eq cp.id id)) [
      | inr other ↦ rw (e, other) tt
      | inl same ↦ rw (e, same) (mine e ((eq_iff cp.id id).0 same) h.0)
    ]
  ]
    where
      mine :
          known cps id ≡ none
          → cp.id ≡ id
          → Memᴰ cp.id (ids_of cps) ⊎ All (λ q. rank q < rank cp.id) cp.requires
          → All (λ q. rank q < rank id) cp.requires
      mine e same (inr all) = rw (sym same) all
      mine e same (inl m) = absurd (let there = Mem-known cps cp.id m in cc (there, e, same))
