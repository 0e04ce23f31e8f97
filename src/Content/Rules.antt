-- ===== src/Content/Rules.antt =====
-- What `checkRequires` tells of the checkpoints of a lab.
use network_skill_lab.Prelude.{
  All, All-map, Bool-cases, List, Option, Option-cases, String, [], ap, arith, eq_iff, inl, inr,
  length, none, refl, some, str_eq, subst, suc, true, ℕ, ◌++◌, ◌+◌, ◌<◌, ◌↔◌, ◌∷◌, ◌≡◌, ◌≢◌,
}
use network_skill_lab.Content.Lab.{Checkpoint}
use network_skill_lab.Content.Requires.{
  out_of_fuel, known, required, requires_of, missing_of, missing, ids_of, RequiresError, find_cycle,
  unseen, is_known, clean, check_requires, Marks, Visit, finished, cycle, errors_of, unless_missing,
}
use network_skill_lab.Content.Acyclic.{IsRanking, IsNamed, visit_all_sound, find-IsSound, Ranked}
use network_skill_lab.Content.Declared.{
  AllDeclared, Rises, there-AllDeclared, AllDeclared-missing, IsRanking-Rises, Rises-IsRanking,
}
use network_skill_lab.Content.Cycles.{IsBelow, visit_all-IsQuiet, find-IsHonest}
use network_skill_lab.Content.Answers.{holds, unseen_in, visit_all-IsTotal, find-Sees, find-IsTotal}

known-holds :
    (cps : List Checkpoint) (id : String)
    → is_known (known cps id) ≡ true
    → holds id (ids_of cps) ≡ true
unfolding known
known-holds [] id h = cc
known-holds (cp ∷ cps) id h = elim (Option-cases (known cps id)) [
  | inr (later, e) ↦ let rest = known-holds cps id (ap is_known e) in ground (arith, rest)
  | inl e ↦ elim (Bool-cases (str_eq cp.id id)) [
    | inl same ↦ rw same refl
    | inr other ↦ absurd (let h' = rw (e, other) at h in cc)
  ]
]

known-All {ℓ} :
    (P : Checkpoint → Type ℓ) (cps : List Checkpoint) (id : String) (cp : Checkpoint)
    → All P cps
    → known cps id ≡ some cp
    → P cp
unfolding known
known-All P [] id cp h e = absurd cc
known-All P (c ∷ cps) id cp h e = elim (Option-cases (known cps id)) [
  | inr (later, f) ↦
      let same : later ≡ cp = ground (arith, e, f) in subst P same (known-All P cps id later h.1 f)
  | inl f ↦ let same : c ≡ cp = ground (arith, e, f) in subst P same h.0
]

holds-All :
    (P : String → Type 0) (q : String) (xs : List String) → holds q xs ≡ true → All P xs → P q
holds-All P q [] h all = absurd cc
holds-All P q (x ∷ xs) h all = elim (Bool-cases (str_eq x q)) [
  | inl same ↦ subst P ((eq_iff x q).0 same) all.0
  | inr other ↦ holds-All P q xs (rw other at h) all.1
]

module _ (cps : List Checkpoint) where
  abbrev IsThere : String → Type 0
  IsThere q = is_known (known cps q) ≡ true

  missing_of-none : (i : ℕ) (ids : List String) → missing_of cps i ids ≡ [] → All IsThere ids
  missing_of-none i [] h = tt
  missing_of-none i (id ∷ ids) h = elim (Bool-cases (is_known (known cps id))) [
    | inl e ↦ (e, missing_of-none i ids (rw e at h))
    | inr e ↦ absurd (let h' = rw e at h in cc)
  ]

  append-none : (xs ys : List RequiresError) → xs ++ ys ≡ [] → (xs ≡ []) × (ys ≡ [])
  append-none [] ys h = (refl, h)
  append-none (x ∷ xs) ys h = absurd cc

  missing-none :
      (i : ℕ) (rest : List Checkpoint)
      → missing cps i rest ≡ []
      → All (λ cp. All IsThere cp.requires) rest
  missing-none i [] h = tt
  missing-none i (cp ∷ rest) h =
      let (a, b) = append-none (missing_of cps i cp.requires) (missing cps (i + 1) rest) h in
      (missing_of-none i cp.requires a, missing-none (i + 1) rest b)

  closed :
      missing cps 0 cps ≡ []
      → (q : String) → All (λ p. holds p (ids_of cps) ≡ true) (requires_of cps q)
  closed h q = of_known (known cps q) refl
    where
      of_known :
          (o : Option Checkpoint)
          → known cps q ≡ o
          → All (λ p. holds p (ids_of cps) ≡ true) (required o)
      of_known none e = tt
      of_known (some cp) e =
          All-map _ _ cp.requires (λ p t. known-holds cps p t)
            (known-All (λ c. All IsThere c.requires) cps q cp (missing-none 0 cps h) e)

  named :
      missing cps 0 cps ≡ []
      → All IsNamed (ids_of cps)
      → (q : String) → All IsNamed (requires_of cps q)
  named h n q =
      All-map _ _ (requires_of cps q) (λ p t. holds-All IsNamed p (ids_of cps) t n) (closed h q)

  every-holds : (ids : List String) → All (λ p. holds p ids ≡ true) ids
  every-holds [] = tt
  every-holds (id ∷ ids) =
      let self = (eq_iff id id).1 refl in
      (rw self refl, All-map _ _ ids (λ p t. rw t (ground arith)) (every-holds ids))

  unseen_all : (ids : List String) → unseen_in ids (λ id. unseen) ≡ length ids
  unseen_all [] = refl
  unseen_all (id ∷ ids) = omega (arith, unseen_all ids)

  length-ids : (xs : List Checkpoint) → length (ids_of xs) ≡ length xs
  length-ids [] = refl
  length-ids (x ∷ xs) = omega (arith, length-ids xs)

  start-Ranked : Ranked (requires_of cps) (λ id. unseen)
  start-Ranked = record {
    rank = λ id. 0;
    top = 0;
    ranked = record { sound = λ id h. absurd cc; bound = λ id h. absurd cc };
  }

  find_cycle-answers : missing cps 0 cps ≡ [] → find_cycle cps ≢ out_of_fuel
  unfolding find_cycle
  find_cycle-answers h =
      visit_all-IsTotal (requires_of cps) (ids_of cps) (suc (length cps)) _ (ids_of cps) _
        (find-Sees (requires_of cps) (suc (length cps)))
        (find-IsTotal (requires_of cps) (ids_of cps) (suc (length cps)) (closed h))
        (every-holds (ids_of cps)) (omega (arith, unseen_all (ids_of cps), length-ids cps))

  clean→ranking :
      missing cps 0 cps ≡ []
      → All IsNamed (ids_of cps)
      → find_cycle cps ≡ clean
      → (rank : String → ℕ) × IsRanking (requires_of cps) rank
  unfolding find_cycle
  clean→ranking h n e =
      let ((r, x), all) =
        visit_all_sound (requires_of cps) _ (ids_of cps) (λ id. unseen)
          (find-IsSound (requires_of cps) (suc (length cps)) (named h n)) n start-Ranked e in
      (r.rank, λ id. of_known id (known cps id) refl r all)
    where
      of_known :
          (id : String) (o : Option Checkpoint)
          → known cps id ≡ o
          → {s : Marks} (r : Ranked (requires_of cps) s) → All (λ q. s q ≡ finished) (ids_of cps)
          → All (λ q. r.rank q < r.rank id) (requires_of cps id)
      of_known id none f r all = rw f tt
      of_known id (some cp) f {s} r all =
          let there = known-holds cps id (ap is_known f) in
          let done = holds-All (λ q. s q ≡ finished) id (ids_of cps) there all in
          All-map _ _ (requires_of cps id) (λ q t. t.1) (r.ranked.sound id done)

  ranking→clean :
      missing cps 0 cps ≡ []
      → (rank : String → ℕ) → IsRanking (requires_of cps) rank
      → find_cycle cps ≡ clean
  unfolding find_cycle
  ranking→clean h rank ranking =
      left _ (find_cycle-answers h)
        (visit_all-IsQuiet (requires_of cps) rank _ (ids_of cps) (λ id. unseen)
          (find-IsHonest (requires_of cps) rank (suc (length cps)) ranking)
          (every_below (ids_of cps))).0
    where
      left : (v : Visit) → v ≢ out_of_fuel → ((names : List String) → v ≢ cycle names) → v ≡ clean
      left clean t q = refl
      left (cycle names) t q = absurd (q names refl)
      left out_of_fuel t q = absurd (t refl)

      every_below : (ids : List String) → All (IsBelow (requires_of cps) rank (λ id. unseen)) ids
      every_below [] = tt
      every_below (id ∷ ids) = (λ q h. absurd cc, every_below ids)

  -- Where every required checkpoint exists, the search for a cycle answers: its depth is never more
  -- than the number of checkpoints.
  pub find_cycle_terminates : AllDeclared cps → find_cycle cps ≢ out_of_fuel
  find_cycle_terminates h = find_cycle-answers (AllDeclared-missing cps 0 cps h)

  -- Of checkpoints with names that are not empty, `checkRequires` reports nothing if and only if each
  -- name that one of them requires is the id of a checkpoint, and the requirements have no cycle: there
  -- is a rank of the names in which each checkpoint stands above all that it requires. Of checkpoints
  -- with the same id only the last one counts for the cycles.
  pub check_requires_acyclic :
      All IsNamed (ids_of cps)
      → (check_requires cps ≡ []) ↔ (AllDeclared cps × ((rank : String → ℕ) × Rises rank cps))
  unfolding check_requires
  check_requires_acyclic n = (
    λ e.
        let (none_missing, (rank, ranking)) = forth (missing cps 0 cps) refl e in
        (
          there-AllDeclared cps cps (missing-none 0 cps none_missing),
          (rank, IsRanking-Rises rank cps ranking),
        ),
    λ h.
        let (declared, (rank, rises)) = h in
        back (AllDeclared-missing cps 0 cps declared, (rank, Rises-IsRanking rank cps rises)),
  )
    where
      no_errors : (v : Visit) → errors_of v ≡ [] → v ≡ clean
      no_errors clean e = refl
      no_errors (cycle names) e = absurd cc
      no_errors out_of_fuel e = absurd cc

      forth :
          (es : List RequiresError)
          → missing cps 0 cps ≡ es
          → unless_missing es (find_cycle cps) ≡ []
          → (missing cps 0 cps ≡ []) × ((rank : String → ℕ) × IsRanking (requires_of cps) rank)
      forth [] h e = (h, clean→ranking h n (no_errors (find_cycle cps) e))
      forth (x ∷ es) h e = absurd cc

      back :
          (missing cps 0 cps ≡ []) × ((rank : String → ℕ) × IsRanking (requires_of cps) rank)
          → unless_missing (missing cps 0 cps) (find_cycle cps) ≡ []
      back (h, (rank, ranking)) = rw (h, ranking→clean h rank ranking) refl
