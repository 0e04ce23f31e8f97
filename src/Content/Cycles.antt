-- ===== src/Content/Cycles.antt =====
-- A cycle that is reported is one: with a ranking of the names, the search reports none.
use network_skill_lab.Prelude.{
  All, All-map, Bool-cases, List, String, [], arith, eq_iff, inl, inr, refl, str_eq, subst, suc,
  zero, ℕ, ◌<◌, ◌∷◌, ◌≡◌, ◌≢◌,
}
use network_skill_lab.Content.Requires.{
  out_of_fuel, visit_by, Marks, mark, finish, unless_found, visit_all, find_requires_cycle, Mark,
  Visit, unseen, on_path, finished, clean, cycle,
}
use network_skill_lab.Content.Acyclic.{IsRanking}

module _ (requires : String → List String) (rank : String → ℕ) where
  -- All names on the path rank above this one.
  abbrev pub IsBelow : Marks → String → Type 0
  IsBelow s id = (q : String) → s q ≡ on_path → rank id < rank q

  -- No cycle is reported, and a clean visit leaves no name on the path that was not.
  abbrev pub IsQuiet : Marks → Visit × Marks → Type 0
  IsQuiet s R =
      ((names : List String) → R.0 ≢ cycle names)
      × (R.0 ≡ clean → (q : String) → R.1 q ≡ on_path → s q ≡ on_path)

  abbrev pub IsHonest : (String → Marks → Visit × Marks) → Type 0
  IsHonest visit = (id : String) (s : Marks) → IsBelow s id → IsQuiet s (visit id s)

  then-IsQuiet :
      (ids : List String) (s : Marks) (R : Visit × Marks) (f : Marks → Visit × Marks)
      → All (IsBelow s) ids
      → IsQuiet s R
      → ((t : Marks) → All (IsBelow t) ids → IsQuiet t (f t))
      → IsQuiet s (unless_found R f)
  then-IsQuiet ids s (cycle names, t) f h r g = r
  then-IsQuiet ids s (out_of_fuel, t) f h r g = r
  then-IsQuiet ids s (clean, t) f h r g =
      let (none_after, path) = g t (All-map _ _ ids (λ x b q o. b q (r.1 refl q o)) h) in
      (none_after, λ e q o. r.1 refl q (path e q o))

  pub visit_all-IsQuiet :
      (visit : String → Marks → Visit × Marks) (ids : List String) (s : Marks)
      → IsHonest visit
      → All (IsBelow s) ids
      → IsQuiet s (visit_all visit ids s)
  visit_all-IsQuiet visit [] s honest h = (λ names e. cc, λ e q o. o)
  visit_all-IsQuiet visit (id ∷ ids) s honest h =
      then-IsQuiet ids s (visit id s) (visit_all visit ids) h.1 (honest id s h.0)
        (λ t h'. visit_all-IsQuiet visit ids t honest h')

  entered-IsBelow :
      (id : String) (s : Marks)
      → IsRanking requires rank
      → IsBelow s id
      → All (IsBelow (mark id on_path s)) (requires id)
  entered-IsBelow id s ranking b =
      All-map _ _ (requires id)
        (λ x l q o. elim (Bool-cases (str_eq id q)) [
          | inl same ↦ subst (λ k. rank x < rank k) ((eq_iff id q).0 same) l
          | inr other ↦ let u = b q (rw other at o) in omega (arith, l, u)
        ])
        (ranking id)

  finish-IsQuiet :
      (id : String) (s : Marks) (R : Visit × Marks)
      → IsQuiet (mark id on_path s) R
      → IsQuiet s (finish id R)
  finish-IsQuiet id s (cycle names, t) r = absurd (r.0 names refl)
  finish-IsQuiet id s (out_of_fuel, t) r = (λ names e. cc, λ e. absurd cc)
  finish-IsQuiet id s (clean, t) r = (
    λ names e. cc,
    λ e q o. elim (Bool-cases (str_eq id q)) [
      | inl same ↦ absurd (let o' = rw same at o in cc)
      | inr other ↦ rw other at (r.1 refl q (rw other at o))
    ],
  )

  visit_by-IsQuiet :
      (visit : String → Marks → Visit × Marks) (m : Mark) (id : String) (s : Marks)
      → IsRanking requires rank
      → IsHonest visit
      → s id ≡ m
      → IsBelow s id
      → IsQuiet s (visit_by requires visit m id s)
  visit_by-IsQuiet visit finished id s ranking honest e b = (λ names f. cc, λ f q o. o)
  visit_by-IsQuiet visit on_path id s ranking honest e b =
      absurd (let l = b id e in omega (arith, l))
  visit_by-IsQuiet visit unseen id s ranking honest e b =
      finish-IsQuiet id s (visit_all visit (requires id) (mark id on_path s)) (
        visit_all-IsQuiet visit (requires id) (mark id on_path s) honest
          (entered-IsBelow id s ranking b))

  pub find-IsHonest :
      (fuel : ℕ) → IsRanking requires rank → IsHonest (find_requires_cycle requires fuel)
  unfolding find_requires_cycle
  find-IsHonest zero ranking id s b = (λ names e. cc, λ e. absurd cc)
  find-IsHonest (suc fuel) ranking id s b =
      visit_by-IsQuiet (find_requires_cycle requires fuel) (s id) id s ranking
        (find-IsHonest fuel ranking) refl b
