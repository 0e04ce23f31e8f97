-- ===== src/Content/Answers.antt =====
-- The search for a cycle ends: the path has no more names than there are checkpoints.
use network_skill_lab.Prelude.{
  All, Bool, Bool-cases, List, String, [], arith, eq_iff, false, inl, inr, refl, str_eq, subst, suc,
  sym, true, zero, ℕ, ◌+◌, ◌<◌, ◌||◌, ◌∷◌, ◌≡◌, ◌≢◌, ◌≤◌,
}
use network_skill_lab.Content.Requires.{
  Marks, mark, finish, unless_found, visit_all, visit_by, find_requires_cycle, Mark, Visit, unseen,
  on_path, finished, clean, cycle, out_of_fuel,
}

abbrev is_unseen : Mark → ℕ
is_unseen unseen = 1
is_unseen _ = 0

-- How many names are still to be visited.
abbrev pub unseen_in : List String → Marks → ℕ
unseen_in [] s = 0
unseen_in (id ∷ ids) s = is_unseen (s id) + unseen_in ids s

abbrev pub holds : String → List String → Bool
holds id [] = false
holds id (x ∷ xs) = str_eq x id || holds id xs

-- From `s` to `s'`, no name becomes unseen.
abbrev pub Sees : Marks → Marks → Type 0
Sees s s' = (q : String) → is_unseen (s' q) ≤ is_unseen (s q)

unseen_in-Sees : (ids : List String) (s s' : Marks) → Sees s s' → unseen_in ids s' ≤ unseen_in ids s
unseen_in-Sees [] s s' h = omega arith
unseen_in-Sees (id ∷ ids) s s' h = omega (arith, h id, unseen_in-Sees ids s s' h)

mark-Sees : (id : String) (m : Mark) (s : Marks) → is_unseen m ≡ 0 → Sees s (mark id m s)
mark-Sees id m s h q = elim (Bool-cases (str_eq id q)) [
  | inl same ↦ rw (same, h) (omega arith)
  | inr other ↦ rw other (omega arith)
]

unseen_in-mark :
    (id : String) (ids : List String) (s : Marks)
    → s id ≡ unseen
    → holds id ids ≡ true
    → unseen_in ids (mark id on_path s) < unseen_in ids s
unseen_in-mark id [] s e h = absurd cc
unseen_in-mark id (x ∷ xs) s e h =
    let less = unseen_in-Sees xs s (mark id on_path s) (mark-Sees id on_path s refl) in
    elim (Bool-cases (str_eq x id)) [
      | inl same ↦
          let eq : x ≡ id = (eq_iff x id).0 same in
          let back : str_eq id x ≡ true = (eq_iff id x).1 (sym eq) in
          let e' : s x ≡ unseen = subst (λ k. s k ≡ unseen) (sym eq) e in
          rw (back, e') (omega (arith, less))
      | inr other ↦
          let h' : holds id xs ≡ true = rw other at h in
          let rest = unseen_in-mark id xs s e h' in
          let head = mark-Sees id on_path s refl x in omega (arith, rest, head)
    ]

module _ (requires : String → List String) where
  abbrev AllSee : (String → Marks → Visit × Marks) → Type 0
  AllSee visit = (id : String) (s : Marks) → Sees s (visit id s).1

  visit_all-Sees :
      (visit : String → Marks → Visit × Marks) (ids : List String) (s : Marks)
      → AllSee visit
      → Sees s (visit_all visit ids s).1
  visit_all-Sees visit [] s see = λ q. omega arith
  visit_all-Sees visit (id ∷ ids) s see =
      then-Sees (visit id s) (visit_all visit ids) (see id s) (λ t. visit_all-Sees visit ids t see)
    where
      then-Sees :
          (R : Visit × Marks) (f : Marks → Visit × Marks)
          → Sees s R.1
          → ((t : Marks) → Sees t (f t).1)
          → Sees s (unless_found R f).1
      then-Sees (clean, t) f h g q = omega (arith, h q, g t q)
      then-Sees (cycle names, t) f h g q = h q
      then-Sees (out_of_fuel, t) f h g q = h q

  visit_by-Sees :
      (visit : String → Marks → Visit × Marks) (m : Mark) (id : String) (s : Marks)
      → AllSee visit
      → Sees s (visit_by requires visit m id s).1
  visit_by-Sees visit on_path id s see q = omega arith
  visit_by-Sees visit finished id s see q = omega arith
  visit_by-Sees visit unseen id s see q =
      let inside = visit_all-Sees visit (requires id) (mark id on_path s) see in
      left (visit_all visit (requires id) (mark id on_path s)) inside
    where
      left :
          (R : Visit × Marks)
          → Sees (mark id on_path s) R.1
          → is_unseen ((finish id R).1 q) ≤ is_unseen (s q)
      left (clean, t) h =
          omega (arith, h q, mark-Sees id finished t refl q, mark-Sees id on_path s refl q)
      left (cycle names, t) h = omega (arith, h q, mark-Sees id on_path s refl q)
      left (out_of_fuel, t) h = omega (arith, h q, mark-Sees id on_path s refl q)

  pub find-Sees : (fuel : ℕ) → AllSee (find_requires_cycle requires fuel)
  unfolding find_requires_cycle
  find-Sees zero id s = λ q. omega arith
  find-Sees (suc fuel) id s =
      visit_by-Sees (find_requires_cycle requires fuel) (s id) id s (find-Sees fuel)

  abbrev IsIn : List String → String → Type 0
  IsIn ids q = holds q ids ≡ true

  -- A visit answers where fewer than `k` names are unseen.
  abbrev IsTotal : List String → ℕ → (String → Marks → Visit × Marks) → Type 0
  IsTotal ids k visit =
      (id : String) (s : Marks) → IsIn ids id → unseen_in ids s < k → (visit id s).0 ≢ out_of_fuel

  pub visit_all-IsTotal :
      (ids : List String) (k : ℕ) (visit : String → Marks → Visit × Marks) (xs : List String)
      (s : Marks)
      → AllSee visit
      → IsTotal ids k visit
      → All (IsIn ids) xs
      → unseen_in ids s < k
      → (visit_all visit xs s).0 ≢ out_of_fuel
  visit_all-IsTotal ids k visit [] s see total h l = λ e. cc
  visit_all-IsTotal ids k visit (x ∷ xs) s see total h l =
      then-IsTotal (visit x s) (visit_all visit xs) (see x s) (total x s h.0 l)
        (λ t l'. visit_all-IsTotal ids k visit xs t see total h.1 l')
    where
      then-IsTotal :
          (R : Visit × Marks) (f : Marks → Visit × Marks)
          → Sees s R.1
          → R.0 ≢ out_of_fuel
          → ((t : Marks) → unseen_in ids t < k → (f t).0 ≢ out_of_fuel)
          → (unless_found R f).0 ≢ out_of_fuel
      then-IsTotal (clean, t) f h n g = g t (omega (arith, l, unseen_in-Sees ids s t h))
      then-IsTotal (cycle names, t) f h n g = n
      then-IsTotal (out_of_fuel, t) f h n g = n

  visit_by-IsTotal :
      (ids : List String) (k : ℕ) (visit : String → Marks → Visit × Marks) (m : Mark) (id : String)
      (s : Marks)
      → AllSee visit
      → IsTotal ids k visit
      → All (IsIn ids) (requires id)
      → s id ≡ m
      → IsIn ids id
      → unseen_in ids s < suc k
      → (visit_by requires visit m id s).0 ≢ out_of_fuel
  visit_by-IsTotal ids k visit finished id s see total closed e h l = λ e. cc
  visit_by-IsTotal ids k visit on_path id s see total closed e h l = λ e'. ground (arith, e')
  visit_by-IsTotal ids k visit unseen id s see total closed e h l =
      left (visit_all visit (requires id) (mark id on_path s)) (
        visit_all-IsTotal ids k visit (requires id) (mark id on_path s) see total closed
          (omega (arith, l, unseen_in-mark id ids s e h)))
    where
      left : (R : Visit × Marks) → R.0 ≢ out_of_fuel → (finish id R).0 ≢ out_of_fuel
      left (clean, t) n = λ e. cc
      left (cycle names, t) n = λ e. cc
      left (out_of_fuel, t) n = n

  pub find-IsTotal :
      (ids : List String) (fuel : ℕ)
      → ((q : String) → All (IsIn ids) (requires q))
      → IsTotal ids fuel (find_requires_cycle requires fuel)
  unfolding find_requires_cycle
  find-IsTotal ids zero closed id s h l = absurd (omega (arith, l))
  find-IsTotal ids (suc fuel) closed id s h l =
      visit_by-IsTotal ids fuel (find_requires_cycle requires fuel) (s id) id s (find-Sees fuel)
        (find-IsTotal ids fuel closed) (closed id) refl h l
