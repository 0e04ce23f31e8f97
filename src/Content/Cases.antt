-- ===== src/Content/Cases.antt =====
-- content/params.go: the choice of a case by weight, and the parameters of the lab with its own.
use network_skill_lab.Prelude.{
  All, Bool-cases, List, Result, String, [], ap, arith, err, get_elem?, get_elem?-replicate_ge,
  get_elem?-replicate_lt, if◌then◌else◌, inl, inr, int_add, int_add_small, int_lt, int_lt_small,
  ltb, ltb→lt, lt→ltb, ok, refl, replicate, some, true, ℕ, ◌++◌, ◌+◌, ◌-◌, ◌<◌, ◌^◌, ◌∙◌, ◌∷◌, ◌≡◌,
}
use network_skill_lab.Content.Lab.{bytes_eq, Param, Case}

abbrev pub case_stream : ℕ
case_stream = 0x9e3779b97f4a7c15

pub data PickError : Type 0 where
  bad_weight : String → PickError
  draw_panics : PickError

abbrev pub default_case : Case
default_case = record { id = "default"; weight = 1; params = []; setup_env = [] }

-- The check and the sum of the weights.
abbrev pub total_of : List Case → ℕ → Result PickError ℕ
total_of [] total = ok total
total_of (c ∷ cs) total =
    let rest = total_of cs (int_add total c.weight) in
    if int_lt 0 c.weight then rest else err (bad_weight c.id)

-- The loop over the cases; `last` is the case before, which the code takes when the loop has run out.
abbrev pub pick_from : List Case → ℕ → Case → Case
pick_from [] draw last = last
pick_from (c ∷ cs) draw last =
    let rest = pick_from cs (draw - c.weight) c in if ltb draw c.weight then c else rest

-- `math/rand/v2` is a parameter: a generator from a seed and a stream, and `IntN`, which panics on a
-- number that is not positive.
module _ (Rng : Type 0) (new_pcg : ℕ → ℕ → Rng) (int_n : ℕ → Rng → ℕ × Rng) where
  abbrev pub drawn_from : ℕ → List Case → Result PickError ℕ → Result PickError Case
  drawn_from seed cases (err e) = err e
  drawn_from seed cases (ok total) =
      let draw = (int_n total (new_pcg seed case_stream)).0 in
      if int_lt 0 total then ok (pick_from cases draw default_case) else err draw_panics

  -- `PickCase`
  unfoldable pub pick_case : ℕ → List Case → Result PickError Case
  pick_case seed [] = ok default_case
  pick_case seed (c ∷ cs) = drawn_from seed (c ∷ cs) (total_of (c ∷ cs) 0)

-- The index that `slices.IndexFunc` finds is replaced; without one the override is appended.
unfoldable pub merge_one : Param → List Param → List Param
merge_one override [] = override ∷ []
merge_one override (p ∷ ps) =
    let rest = merge_one override ps in
    if bytes_eq p.name override.name then override ∷ ps else p ∷ rest

-- `mergeParams`
unfoldable pub merge_params : List Param → List Param → List Param
merge_params base [] = base
merge_params base (override ∷ overrides) = merge_params (merge_one override base) overrides

-- Each case as often as its weight says.
abbrev pub tickets : List Case → List Case
tickets [] = []
tickets (c ∷ cs) = replicate c.weight c ++ tickets cs

abbrev pub weight_sum : List Case → ℕ
weight_sum [] = 0
weight_sum (c ∷ cs) = c.weight + weight_sum cs

abbrev pub IsWeighted : Case → Type 0
IsWeighted c = 0 < c.weight

pick_from-tickets :
    (cases : List Case) (k : ℕ) (last : Case)
    → k < weight_sum cases
    → get_elem? (tickets cases) k ≡ some (pick_from cases k last)
pick_from-tickets [] k last h = absurd (omega (arith, h))
pick_from-tickets (c ∷ cs) k last h = elim (Bool-cases (ltb k c.weight)) [
  | inl e ↦ rw e (get_elem?-replicate_lt c.weight k c (tickets cs) (ltb→lt k c.weight e))
  | inr e ↦ rw e (
      get_elem?-replicate_ge c.weight k c (tickets cs) (ground (arith, e))
      ∙ pick_from-tickets cs (k - c.weight) c (ground (arith, e, h)))
]

ap_ok : {n m : ℕ} → n ≡ m → ◌≡◌ {A = Result PickError ℕ} (ok n) (ok m)
ap_ok e = rw e refl

total_of-sum :
    (cases : List Case) (total : ℕ)
    → All IsWeighted cases
    → total + weight_sum cases < 2 ^ 63
    → total_of cases total ≡ ok (total + weight_sum cases)
total_of-sum [] total w h = ap_ok (omega arith)
total_of-sum (c ∷ cs) total w h =
    let sum : int_add total c.weight ≡ total + c.weight =
      int_add_small total c.weight (omega (arith, h)) in
    let positive : int_lt 0 c.weight ≡ true =
      int_lt_small 0 c.weight (omega arith) (omega (arith, h)) ∙ lt→ltb 0 c.weight w.0 in
    rw (positive, sum)
      (total_of-sum cs (total + c.weight) w.1 (omega (arith, h)) ∙ ap_ok (omega arith))

module _ (Rng : Type 0) (new_pcg : ℕ → ℕ → Rng) (int_n : ℕ → Rng → ℕ × Rng) where
  -- Of cases with positive weights and a sum below 2 ^ 63, `PickCase` chooses the one at the drawn
  -- place of the list that has each case as often as its weight says. So each case is chosen for
  -- exactly as many values of the draw as its weight, and the `return` after the loop is not reached.
  pub pick_case_weighted :
      ((n : ℕ) (r : Rng) → 0 < n → (int_n n r).0 < n)
      → (seed : ℕ) (c : Case) (cs : List Case) → All IsWeighted (c ∷ cs)
      → weight_sum (c ∷ cs) < 2 ^ 63
      → (picked : Case) × (pick_case Rng new_pcg int_n seed (c ∷ cs) ≡ ok picked)
        × (get_elem? (tickets (c ∷ cs)) (int_n (weight_sum (c ∷ cs)) (new_pcg seed case_stream)).0
            ≡ some picked)
  unfolding pick_case
  pick_case_weighted in_range seed c cs w h =
      let cases = c ∷ cs in
      let n = weight_sum cases in
      let k = (int_n n (new_pcg seed case_stream)).0 in
      let positive : int_lt 0 n ≡ true =
        int_lt_small 0 n (omega arith) h ∙ lt→ltb 0 n (omega (arith, w.0)) in
      let total : total_of cases 0 ≡ ok n =
        total_of-sum cases 0 w (omega (arith, h)) ∙ ap_ok (omega arith) in
      (
        pick_from cases k default_case,
        ap (drawn_from Rng new_pcg int_n seed cases) total ∙ rw positive refl,
        pick_from-tickets cases k default_case (in_range n _ (omega (arith, w.0))),
      )
