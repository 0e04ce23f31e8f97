-- ===== src/Content/Started.antt =====
-- `paramSets` of internal/content/validate.go, and that what `validate` accepts resolves with any seed.
use network_skill_lab.Prelude.{
  All, Bool, List, Result, [], ap, err, false, get_elem?, if◌then◌else◌, int_lt, ltb, map, ok, refl,
  some, subst, suc, sym, true, zero, ℕ, ◌-◌, ◌∙◌, ◌∷◌, ◌≡◌,
}
use network_skill_lab.Content.Lab.{param, Case, Lab, Resolved}
use network_skill_lab.Content.Library.{Netip, Library}
use network_skill_lab.Content.Cases.{
  case_stream, default_case, total_of, pick_from, drawn_from, pick_case, merge_params, PickError,
  draw_panics,
}
use network_skill_lab.Content.Params.{Resolution, resolve, of_resolution, of_picked, resolve_for}
use network_skill_lab.Content.Topology.{resolve_topology, Topology}
use network_skill_lab.Content.Links.{is_some, check_links, ParamSet}
use network_skill_lab.Content.Resolves.{checked_resolves}
use network_skill_lab.Content.Seeds.{seeds-SameNames}

module _ (lib : Library) where
  -- `validationSeed`
  abbrev validation_seed : ℕ
  validation_seed = 1

  abbrev set_of_case : Lab → Case → ParamSet
  set_of_case lab c = record {
    case_id = c.id;
    params = (resolve lib validation_seed (merge_params lab.params c.params)).0;
  }

  abbrev sets_of_cases : Lab → List Case → List ParamSet
  sets_of_cases lab cases = map (set_of_case lab) cases

  abbrev param_sets_of : Lab → List Case → List ParamSet
  param_sets_of lab [] =
      record { case_id = ""; params = (resolve lib validation_seed lab.params).0 } ∷ []
  param_sets_of lab (c ∷ cs) = sets_of_cases lab (c ∷ cs)

  -- `paramSets`
  unfoldable pub param_sets : Lab → List ParamSet
  param_sets lab = param_sets_of lab lab.cases

  -- The cases that `PickCase` chooses from.
  abbrev candidates : List Case → List Case
  candidates [] = default_case ∷ []
  candidates (c ∷ cs) = c ∷ cs

  pick_from-at :
      (cases : List Case) (draw : ℕ) (last : Case)
      → (n : ℕ) × (get_elem? (last ∷ cases) n ≡ some (pick_from cases draw last))
  pick_from-at [] draw last = (0, refl)
  pick_from-at (c ∷ cs) draw last = at (ltb draw c.weight) (pick_from-at cs (draw - c.weight) c)
    where
      at :
          (b : Bool)
          → ((n : ℕ) × (get_elem? (c ∷ cs) n ≡ some (pick_from cs (draw - c.weight) c)))
          → (n : ℕ) × (get_elem? (last ∷ c ∷ cs) n
              ≡ some (if b then c else pick_from cs (draw - c.weight) c))
      at true later = (1, refl)
      at false later = (suc later.0, later.1)

  pick_from-in :
      (c : Case) (cs : List Case) (draw : ℕ) (last : Case)
      → (n : ℕ) × (get_elem? (c ∷ cs) n ≡ some (pick_from (c ∷ cs) draw last))
  pick_from-in c cs draw last = at (ltb draw c.weight) (pick_from-at cs (draw - c.weight) c)
    where
      at :
          (b : Bool)
          → ((n : ℕ) × (get_elem? (c ∷ cs) n ≡ some (pick_from cs (draw - c.weight) c)))
          → (n : ℕ) × (get_elem? (c ∷ cs) n
              ≡ some (if b then c else pick_from cs (draw - c.weight) c))
      at true later = (0, refl)
      at false later = later

  pick_case-in :
      (seed : ℕ) (cases : List Case) (picked : Case)
      → pick_case lib.Rng lib.new_pcg lib.draw seed cases ≡ ok picked
      → (n : ℕ) × (get_elem? (candidates cases) n ≡ some picked)
  unfolding pick_case
  pick_case-in seed [] picked h = (0, cc)
  pick_case-in seed (c ∷ cs) picked h = of_total (total_of (c ∷ cs) 0) h
    where
      drawn :
          (b : Bool) (draw : ℕ)
          → (if b then ok (pick_from (c ∷ cs) draw default_case) else err draw_panics) ≡ ok picked
          → (n : ℕ) × (get_elem? (c ∷ cs) n ≡ some picked)
      drawn true draw g =
          let same : pick_from (c ∷ cs) draw default_case ≡ picked = cc in
          let found = pick_from-in c cs draw default_case in (found.0, found.1 ∙ ap some same)
      drawn false draw g = absurd (cc)

      of_total :
          (r : Result PickError ℕ)
          → drawn_from lib.Rng lib.new_pcg lib.draw seed (c ∷ cs) r ≡ ok picked
          → (n : ℕ) × (get_elem? (c ∷ cs) n ≡ some picked)
      of_total (err e) g = absurd (cc)
      of_total (ok total) g =
          drawn (int_lt 0 total) ((lib.draw total (lib.new_pcg seed case_stream)).0) g

  -- The parameters of every candidate resolve with the seed of the validation.
  abbrev pub IsResolvable : Lab → Type 0
  IsResolvable lab =
      All (λ c. (resolve lib validation_seed (merge_params lab.params c.params)).1 ≡ [])
        (candidates lab.cases)

  -- The set of a candidate stands at its place among the sets.
  map-at :
      (lab : Lab) (cases : List Case) (n : ℕ) (c : Case)
      → get_elem? cases n ≡ some c
      → get_elem? (map (set_of_case lab) cases) n ≡ some (set_of_case lab c)
  map-at lab [] n c h = absurd (cc)
  map-at lab (x ∷ xs) zero c h = let same : x ≡ c = cc in ap (λ y. some (set_of_case lab y)) same
  map-at lab (x ∷ xs) (suc n) c h = map-at lab xs n c h

  All-at :
      (P : Case → Type 0) (cases : List Case) (n : ℕ) (c : Case)
      → All P cases
      → get_elem? cases n ≡ some c
      → P c
  All-at P [] n c all h = absurd (cc)
  All-at P (x ∷ xs) zero c all h = let same : x ≡ c = cc in subst P same all.0
  All-at P (x ∷ xs) (suc n) c all h = All-at P xs n c all.1 h

  set-at :
      (lab : Lab) (cases : List Case) (n : ℕ) (c : Case)
      → get_elem? (candidates cases) n ≡ some c
      → (set : ParamSet) × (get_elem? (param_sets_of lab cases) n ≡ some set)
        × (set.params ≡ (resolve lib validation_seed (merge_params lab.params c.params)).0)
  unfolding merge_params
  set-at lab [] zero c h =
      let same : default_case ≡ c = cc in
      (
        record { case_id = ""; params = (resolve lib validation_seed lab.params).0 },
        refl,
        ap (λ x. (resolve lib validation_seed (merge_params lab.params x.params)).0) same,
      )
  set-at lab [] (suc n) c h = absurd (cc)
  set-at lab (x ∷ xs) n c h = (set_of_case lab c, map-at lab (x ∷ xs) n c h, refl)

  of_resolution-ok :
      (c : Case) (x : Resolution lib) (r : Resolved)
      → of_resolution lib c x ≡ ok r
      → (x.1 ≡ []) × (r.params ≡ x.0)
  of_resolution-ok c (params, []) r h =
      let same : record { case_id = c.id; params = params; setup_env = c.setup_env } ≡ r = cc in
      (refl, sym (ap (λ y. y.params) same))
  of_resolution-ok c (params, e ∷ errs) r h = absurd (cc)

  -- Where the parameters of a lab and of its cases resolve with the seed of the validation and
  -- `checkLinks` finds no error, the topology resolves with whatever parameters `ResolveFor` gives, for
  -- every seed and the case that it picks.
  pub loaded_resolves :
      (holds : Netip → Netip → Bool) (t : Topology) (lab : Lab) (seed : ℕ) (r : Resolved)
      → IsResolvable lab
      → check_links lib.read_prefix holds t (param_sets lab) ≡ []
      → resolve_for lib seed lab ≡ ok r
      → (resolved : Topology) × (resolve_topology t r.params ≡ ok resolved)
        × (resolved.nodes ≡ t.nodes)
  unfolding param_sets resolve_for
  loaded_resolves holds t lab seed r good checked given =
      of_pick (pick_case lib.Rng lib.new_pcg lib.draw seed lab.cases) refl given
    where
      of_pick :
          (p : Result PickError Case)
          → pick_case lib.Rng lib.new_pcg lib.draw seed lab.cases ≡ p
          → of_picked lib seed lab p ≡ ok r
          → (resolved : Topology) × (resolve_topology t r.params ≡ ok resolved)
            × (resolved.nodes ≡ t.nodes)
      of_pick (err e) e' g = absurd (cc)
      of_pick (ok c) e g =
          let params = merge_params lab.params c.params in
          let (n, place) = pick_case-in seed lab.cases c e in
          let (set, listed, is_set) = set-at lab lab.cases n c place in
          let (no_errors, is_params) = of_resolution-ok c (resolve lib seed params) r g in
          let at_validation =
            All-at (λ x. (resolve lib validation_seed (merge_params lab.params x.params)).1 ≡ [])
              (candidates lab.cases) n c good place in
          let same = seeds-SameNames lib validation_seed seed params at_validation no_errors in
          checked_resolves lib.read_prefix holds t (param_sets_of lab lab.cases) n set r.params
            checked listed
            (λ name.
              ap (λ ps. is_some (param name ps)) is_set
              ∙ same name
              ∙ sym (ap (λ ps. is_some (param name ps)) is_params))
