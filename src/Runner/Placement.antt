-- ===== src/Runner/Placement.antt =====
-- What `Schedule` promises: the least loaded capable runner, and when it refuses.
use network_skill_lab.Prelude.{
  All, Bool-cases, List, String, [], arith, contains, eq_iff, err, false, inl, inr, map, none, ok,
  refl, some, str_eq, subst, sym, true, ℕ, ◌<◌, ◌^◌, ◌↔◌, ◌∙◌, ◌∷◌, ◌≡◌, ◌≢◌, ◌⊎◌,
}
use mathlib.Core.List.{Memᴰ}
use mathlib.Core.Option.{some-injective}
use network_skill_lab.Runner.Member.{Member}
use network_skill_lab.Runner.Schedule.{
  is_lighter, no_runner, busy, is_capable, capable, sort_by_name, is_full, improve, pick, load_of,
  outcome, choose, schedule,
}
use network_skill_lab.Runner.Order.{
  IsSorted, sort-IsSorted, All-sort, All-sort-inv, All-map, All-Memᴰ,
}
use network_skill_lab.Runner.Ratio.{Beats, HasRoom}
use network_skill_lab.Runner.Choice.{IsSmall, BeatsAll, pick-Winner, HasRoom-is_full}

module _ {ℓ} (P : Member → Type ℓ) (env : String) where
  All-capable :
      (ms : List Member) → All P ms → All (λ m. P m × (is_capable env m ≡ true)) (capable env ms)
  unfolding capable
  All-capable [] a = tt
  All-capable (m ∷ ms) a = elim (Bool-cases (is_capable env m)) [
    | inl e ↦ rw e ((a.0, e), All-capable ms a.1)
    | inr e ↦ rw e (All-capable ms a.1)
  ]

  All-capable-inv :
      (ms : List Member) → All P (capable env ms) → All (λ m. is_capable env m ≡ true → P m) ms
  unfolding capable
  All-capable-inv [] a = tt
  All-capable-inv (m ∷ ms) a = elim (Bool-cases (is_capable env m)) [
    | inl e ↦ let b = rw e at a in ((λ _. b.0), All-capable-inv ms b.1)
    | inr e ↦ let b = rw e at a in ((λ h. cc), All-capable-inv ms b)
  ]

module _ (active : String → ℕ) where
  abbrev Full : Member → Type 0
  Full m = is_full active m ≡ true

  improve-some : (best m : Member) → (b : Member) × (improve active (some best) m ≡ some b)
  unfolding improve
  improve-some best m = elim (Bool-cases (is_full active m)) [
    | inl full ↦ (best, rw (full, improve))
    | inr free ↦ elim (Bool-cases (is_lighter active m best)) [
      | inl e ↦ (m, rw (free, e, improve))
      | inr e ↦ (best, rw (free, e, improve))
    ]
  ]

  pick-some :
      (ms : List Member) (best : Member) → (m : Member) × (pick active (some best) ms ≡ some m)
  unfolding pick
  pick-some [] best = (best, refl)
  pick-some (m ∷ ms) best =
      let (b, e) = improve-some best m in let (r, h) = pick-some ms b in (r, rw e h)

  -- All runners of the list are full and nothing is picked, or something is.
  pick_cases :
      (ms : List Member)
      → (All Full ms × (pick active none ms ≡ none))
        ⊎ ((m : Member) × (pick active none ms ≡ some m))
  unfolding pick improve
  pick_cases [] = inl (tt, refl)
  pick_cases (m ∷ ms) = elim (Bool-cases (is_full active m)) [
    | inl full ↦ elim (pick_cases ms) [
      | inl (a, e) ↦ inl ((full, a), rw (full, improve) e)
      | inr (r, e) ↦ inr (r, rw (full, improve) e)
    ]
    | inr free ↦ let (r, e) = pick-some ms m in inr (r, rw (free, improve) e)
  ]

cons_of_either : {m x : Member} {ms : List Member} → (m ≡ x) ⊎ Memᴰ m ms → Memᴰ m (x ∷ ms)
cons_of_either (inl e) = Memᴰ.head e
cons_of_either (inr h) = Memᴰ.tail h

module _ (active : String → ℕ) (counts : (s : String) → active s < 2 ^ 63) where
  record Chosen (m : Member) (ms : List Member) : Type 0 where
    room : HasRoom active m
    beats : BeatsAll active counts m ms
    from : Memᴰ m ms

  pick-Chosen :
      (ms : List Member) (m : Member)
      → IsSorted ms
      → All IsSmall ms
      → pick active none ms ≡ some m
      → Chosen m ms
  unfolding pick improve
  pick-Chosen [] m sorted small e = cc
  pick-Chosen (x ∷ ms) m sorted small e = elim (Bool-cases (is_full active x)) [
    | inl full ↦
        let c = pick-Chosen ms m sorted.1 small.1 (rw (full, improve) at e) in
        record { room = c.room; beats = ((λ h. cc), c.beats); from = Memᴰ.tail c.from }
    | inr free ↦
        let w =
          pick-Winner active counts x ms (HasRoom-is_full active counts x small.0 free) sorted.0
            sorted.1 small.1 in
        subst (λ y. Chosen y (x ∷ ms))
          (some-injective _ _ (sym w.picked ∙ (rw (free, improve) at e)))
          (record {
            room = w.room;
            beats = ((λ _. w.over_best), w.over_rest);
            from = cons_of_either w.from;
          })
  ]

  pick-sorted-Chosen :
      (xs : List Member) (m : Member)
      → All IsSmall xs
      → pick active none (sort_by_name xs) ≡ some m
      → Chosen m (sort_by_name xs)
  pick-sorted-Chosen xs m small =
      pick-Chosen (sort_by_name xs) m (sort-IsSorted xs) (All-sort _ xs small)

-- The three ways in which `choose` ends.
data Ends (active : String → ℕ) (env : String) (xs : List Member) : Type 0 where
  nobody : xs ≡ [] → choose active env xs ≡ err (no_runner env) → Ends active env xs
  all_full :
      xs ≢ []
      → All (λ m. is_full active m ≡ true) xs
      → choose active env xs ≡ err (busy (map (load_of active) (sort_by_name xs)))
      → Ends active env xs
  found :
      (m : Member)
      → pick active none (sort_by_name xs) ≡ some m
      → choose active env xs ≡ ok m.name
      → Ends active env xs

choose-Ends : (active : String → ℕ) (env : String) (xs : List Member) → Ends active env xs
unfolding choose
choose-Ends active env [] = nobody refl refl
choose-Ends active env (x ∷ xs) = elim (pick_cases active (sort_by_name (x ∷ xs))) [
  | inl (a, e) ↦ all_full (λ h. cc) (All-sort-inv _ (x ∷ xs) a) (rw (e, outcome))
  | inr (m, e) ↦ found m e (rw (e, outcome))
]

All_at {ℓ} : (P : Member → Type ℓ) {m : Member} {ms : List Member} → All P ms → Memᴰ m ms → P m
All_at P a (Memᴰ.head e) = subst P (sym e) a.0
All_at P a (Memᴰ.tail h) = All_at P a.1 h

choose-nil :
    (active : String → ℕ) (env : String) {xs : List Member}
    → xs ≡ []
    → choose active env xs ≡ err (no_runner env)
unfolding choose
choose-nil active env e = rw e

pick-All_full :
    (active : String → ℕ) (ms : List Member)
    → All (λ m. is_full active m ≡ true) ms
    → pick active none ms ≡ none
unfolding pick improve
pick-All_full active [] a = refl
pick-All_full active (m ∷ ms) a = rw (a.0, improve) (pick-All_full active ms a.1)

capable-All {ℓ} :
    (P : Member → Type ℓ) (env : String) (ms : List Member)
    → All (λ m. is_capable env m ≡ true → P m) ms
    → All P (capable env ms)
capable-All P env ms a = All-map (λ m h. h.0 h.1) (capable env ms) (All-capable _ env ms a)

contains-Mem : (xs : List String) (x : String) → contains xs x ≡ true → Memᴰ x xs
contains-Mem [] x h = absurd (cc)
contains-Mem (y ∷ xs) x h = elim (Bool-cases (str_eq y x)) [
  | inl e ↦ Memᴰ.head (sym ((eq_iff y x).0 e))
  | inr e ↦ Memᴰ.tail (contains-Mem xs x (rw e at h))
]

is_capable-connected : (env : String) (m : Member) → is_capable env m ≡ true → m.connected ≡ true
is_capable-connected env m h = ground (arith, h)

is_capable-Mem : (env : String) (m : Member) → is_capable env m ≡ true → Memᴰ env m.capabilities
is_capable-Mem env m h = contains-Mem m.capabilities env (ground (arith, h))

module _ (active : String → ℕ) (counts : (s : String) → active s < 2 ^ 63) where
  -- Where `Schedule` answers with a name, it is the name of a listed, connected runner with the
  -- capability and a free slot, and that runner beats every such runner of the list. The counts are
  -- below 2 ^ 63, and a capacity that is positive is below 2 ^ 31.
  pub schedule_least_loaded :
      (members : List Member) (env name : String)
      → All IsSmall members
      → schedule active members env ≡ ok name
      → (m : Member) × Memᴰ m members
        × (m.name ≡ name)
        × (m.connected ≡ true)
        × Memᴰ env m.capabilities
        × HasRoom active m
        × All (λ c. is_capable env c ≡ true → is_full active c ≡ false → Beats active m c) members
  unfolding schedule
  schedule_least_loaded members env name small e =
      let xs = capable env members in
      elim (choose-Ends active env xs) [
        | nobody _ h ↦ absurd (cc)
        | all_full _ _ h ↦ absurd (cc)
        | found m p h ↦
            let c =
              pick-sorted-Chosen active counts xs m
                (All-map (λ x h. h.0) xs (All-capable _ env members small)) p in
            let listed =
              All_at _ (All-sort _ xs (All-capable _ env members (All-Memᴰ members))) c.from in
            (
              m,
              listed.0,
              (cc),
              is_capable-connected env m listed.1,
              is_capable-Mem env m listed.1,
              c.room,
              All-capable-inv _ env members (All-sort-inv _ xs c.beats),
            )
      ]

capable-nil :
    (env : String) (ms : List Member)
    → (capable env ms ≡ []) ↔ All (λ m. is_capable env m ≡ false) ms
unfolding capable
capable-nil env [] = ((λ _. tt), (λ _. refl))
capable-nil env (m ∷ ms) = elim (Bool-cases (is_capable env m)) [
  | inl e ↦ ((λ h. let g = rw e at h in cc), (λ a. let g = a.0 in cc))
  | inr e ↦ let ih = capable-nil env ms in ((λ h. (e, ih.0 (rw e at h))), (λ a. rw e (ih.1 a.1)))
]

-- `Schedule` reports that no runner fits exactly where no listed runner is connected and has the
-- capability. It reports them busy, with their loads by name, exactly where there is such a runner
-- and each of them is full.
pub schedule_refusals :
    (active : String → ℕ) (members : List Member) (env : String)
    → ((schedule active members env ≡ err (no_runner env))
        ↔ All (λ m. is_capable env m ≡ false) members)
      × ((schedule active members env
            ≡ err (busy (map (load_of active) (sort_by_name (capable env members)))))
          ↔ ((¬ All (λ m. is_capable env m ≡ false) members)
              × All (λ m. is_capable env m ≡ true → is_full active m ≡ true) members))
unfolding schedule
schedule_refusals active members env =
    let xs = capable env members in
    let none_capable = capable-nil env members in
    elim (choose-Ends active env xs) [
      | nobody a h ↦
          (((λ _. none_capable.0 a), (λ _. h)), ((λ e. cc), (λ b. absurd (b.0 (none_capable.0 a)))))
      | all_full a b h ↦ (
        ((λ e. cc), (λ c. absurd (a (none_capable.1 c)))),
        ((λ _. ((λ c. a (none_capable.1 c)), All-capable-inv _ env members b)), (λ _. h)),
      )
      | found m p h ↦ (
        ((λ e. cc), (λ c. cc (choose-nil active env (none_capable.1 c)))),
        (
          (λ e. cc),
          (λ c. cc (
              pick-All_full active (sort_by_name xs)
                (All-sort _ xs (capable-All _ env members c.1)))),
        ),
      )
    ]
