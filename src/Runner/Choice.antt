-- ===== src/Runner/Choice.antt =====
-- What the loop of `Schedule` finds: the runner with room that beats every other one.
use network_skill_lab.Prelude.{
  All, Bool-cases, List, String, [], arith, false, inl, inr, int_le, int_lt_small, int_mul_lt,
  int_mul_small, ltb, ltb→lt, name_le, refl, some, sym, true, ℕ, ◌*◌, ◌<◌, ◌^◌, ◌∙◌, ◌∷◌, ◌≡◌, ◌⊎◌,
}
use mathlib.Core.List.{Memᴰ}
use network_skill_lab.Runner.Member.{Member}
use network_skill_lab.Runner.Schedule.{is_full, is_lighter, improve, pick}
use network_skill_lab.Runner.Order.{After, IsSorted, name_le_refl}
use network_skill_lab.Runner.Ratio.{Beats, Beats-trans, HasRoom}

-- A capacity that is not positive, or is below 2 ^ 31.
abbrev pub IsSmall : Member → Type 0
IsSmall m = (int_le m.capacity 0 ≡ true) ⊎ (m.capacity < 2 ^ 31)

module _ (active : String → ℕ) (counts : (s : String) → active s < 2 ^ 63) where
  pub HasRoom-is_full : (m : Member) → IsSmall m → is_full active m ≡ false → HasRoom active m
  unfolding is_full
  HasRoom-is_full m small free = ground (arith, counts m.name)

  is_lighter-ltb :
      (m best : Member)
      → HasRoom active m
      → HasRoom active best
      → is_lighter active m best
        ≡ ltb (active m.name * best.capacity) (active best.name * m.capacity)
  unfolding is_lighter
  is_lighter-ltb m best hm hb =
      rw
        (
          int_mul_small (active m.name) best.capacity (omega arith) hb.1,
          int_mul_small (active best.name) m.capacity (omega arith) hm.1,
        )
        (int_lt_small _ _ (int_mul_lt (active m.name) best.capacity (omega arith) hb.1)
          (int_mul_lt (active best.name) m.capacity (omega arith) hm.1))

  Beats-lighter :
      (m best : Member)
      → HasRoom active m
      → HasRoom active best
      → is_lighter active m best ≡ true
      → Beats active m best
  Beats-lighter m best hm hb h =
      let lt : active m.name * best.capacity < active best.name * m.capacity =
        ltb→lt _ _ (sym (is_lighter-ltb m best hm hb) ∙ h) in
      (omega arith, λ e. absurd (omega arith))

  Beats-not_lighter :
      (m best : Member)
      → HasRoom active m
      → HasRoom active best
      → name_le best.name m.name ≡ true
      → is_lighter active m best ≡ false
      → Beats active best m
  Beats-not_lighter m best hm hb n h = (ground (arith, is_lighter-ltb m best hm hb), λ _. n)

  -- `r` has room, comes from `ms`, and beats each member of `ms` that is not full.
  abbrev pub BeatsAll : Member → List Member → Type 0
  BeatsAll r = All (λ m. is_full active m ≡ false → Beats active r m)

  pub record Winner (best : Member) (ms : List Member) : Type 0 where
    pub won : Member
    pub picked : pick active (some best) ms ≡ some won
    pub room : HasRoom active won
    pub over_best : Beats active won best
    pub over_rest : BeatsAll won ms
    pub from : (won ≡ best) ⊎ Memᴰ won ms

  from_rest :
      {a best : Member} {ms : List Member} (m : Member)
      → (a ≡ best) ⊎ Memᴰ a ms
      → (a ≡ best) ⊎ Memᴰ a (m ∷ ms)
  from_rest m (inl e) = inl e
  from_rest m (inr e) = inr (Memᴰ.tail e)

  from_head :
      {a m best : Member} {ms : List Member} → (a ≡ m) ⊎ Memᴰ a ms → (a ≡ best) ⊎ Memᴰ a (m ∷ ms)
  from_head (inl e) = inr (Memᴰ.head e)
  from_head (inr e) = inr (Memᴰ.tail e)

  -- The best runner stays: the next one is full or does not beat it.
  Winner-keep :
      (best m : Member) (ms : List Member)
      → improve active (some best) m ≡ some best
      → HasRoom active best
      → (is_full active m ≡ false → HasRoom active m × Beats active best m)
      → Winner best ms
      → Winner best (m ∷ ms)
  unfolding pick
  Winner-keep best m ms e room behind w = record {
    won = w.won;
    picked = rw e w.picked;
    room = w.room;
    over_best = w.over_best;
    over_rest = (
      (λ free.
          let b = behind free in Beats-trans active w.won best m w.room room b.0 w.over_best b.1),
      w.over_rest,
    );
    from = from_rest m w.from;
  }

  -- The next runner takes over.
  Winner-take :
      (best m : Member) (ms : List Member)
      → improve active (some best) m ≡ some m
      → HasRoom active best
      → HasRoom active m
      → Beats active m best
      → Winner m ms
      → Winner best (m ∷ ms)
  unfolding pick
  Winner-take best m ms e room rm b w = record {
    won = w.won;
    picked = rw e w.picked;
    room = w.room;
    over_best = Beats-trans active w.won m best w.room rm room w.over_best b;
    over_rest = ((λ _. w.over_best), w.over_rest);
    from = from_head w.from;
  }

  Beats-refl : (m : Member) → Beats active m m
  Beats-refl m = (omega arith, λ _. name_le_refl m.name)

  pub pick-Winner :
      (best : Member) (ms : List Member)
      → HasRoom active best
      → After best.name ms
      → IsSorted ms
      → All IsSmall ms
      → Winner best ms
  unfolding pick improve
  pick-Winner best [] room after sorted small = record {
    won = best;
    picked = refl;
    room = room;
    over_best = Beats-refl best;
    over_rest = tt;
    from = inl refl;
  }
  pick-Winner best (m ∷ ms) room after sorted small =
      let stays = pick-Winner best ms room after.1 sorted.1 small.1 in
      elim (Bool-cases (is_full active m)) [
        | inl full ↦ Winner-keep best m ms (rw (full, improve)) room (λ free. cc) stays
        | inr free ↦
            let rm = HasRoom-is_full m small.0 free in
            elim (Bool-cases (is_lighter active m best)) [
              | inl lighter ↦
                  Winner-take best m ms (rw (free, lighter, improve)) room rm
                    (Beats-lighter m best rm room lighter)
                    (pick-Winner m ms rm sorted.0 sorted.1 small.1)
              | inr heavier ↦
                  Winner-keep best m ms (rw (free, heavier, improve)) room
                    (λ _. (rm, Beats-not_lighter m best rm room after.0 heavier)) stays
            ]
      ]
