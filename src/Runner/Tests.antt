-- ===== src/Runner/Tests.antt =====
-- The scheduler on two runners, of which the second is emptier.
use network_skill_lab.Prelude.{
  All, List, String, [], arith, err, false, inr, map, name_le, ok, refl, true, ℕ, ◌↔◌, ◌∷◌, ◌≡◌,
}
use mathlib.Core.List.{Memᴰ}
use network_skill_lab.Runner.Member.{Member}
use network_skill_lab.Runner.Schedule.{
  insert_by_name, improve, schedule, is_capable, is_full, capable, sort_by_name, load_of, no_runner,
  busy,
}
use network_skill_lab.Runner.Choice.{IsSmall}
use network_skill_lab.Runner.Ratio.{HasRoom, Beats}
use network_skill_lab.Runner.Placement.{schedule_least_loaded, schedule_refusals}

abbrev one_each : String → ℕ
one_each name = 1

abbrev runners : List Member
runners =
    record { name = "a"; capabilities = "container" ∷ []; capacity = 2; connected = true }
    ∷ record { name = "b"; capabilities = "container" ∷ []; capacity = 3; connected = true }
    ∷ []

runners-IsSmall : All IsSmall runners
runners-IsSmall = (inr (omega arith), (inr (omega arith), tt))

chooses_b : schedule one_each runners "container" ≡ ok "b"
unfolding schedule insert_by_name name_le improve
chooses_b = refl

schedule_least_loaded_example :
    (m : Member) × Memᴰ m runners
    × (m.name ≡ "b")
    × (m.connected ≡ true)
    × Memᴰ "container" m.capabilities
    × HasRoom one_each m
    × All
        (λ c. is_capable "container" c ≡ true → is_full one_each c ≡ false → Beats one_each m c)
        runners
schedule_least_loaded_example =
    schedule_least_loaded one_each (λ s. omega arith) runners "container" "b" runners-IsSmall
      chooses_b

schedule_refusals_example :
    ((schedule one_each runners "vm" ≡ err (no_runner "vm"))
      ↔ All (λ m. is_capable "vm" m ≡ false) runners)
    × ((schedule one_each runners "vm"
          ≡ err (busy (map (load_of one_each) (sort_by_name (capable "vm" runners)))))
        ↔ ((¬ All (λ m. is_capable "vm" m ≡ false) runners)
            × All (λ m. is_capable "vm" m ≡ true → is_full one_each m ≡ true) runners))
schedule_refusals_example = schedule_refusals one_each runners "vm"
