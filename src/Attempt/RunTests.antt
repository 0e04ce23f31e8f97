-- ===== src/Attempt/RunTests.antt =====
-- The theorems of the pruning, of the bus and of the provisioning at concrete runs.
use network_skill_lab.Prelude.{
  All, Bool-cases, List, Result, String, [], arith, false, if◌then◌else◌, inl, inr, length, none,
  ok, refl, some, str_eq, subst, true, ℕ, ◌+◌, ◌-◌, ◌==◌, ◌∷◌, ◌≡◌,
}
use network_skill_lab.Store.Attempts
use network_skill_lab.Store.Model.{provisioning, Attempt, passed, running}
use network_skill_lab.Attempt.World.{Error, World, submit_event}
use network_skill_lab.Attempt.Tests.{row, world, site}
use network_skill_lab.Attempt.Pruning.{Report, prune}
use network_skill_lab.Attempt.DryRun.{Looks, dry_run_changes_nothing}
use network_skill_lab.Attempt.Retention.{IsKept, prune_terminates, prune_keeps}
use network_skill_lab.Attempt.Provision.{Answer, provision_until, Outside}
use network_skill_lab.Attempt.Leftover.{Leaves, provision_until_leaves}
use network_skill_lab.Attempt.Bus.{new_bus}
use network_skill_lab.Attempt.Deliver
use network_skill_lab.Attempt.Deliver.{bus_in_order, IsServed}

abbrev old : Attempt
old = record (row passed) { ended_at = some 5_000_000 }

abbrev recent : Attempt
recent = record (row running) { id = "y" }

abbrev pruned_world : World
pruned_world = world (old ∷ recent ∷ [])

prune_terminates_example :
    (R : Report) × (prune site 1_000 false 3 pruned_world ≡ some R)
    × (R.0.1 ≡ none → R.0.0.attempts + length R.1.attempts ≡ 2)
prune_terminates_example = prune_terminates site 1_000 3 pruned_world (omega arith) (omega arith)

recent-IsKept : IsKept (pruned_world.now - 1_000) "y" pruned_world.attempts
recent-IsKept = (λ same. absurd cc, (λ same. refl, tt))

prune_keeps_example :
    (R : Report) × (prune site 1_000 false 3 pruned_world ≡ some R)
    × (Attempts.get "y" R.1.attempts ≡ Attempts.get "y" pruned_world.attempts)
prune_keeps_example =
    prune_keeps site 1_000 3 pruned_world "y" (omega arith) (omega arith) recent-IsKept

abbrev bus_steps : List Deliver.Step
bus_steps =
    Deliver.subscribes "x"
    ∷ Deliver.publishes (submit_event "x" 1 0 10)
    ∷ Deliver.publishes (submit_event "y" 1 0 20)
    ∷ Deliver.receives 0
    ∷ Deliver.closes
    ∷ Deliver.publishes (submit_event "x" 2 0 30)
    ∷ Deliver.cancels 0
    ∷ []

bus_in_order_example :
    let b = Deliver.run bus_steps new_bus in
    (b.panicked ≡ false) × All (IsServed b.published) b.channels
bus_in_order_example = bus_in_order bus_steps

-- The second try passes its precheck.
abbrev box_of : ℕ → String
box_of n = if n == 1 then "first" else "second"

abbrev second_passes : Outside
second_passes = record {
  made = λ n. ok (box_of n);
  prechecked = λ n. ok (n == 2);
  drawn = λ seed. ok ("default", "{}");
}

second_passes-named :
    (n : ℕ) (sandbox : String) → second_passes.made n ≡ ok sandbox → str_eq sandbox "" ≡ false
second_passes-named n sandbox e = elim (Bool-cases (n == 1)) [
  | inl one ↦
      let e' : ◌≡◌ {A = Result Error String} (ok "first") (ok sandbox) = rw one at e in
      let same : "first" ≡ sandbox = cc in subst (λ b. str_eq b "" ≡ false) same refl
  | inr more ↦
      let e' : ◌≡◌ {A = Result Error String} (ok "second") (ok sandbox) = rw more at e in
      let same : "second" ≡ sandbox = cc in subst (λ b. str_eq b "" ≡ false) same refl
]

provision_until_leaves_example :
    (R : Answer) × (provision_until second_passes "x" "local" 3
        (some 3)
        1
        7
        (world (row provisioning ∷ []))
      ≡ some R)
    × Leaves (world (row provisioning ∷ [])) R
provision_until_leaves_example =
    provision_until_leaves second_passes "x" "local" second_passes-named 3 (some 3) 1 7
      (world (row provisioning ∷ [])) (omega arith) (omega arith)

dry_run_changes_nothing_example :
    (R : Report) × (prune site 1_000 true 0 pruned_world ≡ some R) × Looks pruned_world R.1
dry_run_changes_nothing_example = dry_run_changes_nothing site 1_000 0 pruned_world (omega arith)
