-- ===== src/Attempt/DryRun.antt =====
-- A dry run of `Prune` only looks.
use network_skill_lab.Prelude.{
  Bool, List, Result, String, [], ap, arith, err, false, inl, inr, ok, refl, some, true, ℕ, ◌-◌,
  ◌<◌, ◌==◌, ◌^◌, ◌∙◌, ◌∷◌, ◌≡◌,
}
use network_skill_lab.Store.Model.{Attempt}
use network_skill_lab.Attempt.World.{World, Error}
use network_skill_lab.Attempt.Service.{Site}
use network_skill_lab.Attempt.Pruning.{
  new_report, add, sized, Report, list_batch, dry_sized, dry_run, dry_batch, prune, PruneReport,
  recordings_size,
}
use network_skill_lab.Attempt.Pruned.{file_access-cases}
use network_skill_lab.Attempt.Retention.{list_batch-cases}

-- Nothing but the faults ahead differs.
abbrev pub Looks : World → World → Type 0
Looks w v = (fs : List Bool) × (v ≡ record w { faults = fs })

Looks-trans : (u v w : World) → Looks u v → Looks v w → Looks u w
Looks-trans u v w (fs, e) (gs, f) =
    let with_faults : World → World = λ x. record x { faults = gs } in (gs, f ∙ ap with_faults e)

module _ (site : Site) where
  recordings_size-Looks : (id : String) (w : World) → Looks w (recordings_size site id w).1
  unfolding recordings_size
  recordings_size-Looks id w = by_dir site.has_dir
    where
      by_dir : (dir : Bool) → Looks w (sized dir id w).1
      by_dir false = (w.faults, refl)
      by_dir true =
          let (fs, c) = file_access-cases w in
          elim c [ inl e ↦ (fs, rw e refl) | inr e ↦ (fs, rw e refl) ]

  dry_run-Looks :
      (batch : List Attempt) (r : PruneReport) (w : World) → Looks w (dry_run site batch r w).1
  unfolding dry_run
  dry_run-Looks [] r w = (w.faults, refl)
  dry_run-Looks (a ∷ batch) r w =
      after (recordings_size site a.id w) (recordings_size-Looks a.id w) (dry_run-Looks batch)
    where
      after :
          (R : Result Error ℕ × World)
          → Looks w R.1
          → ((r' : PruneReport) (v : World) → Looks v (dry_run site batch r' v).1)
          → Looks w (dry_sized (dry_run site batch) a.id r R).1
      after (err e, v) l go = l
      after (ok size, v) l go =
          Looks-trans w v (dry_run site batch (add a.id size r) v).1 l (go (add a.id size r) v)

  -- A dry run of `Prune` with a positive retention answers, with any fuel, and changes no row and no
  -- file, nor anything else of the world.
  pub dry_run_changes_nothing :
      (older_than fuel : ℕ) (w : World)
      → 0 < older_than
      → (R : Report) × (prune site older_than true fuel w ≡ some R) × Looks w R.1
  unfolding prune
  dry_run_changes_nothing older_than fuel w positive =
      let cutoff = w.now - older_than in
      let not_zero : (older_than == 0) ≡ false = ground (arith, positive) in
      let (fs, c) = list_batch-cases cutoff (2 ^ 31 - 1) w in
      (
        dry_batch site (list_batch cutoff (2 ^ 31 - 1) w),
        rw not_zero refl,
        elim c [
          | inr e ↦ rw e (fs, refl)
          | inl e ↦
              let v : World = record w { faults = fs } in
              rw e (Looks-trans w v _ (fs, refl) (dry_run-Looks _ new_report v))
        ],
      )
