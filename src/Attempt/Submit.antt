-- ===== src/Attempt/Submit.antt =====
-- internal/attempt/submit.go: a submission in real mode, and the documents that a user has read.
use network_skill_lab.Prelude.{
  Bool, List, Option, String, [], if◌then◌else◌, none, not, some, str_eq, suc, true, ℕ, ◌&&◌, ◌∷◌,
}
use network_skill_lab.Checker.Sweep.{is_pass}
use network_skill_lab.Content.Lab.{Localized}
use network_skill_lab.Store.Attempts
use network_skill_lab.Store.Progress.{upsert}
use network_skill_lab.Store.Model.{
  Status, CheckStatus, running, provisioning, passed, progress_doc, stored,
}
use network_skill_lab.Attempt.View.{CheckpointView}
use network_skill_lab.Attempt.World.{
  Action, ◌>>=◌, ◌>>◌, pure, raise, gets, modify, statement, write, publish, submit_event,
  mode_not_real, still_provisioning, terminal, no_sweeper, row_missing, unknown_doc,
}
use network_skill_lab.Attempt.Service
use network_skill_lab.Attempt.Service.{Site, get_view}
use network_skill_lab.Attempt.Ending.{finish}

pub record SubmitCheckpoint : Type 0 where
  pub id : String
  pub title : Localized
  pub status : CheckStatus

-- The fields that the loop of `Submit` fills. `HiddenFailed` counts checkpoints of one lab.
pub record Tally : Type 0 where
  pub passed : Bool
  pub checkpoints : List SubmitCheckpoint
  pub hidden_failed : ℕ

pub record SubmitResult : Type 0 where
  pub tally : Tally
  pub submit_count : ℕ

-- The status of the sweep, or that of the view where the sweep has none.
abbrev pub status_of : (String → Option CheckStatus) → CheckpointView → CheckStatus
status_of swept cp = elim (swept cp.id) [ none ↦ cp.status | some status ↦ status ]

-- One round of the loop, in front of the later ones.
abbrev pub count_checkpoint : CheckStatus → CheckpointView → Tally → Tally
count_checkpoint status cp rest = record {
  passed = is_pass status && rest.passed;
  checkpoints =
      if cp.visible
      then record { id = cp.id; title = cp.title; status = status } ∷ rest.checkpoints
      else rest.checkpoints;
  hidden_failed =
      if not (is_pass status) && not cp.visible then suc rest.hidden_failed else rest.hidden_failed;
}

unfoldable pub tally : (String → Option CheckStatus) → List CheckpointView → Tally
tally swept [] = record { passed = true; checkpoints = []; hidden_failed = 0 }
tally swept (cp ∷ cps) = count_checkpoint (status_of swept cp) cp (tally swept cps)

-- The checks of `Submit` on the row.
abbrev may_submit : Status → Action (Unit {0})
may_submit running = pure tt
may_submit provisioning = raise still_provisioning
may_submit _ = raise terminal

-- `SweepNow` of the checker, as the service sees it.
abbrev pub Sweeper : Type 0
Sweeper = String → Action (String → Option CheckStatus)

abbrev sweeper_set : Option Sweeper → Action Sweeper
sweeper_set none = raise no_sweeper
sweeper_set (some sweeper) = pure sweeper

-- The end of `Submit`.
unfoldable pub conclude : Site → String → SubmitResult → Action SubmitResult
conclude site id result =
    if result.tally.passed then (do finish site id passed; pure result) else (do
      now ← gets (λ w. w.now)
      publish (submit_event id result.submit_count result.tally.hidden_failed now)
      pure result)

-- `Submit`
unfoldable pub submit : Site → Option Sweeper → String → Action SubmitResult
submit site registered id = do
  att ← Service.get id
  (if str_eq att.mode "real" then pure tt else raise mode_not_real)
  may_submit att.status
  sweeper ← sweeper_set registered
  write (Attempts.increment_submit_count id) row_missing
  swept ← sweeper id
  v ← get_view site id
  conclude site id (record { tally = tally swept v.checkpoints; submit_count = v.submit_count })

-- `MarkDocRead`; `known` is the map of the documents.
unfoldable pub mark_doc_read : (String → Bool) → String → String → Action (Unit {0})
mark_doc_read known user doc = do
  (if known doc then pure tt else raise unknown_doc)
  statement
  modify λ w. record w {
    progress =
        upsert
          (record { user_id = user; kind = progress_doc; ref = doc; completed_at = stored w.now })
          w.progress;
  }
