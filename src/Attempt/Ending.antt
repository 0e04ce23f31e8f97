-- ===== src/Attempt/Ending.antt =====
-- service.go: the ways in which an attempt ends. `end` is in two parts, the reads with their checks
-- and the writes, since no lock holds the two together.
use network_skill_lab.Prelude.{
  Bool, List, Result, String, Time, [], err, false, if◌then◌else◌, milliseconds, ok, some, str_eq,
  true, ℕ, ◌||◌, ◌∷◌,
}
use network_skill_lab.Store.Attempts
use network_skill_lab.Store.Progress.{upsert}
use network_skill_lab.Store.Model.{
  Attempt, Status, Kind, provisioning, running, passed, abandoned, expired, stored,
}
use network_skill_lab.Attempt.Tracker
use network_skill_lab.Attempt.View.{View, elapsed_of}
use network_skill_lab.Attempt.World.{
  Error, terminal, not_terminal, wrong_status, row_missing, World, Action, pure, raise, gets,
  modify, ◌>>=◌, ◌>>◌, statement, write, publish, lift, file_access,
}
use network_skill_lab.Attempt.Service.{
  Site, is_terminal, event_of, get, view, run_before_destroy, runner_of, destroy, for_user,
}

abbrev status_eq : Status → Status → Bool
status_eq provisioning provisioning = true
status_eq running running = true
status_eq passed passed = true
status_eq abandoned abandoned = true
status_eq expired expired = true
status_eq Status.error Status.error = true
status_eq _ _ = false

-- `slices.Contains(from, status)`
abbrev pub one_of : Status → List Status → Bool
one_of s [] = false
one_of s (t ∷ ts) = status_eq s t || one_of s ts

unfoldable pub check_end : Attempt → List Status → Result Error Attempt
check_end att from =
    if is_terminal att.status
    then err terminal
    else if one_of att.status from
    then ok att
    else err wrong_status

-- The read and the checks of `end`.
unfoldable pub end_read : String → List Status → Action Attempt
end_read id from = do att ← get id; lift (check_end att from)

-- The row that `end` answers with.
abbrev pub ended : Attempt → Status → String → Time → Attempt
ended att status message now = record att {
  status = status;
  error_message = message;
  ended_at = some now;
  elapsed_ms = milliseconds (elapsed_of att now);
}

abbrev pub not_ticking : String → List (String × Time) → List (String × Time)
not_ticking id [] = []
not_ticking id ((key, t) ∷ rest) =
    let others = not_ticking id rest in if str_eq key id then others else (key, t) ∷ others

-- `untrack`; closing `stop` ends the ticker.
abbrev untrack : String → Action (Unit {0})
untrack id =
    modify
      λ w. record w { trackers = Tracker.untrack id w.trackers; ticking = not_ticking id w.ticking }

-- Passing a lab is progress of the user.
unfoldable pub record_progress : Attempt → Status → Time → Action (Unit {0})
unfolding upsert stored statement
record_progress att passed now = do
  statement
  modify λ w. record w {
    progress =
        upsert
          (record {
            user_id = att.user_id;
            kind = Kind.progress_lab;
            ref = att.lab_id;
            completed_at = stored now;
          })
          w.progress;
  }
record_progress att _ now = pure tt

-- After the rows: the tracker, the hooks, the event and the sandbox. `destroyAsync` makes its call
-- in a goroutine of its own; here it is made at once.
unfoldable pub release : Site → Attempt → Time → Action (Unit {0})
release site att now = do
  untrack att.id
  run_before_destroy site att
  publish (event_of att now)
  destroy (runner_of att) att.id att.sandbox_id

-- The writes of `end`.
unfoldable pub end_write : Site → Attempt → Status → String → Action Attempt
end_write site att status message = do
  now ← gets (λ w. w.now)
  write (Attempts.set_elapsed att.id (elapsed_of att now)) row_missing
  write (Attempts.set_status att.id status (some now) message) row_missing
  record_progress att status now
  release site (ended att status message now) now
  pure (ended att status message now)

unfoldable pub end : Site → String → Status → String → List Status → Action Attempt
end site id status message from = do att ← end_read id from; end_write site att status message

abbrev pub active_statuses : List Status
active_statuses = provisioning ∷ running ∷ []

-- `AbandonAsAdmin`
unfoldable pub abandon_as_admin : Site → String → Action View
abandon_as_admin site id = do att ← end site id abandoned "" active_statuses; view site att

-- `Abandon`
unfoldable pub abandon : Site → String → String → Action View
abandon site user id = do v ← for_user site user id; abandon_as_admin site id

-- `Finish`
unfoldable pub finish : Site → String → Status → Action (Unit {0})
finish site id status = do att ← end site id status "" (running ∷ []); pure tt

-- `expire`, which a timer calls that is still armed when it fires.
unfoldable pub expire : Site → String → Action Attempt
expire site id = end site id expired "" active_statuses

-- The goroutine of `arm`, when its timer fires.
unfoldable pub timer_fired : Site → String → ℕ → World → World
timer_fired site id timer w = if Tracker.armed id timer w.trackers then (expire site id w).1 else w

abbrev pub reason_disconnected : String
reason_disconnected = "runner disconnected"

-- `failDisconnected`
unfoldable pub fail_disconnected : Site → String → Action Attempt
fail_disconnected site id = end site id Status.error reason_disconnected active_statuses

abbrev pub unrecorded : String → List (String × ℕ) → List (String × ℕ)
unrecorded id [] = []
unrecorded id ((key, size) ∷ rest) =
    let others = unrecorded id rest in if str_eq key id then others else (key, size) ∷ others

-- `os.RemoveAll`; a removal that fails is taken to leave all files.
abbrev pub remove_files : Bool → String → Action (Unit {0})
remove_files false id = pure tt
remove_files true id = do
  file_access
  modify (λ w. record w { recordings = unrecorded id w.recordings })

-- `remove`: the row goes first.
unfoldable pub remove : Site → String → Action (Unit {0})
remove site id = do write (Attempts.delete id) row_missing; remove_files site.has_dir id

-- `Delete`
unfoldable pub delete : Site → String → Action (Unit {0})
delete site id = do
  att ← get id
  if is_terminal att.status then remove site id else raise not_terminal

-- The loop of `Recover` over the attempts that the previous run left.
unfoldable pub expire_all : List Attempt → Action (Unit {0})
expire_all [] = pure tt
expire_all (att ∷ rest) = do
  now ← gets (λ w. w.now)
  write (Attempts.set_elapsed att.id (elapsed_of att now)) row_missing
  write (Attempts.set_status att.id expired (some now) "") row_missing
  expire_all rest

-- `Recover`, less the `GC` calls to the runners.
unfoldable pub recover : Action (Unit {0})
recover = do statement; left ← gets (λ w. Attempts.list_non_terminal w.attempts); expire_all left

-- `RunnerDisconnected`: each attempt placed on the runner ends; an error is logged, not returned.
unfoldable pub end_placed : Site → String → List Attempt → World → World
end_placed site name [] w = w
end_placed site name (att ∷ rest) w =
    end_placed site name rest
      (if str_eq (runner_of att) name then (fail_disconnected site att.id w).1 else w)

unfoldable pub runner_disconnected : Site → String → Action (Unit {0})
runner_disconnected site name = do
  statement
  left ← gets (λ w. Attempts.list_non_terminal w.attempts)
  modify (end_placed site name left)
