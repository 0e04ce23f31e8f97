-- ===== src/Attempt/Starting.antt =====
-- service.go: how an attempt gets its place on a runner, and how it starts to run once its sandbox
-- is there. `promote` is in two parts, the read with its check and the writes, since no lock holds
-- the two together.
use network_skill_lab.Prelude.{
  List, Option, Result, String, Time, [], err, if◌then◌else◌, int_add, none, ok, some, str_eq, ℕ,
  ◌∷◌,
}
use network_skill_lab.Store.Attempts
use network_skill_lab.Store.Model.{Status, Attempt, running, provisioning}
use network_skill_lab.Content.Lab.{Lab}
use network_skill_lab.Runner.Member.{Load}
use network_skill_lab.Runner.Schedule.{ScheduleError, no_runner, busy, schedule}
use network_skill_lab.Attempt.View.{View}
use network_skill_lab.Attempt.World.{
  Error, Action, ◌>>=◌, pure, raise, gets, lift, ◌>>◌, statement, write, publish, World,
  runner_busy, active_attempt, modify, row_missing, duplicate_id,
}
use network_skill_lab.Attempt.Service.{event_of, view, destroy, Site, get}
use network_skill_lab.Attempt.Tracker

-- The sums of `busyOf`.
unfoldable pub busy_of : List Load → ℕ → ℕ → List Load → Error
busy_of all active most [] = runner_busy active most all
busy_of all active most (l ∷ ls) = busy_of all (int_add active l.active) (int_add most l.max) ls

-- `environmentOf`
unfoldable pub environment_of : Lab → String
environment_of lab = if str_eq lab.environment "" then "container" else lab.environment

unfoldable pub placed : Result ScheduleError String → Result Error String
placed (ok name) = ok name
placed (err (no_runner env)) = err (Error.no_runner env)
placed (err (busy loads)) = err (busy_of loads 0 0 loads)

-- `reserve`, all of it under `startMu`. The answer is the row with its runner.
unfoldable pub reserve : Attempt → Lab → Action Attempt
reserve att lab = do
  statement
  mine ← gets (λ w. Attempts.active_for_user att.user_id w.attempts)
  (elim mine [ none ↦ pure tt | some other ↦ raise active_attempt ])
  statement
  w ← gets (λ w. w)
  name ← lift (
      placed (schedule (Attempts.count_active_by_runner w.attempts) w.runners (environment_of lab)))
  write (Attempts.create (record att { runner_id = name })) duplicate_id
  pure (record att { runner_id = name })

abbrev track : String → Action (Unit {0})
track id = modify λ w. record w { trackers = Tracker.track id w.trackers }

-- The part of `Start` behind the draw of the parameters: the place, the tracker and the event. The
-- goroutine that provisions is started after it.
unfoldable pub begin : Site → Attempt → Lab → Action View
begin site att lab = do
  now ← gets (λ w. w.now)
  row ← reserve att lab
  track row.id
  publish (event_of row now)
  view site row

-- `startTicks`: only an attempt that is tracked gets a ticker.
abbrev pub start_ticks : String → Time → World → World
start_ticks id started w = elim (Tracker.find id w.trackers.table) [
  | none ↦ w
  | some t ↦ record w { ticking = (id, started) ∷ w.ticking }
]

-- The read and the check of `promote`: an attempt that no longer waits loses the sandbox.
unfoldable pub keep_if_waiting : Status → Attempt → String → String → Action (Option Attempt)
keep_if_waiting provisioning att name sandbox = pure (some att)
keep_if_waiting _ att name sandbox = do destroy name att.id sandbox; pure none

unfoldable pub promote_read : String → String → String → Action (Option Attempt)
promote_read id name sandbox = do att ← get id; keep_if_waiting att.status att name sandbox

-- The row as `promote` announces it.
abbrev pub promoted : Attempt → String → Time → Attempt
promoted att sandbox now = record att {
  status = running;
  started_at = some now;
  sandbox_id = sandbox;
}

-- The writes of `promote`.
unfoldable pub promote_write : Attempt → String → String → Action (Unit {0})
promote_write att name sandbox = do
  now ← gets (λ w. w.now)
  write (Attempts.set_sandbox att.id name sandbox) row_missing
  write (Attempts.set_started_at att.id now) row_missing
  write (Attempts.set_status att.id running none "") row_missing
  publish (event_of (promoted att sandbox now) now)
  modify (start_ticks att.id now)

unfoldable pub promote : String → String → String → Action (Unit {0})
promote id name sandbox = do
  kept ← promote_read id name sandbox
  elim kept [ none ↦ pure tt | some att ↦ promote_write att name sandbox ]
