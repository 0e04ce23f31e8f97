-- ===== src/Attempt/Tests.antt =====
-- A server with one runner, on which one attempt is running.
use network_skill_lab.Prelude.{
  All, List, String, [], arith, err, false, if◌then◌else◌, inr, none, ok, refl, second, some,
  str_eq, true, ◌*◌, ◌++◌, ◌+◌, ◌<◌, ◌^◌, ◌↔◌, ◌∷◌, ◌≡◌, ◌≤◌,
}
use mathlib.Core.List.{Memᴰ}
use network_skill_lab.Runner.Schedule.{schedule, insert_by_name, improve}
use network_skill_lab.Store.Model.{CheckStatus}
use network_skill_lab.Checker.Sweep.{is_pass}
use network_skill_lab.Attempt.View.{CheckpointView}
use network_skill_lab.Attempt.World.{statement, write, World, terminal, store_failed}
use network_skill_lab.Attempt.Service.{Site, event_of}
use network_skill_lab.Attempt.Ending.{end, ended, finish, active_statuses}
use network_skill_lab.Attempt.Starting.{
  placed, reserve, environment_of, promote_read, promote_write,
}
use network_skill_lab.Attempt.Submit.{tally, status_of, SubmitCheckpoint}
use network_skill_lab.Attempt.Calm.{calm}
use network_skill_lab.Attempt.Ended.{destroyed_after}
use network_skill_lab.Attempt.Outcome.{end_outcome, finish_keeps_sandbox, ended_row, fails_after}
use network_skill_lab.Attempt.Promotion.{promote_race, promoted_row}
use network_skill_lab.Attempt.Reserve.{
  reserve-OnePerUser, reserve_takes_slot, OnePerUser, active_of,
}
use network_skill_lab.Attempt.Verdict.{verdict_exact}
use network_skill_lab.Runner.Member.{Member}
use network_skill_lab.Content.Lab.{Lab}
use network_skill_lab.Store.Attempts
use network_skill_lab.Store.Model.{Attempt, Status, running, provisioning, abandoned, passed}
use network_skill_lab.Attempt.Tracker
use network_skill_lab.Attempt.Tracker.{Tracker, armed, connected}
use network_skill_lab.Attempt.Idle.{run, initial, tracks, connects, disconnects, Call}
use network_skill_lab.Attempt.Stale.{connected_stops_timer}

abbrev calls : List Call
calls = tracks "x" ∷ connects "x" ∷ disconnects "x" ∷ []

-- The second timer runs behind the calls.
abbrev left : Tracker
left = record { conns = 0; idle = some 1 }

tracked_is_armed : armed "x" 0 (run (tracks "x" ∷ []) initial) ≡ true
unfolding armed run Tracker.find Tracker.arm Tracker.put
tracked_is_armed = refl

connected_stops_timer_example :
    armed "x" 0 (run (disconnects "x" ∷ []) (connected "x" (run (tracks "x" ∷ []) initial))) ≡ false
connected_stops_timer_example =
    connected_stops_timer (tracks "x" ∷ []) (disconnects "x" ∷ []) "x" 0 tracked_is_armed

abbrev pub row : Status → Attempt
row status = record {
  id = "x";
  user_id = "user";
  lab_id = "lab";
  lab_version = 1;
  case_id = "";
  mode = "practice";
  params_json = "{}";
  seed = none;
  submit_count = 0;
  status = status;
  error_message = "";
  started_at = some (100 * second);
  ended_at = none;
  elapsed_ms = 0;
  runner_id = "local";
  sandbox_id = "box";
  created_at = 90 * second;
}

abbrev pub world : List Attempt → World
world rows = record {
  attempts = rows;
  runs = [];
  progress = [];
  trackers = run (tracks "x" ∷ []) initial;
  ticking = [];
  events = [];
  hooks = 0;
  hooked = [];
  runners =
      record { name = "local"; capabilities = "container" ∷ []; capacity = 2; connected = true }
      ∷ [];
  sandboxes = ("box", "local") ∷ [];
  destroyed = [];
  now = 130 * second;
  recordings = [];
  faults = [];
}

abbrev pub site : Site
site = record { labs = λ id. none; decode_params = λ json. none; has_dir = true }

abbrev lab : Lab
lab = record {
  id = "lab";
  version = 1;
  modes = "practice" ∷ [];
  environment = "";
  ticket = record { zh = []; en = [] };
  cases = [];
  precheck = none;
  setup = "";
  checkpoints = [];
  params = [];
  tutorial = [];
  nodes = [];
}

row_found :
    (status : Status) → Attempts.get "x" (world (row status ∷ [])).attempts ≡ some (row status)
unfolding Attempts.get
row_found status = refl

end_outcome_example :
    let a = row running in
    let w = world (a ∷ []) in
    let (r, w') = end site a.id abandoned "" active_statuses (calm w) in
    (r ≡ ok (ended a abandoned "" w.now))
    × ((j : String)
        → Attempts.get j w'.attempts ≡ (
            if str_eq a.id j then some (ended_row a abandoned "" w) else Attempts.get j w.attempts))
    × (Tracker.find a.id w'.trackers.table ≡ none)
    × (w'.events ≡ event_of (ended a abandoned "" w.now) w.now ∷ w.events)
    × (w'.destroyed ≡ destroyed_after a w)
end_outcome_example =
    end_outcome site (row running) abandoned "" active_statuses (world (row running ∷ []))
      (row_found running) refl refl

finish_keeps_sandbox_example :
    let a = row running in
    let w = world (a ∷ []) in
    let (r, w') = finish site a.id passed (fails_after 3 w) in
    (r ≡ err store_failed)
    × (Attempts.get a.id w'.attempts ≡ some (ended_row a passed "" w))
    × (w'.trackers ≡ w.trackers)
    × (w'.destroyed ≡ w.destroyed)
    × ((status : Status) (message : String) (from : List Status)
        → end site a.id status message from (calm w') ≡ (err terminal, calm w'))
finish_keeps_sandbox_example =
    finish_keeps_sandbox site (row running) (world (row running ∷ [])) (row_found running) refl

promote_race_example :
    let a = row provisioning in
    let w = world (a ∷ []) in
    let v = (end site a.id abandoned "" active_statuses (calm w)).1 in
    let (r, v') = promote_write a "local" "box" v in
    (promote_read a.id "local" "box" (calm w) ≡ (ok (some a), calm w))
    × (Attempts.get a.id v.attempts ≡ some (ended_row a abandoned "" w))
    × (r ≡ ok tt)
    × (Attempts.get a.id v'.attempts
        ≡ some (promoted_row "local" "box" w.now (ended_row a abandoned "" w)))
    × (Tracker.find a.id v'.trackers.table ≡ none)
promote_race_example =
    promote_race site (row provisioning) "local" "box" (world (row provisioning ∷ []))
      (row_found provisioning) refl

nothing-OnePerUser : OnePerUser (world []).attempts
nothing-OnePerUser user = omega arith

reserve-OnePerUser_example : OnePerUser (reserve (row provisioning) lab (world [])).1.attempts
reserve-OnePerUser_example = reserve-OnePerUser (row provisioning) lab (world []) nothing-OnePerUser

no_counts : (name : String) → Attempts.count_active_by_runner (world []).attempts name < 2 ^ 63
unfolding Attempts.count_active_by_runner
no_counts name = omega arith

abbrev world_after : World
world_after = (reserve (row provisioning) lab (world [])).1

reserves : reserve (row provisioning) lab (world []) ≡ (ok (row provisioning), world_after)
unfolding reserve statement Attempts.active_for_user placed schedule environment_of insert_by_name
    improve Attempts.count_active_by_runner write Attempts.create
reserves = refl

reserve_takes_slot_example :
    (world_after.attempts ≡ (world []).attempts ++ Attempts.as_stored (row provisioning) ∷ [])
    × (active_of "user" world_after.attempts ≡ 1)
    × ((m : Member) × Memᴰ m (world []).runners
        × (row provisioning ≡ record (row provisioning) { runner_id = m.name })
        × (Attempts.count_active_by_runner world_after.attempts m.name
            ≡ Attempts.count_active_by_runner (world []).attempts m.name + 1)
        × (m.connected ≡ true)
        × Memᴰ (environment_of lab) m.capabilities
        × (Attempts.count_active_by_runner world_after.attempts m.name ≤ m.capacity))
reserve_takes_slot_example =
    reserve_takes_slot (row provisioning) lab (world []) (row provisioning) world_after
      (inr (omega arith), tt) no_counts refl reserves

abbrev hidden : CheckpointView
hidden = record {
  id = "dns";
  title = record { zh = []; en = [] };
  status = CheckStatus.fail;
  visible = false;
  first_passed_at = none;
}

verdict_exact_example :
    let t = tally (λ id. none) (hidden ∷ []) in
    ((t.passed ≡ true) ↔ All (λ cp. is_pass (status_of (λ id. none) cp) ≡ true) (hidden ∷ []))
    × ((t.passed ≡ true) ↔ (
        (t.hidden_failed ≡ 0)
        × All (λ (c : SubmitCheckpoint). is_pass c.status ≡ true) t.checkpoints))
verdict_exact_example = verdict_exact (λ id. none) (hidden ∷ [])
