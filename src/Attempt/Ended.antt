-- ===== src/Attempt/Ended.antt =====
-- What `end` leaves behind: the row, the tracker, the event and the sandbox.
use network_skill_lab.Prelude.{
  Bool-cases, List, String, Time, eq_iff, if◌then◌else◌, inl, inr, milliseconds, ok, refl, some,
  str_eq, true, ℕ, ◌∷◌, ◌≡◌,
}
use network_skill_lab.Store.Attempts
use network_skill_lab.Store.Attempts.{Attempts}
use network_skill_lab.Store.Lookup.{amend, get-amend, update-amend}
use network_skill_lab.Store.Progress.{upsert}
use network_skill_lab.Store.Model.{
  stored, Status, Attempt, ProgressEntry, passed, progress_lab, is_active,
}
use network_skill_lab.Attempt.Tracker
use network_skill_lab.Attempt.View.{View, elapsed_of}
use network_skill_lab.Attempt.World.{World, row_missing}
use network_skill_lab.Attempt.Service.{event_of, runner_of, is_connected, without, Site, destroy}
use network_skill_lab.Attempt.Ending.{
  ended, not_ticking, release, record_progress, end_write, end, one_of,
}
use network_skill_lab.Attempt.Calm.{calm, hooks-calm, write-calm, end_read-calm}

abbrev pub with_elapsed : ℕ → Attempt → Attempt
with_elapsed d a = record a { elapsed_ms = milliseconds d }

abbrev pub with_status : Status → Time → String → Attempt → Attempt
with_status status now message a = record a {
  status = status;
  ended_at = some (stored now);
  error_message = message;
}

-- The table after the two updates of `end`.
abbrev pub end_rows : Attempt → Status → String → World → Attempts
end_rows a status message w =
    amend a.id (with_status status w.now message)
      (amend a.id (with_elapsed (elapsed_of a w.now)) w.attempts)

abbrev pub progress_after : Attempt → Status → Time → List ProgressEntry → List ProgressEntry
progress_after a passed now rows =
    upsert
      (record {
        user_id = a.user_id;
        kind = progress_lab;
        ref = a.lab_id;
        completed_at = stored now;
      })
      rows
progress_after a _ now rows = rows

abbrev pub sandbox_of : Attempt → String
sandbox_of a = if str_eq a.sandbox_id "" then a.id else a.sandbox_id

abbrev pub destroyed_after : Attempt → World → List (String × String)
destroyed_after a w =
    if is_connected (runner_of a) w.runners
    then (runner_of a, sandbox_of a) ∷ w.destroyed
    else w.destroyed

-- The world after `end`.
abbrev pub after_end : List View → Attempt → Status → String → World → World
after_end calls a status message w = record w {
  attempts = end_rows a status message w;
  progress = progress_after a status w.now w.progress;
  trackers = Tracker.untrack a.id w.trackers;
  ticking = not_ticking a.id w.ticking;
  hooked = calls;
  events = event_of (ended a status message w.now) w.now ∷ w.events;
  sandboxes = without (sandbox_of a) w.sandboxes;
  destroyed = destroyed_after a w;
}

pub get-elapsed :
    (a : Attempt) (d : ℕ) (rows : Attempts)
    → Attempts.get a.id rows ≡ some a
    → Attempts.get a.id (amend a.id (with_elapsed d) rows) ≡ some (with_elapsed d a)
get-elapsed a d rows h =
    rw (get-amend a.id (with_elapsed d) (λ _. refl) a.id rows, (eq_iff a.id a.id).1 refl, h)

progress-calm :
    (a : Attempt) (status : Status) (w : World)
    → record_progress a status w.now (calm w)
      ≡ (ok tt, calm (record w { progress = progress_after a status w.now w.progress }))
unfolding record_progress
progress-calm a passed w = refl
progress-calm a _ w = refl

destroy-calm :
    (a : Attempt) (w : World)
    → destroy (runner_of a) a.id a.sandbox_id (calm w) ≡ (
      ok tt,
      calm (record w {
        sandboxes = without (sandbox_of a) w.sandboxes;
        destroyed = destroyed_after a w;
      }),
    )
unfolding destroy
destroy-calm a w = elim (Bool-cases (is_connected (runner_of a) w.runners)) [
  | inl e ↦ rw e
  | inr e ↦ rw e
]

release-calm :
    (site : Site) (att : Attempt) (w : World)
    → (calls : List View) × (release site att w.now (calm w) ≡ (
      ok tt,
      calm (record w {
        trackers = Tracker.untrack att.id w.trackers;
        ticking = not_ticking att.id w.ticking;
        hooked = calls;
        events = event_of att w.now ∷ w.events;
        sandboxes = without (sandbox_of att) w.sandboxes;
        destroyed = destroyed_after att w;
      }),
    ))
unfolding release
release-calm site att w =
    let w' = record w {
      trackers = Tracker.untrack att.id w.trackers;
      ticking = not_ticking att.id w.ticking;
    } in
    let (calls, e) = hooks-calm site att w' in
    (
      calls,
      rw e
          (destroy-calm att (record w' { hooked = calls; events = event_of att w.now ∷ w.events })),
    )

end_write-calm :
    (site : Site) (a : Attempt) (status : Status) (message : String) (w : World)
    → Attempts.get a.id w.attempts ≡ some a
    → (calls : List View) × (end_write site a status message (calm w)
        ≡ (ok (ended a status message w.now), calm (after_end calls a status message w)))
unfolding end_write Attempts.set_elapsed Attempts.set_status
end_write-calm site a status message w h =
    let d = elapsed_of a w.now in
    let mid = amend a.id (with_elapsed d) w.attempts in
    let w₁ = record w { attempts = end_rows a status message w } in
    let w₂ = record w₁ { progress = progress_after a status w.now w.progress } in
    let (calls, e) = release-calm site (ended a status message w.now) w₂ in
    (
      calls,
      rw (
        write-calm (Attempts.set_elapsed a.id d) row_missing w mid
            (unfold Attempts.set_elapsed in update-amend a.id (with_elapsed d) w.attempts a h),
        write-calm (Attempts.set_status a.id status (some w.now) message) row_missing
            (record w { attempts = mid }) (end_rows a status message w)
            (unfold Attempts.set_status in
              update-amend a.id (with_status status w.now message) mid (with_elapsed d a)
                (get-elapsed a d w.attempts h)),
        progress-calm a status w₁,
        e,
      ),
    )

-- `end` on a running or provisioning attempt that it may end, where no statement fails.
pub end-calm :
    (site : Site) (a : Attempt) (status : Status) (message : String) (from : List Status)
    (w : World)
    → Attempts.get a.id w.attempts ≡ some a
    → is_active a.status ≡ true
    → one_of a.status from ≡ true
    → (calls : List View) × (end site a.id status message from (calm w)
        ≡ (ok (ended a status message w.now), calm (after_end calls a status message w)))
unfolding end
end-calm site a status message from w h active allowed =
    let (calls, e) = end_write-calm site a status message w h in
    (calls, rw (end_read-calm a.id from w a h active allowed) e)
