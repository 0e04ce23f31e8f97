-- ===== src/Attempt/Promotion.antt =====
-- How the two halves of `promote` meet an `end` of the same attempt.
use network_skill_lab.Prelude.{String, Time, ap, eq_iff, none, ok, refl, some, true, ◌∷◌, ◌≡◌}
use network_skill_lab.Store.Attempts
use network_skill_lab.Store.Attempts.{Attempts}
use network_skill_lab.Store.Lookup.{amend, get-amend, update-amend}
use network_skill_lab.Store.Model.{
  Status, is_active, abandoned, stored, Attempt, running, provisioning,
}
use network_skill_lab.Attempt.Tracker
use network_skill_lab.Attempt.World.{World, row_missing}
use network_skill_lab.Attempt.Service.{event_of, Site}
use network_skill_lab.Attempt.Starting.{
  keep_if_waiting, promote_read, promoted, promote_write, start_ticks,
}
use network_skill_lab.Attempt.Ending.{end, one_of, active_statuses}
use network_skill_lab.Attempt.Outcome.{ended_row, get-end_row, find-untrack}
use network_skill_lab.Attempt.Ended.{after_end, end-calm}
use network_skill_lab.Attempt.Calm.{get-calm, calm, write-calm}

abbrev with_sandbox : String → String → Attempt → Attempt
with_sandbox name sandbox a = record a { runner_id = name; sandbox_id = sandbox }

abbrev with_start : Time → Attempt → Attempt
with_start now a = record a { started_at = some (stored now) }

abbrev as_running : Attempt → Attempt
as_running a = record a { status = running; ended_at = none; error_message = "" }

-- What the three updates of `promote` make of a row.
abbrev pub promoted_row : String → String → Time → Attempt → Attempt
promoted_row name sandbox now a = as_running (with_start now (with_sandbox name sandbox a))

abbrev promoted_rows : String → String → String → Time → Attempts → Attempts
promoted_rows id name sandbox now rows =
    amend id as_running (amend id (with_start now) (amend id (with_sandbox name sandbox) rows))

get-amended :
    (id : String) (f : Attempt → Attempt) (rows : Attempts) (a : Attempt)
    → ((b : Attempt) → (f b).id ≡ b.id)
    → Attempts.get id rows ≡ some a
    → Attempts.get id (amend id f rows) ≡ some (f a)
get-amended id f rows a keeps h = rw (get-amend id f keeps id rows, (eq_iff id id).1 refl, h)

-- An attempt that nobody tracks gets no ticker.
start_ticks-untracked :
    (id : String) (now : Time) (w : World)
    → Tracker.find id w.trackers.table ≡ none
    → start_ticks id now w ≡ w
start_ticks-untracked id now w h = rw (start_ticks, h)

-- The writes of `promote` on a row that is there, whatever its state, but that is not tracked.
promote_write-calm :
    (att b : Attempt) (name sandbox : String) (w : World)
    → Attempts.get att.id w.attempts ≡ some b
    → Tracker.find att.id w.trackers.table ≡ none
    → promote_write att name sandbox (calm w) ≡ (
      ok tt,
      calm (record w {
        attempts = promoted_rows att.id name sandbox w.now w.attempts;
        events = event_of (promoted att sandbox w.now) w.now ∷ w.events;
      }),
    )
unfolding promote_write Attempts.set_sandbox Attempts.set_started_at Attempts.set_status
promote_write-calm att b name sandbox w h alone =
    let w₁ = record w { attempts = amend att.id (with_sandbox name sandbox) w.attempts } in
    let h₁ = get-amended att.id (with_sandbox name sandbox) w.attempts b (λ _. refl) h in
    let w₂ = record w { attempts = amend att.id (with_start w.now) w₁.attempts } in
    let h₂ = get-amended att.id (with_start w.now) w₁.attempts _ (λ _. refl) h₁ in
    let w₃ = record w { attempts = amend att.id as_running w₂.attempts } in
    rw
      (
        write-calm (Attempts.set_sandbox att.id name sandbox) row_missing w w₁.attempts (
            unfold Attempts.set_sandbox in
            update-amend att.id (with_sandbox name sandbox) w.attempts b h),
        write-calm (Attempts.set_started_at att.id w.now) row_missing w₁ w₂.attempts (
            unfold Attempts.set_started_at in
            update-amend att.id (with_start w.now) w₁.attempts _ h₁),
        write-calm (Attempts.set_status att.id running none "") row_missing w₂ w₃.attempts
            (unfold Attempts.set_status in update-amend att.id as_running w₂.attempts _ h₂),
      )
      (ap (λ (v : World). (ok tt, v)) (start_ticks-untracked att.id w.now _ alone))

get-promoted :
    (id name sandbox : String) (now : Time) (rows : Attempts) (b : Attempt)
    → Attempts.get id rows ≡ some b
    → Attempts.get id (promoted_rows id name sandbox now rows)
      ≡ some (promoted_row name sandbox now b)
get-promoted id name sandbox now rows b h =
    get-amended id as_running _ _ (λ _. refl)
      (get-amended id (with_start now) _ _ (λ _. refl)
        (get-amended id (with_sandbox name sandbox) rows b (λ _. refl) h))

keep_if_waiting-kept :
    (status : Status) (a : Attempt) (name sandbox : String) (w : World)
    → status ≡ provisioning
    → keep_if_waiting status a name sandbox w ≡ (ok (some a), w)
unfolding keep_if_waiting
keep_if_waiting-kept status a name sandbox w waits = rw waits

promote_read-calm :
    (a : Attempt) (name sandbox : String) (w : World)
    → Attempts.get a.id w.attempts ≡ some a
    → a.status ≡ provisioning
    → promote_read a.id name sandbox (calm w) ≡ (ok (some a), calm w)
unfolding promote_read
promote_read-calm a name sandbox w h waits =
    rw (get-calm a.id w a h) (keep_if_waiting-kept a.status a name sandbox (calm w) waits)

-- An attempt that waits is abandoned between the read of `promote` and its writes, and no
-- statement fails: the writes succeed, and the attempt, which was abandoned, is running again with
-- no end; no tracker watches it, so no idle timer will expire it.
pub promote_race :
    (site : Site) (a : Attempt) (name sandbox : String) (w : World)
    → Attempts.get a.id w.attempts ≡ some a
    → a.status ≡ provisioning
    → let v = (end site a.id abandoned "" active_statuses (calm w)).1 in
      let (r, v') = promote_write a name sandbox v in
      (promote_read a.id name sandbox (calm w) ≡ (ok (some a), calm w))
      × (Attempts.get a.id v.attempts ≡ some (ended_row a abandoned "" w))
      × (r ≡ ok tt)
      × (Attempts.get a.id v'.attempts
          ≡ some (promoted_row name sandbox w.now (ended_row a abandoned "" w)))
      × (Tracker.find a.id v'.trackers.table ≡ none)
promote_race site a name sandbox w h waits =
    let is_on : is_active a.status ≡ true = ap is_active waits in
    let allowed : one_of a.status active_statuses ≡ true =
      ap (λ s. one_of s active_statuses) waits in
    let (calls, ends) = end-calm site a abandoned "" active_statuses w h is_on allowed in
    let v = after_end calls a abandoned "" w in
    let found : Attempts.get a.id v.attempts ≡ some (ended_row a abandoned "" w) =
      get-end_row a abandoned "" w h in
    let alone = find-untrack a.id w.trackers in
    let written = promote_write-calm a (ended_row a abandoned "" w) name sandbox v found alone in
    let again =
      get-promoted a.id name sandbox w.now v.attempts (ended_row a abandoned "" w) found in
    rw (ends, written) (promote_read-calm a name sandbox w h waits, found, refl, again, alone)
