-- ===== src/Attempt/Outcome.antt =====
-- What callers of `end` can rely on, and where the two halves of it leave more to be wished.
use network_skill_lab.Prelude.{
  Bool, Bool-cases, List, String, [], ap, eq_iff, err, false, if◌then◌else◌, inl, inr, none, ok,
  refl, some, str_eq, subst, true, ℕ, ◌∷◌, ◌≡◌, ◌⊎◌,
}
use network_skill_lab.Store.Attempts
use network_skill_lab.Store.Attempts.{Attempts}
use network_skill_lab.Store.Lookup.{get-amend, amend, update-amend}
use network_skill_lab.Store.Model.{is_active, Status, Attempt, running, passed}
use network_skill_lab.Attempt.Tracker
use network_skill_lab.Attempt.Idle.{find-remove}
use network_skill_lab.Attempt.View.{elapsed_of}
use network_skill_lab.Attempt.World.{World, statement, store_failed, terminal, write}
use network_skill_lab.Attempt.Service
use network_skill_lab.Attempt.Service.{event_of, Site, repeat}
use network_skill_lab.Attempt.Ending.{
  one_of, ended, end, end_read, finish, check_end, end_write, record_progress,
}
use network_skill_lab.Attempt.Calm.{calm}
use network_skill_lab.Attempt.Ended.{
  with_elapsed, with_status, end_rows, destroyed_after, end-calm, get-elapsed,
}

-- The row that is read after `end`.
abbrev pub ended_row : Attempt → Status → String → World → Attempt
ended_row a status message w =
    with_status status w.now message (with_elapsed (elapsed_of a w.now) a)

get-end_rows :
    (a : Attempt) (status : Status) (message : String) (w : World) (j : String)
    → Attempts.get a.id w.attempts ≡ some a
    → Attempts.get j (end_rows a status message w)
      ≡ (if str_eq a.id j then some (ended_row a status message w) else Attempts.get j w.attempts)
get-end_rows a status message w j h = elim (Bool-cases (str_eq a.id j)) [
  | inl e ↦
      let h' : Attempts.get j w.attempts ≡ some a =
        subst (λ k. Attempts.get k w.attempts ≡ some a) ((eq_iff a.id j).0 e) h in
      rw (
        get-amend a.id (with_status status w.now message) (λ _. refl),
        e,
        get-amend a.id (with_elapsed (elapsed_of a w.now)) (λ _. refl),
        e,
        h',
      )
  | inr e ↦ rw (
    get-amend a.id (with_status status w.now message) (λ _. refl),
    e,
    get-amend a.id (with_elapsed (elapsed_of a w.now)) (λ _. refl),
    e,
  )
]

pub get-end_row :
    (a : Attempt) (status : Status) (message : String) (w : World)
    → Attempts.get a.id w.attempts ≡ some a
    → Attempts.get a.id (end_rows a status message w) ≡ some (ended_row a status message w)
get-end_row a status message w h =
    let found = get-end_rows a status message w a.id h in rw ((eq_iff a.id a.id).1 refl) at found

pub find-untrack :
    (id : String) (s : Tracker.Trackers) → Tracker.find id (Tracker.untrack id s).table ≡ none
unfolding Tracker.untrack
find-untrack id s = rw (find-remove, (eq_iff id id).1 refl)

-- Where no statement fails and the attempt is active, in a state that the caller may end, `end`
-- answers with the ended row; the table has it, with its other rows as they were; the attempt is
-- no longer tracked; its status event is the newest; and the runner of the attempt, if it is
-- connected, was asked to destroy the sandbox.
pub end_outcome :
    (site : Site) (a : Attempt) (status : Status) (message : String) (from : List Status)
    (w : World)
    → Attempts.get a.id w.attempts ≡ some a
    → is_active a.status ≡ true
    → one_of a.status from ≡ true
    → let (r, w') = end site a.id status message from (calm w) in
      (r ≡ ok (ended a status message w.now))
      × ((j : String)
          → Attempts.get j w'.attempts ≡ (
              if str_eq a.id j
              then some (ended_row a status message w)
              else Attempts.get j w.attempts))
      × (Tracker.find a.id w'.trackers.table ≡ none)
      × (w'.events ≡ event_of (ended a status message w.now) w.now ∷ w.events)
      × (w'.destroyed ≡ destroyed_after a w)
end_outcome site a status message from w h active allowed =
    let (calls, e) = end-calm site a status message from w h active allowed in
    rw e
      (refl, (λ j. get-end_rows a status message w j h), find-untrack a.id w.trackers, refl, refl)

-- The first `n` entries are no faults, the next one is.
abbrev pub fails_after : ℕ → World → World
fails_after n w = record w { faults = repeat n false (true ∷ []) }

end_terminal_with :
    (site : Site) (a : Attempt) (status : Status) (message : String) (from : List Status)
    (w : World) (fs : List Bool)
    → Attempts.get a.id w.attempts ≡ some a
    → is_active a.status ≡ false
    → let v = record w { faults = fs } in
      (rest : List Bool) × ((end site a.id status message from v
          ≡ (err terminal, record w { faults = rest }))
        ⊎ (end site a.id status message from v ≡ (err store_failed, record w { faults = rest })))
unfolding end end_read Service.get statement check_end
end_terminal_with site a status message from w [] h over = ([], inl (rw (h, over)))
end_terminal_with site a status message from w (false ∷ fs) h over = (fs, inl (rw (h, over)))
end_terminal_with site a status message from w (true ∷ fs) h over = (fs, inr refl)

-- An attempt that has ended is refused, and nothing but the list of faults changes, whichever
-- statement fails.
pub end_terminal :
    (site : Site) (a : Attempt) (status : Status) (message : String) (from : List Status)
    (w : World)
    → Attempts.get a.id w.attempts ≡ some a
    → is_active a.status ≡ false
    → (rest : List Bool) × ((end site a.id status message from w
          ≡ (err terminal, record w { faults = rest }))
        ⊎ (end site a.id status message from w ≡ (err store_failed, record w { faults = rest })))
end_terminal site a status message from w h over =
    end_terminal_with site a status message from w w.faults h over

-- The update of the elapsed time and that of the status, on the row that is there.
update-elapsed :
    (a : Attempt) (w : World)
    → Attempts.get a.id w.attempts ≡ some a
    → Attempts.set_elapsed a.id (elapsed_of a w.now) w.attempts
      ≡ some (amend a.id (with_elapsed (elapsed_of a w.now)) w.attempts)
unfolding Attempts.set_elapsed
update-elapsed a w h = update-amend a.id (with_elapsed (elapsed_of a w.now)) w.attempts a h

update-status :
    (a : Attempt) (status : Status) (message : String) (w : World)
    → Attempts.get a.id w.attempts ≡ some a
    → Attempts.set_status a.id status
        (some w.now)
        message
        (amend a.id (with_elapsed (elapsed_of a w.now)) w.attempts)
      ≡ some (end_rows a status message w)
unfolding Attempts.set_status
update-status a status message w h =
    update-amend a.id (with_status status w.now message) _ (with_elapsed (elapsed_of a w.now) a)
      (get-elapsed a (elapsed_of a w.now) w.attempts h)

-- What the checks of `finish` see of a row that is running.
checks_pass :
    (a : Attempt)
    → a.status ≡ running
    → (is_active a.status ≡ true) × (one_of a.status (running ∷ []) ≡ true)
checks_pass a active = (ap is_active active, ap (λ s. one_of s (running ∷ [])) active)

finish-fails :
    (site : Site) (a : Attempt) (w : World)
    → Attempts.get a.id w.attempts ≡ some a
    → a.status ≡ running
    → finish site a.id passed (fails_after 3 w)
      ≡ (err store_failed, record w { attempts = end_rows a passed "" w; faults = [] })
unfolding finish end end_read Service.get statement check_end end_write write record_progress
finish-fails site a w h active =
    let (is_on, allowed) = checks_pass a active in
    rw (h, is_on, allowed, update-elapsed a w h, update-status a passed "" w h)

-- `end` on an attempt that has ended, where no statement fails.
end-late :
    (site : Site) (a : Attempt) (status : Status) (message : String) (from : List Status)
    (id : String) (w : World)
    → Attempts.get id w.attempts ≡ some a
    → is_active a.status ≡ false
    → end site id status message from (calm w) ≡ (err terminal, calm w)
unfolding end end_read Service.get statement check_end
end-late site a status message from id w h over = rw (h, over)

-- A run that passes, where the statement on the progress of the user fails: `Finish` reports the
-- failure, yet the row says that the attempt has passed; its tracker is left, no sandbox is
-- destroyed, and a later call of `end` on the attempt, with no fault in it, is refused as too
-- late.
pub finish_keeps_sandbox :
    (site : Site) (a : Attempt) (w : World)
    → Attempts.get a.id w.attempts ≡ some a
    → a.status ≡ running
    → let (r, w') = finish site a.id passed (fails_after 3 w) in
      (r ≡ err store_failed)
      × (Attempts.get a.id w'.attempts ≡ some (ended_row a passed "" w))
      × (w'.trackers ≡ w.trackers)
      × (w'.destroyed ≡ w.destroyed)
      × ((status : Status) (message : String) (from : List Status)
          → end site a.id status message from (calm w') ≡ (err terminal, calm w'))
finish_keeps_sandbox site a w h active =
    let found = get-end_row a passed "" w h in
    let w' = record w { attempts = end_rows a passed "" w; faults = [] } in
    rw (finish-fails site a w h active) (
      refl,
      found,
      refl,
      refl,
      λ status message from.
          end-late site (ended_row a passed "" w) status message from a.id w' found refl,
    )
