-- ===== src/Attempt/Stale.antt =====
-- A timer that was stopped stays stopped: its goroutine, fired late, expires nothing.
use network_skill_lab.Prelude.{
  Bool-cases, List, Option-cases, String, [], arith, eq_iff, false, inl, inr, none, refl, some,
  str_eq, subst, true, ℕ, ◌+◌, ◌-◌, ◌<◌, ◌==◌, ◌∷◌, ◌≡◌,
}
use network_skill_lab.Attempt.Tracker.{
  find, put, arm, is_timer, armed, Tracker, Trackers, connected, disconnected, track, untrack,
  disarm,
}
use network_skill_lab.Attempt.Idle.{
  find-put, step, Call, connects, disconnects, tracks, untracks, run, find-remove, initial, Inv,
  run-Inv, initial-Inv,
}

-- A timer of this attempt that was made before and does not run.
abbrev IsStale : String → ℕ → Trackers → Type 0
IsStale id timer s = (armed id timer s ≡ false) × (timer < s.next_timer)

module _ (id : String) (timer : ℕ) where
  put-IsStale :
      (j : String) (t : Tracker) (s : Trackers)
      → IsStale id timer s
      → is_timer timer t.idle ≡ false
      → armed id timer (record s { table = put j t s.table }) ≡ false
  unfolding armed
  put-IsStale j t s h e = ground (arith, find-put j id t s.table)

  -- A tracker that is found has no stale timer.
  found-IsStale :
      (t : Tracker) (s : Trackers)
      → IsStale id timer s
      → find id s.table ≡ some t
      → is_timer timer t.idle ≡ false
  unfolding armed
  found-IsStale t s h e = ground arith

  arm-IsStale :
      (j : String) (t : Tracker) (s : Trackers)
      → IsStale id timer s
      → (str_eq j id ≡ true → is_timer timer t.idle ≡ false)
      → IsStale id timer (arm j t s)
  unfolding arm armed
  arm-IsStale j t s h e = ground (
    arith,
    find-put j id t s.table,
    find-put j id (record t { idle = some s.next_timer }) s.table,
  )

  -- The tracker of `j` has no stale timer of `id`, if the two are the same.
  own-IsStale :
      (j : String) (t : Tracker) (s : Trackers)
      → IsStale id timer s
      → find j s.table ≡ some t
      → str_eq j id ≡ true
      → is_timer timer t.idle ≡ false
  own-IsStale j t s h e same =
      found-IsStale t s h (subst (λ k. find k s.table ≡ some t) ((eq_iff j id).0 same) e)

  connected-IsStale :
      (j : String) (s : Trackers) → IsStale id timer s → IsStale id timer (connected j s)
  unfolding connected
  connected-IsStale j s h = elim (Option-cases (find j s.table)) [
    | inl e ↦ rw (e, connected) h
    | inr (t, e) ↦
        rw (e, connected) (put-IsStale j (disarm (record t { conns = t.conns + 1 })) s h refl, h.1)
  ]

  put_own-IsStale :
      (j : String) (t : Tracker) (s : Trackers)
      → IsStale id timer s
      → (str_eq j id ≡ true → is_timer timer t.idle ≡ false)
      → IsStale id timer (record s { table = put j t s.table })
  unfolding armed
  put_own-IsStale j t s h e = ground (arith, find-put j id t s.table)

  disconnected-IsStale :
      (j : String) (s : Trackers) → IsStale id timer s → IsStale id timer (disconnected j s)
  unfolding disconnected
  disconnected-IsStale j s h = elim (Option-cases (find j s.table)) [
    | inl e ↦ rw (e, disconnected) h
    | inr (t, e) ↦
        let u = record t { conns = t.conns - 1 } in
        elim (Bool-cases (u.conns == 0)) [
          | inl z ↦ rw (e, disconnected, z) (arm-IsStale j u s h (own-IsStale j t s h e))
          | inr p ↦ rw (e, disconnected, p) (put_own-IsStale j u s h (own-IsStale j t s h e))
        ]
  ]

  track-IsStale : (j : String) (s : Trackers) → IsStale id timer s → IsStale id timer (track j s)
  unfolding track
  track-IsStale j s h = elim (Option-cases (find j s.table)) [
    | inl e ↦ rw (e, track) (arm-IsStale j (record { conns = 0; idle = none }) s h (λ _. refl))
    | inr (t, e) ↦ rw (e, track) h
  ]

  untrack-IsStale :
      (j : String) (s : Trackers) → IsStale id timer s → IsStale id timer (untrack j s)
  unfolding untrack armed
  untrack-IsStale j s h = ground (arith, find-remove j id s.table)

  step-IsStale : (c : Call) (s : Trackers) → IsStale id timer s → IsStale id timer (step c s)
  unfolding step
  step-IsStale (connects j) s h = connected-IsStale j s h
  step-IsStale (disconnects j) s h = disconnected-IsStale j s h
  step-IsStale (tracks j) s h = track-IsStale j s h
  step-IsStale (untracks j) s h = untrack-IsStale j s h

  run-IsStale : (cs : List Call) (s : Trackers) → IsStale id timer s → IsStale id timer (run cs s)
  unfolding run
  run-IsStale [] s h = h
  run-IsStale (c ∷ cs) s h = run-IsStale cs (step c s) (step-IsStale c s h)

  -- A connection stops the timer that runs.
  connected-armed : (s : Trackers) → armed id timer (connected id s) ≡ false
  unfolding armed connected
  connected-armed s = elim (Option-cases (find id s.table)) [
    | inl e ↦ rw (e, connected) (rw (e, armed))
    | inr (t, e) ↦ rw (e, connected) (rw (find-put, (eq_iff id id).1 refl))
  ]

  armed-lt : (s : Trackers) → Inv s → armed id timer s ≡ true → timer < s.next_timer
  unfolding armed
  armed-lt s v e = ground (arith, v.at id)

  connected-next : (s : Trackers) → (connected id s).next_timer ≡ s.next_timer
  unfolding connected
  connected-next s = ground arith

-- Once somebody connected to an attempt, a timer that ran for it before is never armed again,
-- whatever calls come after: when it fires late it expires nothing.
pub connected_stops_timer :
    (before after : List Call) (id : String) (timer : ℕ)
    → armed id timer (run before initial) ≡ true
    → armed id timer (run after (connected id (run before initial))) ≡ false
connected_stops_timer before after id timer e =
    let s = run before initial in
    (run-IsStale id timer after (connected id s) (
      connected-armed id timer s,
      rw connected-next (armed-lt id timer s (run-Inv before initial initial-Inv) e),
    )).0
