-- ===== src/Attempt/Idle.antt =====
-- The idle timers: when one runs, and that a timer that was stopped never expires an attempt.
use network_skill_lab.Prelude.{
  Bool-cases, List, Option, Option-cases, String, [], arith, eq_iff, if◌then◌else◌, inl, inr, none,
  refl, some, str_eq, suc, ℕ, ◌+◌, ◌-◌, ◌<◌, ◌==◌, ◌∷◌, ◌≡◌, ◌⊎◌,
}
use network_skill_lab.Attempt.Tracker.{
  find, put, remove, arm, connected, disconnected, track, untrack, Tracker, Trackers, disarm,
}

pub find-put :
    (id j : String) (t : Tracker) (table : List (String × Tracker))
    → find j (put id t table) ≡ (if str_eq id j then some t else find j table)
unfolding find put
find-put id j t [] = refl
find-put id j t ((key, u) ∷ rest) =
    ground (arith, eq_iff key id, eq_iff key j, eq_iff id j, find-put id j t rest)

pub find-remove :
    (id j : String) (table : List (String × Tracker))
    → find j (remove id table) ≡ (if str_eq id j then none else find j table)
unfolding find remove
find-remove id j [] = ground arith
find-remove id j ((key, u) ∷ rest) =
    ground (arith, eq_iff key id, eq_iff key j, eq_iff id j, find-remove id j rest)

-- A timer runs exactly while nobody is connected, and was made before.
abbrev pub IsExact : ℕ → Option Tracker → Type 0
IsExact next none = Unit
IsExact next (some t) =
    (t.conns ≡ 0 → (timer : ℕ) × (t.idle ≡ some timer) × (timer < next))
    × (0 < t.conns → t.idle ≡ none)

pub record Inv (s : Trackers) : Type 0 where
  pub at : (id : String) → IsExact s.next_timer (find id s.table)

-- The calls that change the trackers, in any order of their locks.
pub data Call : Type 0 where
  connects disconnects tracks untracks : String → Call

unfoldable pub step : Call → Trackers → Trackers
unfolding connected disconnected track untrack
step (connects id) = connected id
step (disconnects id) = disconnected id
step (tracks id) = track id
step (untracks id) = untrack id

unfoldable pub run : List Call → Trackers → Trackers
unfolding step
run [] s = s
run (c ∷ cs) s = run cs (step c s)

abbrev pub initial : Trackers
initial = record { table = []; next_timer = 0 }

raise-Inv : (s : Trackers) → Inv s → Inv (record s { next_timer = suc s.next_timer })
raise-Inv s v = record { at = λ id. up (find id s.table) (v.at id) }
  where
    up : (o : Option Tracker) → IsExact s.next_timer o → IsExact (suc s.next_timer) o
    up none h = tt
    up (some t) h = ((λ z. let (x, e, l) = h.0 z in (x, e, omega arith)), h.1)

put-Inv :
    (id : String) (t : Tracker) (s : Trackers)
    → Inv s
    → IsExact s.next_timer (some t)
    → Inv (record s { table = put id t s.table })
put-Inv id t s v h = record {
  at =
      λ j. rw find-put (elim (Bool-cases (str_eq id j)) [ inl e ↦ rw e h | inr e ↦ rw e (v.at j) ]);
}

arm-Inv :
    (id : String) (t : Tracker) (s : Trackers)
    → Inv s
    → t.conns ≡ 0
    → (t.idle ≡ none) ⊎ ((timer : ℕ) × (t.idle ≡ some timer) × (timer < s.next_timer))
    → Inv (arm id t s)
unfolding arm
arm-Inv id t s v z (inl e) =
    rw (e, arm)
      (put-Inv id (record t { idle = some s.next_timer })
        (record s { next_timer = suc s.next_timer }) (raise-Inv s v)
        ((λ _. (s.next_timer, refl, omega arith)), (λ p. absurd (omega arith))))
arm-Inv id t s v z (inr (timer, e, l)) =
    rw (e, arm) (put-Inv id t s v ((λ _. (timer, e, l)), (λ p. absurd (omega arith))))

connected-Inv : (id : String) (s : Trackers) → Inv s → Inv (connected id s)
unfolding connected
connected-Inv id s v = elim (Option-cases (find id s.table)) [
  | inl e ↦ rw (e, connected) v
  | inr (t, e) ↦
      rw (e, connected)
        (put-Inv id (disarm (record t { conns = t.conns + 1 })) s v
          ((λ z. absurd (omega arith)), (λ _. refl)))
]

released :
    (n : ℕ) (t : Tracker)
    → IsExact n (some t)
    → (t.idle ≡ none) ⊎ ((timer : ℕ) × (t.idle ≡ some timer) × (timer < n))
released n t h = elim (Bool-cases (t.conns == 0)) [
  | inl z ↦ inr (h.0 (ground arith))
  | inr p ↦ inl (h.1 (ground arith))
]

disconnected-Inv : (id : String) (s : Trackers) → Inv s → Inv (disconnected id s)
unfolding disconnected
disconnected-Inv id s v = elim (Option-cases (find id s.table)) [
  | inl e ↦ rw (e, disconnected) v
  | inr (t, e) ↦
      let h : IsExact s.next_timer (some t) = rw e at (v.at id) in
      let u = record t { conns = t.conns - 1 } in
      elim (Bool-cases (u.conns == 0)) [
        | inl z ↦
            rw (e, disconnected, z) (arm-Inv id u s v (ground arith) (released s.next_timer t h))
        | inr p ↦
            rw (e, disconnected, p)
              (put-Inv id u s v ((λ z. absurd (ground arith)), (λ _. h.1 (ground arith))))
      ]
]

track-Inv : (id : String) (s : Trackers) → Inv s → Inv (track id s)
unfolding track
track-Inv id s v = elim (Option-cases (find id s.table)) [
  | inl e ↦ rw (e, track) (arm-Inv id (record { conns = 0; idle = none }) s v refl (inl refl))
  | inr (t, e) ↦ rw (e, track) v
]

untrack-Inv : (id : String) (s : Trackers) → Inv s → Inv (untrack id s)
unfolding untrack
untrack-Inv id s v = record {
  at = λ j.
      rw find-remove (elim (Bool-cases (str_eq id j)) [ inl e ↦ rw e tt | inr e ↦ rw e (v.at j) ]);
}

-- Every call keeps each timer in step with the count of its connections.
pub step-Inv : (c : Call) (s : Trackers) → Inv s → Inv (step c s)
unfolding step
step-Inv (connects id) s v = connected-Inv id s v
step-Inv (disconnects id) s v = disconnected-Inv id s v
step-Inv (tracks id) s v = track-Inv id s v
step-Inv (untracks id) s v = untrack-Inv id s v

pub run-Inv : (cs : List Call) (s : Trackers) → Inv s → Inv (run cs s)
unfolding run
run-Inv [] s v = v
run-Inv (c ∷ cs) s v = run-Inv cs (step c s) (step-Inv c s v)

pub initial-Inv : Inv initial
unfolding find
initial-Inv = record { at = λ id. tt }
