-- ===== src/Attempt/Reserve.antt =====
-- What `reserve` promises: one active attempt for a user, and a place on a runner with room.
use mathlib.Core.List.{Memᴰ}
use network_skill_lab.Prelude.{
  All, Bool, Bool-cases, List, Option, Option-cases, Result, String, [], ap, arith, eq_iff, err,
  false, if◌then◌else◌, inl, inr, none, ok, refl, some, str_eq, subst, suc, sym, true, ℕ, ◌&&◌,
  ◌++◌, ◌+◌, ◌<◌, ◌^◌, ◌∷◌, ◌≡◌, ◌≤◌, ◌⊎◌,
}
use network_skill_lab.Content.Lab.{Lab}
use network_skill_lab.Runner.Member.{Member}
use network_skill_lab.Runner.Choice.{IsSmall}
use network_skill_lab.Runner.Placement.{schedule_least_loaded}
use network_skill_lab.Runner.Schedule.{schedule, ScheduleError, no_runner, busy}
use network_skill_lab.Store.Attempts
use network_skill_lab.Store.Attempts.{Attempts}
use network_skill_lab.Store.Model.{Attempt, is_active}
use network_skill_lab.Attempt.World.{
  World, Error, statement, write, store_failed, duplicate_id, active_attempt,
}
use network_skill_lab.Attempt.Starting.{reserve, placed, environment_of}

pub statement-cases :
    (w : World)
    → (fs : List Bool) × ((statement w ≡ (ok tt, record w { faults = fs }))
        ⊎ (statement w ≡ (err store_failed, record w { faults = fs })))
unfolding statement
statement-cases w = cases w.faults
  where
    cases :
        (gs : List Bool)
        → let v = record w { faults = gs } in
          (fs : List Bool) × ((statement v ≡ (ok tt, record w { faults = fs }))
            ⊎ (statement v ≡ (err store_failed, record w { faults = fs })))
    cases [] = ([], inl refl)
    cases (false ∷ fs) = (fs, inl refl)
    cases (true ∷ fs) = (fs, inr refl)

module _ (att : Attempt) (lab : Lab) (w : World) where
  abbrev chosen : Result Error String
  chosen =
      placed (schedule (Attempts.count_active_by_runner w.attempts) w.runners (environment_of lab))

  -- The two ways in which `reserve` ends.
  pub data Ends : Result Error Attempt × World → Type 0 where
    refused : (e : Error) (fs : List Bool) → Ends (err e, record w { faults = fs })
    took :
        (name : String) (rows : Attempts) (fs : List Bool)
        → Attempts.active_for_user att.user_id w.attempts ≡ none
        → chosen ≡ ok name
        → Attempts.create (record att { runner_id = name }) w.attempts ≡ some rows
        → Ends (ok (record att { runner_id = name }), record w { attempts = rows; faults = fs })

Result-cases {ℓ κ} :
    {E : Type ℓ} {A : Type κ} (r : Result E A) → ((e : E) × (r ≡ err e)) ⊎ ((a : A) × (r ≡ ok a))
Result-cases (err e) = inl (e, refl)
Result-cases (ok a) = inr (a, refl)

pub reserve-Ends : (att : Attempt) (lab : Lab) (w : World) → Ends att lab w (reserve att lab w)
unfolding reserve write
reserve-Ends att lab w =
    let (fs, c) = statement-cases w in
    let (gs, d) = statement-cases (record w { faults = fs }) in
    let (hs, f) = statement-cases (record w { faults = gs }) in
    elim c [
      | inr e ↦ rw e (refused store_failed fs)
      | inl e ↦ elim (Option-cases (Attempts.active_for_user att.user_id w.attempts)) [
        | inr (other, u) ↦ rw (e, u) (refused active_attempt fs)
        | inl u ↦ elim d [
          | inr e₂ ↦ rw (e, u, e₂) (refused store_failed gs)
          | inl e₂ ↦ elim (Result-cases (chosen att lab w)) [
            | inl (err₁, p) ↦ rw (e, u, e₂, p) (refused err₁ gs)
            | inr (name, p) ↦ elim f [
              | inr e₃ ↦ rw (e, u, e₂, p, e₃) (refused store_failed hs)
              | inl e₃ ↦
                  elim (Option-cases
                    (Attempts.create (record att { runner_id = name }) w.attempts)) [
                      | inl q ↦ rw (e, u, e₂, p, e₃, q) (refused duplicate_id hs)
                      | inr (rows, q) ↦ rw (e, u, e₂, p, e₃, q) (took name rows hs u p q)
                    ]
            ]
          ]
        ]
      ]
    ]

-- The attempts of a user that have not ended.
abbrev pub active_of : String → Attempts → ℕ
active_of user [] = 0
active_of user (a ∷ rows) =
    let rest = active_of user rows in
    if str_eq a.user_id user && is_active a.status then suc rest else rest

create-append :
    (a : Attempt) (rows rows' : Attempts)
    → Attempts.create a rows ≡ some rows'
    → rows' ≡ rows ++ Attempts.as_stored a ∷ []
unfolding Attempts.create
create-append a rows rows' h = elim (Option-cases (Attempts.get a.id rows)) [
  | inl e ↦ let h' = rw (Attempts.create, e) at h in cc
  | inr (b, e) ↦ let h' = rw (Attempts.create, e) at h in absurd (cc)
]

active_of-append :
    (user : String) (rows : Attempts) (a : Attempt)
    → active_of user (rows ++ Attempts.as_stored a ∷ [])
      ≡ active_of user rows + (if str_eq a.user_id user && is_active a.status then 1 else 0)
unfolding Attempts.as_stored
active_of-append user [] a = ground arith
active_of-append user (b ∷ rows) a = ground (arith, active_of-append user rows a)

count-append :
    (rows : Attempts) (a : Attempt) (name : String)
    → Attempts.count_active_by_runner (rows ++ Attempts.as_stored a ∷ []) name
      ≡ Attempts.count_active_by_runner rows name
        + (if is_active a.status && str_eq a.runner_id name then 1 else 0)
unfolding Attempts.count_active_by_runner Attempts.as_stored
count-append [] a name = ground arith
count-append (b ∷ rows) a name = ground (arith, count-append rows a name)

newer-some : (a : Attempt) (o : Option Attempt) → ¬ (Attempts.newer a o ≡ none)
newer-some a none h = cc
newer-some a (some b) h = ground arith

active_for_user-none :
    (user : String) (rows : Attempts)
    → Attempts.active_for_user user rows ≡ none
    → active_of user rows ≡ 0
unfolding Attempts.active_for_user
active_for_user-none user [] h = refl
active_for_user-none user (a ∷ rows) h =
    elim (Bool-cases (str_eq a.user_id user && is_active a.status)) [
      | inl e ↦ absurd (newer-some a _ (rw e at h))
      | inr e ↦ rw e (active_for_user-none user rows (rw e at h))
    ]

-- At most one attempt of each user has not ended.
abbrev pub OnePerUser : Attempts → Type 0
OnePerUser rows = (user : String) → active_of user rows ≤ 1

Ends-OnePerUser :
    (att : Attempt) (lab : Lab) (w : World) (out : Result Error Attempt × World)
    → Ends att lab w out
    → OnePerUser w.attempts
    → OnePerUser out.1.attempts
Ends-OnePerUser att lab w _ (refused e fs) one user = one user
Ends-OnePerUser att lab w _ (took name rows fs free p q) one user =
    let added = active_of-append user w.attempts (record att { runner_id = name }) in
    let free' = active_for_user-none att.user_id w.attempts free in
    rw (create-append _ w.attempts rows q) (elim (Bool-cases (str_eq att.user_id user)) [
      | inl e ↦
          let same = (eq_iff att.user_id user).0 e in
          ground (arith, added, subst (λ u. active_of u w.attempts ≡ 0) same free')
      | inr e ↦ ground (arith, added, one user)
    ])

-- Whatever statement fails, `reserve` leaves each user with at most one attempt that has not ended,
-- if that was so before.
pub reserve-OnePerUser :
    (att : Attempt) (lab : Lab) (w : World)
    → OnePerUser w.attempts
    → OnePerUser (reserve att lab w).1.attempts
reserve-OnePerUser att lab w one =
    Ends-OnePerUser att lab w (reserve att lab w) (reserve-Ends att lab w) one

placed-ok : (r : Result ScheduleError String) (name : String) → placed r ≡ ok name → r ≡ ok name
unfolding placed
placed-ok (ok n) name h = cc
placed-ok (err (no_runner env)) name h = absurd (cc)
placed-ok (err (busy loads)) name h = absurd (cc)

-- The promise of `reserve` on each of its results.
abbrev Promise : Attempt → Lab → World → Result Error Attempt × World → Type 0
Promise att lab w (err e, w') = Unit
Promise att lab w (ok row, w') =
    (w'.attempts ≡ w.attempts ++ Attempts.as_stored row ∷ [])
    × (active_of att.user_id w'.attempts ≡ 1)
    × ((m : Member) × Memᴰ m w.runners
        × (row ≡ record att { runner_id = m.name })
        × (Attempts.count_active_by_runner w'.attempts m.name
            ≡ Attempts.count_active_by_runner w.attempts m.name + 1)
        × (m.connected ≡ true)
        × Memᴰ (environment_of lab) m.capabilities
        × (Attempts.count_active_by_runner w'.attempts m.name ≤ m.capacity))

Ends-Promise :
    (att : Attempt) (lab : Lab) (w : World)
    → All IsSmall w.runners
    → ((name : String) → Attempts.count_active_by_runner w.attempts name < 2 ^ 63)
    → is_active att.status ≡ true
    → (out : Result Error Attempt × World) → Ends att lab w out
    → Promise att lab w out
Ends-Promise att lab w small counts waits _ (refused e fs) = tt
Ends-Promise att lab w small counts waits _ (took name rows fs free p q) =
    let row = record att { runner_id = name } in
    let free' = active_for_user-none att.user_id w.attempts free in
    let count = Attempts.count_active_by_runner w.attempts in
    let (m, listed, named, online, able, room, least) =
      schedule_least_loaded count counts w.runners (environment_of lab) name small
        (placed-ok _ name p) in
    let mine = active_of-append att.user_id w.attempts row in
    let there = count-append w.attempts row m.name in
    let filled : Attempts.count_active_by_runner (w.attempts ++ Attempts.as_stored row ∷ []) m.name
        ≡ Attempts.count_active_by_runner w.attempts m.name + 1 =
      ground (arith, there, waits, (eq_iff name m.name).1 (sym named)) in
    rw (create-append row w.attempts rows q) (
      refl,
      ground (arith, mine, eq_iff att.user_id att.user_id),
      (
        m,
        listed,
        ap (λ n. record att { runner_id = n }) (sym named),
        filled,
        online,
        able,
        omega (arith, filled, room),
      ),
    )

-- Where `reserve` succeeds for an attempt that has not ended, it answers with the attempt on a runner,
-- and the one change to the table is that the row it answered with is added. The attempt is then the
-- only one of its user that has not ended. The runner is a listed, connected one that has the
-- environment of the lab; the new row takes one of its slots, and no more attempts are placed there
-- than it has slots. The counts of attempts are below 2 ^ 63, and a capacity that is positive is below 2 ^ 31.
pub reserve_takes_slot :
    (att : Attempt) (lab : Lab) (w : World) (row : Attempt) (w' : World)
    → All IsSmall w.runners
    → ((name : String) → Attempts.count_active_by_runner w.attempts name < 2 ^ 63)
    → is_active att.status ≡ true
    → reserve att lab w ≡ (ok row, w')
    → (w'.attempts ≡ w.attempts ++ Attempts.as_stored row ∷ [])
      × (active_of att.user_id w'.attempts ≡ 1)
      × ((m : Member) × Memᴰ m w.runners
          × (row ≡ record att { runner_id = m.name })
          × (Attempts.count_active_by_runner w'.attempts m.name
              ≡ Attempts.count_active_by_runner w.attempts m.name + 1)
          × (m.connected ≡ true)
          × Memᴰ (environment_of lab) m.capabilities
          × (Attempts.count_active_by_runner w'.attempts m.name ≤ m.capacity))
reserve_takes_slot att lab w row w' small counts waits e =
    subst (Promise att lab w) e
      (Ends-Promise att lab w small counts waits (reserve att lab w) (reserve-Ends att lab w))
