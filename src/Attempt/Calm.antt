-- ===== src/Attempt/Calm.antt =====
-- Each part of an operation where no statement of the database fails.
use network_skill_lab.Prelude.{
  Bool-cases, List, Option, Option-cases, Result, String, [], ap, err, inl, inr, ok, refl, some,
  true, ℕ, ◌==◌, ◌≡◌,
}
use network_skill_lab.Store.Attempts
use network_skill_lab.Store.Attempts.{Attempts}
use network_skill_lab.Store.Model.{is_active, Status, Attempt}
use network_skill_lab.Attempt.View.{View}
use network_skill_lab.Attempt.World.{statement, write, Error, World}
use network_skill_lab.Attempt.Service.{get, run_before_destroy, Site, view, call_hooks, repeat}
use network_skill_lab.Attempt.Ending.{one_of, check_end, end_read}

-- The world with no fault ahead.
abbrev pub calm : World → World
calm w = record w { faults = [] }

pub write-calm :
    (change : Attempts → Option Attempts) (e : Error) (w : World) (rows : Attempts)
    → change w.attempts ≡ some rows
    → write change e (calm w) ≡ (ok tt, calm (record w { attempts = rows }))
unfolding write
write-calm change e w rows h = rw h

pub get-calm :
    (id : String) (w : World) (a : Attempt)
    → Attempts.get id w.attempts ≡ some a
    → get id (calm w) ≡ (ok a, calm w)
unfolding get statement
get-calm id w a h = rw h

pub end_read-calm :
    (id : String) (from : List Status) (w : World) (a : Attempt)
    → Attempts.get id w.attempts ≡ some a
    → is_active a.status ≡ true
    → one_of a.status from ≡ true
    → end_read id from (calm w) ≡ (ok a, calm w)
unfolding end_read check_end
end_read-calm id from w a h active allowed = rw (get-calm id w a h, active, allowed)

-- Building a view writes nothing.
pub view-calm : (site : Site) (att : Attempt) (w : World) → (view site att (calm w)).1 ≡ calm w
unfolding view statement
view-calm site att w = elim (Option-cases (site.labs att.lab_id)) [
  | inl e ↦ rw e
  | inr (l, e) ↦ elim (Option-cases (site.decode_params att.params_json)) [
    | inl f ↦ rw (e, f)
    | inr (ps, f) ↦ rw (e, f)
  ]
]

call_hooks-calm :
    (n : ℕ) (r : Result Error View) (w : World)
    → (calls : List View) × (call_hooks n r (calm w) ≡ calm (record w { hooked = calls }))
call_hooks-calm n (ok v) w = (repeat n v w.hooked, refl)
call_hooks-calm n (err e) w = (w.hooked, refl)

-- The hooks change nothing but the list of their calls.
pub hooks-calm :
    (site : Site) (att : Attempt) (w : World)
    → (calls : List View) × (run_before_destroy site att (calm w)
        ≡ (ok tt, calm (record w { hooked = calls })))
unfolding run_before_destroy
hooks-calm site att w = elim (Bool-cases (w.hooks == 0)) [
  | inl z ↦ (w.hooked, rw z)
  | inr p ↦
      let (calls, e) = call_hooks-calm w.hooks (view site att (calm w)).0 w in
      (calls, rw (p, view-calm site att w) (ap (λ (v : World). (ok tt, v)) e))
]
