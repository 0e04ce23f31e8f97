-- ===== src/Attempt/Service.antt =====
-- service.go: the operations that end an attempt, and those that read one.
use network_skill_lab.Prelude.{
  Bool, List, Option, Result, String, Time, [], err, false, if◌then◌else◌, none, not, ok, some,
  str_eq, suc, zero, ℕ, ◌&&◌, ◌==◌, ◌||◌, ◌∷◌,
}
use network_skill_lab.Runner.Member.{Member}
use network_skill_lab.Content.Lab.{Bytes, Params, Lab, Case, case_by_id}
use network_skill_lab.Store.Attempts
use network_skill_lab.Store.Model.{Attempt, Status, CheckpointRun, is_active}
use network_skill_lab.Attempt.View.{View, elapsed_ms, new_view}
use network_skill_lab.Attempt.World.{
  Error, not_found, unknown_lab, bad_params, unknown_names, Event, status_event, World, Action,
  pure, raise, gets, lift, ◌>>=◌, ◌>>◌, statement, or_raise,
}

-- What the service is built with: the labs by id, and the decoder of the JSON of the parameters,
-- which answers `none` on text that it cannot decode. `has_dir` is whether it has a data directory.
pub record Site : Type 0 where
  pub labs : String → Option Lab
  pub decode_params : String → Option Params
  pub has_dir : Bool

abbrev pub is_terminal : Status → Bool
is_terminal s = not (is_active s)

-- `statusEvent`
abbrev pub event_of : Attempt → Time → Event
event_of att now = status_event att.id att.status att.error_message (elapsed_ms att now) now

-- `s.get`
unfoldable pub get : String → Action Attempt
get id = do statement; row ← gets (λ w. Attempts.get id w.attempts); or_raise row not_found

abbrev pub runs_of : String → List CheckpointRun → List CheckpointRun
runs_of id [] = []
runs_of id (r ∷ rs) = let rest = runs_of id rs in if str_eq r.attempt_id id then r ∷ rest else rest

abbrev setup_env_of : Option Case → Params
setup_env_of none = []
setup_env_of (some c) = c.setup_env

abbrev rendered {ℓ} : {A : Type ℓ} → Result (List Bytes) A → Result Error A
rendered (ok a) = ok a
rendered (err names) = err (unknown_names names)

-- `s.view`
unfoldable pub view : Site → Attempt → Action View
view site att = do
  l ← or_raise (site.labs att.lab_id) unknown_lab
  params ← or_raise (site.decode_params att.params_json) bad_params
  statement
  runs ← gets (λ w. runs_of att.id w.runs)
  now ← gets (λ w. w.now)
  lift (
      rendered (
        new_view att l
          (record {
            case_id = att.case_id;
            params = params;
            setup_env = setup_env_of (case_by_id att.case_id l.cases);
          })
          runs now))

abbrev pub repeat {ℓ} : {A : Type ℓ} → ℕ → A → List A → List A
repeat zero a rest = rest
repeat (suc n) a rest = a ∷ repeat n a rest

-- The view is built once, and each hook is called with it; an error of the view is only logged.
abbrev pub call_hooks : ℕ → Result Error View → World → World
call_hooks n (ok v) w = record w { hooked = repeat n v w.hooked }
call_hooks n (err e) w = w

-- `runBeforeDestroy`. A hook that panics or is late does not stop the others.
unfoldable pub run_before_destroy : Site → Attempt → Action (Unit {0})
unfolding view
run_before_destroy site att w =
    if w.hooks == 0
    then (ok tt, w)
    else let (v, w') = view site att w in (ok tt, call_hooks w.hooks v w')

-- `runnerOf`
abbrev pub runner_of : Attempt → String
runner_of att = if str_eq att.runner_id "" then "local" else att.runner_id

abbrev pub is_connected : String → List Member → Bool
is_connected name [] = false
is_connected name (m ∷ ms) = str_eq m.name name && m.connected || is_connected name ms

abbrev pub without : String → List (String × String) → List (String × String)
without sb [] = []
without sb ((key, name) ∷ rest) =
    let others = without sb rest in if str_eq key sb then others else (key, name) ∷ others

-- `destroy`: an attempt with no sandbox yet has one under its own id. The call to the runner is
-- made only if that is connected; the sandbox is unbound in any case.
unfoldable pub destroy : String → String → String → Action (Unit {0})
destroy name id sandbox w =
    let sb = if str_eq sandbox "" then id else sandbox in
    let w' = record w { sandboxes = without sb w.sandboxes } in
    if is_connected name w.runners
    then (ok tt, record w' { destroyed = (name, sb) ∷ w.destroyed })
    else (ok tt, w')

-- `Get`
unfoldable pub get_view : Site → String → Action View
unfolding get view
get_view site id = do att ← get id; view site att

-- `ForUser`: an attempt of somebody else is not found.
unfoldable pub for_user : Site → String → String → Action View
unfolding get view
for_user site user id = do
  att ← get id
  if str_eq att.user_id user then view site att else raise not_found

-- `Current`
unfoldable pub current : Site → String → Action (Option View)
unfolding view
current site user = do
  statement
  row ← gets (λ w. Attempts.active_for_user user w.attempts)
  elim row [ none ↦ pure none | some att ↦ do v ← view site att; pure (some v) ]
