-- ===== src/Attempt/World.antt =====
-- What the attempt service reads and writes: the rows, the trackers, the runners and the events.
-- A method is an action on this world. A statement of the database may fail on its own, as the next
-- entry of `faults` says; a failed statement changes no row.
use network_skill_lab.Content.Lab.{Bytes}
use network_skill_lab.Prelude.{
  Bool, List, Option, Result, String, Time, [], err, false, none, ok, some, true, ℕ, ◌∷◌,
}
use network_skill_lab.Runner.Member.{Member, Load}
use network_skill_lab.Store.Model.{Status, CheckpointRun, CheckStatus, ProgressEntry}
use network_skill_lab.Store.Attempts.{Attempts}
use network_skill_lab.Attempt.Tracker.{Trackers}
use network_skill_lab.Attempt.View.{View}

pub data Error : Type 0 where
  active_attempt not_found terminal not_terminal still_provisioning mode_not_allowed : Error
  mode_not_real no_sweeper unknown_lab unknown_doc wrong_status bad_params row_missing : Error
  duplicate_id store_failed sweep_failed files_failed not_positive precheck_failed : Error
  no_runner : String → Error
  runner_busy : ℕ → ℕ → List Load → Error
  unknown_names : List Bytes → Error

-- The events of bus.go, with the fields that each kind sets.
pub data Event : Type 0 where
  status_event : String → Status → String → ℕ → Time → Event
  provisioning_event : String → String → ℕ → Time → Event
  checkpoint_event : String → String → CheckStatus → Option Time → Time → Event
  submit_event : String → ℕ → ℕ → Time → Event

-- `ticking` holds the attempts with a running ticker and the start that it counts from.
-- `events` and `hooked` hold the newest first. `destroyed` holds the calls of `Destroy`, with the
-- name of the runner; `sandboxes` is the map of the service from sandboxes to runners. `recordings`
-- has the bytes under the directory of an attempt's recordings, where there is one.
pub record World : Type 0 where
  pub attempts : Attempts
  pub runs : List CheckpointRun
  pub progress : List ProgressEntry
  pub trackers : Trackers
  pub ticking : List (String × Time)
  pub events : List Event
  pub hooks : ℕ
  pub hooked : List View
  pub runners : List Member
  pub sandboxes : List (String × String)
  pub destroyed : List (String × String)
  pub recordings : List (String × ℕ)
  pub now : Time
  pub faults : List Bool

abbrev pub Action {ℓ} : Type ℓ → Type ℓ
Action A = World → Result Error A × World

module _ {ℓ} {A : Type ℓ} where
  abbrev pub pure : A → Action A
  pure a w = (ok a, w)

  abbrev pub raise : Error → Action A
  raise e w = (err e, w)

  abbrev pub gets : (World → A) → Action A
  gets f w = (ok (f w), w)

  abbrev pub lift : Result Error A → Action A
  lift r w = (r, w)

abbrev pub modify : (World → World) → Action (Unit {0})
modify f w = (ok tt, f w)

module _ {ℓ κ} {A : Type ℓ} {B : Type κ} where
  abbrev pub continue : Result Error A → (A → Action B) → Action B
  continue (ok a) f w = f a w
  continue (err e) f w = (err e, w)

  infixl 10 ◌>>=◌
  abbrev pub ◌>>=◌ : Action A → (A → Action B) → Action B
  ◌>>=◌ m f w = let (r, w') = m w in continue r f w'

infixl 10 ◌>>◌
abbrev pub ◌>>◌ {ℓ} : {B : Type ℓ} → Action (Unit {0}) → Action B → Action B
m >> n = m >>= λ _. n

-- One statement: it fails where the next fault says so.
statement_with : List Bool → Action (Unit {0})
statement_with [] w = (ok tt, w)
statement_with (false ∷ rest) w = (ok tt, record w { faults = rest })
statement_with (true ∷ rest) w = (err store_failed, record w { faults = rest })

unfoldable pub statement : Action (Unit {0})
unfolding statement_with
statement w = statement_with w.faults w

files_with : List Bool → Action (Unit {0})
files_with [] w = (ok tt, w)
files_with (false ∷ rest) w = (ok tt, record w { faults = rest })
files_with (true ∷ rest) w = (err files_failed, record w { faults = rest })

-- A walk through the files of the recordings or their removal, which fails in the same way.
unfoldable pub file_access : Action (Unit {0})
unfolding files_with
file_access w = files_with w.faults w

abbrev pub or_raise {ℓ} : {A : Type ℓ} → Option A → Error → Action A
or_raise none e = raise e
or_raise (some a) e = pure a

-- An INSERT or an UPDATE on `attempts`, with the error for the row that it cannot write.
unfoldable pub write : (Attempts → Option Attempts) → Error → Action (Unit {0})
unfolding statement
write change e = do
  statement
  rows ← gets (λ w. change w.attempts)
  rows' ← or_raise rows e
  modify (λ w. record w { attempts = rows' })

-- `bus.publish`
abbrev pub publish : Event → Action (Unit {0})
publish ev = modify λ w. record w { events = ev ∷ w.events }
