-- ===== src/Attempt/Provision.antt =====
-- service.go: the goroutine that makes the sandbox of an attempt and repeats that while the precheck
-- fails. The answers of the runner, of the precheck and of the draw are parameters, by the number of
-- the try and by the seed. The steps that a runner reports while it works are left out, and
-- no other operation of the service is interleaved.
use network_skill_lab.Prelude.{
  Bool, Option, Result, String, [], err, false, if◌then◌else◌, none, ok, some, suc, true, zero, ℕ,
  ◌%◌, ◌+◌, ◌==◌, ◌^◌, ◌∷◌,
}
use network_skill_lab.Store.Attempts
use network_skill_lab.Store.Model.{Status, provisioning}
use network_skill_lab.Attempt.World.{
  Action, raise, gets, ◌>>=◌, ◌>>◌, write, publish, Error, World, row_missing, precheck_failed,
  provisioning_event,
}
use network_skill_lab.Attempt.Service.{is_connected, without, destroy, Site}
use network_skill_lab.Attempt.Ending.{end, reason_disconnected}
use network_skill_lab.Attempt.Starting.{promote}

-- What the runner and the lab answer: the sandbox of a try, whether its precheck passes, and the case
-- and parameters that a seed draws.
pub record Outside : Type 0 where
  pub made : ℕ → Result Error String
  pub prechecked : ℕ → Result Error Bool
  pub drawn : ℕ → Result Error (String × String)

-- `bind`
abbrev pub bind : String → String → World → World
bind sandbox name w = record w { sandboxes = (sandbox, name) ∷ without sandbox w.sandboxes }

abbrev pub Answer : Type 0
Answer = Result Error String × World

-- `runProvision`
abbrev pub run_provision : Result Error String → String → World → Answer
run_provision (err e) name w = (err e, w)
run_provision (ok sandbox) name w = (ok sandbox, bind sandbox name w)

module _ (outside : Outside) (id name : String) where
  -- A sandbox that is not wanted is destroyed before the error is returned.
  abbrev pub give_back : String → Error → World → Answer
  give_back sandbox e w = (err e, (destroy name id sandbox w).1)

  abbrev pub store_drawn : ℕ → Result Error (String × String) → Action (Unit {0})
  store_drawn seed (err e) = raise e
  store_drawn seed (ok (case, params)) =
      write (Attempts.set_resolved id seed case params) row_missing

  -- The end of a round whose precheck failed, up to `storeResolved`; `seed` is the next one.
  unfoldable pub renew : String → ℕ → ℕ → Action (Unit {0})
  renew sandbox attempt seed = do
    now ← gets (λ w. w.now)
    publish (provisioning_event id "precheck" (attempt + 1) now)
    destroy name id sandbox
    store_drawn seed (outside.drawn seed)

  abbrev pub renewed : (World → Option Answer) → Result Error (Unit {0}) × World → Option Answer
  renewed again (err e, w) = some (err e, w)
  renewed again (ok u, w) = again w

  abbrev pub next_seed : ℕ → ℕ
  next_seed seed = (seed + 1) % 2 ^ 64

  abbrev pub failed : (World → Option Answer) → Bool → ℕ → ℕ → String → World → Option Answer
  failed again true attempt seed sandbox w = some (give_back sandbox precheck_failed w)
  failed again false attempt seed sandbox w =
      renewed again (renew sandbox attempt (next_seed seed) w)

  abbrev pub judge :
      (World → Option Answer) → Result Error Bool → ℕ → ℕ → ℕ → String → World → Option Answer
  judge again (err e) total attempt seed sandbox w = some (give_back sandbox e w)
  judge again (ok true) total attempt seed sandbox w = some (ok sandbox, w)
  judge again (ok false) total attempt seed sandbox w =
      failed again (attempt == total) attempt seed sandbox w

  -- Without a precheck the first sandbox is taken.
  abbrev pub round : (World → Option Answer) → Option ℕ → ℕ → ℕ → Answer → Option Answer
  round again retries attempt seed (err e, w) = some (err e, w)
  round again none attempt seed (ok sandbox, w) = some (ok sandbox, w)
  round again (some total) attempt seed (ok sandbox, w) =
      judge again (outside.prechecked attempt) total attempt seed sandbox w

  -- `provisionUntilPrechecked` from a try on; `retries` is that of the precheck, if the lab has one.
  -- `none` is out of fuel.
  unfoldable pub provision_until : ℕ → Option ℕ → ℕ → ℕ → World → Option Answer
  provision_until zero retries attempt seed w = none
  provision_until (suc fuel) retries attempt seed w =
      round (provision_until fuel retries (attempt + 1) (next_seed seed)) retries attempt seed
        (run_provision (outside.made attempt) name w)

  -- `failProvision`; `reason` is the text of the cause.
  abbrev pub fail_provision : Site → String → World → World
  fail_provision site reason w =
      let shown = if is_connected name w.runners then reason else reason_disconnected in
      (end site id Status.error shown (provisioning ∷ []) w).1

  abbrev pub provisioned : Site → Bool → (Error → String) → Option Answer → Option World
  provisioned site stopping text none = none
  provisioned site stopping text (some (ok sandbox, w)) = some (promote id name sandbox w).1
  provisioned site stopping text (some (err e, w)) =
      some (if stopping then w else fail_provision site (text e) w)

  -- `provision`; `stopping` is whether the server shuts down when it fails.
  unfoldable pub provision :
      Site → Bool → (Error → String) → ℕ → Option ℕ → ℕ → World → Option World
  provision site stopping text fuel retries seed w =
      if is_connected name w.runners
      then provisioned site stopping text (provision_until fuel retries 1 seed w)
      else some (fail_provision site reason_disconnected w)
