-- ===== src/Client/Keeper.antt =====
-- internal/runnerclient/client.go: the sandboxes of a runner over its connections, and the retry of the
-- connection. A timer is a number; a function of it that has begun waits for the mutex.
use network_skill_lab.Prelude.{
  Bool, List, Option, String, [], ap, arith, false, if◌then◌else◌, min, none, refl, set, some, suc,
  true, zero, ℕ, ◌*◌, ◌++◌, ◌==◌, ◌∷◌, ◌≡◌, ◌≢◌,
}
use network_skill_lab.Client.Dispatch.{track, untrack}

-- `expiry` is the timer of the field, `running` tells of the timers that have neither fired nor been
-- stopped, and `firing` counts the functions that wait. `destroyed` holds what `Destroy` was asked for.
pub record Keeper : Type 0 where
  pub sandboxes : List String
  pub expiry : Option ℕ
  pub running : ℕ → Bool
  pub next_timer : ℕ
  pub firing : ℕ
  pub destroyed : List String

unfoldable pub new_keeper : Keeper
new_keeper = record {
  sandboxes = [];
  expiry = none;
  running = λ t. false;
  next_timer = 0;
  firing = 0;
  destroyed = [];
}

-- `c.expiry.Stop()` and `c.expiry = nil`, where there is a timer.
abbrev pub stop : Option ℕ → Keeper → Keeper
stop none k = k
stop (some t) k = record k { expiry = none; running = set t false k.running }

-- `connected`
unfoldable pub connected : Keeper → Keeper
connected k = stop k.expiry k

abbrev pub set_timer : Option ℕ → List String → Keeper → Keeper
set_timer (some t) sandboxes k = k
set_timer none [] k = k
set_timer none (s ∷ ss) k = record k {
  expiry = some k.next_timer;
  running = set k.next_timer true k.running;
  next_timer = suc k.next_timer;
}

-- `disconnected`
unfoldable pub disconnected : Keeper → Keeper
disconnected k = set_timer k.expiry k.sandboxes k

-- `destroyAll`: the sandboxes are taken out under the mutex, and then destroyed one by one.
unfoldable pub destroy_all : Keeper → Keeper
destroy_all k =
    let k' = stop k.expiry (record k { sandboxes = [] }) in
    record k' { destroyed = k.sandboxes ++ k'.destroyed }

abbrev pub fire_if : Bool → ℕ → Keeper → Keeper
fire_if false t k = k
fire_if true t k = record k { running = set t false k.running; firing = suc k.firing }

-- A timer runs out, which starts its function.
unfoldable pub fire : ℕ → Keeper → Keeper
fire t k = fire_if (k.running t) t k

abbrev pub expire_if : ℕ → Keeper → Keeper
expire_if zero k = k
expire_if (suc n) k = destroy_all (record k { firing = n })

-- The function of a timer gets the mutex.
unfoldable pub expire : Keeper → Keeper
expire k = expire_if k.firing k

pub data Event : Type 0 where
  connects disconnects expires stops : Event
  provisions destroys : String → Event
  fires : ℕ → Event

abbrev pub step : Event → Keeper → Keeper
step connects k = connected k
step disconnects k = disconnected k
step expires k = expire k
step stops k = destroy_all k
step (provisions sandbox) k = record k { sandboxes = track sandbox k.sandboxes }
step (destroys sandbox) k = record k { sandboxes = untrack sandbox k.sandboxes }
step (fires t) k = fire t k

abbrev pub run : List Event → Keeper → Keeper
run [] k = k
run (e ∷ events) k = run events (step e k)

-- `defaultMinBackoff` and `defaultMaxBackoff`, in milliseconds.
abbrev pub min_backoff : ℕ
min_backoff = 1000

abbrev pub max_backoff : ℕ
max_backoff = 30000

-- How long `run` waits after a session that was welcomed or not, and what it starts the next from.
abbrev pub wait_of : Bool → ℕ → ℕ
wait_of welcomed backoff = if welcomed then min_backoff else backoff

unfoldable pub next_backoff : Bool → ℕ → ℕ
next_backoff welcomed backoff = min (wait_of welcomed backoff * 2) max_backoff

-- What `run` waits after each of its sessions, from the backoff it has.
abbrev pub waits : List Bool → ℕ → List ℕ
waits [] backoff = []
waits (welcomed ∷ rest) backoff =
    wait_of welcomed backoff ∷ waits rest (next_backoff welcomed backoff)

-- A timer that runs is the one of the field.
abbrev pub IsKept : Keeper → Type 0
IsKept k = (t : ℕ) → k.running t ≡ true → k.expiry ≡ some t

set-running :
    (t u : ℕ) (b : Bool) (running : ℕ → Bool) (P : Type 0)
    → (t ≡ u → b ≡ true → P)
    → (t ≢ u → running u ≡ true → P)
    → set t b running u ≡ true
    → P
set-running t u b running P put kept h = at (t == u) refl h
  where
    at : (c : Bool) → (t == u) ≡ c → (if c then b else running u) ≡ true → P
    at true e g = put (ground arith) g
    at false e g = kept (ground arith) g

stop-IsKept : (o : Option ℕ) (k : Keeper) → k.expiry ≡ o → IsKept k → IsKept (stop o k)
stop-IsKept none k e v = v
stop-IsKept (some t) k e v = λ u.
    set-running t u false k.running (none ≡ some u) (λ same h. absurd (cc))
      (λ apart h. let mine = v u h in let same : t ≡ u = cc in absurd (apart same))

set_timer-IsKept :
    (o : Option ℕ) (ss : List String) (k : Keeper)
    → k.expiry ≡ o
    → IsKept k
    → IsKept (set_timer o ss k)
set_timer-IsKept (some t) ss k e v = v
set_timer-IsKept none [] k e v = v
set_timer-IsKept none (s ∷ ss) k e v = λ u.
    set-running k.next_timer u true k.running (some k.next_timer ≡ some u)
      (λ same h. ap (λ n. some n) same) (λ apart h. let mine = v u h in absurd (cc (e, mine)))

fire_if-IsKept : (b : Bool) (t : ℕ) (k : Keeper) → IsKept k → IsKept (fire_if b t k)
fire_if-IsKept false t k v = v
fire_if-IsKept true t k v = λ u.
    set-running t u false k.running (k.expiry ≡ some u) (λ same h. absurd (cc)) (λ apart h. v u h)

destroy_all-IsKept : (k : Keeper) → IsKept k → IsKept (destroy_all k)
unfolding destroy_all
destroy_all-IsKept k v = stop-IsKept k.expiry (record k { sandboxes = [] }) refl v

expire_if-IsKept : (n : ℕ) (k : Keeper) → IsKept k → IsKept (expire_if n k)
expire_if-IsKept zero k v = v
expire_if-IsKept (suc n) k v = destroy_all-IsKept (record k { firing = n }) v

step-IsKept : (e : Event) (k : Keeper) → IsKept k → IsKept (step e k)
unfolding connected disconnected fire expire
step-IsKept connects k v = stop-IsKept k.expiry k refl v
step-IsKept disconnects k v = set_timer-IsKept k.expiry k.sandboxes k refl v
step-IsKept expires k v = expire_if-IsKept k.firing k v
step-IsKept stops k v = destroy_all-IsKept k v
step-IsKept (provisions sandbox) k v = v
step-IsKept (destroys sandbox) k v = v
step-IsKept (fires t) k v = fire_if-IsKept (k.running t) t k v

pub run-IsKept : (events : List Event) (k : Keeper) → IsKept k → IsKept (run events k)
run-IsKept [] k v = v
run-IsKept (e ∷ events) k v = run-IsKept events (step e k) (step-IsKept e k v)
