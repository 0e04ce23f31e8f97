-- ===== src/Checker/Loops.antt =====
-- internal/checker/checker.go: the loops of the checker, one goroutine for an attempt that runs, and
-- the sweeps that they start. A part of a method under the mutex is one operation.
use network_skill_lab.Prelude.{
  Bool, List, Option, String, [], false, if◌then◌else◌, map, none, not, set, some, str_eq, suc,
  true, zero, ℕ, ◌&&◌, ◌||◌, ◌∷◌,
}
use network_skill_lab.Store.Model.{Status, provisioning, running}

-- The goroutine of a loop: whether its context is cancelled, whether it ticks or has returned, its flag
-- `sweeping`, how many of its sweeps run, and what waits in its channel `done`.
pub record Loop : Type 0 where
  pub attempt : String
  pub is_cancelled : Bool
  pub ticks : Bool
  pub is_over : Bool
  pub sweeping : Bool
  pub sweeps : ℕ
  pub results : ℕ

-- `loops` and `states` are the maps of the checker, `loop` the goroutines by their number.
pub record Loops : Type 0 where
  pub loops : String → Option ℕ
  pub states : String → Bool
  pub loop : ℕ → Loop
  pub next : ℕ

abbrev no_loop : Loop
no_loop = record {
  attempt = "";
  is_cancelled = true;
  ticks = false;
  is_over = true;
  sweeping = false;
  sweeps = 0;
  results = 0;
}

unfoldable pub new_loops : Loops
new_loops = record { loops = λ id. none; states = λ id. false; loop = λ l. no_loop; next = 0 }

abbrev pub put {ℓ} : {A : Type ℓ} → String → A → (String → A) → String → A
put key a map other = if str_eq key other then a else map other

abbrev pub new_loop : String → Loop
new_loop id = record {
  attempt = id;
  is_cancelled = false;
  ticks = false;
  is_over = false;
  sweeping = false;
  sweeps = 0;
  results = 0;
}

abbrev pub start_as : Option ℕ → String → Loops → Loops
start_as (some l) id c = c
start_as none id c = record c {
  loops = put id (some c.next) c.loops;
  loop = set c.next (new_loop id) c.loop;
  next = suc c.next;
}

-- `startLoop`
unfoldable pub start_loop : String → Loops → Loops
start_loop id c = start_as (c.loops id) id c

abbrev pub cancel_loop : Loop → Loop
cancel_loop l = record l { is_cancelled = true }

abbrev pub stop_as : Option ℕ → String → Loops → Loops
stop_as none id c = c
stop_as (some l) id c = record c {
  loops = put id none c.loops;
  loop = set l (cancel_loop (c.loop l)) c.loop;
}

-- `stopLoop`
unfoldable pub stop_loop : String → Loops → Loops
stop_loop id c = stop_as (c.loops id) id (record c { states = put id false c.states })

-- The `switch` of `dispatch` on the status of an event.
unfoldable pub on_status : Status → String → Loops → Loops
on_status running id c = start_loop id c
on_status provisioning id c = c
on_status _ id c = stop_loop id c

-- A loop returns, and its deferred `stopLoop` runs.
abbrev pub return_from : ℕ → Loops → Loops
return_from l c =
    stop_loop (c.loop l).attempt
      (record c { loop = set l (record (c.loop l) { is_over = true }) c.loop })

-- `stateFor`
unfoldable pub state_for : String → Loops → Loops
state_for id c = record c { states = put id true c.states }

abbrev pub begin_as : Bool → ℕ → Loops → Loops
begin_as false l c = return_from l c
begin_as true l c =
    state_for (c.loop l).attempt
      (record c { loop = set l (record (c.loop l) { ticks = true }) c.loop })

-- The start of `run`; `goes_on` is whether the attempt and its scripts are read, and there are any.
unfoldable pub begin_loop : Bool → ℕ → Loops → Loops
begin_loop goes_on l c = if (c.loop l).is_over || (c.loop l).ticks then c else begin_as goes_on l c

abbrev pub is_ticking : Loop → Bool
is_ticking l = l.ticks && not l.is_over

abbrev pub begin_sweep : Loop → Loop
begin_sweep l = record l { sweeping = true; sweeps = suc l.sweeps }

-- A tick, which begins a sweep unless one runs.
unfoldable pub tick : ℕ → Loops → Loops
tick l c =
    if is_ticking (c.loop l) && not (c.loop l).sweeping
    then record c { loop = set l (begin_sweep (c.loop l)) c.loop }
    else c

abbrev pub sweep_done : ℕ → Loop → Loop
sweep_done zero l = l
sweep_done (suc n) l = record l { sweeps = n; results = suc l.results }

-- A sweep ends, and its outcome goes into the channel, which has room for one.
unfoldable pub end_sweep : ℕ → Loops → Loops
end_sweep l c = record c { loop = set l (sweep_done (c.loop l).sweeps (c.loop l)) c.loop }

abbrev pub take_as : Bool → Bool → ℕ → ℕ → Loops → Loops
take_as true is_final n l c =
    return_from l (record c { loop = set l (record (c.loop l) { results = n }) c.loop })
take_as false true n l c =
    return_from l
      (record c { loop = set l (record (c.loop l) { results = n; sweeping = false }) c.loop })
take_as false false n l c = record c {
  loop = set l (record (c.loop l) { results = n; sweeping = false }) c.loop;
}

abbrev pub take_if : ℕ → Bool → ℕ → Loops → Loops
take_if zero is_final l c = c
take_if (suc n) is_final l c = take_as (c.loop l).is_cancelled is_final n l c

-- The loop takes an outcome; `is_final` is whether all has passed and the mode is not `real`.
unfoldable pub take_result : Bool → ℕ → Loops → Loops
take_result is_final l c =
    if is_ticking (c.loop l) then take_if (c.loop l).results is_final l c else c

-- The loop sees that its context is cancelled.
unfoldable pub leave_loop : ℕ → Loops → Loops
leave_loop l c = if is_ticking (c.loop l) && (c.loop l).is_cancelled then return_from l c else c

pub data Step : Type 0 where
  events : Status → String → Step
  begins takes : Bool → ℕ → Step
  ticks_on ends leaves : ℕ → Step

abbrev pub step : Step → Loops → Loops
step (events status id) c = on_status status id c
step (begins goes_on l) c = begin_loop goes_on l c
step (takes is_final l) c = take_result is_final l c
step (ticks_on l) c = tick l c
step (ends l) c = end_sweep l c
step (leaves l) c = leave_loop l c

abbrev pub run : List Step → Loops → Loops
run [] c = c
run (s ∷ steps) c = run steps (step s c)
