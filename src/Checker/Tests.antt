-- ===== src/Checker/Tests.antt =====
-- Sweeps over two checkpoints, of which the first passes in each of them, and the steps of a loop.
use network_skill_lab.Prelude.{
  All, List, String, [], false, none, refl, some, true, ℕ, ◌↔◌, ◌∷◌, ◌≡◌, ◌≤◌, ◌⊎◌,
}
use network_skill_lab.Checker.Sweep.{check, Sweep, Answer, Board, sweep}
use network_skill_lab.Store.Model.{passed, running}
use network_skill_lab.Checker.Loops.{
  new_loops, on_status, start_loop, stop_loop, begin_loop, tick, end_sweep, leave_loop, state_for,
  Step, run, events, begins, ticks_on, ends, leaves,
}
use network_skill_lab.Checker.Single.{one_loop_each}
use network_skill_lab.Checker.First.{
  sweeps_first, sweep_passes, sweeps_on, first_pass, or_first, Succeeded,
}

abbrev at_time : ℕ → Sweep
at_time t = record {
  attempt_id = "attempt";
  is_real = false;
  is_cancelled = false;
  now = t;
  saves = λ id. true;
}

-- A sweep whose context is cancelled while its scripts run.
abbrev dropped : Sweep
dropped = record (at_time 2) { is_cancelled = true }

abbrev answers : List (String × Answer)
answers = ("ping", some (0, false)) ∷ ("dns", some (1, false)) ∷ []

abbrev empty : Board
empty = record { last = λ id. none; first_passed = λ id. none; runs = []; events = [] }

sweeps_first_example :
    (sweeps_on
        ((dropped, answers) ∷ (at_time 5, answers) ∷ (at_time 9, answers) ∷ [])
        empty).first_passed
      "ping"
    ≡ or_first
        (empty.first_passed "ping")
        (first_pass "ping" ((dropped, answers) ∷ (at_time 5, answers) ∷ (at_time 9, answers) ∷ []))
sweeps_first_example =
    sweeps_first ((dropped, answers) ∷ (at_time 5, answers) ∷ (at_time 9, answers) ∷ []) empty
      "ping"

first_is_five :
    first_pass "ping" ((dropped, answers) ∷ (at_time 5, answers) ∷ (at_time 9, answers) ∷ [])
    ≡ some 5
unfolding check
first_is_five = refl

sweep_passes_example :
    ((sweep (at_time 5) answers empty).0 ≡ true)
    ↔ (((at_time 5).is_cancelled ≡ false) × All Succeeded answers)
sweep_passes_example = sweep_passes (at_time 5) answers empty

-- A loop starts, sweeps once, and is cancelled while it waits; the attempt runs again.
abbrev loop_steps : List Step
loop_steps =
    events running "attempt"
    ∷ begins true 0
    ∷ ticks_on 0
    ∷ ticks_on 0
    ∷ ends 0
    ∷ events passed "attempt"
    ∷ leaves 0
    ∷ events running "attempt"
    ∷ []

same_attempt :
    ((run loop_steps new_loops).loop 1).attempt ≡ ((run loop_steps new_loops).loop 0).attempt
unfolding new_loops on_status start_loop stop_loop begin_loop tick end_sweep leave_loop state_for
same_attempt = refl

one_loop_each_example :
    (((run loop_steps new_loops).loop 1).sweeps ≤ 1)
    × ((((run loop_steps new_loops).loop 1).is_cancelled ≡ true)
        ⊎ ((run loop_steps new_loops).loops ((run loop_steps new_loops).loop 1).attempt ≡ some 1))
    × ((((run loop_steps new_loops).loop 1).is_cancelled ≡ true)
        ⊎ (((run loop_steps new_loops).loop 0).is_cancelled ≡ true)
        ⊎ (◌≡◌ {A = ℕ} 1 0))
one_loop_each_example = one_loop_each loop_steps 1 0 same_attempt
