-- ===== src/Checker/Sweep.antt =====
-- `check`, `sweep` and `record` of internal/checker/checker.go, with the statement of
-- internal/store/checkpoint_runs.go that `record` makes.
use network_skill_lab.Prelude.{
  Bool, List, Option, String, Time, [], false, if◌then◌else◌, map, none, not, some, str_eq, suc,
  true, zero, ℕ, ◌&&◌, ◌∷◌,
}
use network_skill_lab.Store.Attempts.{stored?}
use network_skill_lab.Store.Model.{CheckStatus, CheckpointRun}

abbrev pub is_pass : CheckStatus → Bool
is_pass CheckStatus.pass = true
is_pass _ = false

abbrev pub same_status : CheckStatus → CheckStatus → Bool
same_status CheckStatus.pending CheckStatus.pending = true
same_status CheckStatus.pass CheckStatus.pass = true
same_status CheckStatus.fail CheckStatus.fail = true
same_status CheckStatus.error CheckStatus.error = true
same_status _ _ = false

-- What `Exec` answers: `none` where the call failed, or the exit code and whether the time ran out.
abbrev pub Answer : Type 0
Answer = Option (ℕ × Bool)

unfoldable pub check : Answer → CheckStatus
check none = CheckStatus.error
check (some (code, true)) = CheckStatus.error
check (some (zero, false)) = CheckStatus.pass
check (some (suc code, false)) = CheckStatus.fail

-- The columns `first_passed_at` and `last_run_at` of the row that is inserted.
unfoldable pub as_inserted : CheckpointRun → CheckpointRun
as_inserted run = record run {
  first_passed_at =
      if is_pass run.last_status
      then stored? (elim run.first_passed_at [ some t ↦ some t | none ↦ run.last_run_at ])
      else none;
  last_run_at = stored? run.last_run_at;
}

-- COALESCE
abbrev coalesce : Option Time → Option Time → Option Time
coalesce none new = new
coalesce (some t) new = some t

abbrev same_key : CheckpointRun → CheckpointRun → Bool
same_key a b = str_eq a.attempt_id b.attempt_id && str_eq a.checkpoint_id b.checkpoint_id

abbrev place : CheckpointRun → List CheckpointRun → List CheckpointRun
place new [] = new ∷ []
place new (old ∷ rows) =
    let rest = place new rows in
    if same_key old new
    then record new { first_passed_at = coalesce old.first_passed_at new.first_passed_at } ∷ rows
    else old ∷ rest

-- `CheckpointRuns.Upsert`
unfoldable pub upsert : CheckpointRun → List CheckpointRun → List CheckpointRun
upsert run rows = place (as_inserted run) rows

-- `attempt.CheckpointEvent`
pub record CheckpointEvent : Type 0 where
  pub id : String
  pub status : CheckStatus
  pub first_passed_at : Option Time

-- `sweepState` with the table and the events, the newest first.
pub record Board : Type 0 where
  pub last : String → Option CheckStatus
  pub first_passed : String → Option Time
  pub runs : List CheckpointRun
  pub events : List CheckpointEvent

abbrev pub set {ℓ} : {A : Type ℓ} → String → A → (String → Option A) → String → Option A
set key value map other = if str_eq key other then some value else map other

-- What a sweep is about: the attempt, whether it is in real mode, whether its context is cancelled once
-- the scripts have answered, its time, and whether the table takes the row of a checkpoint.
pub record Sweep : Type 0 where
  pub attempt_id : String
  pub is_real : Bool
  pub is_cancelled : Bool
  pub now : Time
  pub saves : String → Bool

abbrev pub mark : Time → String → CheckStatus → (String → Option Time) → String → Option Time
mark now id status first =
    if is_pass status then elim (first id) [ some t ↦ first | none ↦ set id now first ] else first

abbrev is_news : Option CheckStatus → CheckStatus → Bool
is_news none status = true
is_news (some previous) status = not (same_status previous status)

-- The body of the loop of `sweep`. A row that the table does not take is only logged.
unfoldable pub note : Sweep → String → CheckStatus → Board → Board
note sw id status b =
    let first = mark sw.now id status b.first_passed in
    let run : CheckpointRun = record {
      attempt_id = sw.attempt_id;
      checkpoint_id = id;
      first_passed_at = first id;
      last_status = status;
      last_run_at = some sw.now;
    } in
    let event : CheckpointEvent = record { id = id; status = status; first_passed_at = first id } in
    record {
      last = set id status b.last;
      first_passed = first;
      runs = if sw.saves id then upsert run b.runs else b.runs;
      events = if not sw.is_real && is_news (b.last id) status then event ∷ b.events else b.events;
    }

-- The results of the scripts, in the order of the checkpoints.
abbrev pub Results : Type 0
Results = List (String × CheckStatus)

unfoldable pub note_all : Sweep → Results → Board → Board
note_all sw [] b = b
note_all sw ((id, status) ∷ results) b = note_all sw results (note sw id status b)

unfoldable pub all_pass : Results → Bool
all_pass [] = true
all_pass ((id, status) ∷ results) = let rest = all_pass results in is_pass status && rest

abbrev pub check_all : List (String × Answer) → Results
check_all [] = []
check_all ((id, answer) ∷ answers) = (id, check answer) ∷ check_all answers

-- `sweep`: whether all pass, and the board it leaves. The results of a cancelled sweep are dropped.
unfoldable pub sweep : Sweep → List (String × Answer) → Board → Bool × Board
sweep sw answers b =
    let results = check_all answers in
    if sw.is_cancelled then (false, b) else (all_pass results, note_all sw results b)
