-- ===== src/Store/Model.antt =====
-- internal/store/model.go, and the checks of migrations/0001_init.sql on the two status columns.
use network_skill_lab.Prelude.{Bool, Option, String, Time, false, millisecond, true, ℕ, ◌*◌, ◌/◌}

pub data Status : Type 0 where
  provisioning running passed abandoned expired error : Status

pub data CheckStatus : Type 0 where
  pending pass fail error : CheckStatus

-- A pointer is an `Option`; an empty string stands for itself and for NULL.
pub record Attempt : Type 0 where
  pub id : String
  pub user_id : String
  pub lab_id : String
  pub lab_version : ℕ
  pub case_id : String
  pub mode : String
  pub params_json : String
  pub seed : Option ℕ
  pub submit_count : ℕ
  pub status : Status
  pub error_message : String
  pub started_at : Option Time
  pub ended_at : Option Time
  pub elapsed_ms : ℕ
  pub runner_id : String
  pub sandbox_id : String
  pub created_at : Time

pub record CheckpointRun : Type 0 where
  pub attempt_id : String
  pub checkpoint_id : String
  pub first_passed_at : Option Time
  pub last_status : CheckStatus
  pub last_run_at : Option Time

-- `ProgressDoc` and `ProgressLab`
pub data Kind : Type 0 where
  progress_doc progress_lab : Kind

pub record ProgressEntry : Type 0 where
  pub user_id : String
  pub kind : Kind
  pub ref : String
  pub completed_at : Time

abbrev pub is_active : Status → Bool
is_active provisioning = true
is_active running = true
is_active _ = false

-- `formatTime` and `parseTime`: a time is stored in whole milliseconds.
unfoldable pub stored : Time → Time
stored t = t / millisecond * millisecond
