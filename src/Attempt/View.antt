-- ===== src/Attempt/View.antt =====
-- internal/attempt/view.go: an attempt with its lab, as the pages and the other components see it.
use network_skill_lab.Prelude.{
  Bool, List, Option, Result, String, Time, [], codes, if◌then◌else◌, leb, map, milliseconds, none,
  ok, some, str_eq, sub_time, ℕ, ◌&&◌, ◌++◌, ◌-◌, ◌>>=◌, ◌∷◌,
}
use network_skill_lab.Content.Lab.{
  Bytes, Params, Localized, Checkpoint, TutorialStep, Lab, Resolved,
}
use network_skill_lab.Content.Render.{render_localized}
use network_skill_lab.Store.Model.{Attempt, Status, CheckpointRun, CheckStatus, pending}

pub record CheckpointView : Type 0 where
  pub id : String
  pub title : Localized
  pub status : CheckStatus
  pub visible : Bool
  pub first_passed_at : Option Time

pub record StepView : Type 0 where
  pub checkpoint : String
  pub instruction : Localized

pub record View : Type 0 where
  pub id : String
  pub user_id : String
  pub lab_id : String
  pub mode : String
  pub status : Status
  pub error_message : String
  pub sandbox_id : String
  pub runner : String
  pub lab : Lab
  pub case_id : String
  pub seed : Option ℕ
  pub params : Params
  pub env : Params
  pub nodes : List (String × String)
  pub checkpoints : List CheckpointView
  pub tutorial_steps : List StepView
  pub submit_count : ℕ
  pub elapsed_ms : ℕ
  pub started_at : Option Time
  pub ended_at : Option Time
  pub created_at : Time
  pub server_time : Time
  pub ticket : Localized

-- `now.Sub(*att.StartedAt)`, and 0 where that is negative.
unfoldable pub elapsed_of : Attempt → Time → ℕ
elapsed_of att now = elim att.started_at [ none ↦ 0 | some started ↦ sub_time now started ]

unfoldable pub elapsed_ms : Attempt → Time → ℕ
unfolding elapsed_of
elapsed_ms att now = elim att.ended_at [
  | none ↦ milliseconds (elapsed_of att now)
  | some ended ↦ att.elapsed_ms
]

abbrev upper : ℕ → ℕ
upper c = if leb b'a' c && leb c b'z' then c - 32 else c

-- `ParamsEnv` of content.go. Upper case is that of ASCII.
unfoldable pub params_env : Params → Params
params_env = map (λ p. (codes "NSL_" ++ map upper p.0, p.1))

-- `Resolved.Env`: the variables of the case come before those of the parameters.
unfoldable pub env_of : Resolved → Params
unfolding params_env
env_of r = r.setup_env ++ params_env r.params

-- `byID`; a checkpoint has one row, so the first is the only one.
unfoldable pub run_of : String → List CheckpointRun → Option CheckpointRun
run_of id [] = none
run_of id (r ∷ rs) = if str_eq r.checkpoint_id id then some r else run_of id rs

unfoldable pub checkpoint_view : Checkpoint → Localized → Option CheckpointRun → CheckpointView
checkpoint_view cp title none = record {
  id = cp.id;
  title = title;
  status = pending;
  visible = cp.visible;
  first_passed_at = none;
}
checkpoint_view cp title (some run) = record {
  id = cp.id;
  title = title;
  status = run.last_status;
  visible = cp.visible;
  first_passed_at = run.first_passed_at;
}

unfoldable pub checkpoint_views :
    Params → List CheckpointRun → List Checkpoint → Result (List Bytes) (List CheckpointView)
unfolding checkpoint_view run_of
checkpoint_views ps runs [] = ok []
checkpoint_views ps runs (cp ∷ cps) = do
  title ← render_localized cp.title ps
  rest ← checkpoint_views ps runs cps
  ok (checkpoint_view cp title (run_of cp.id runs) ∷ rest)

unfoldable pub step_views : Params → List TutorialStep → Result (List Bytes) (List StepView)
step_views ps [] = ok []
step_views ps (s ∷ ss) = do
  instruction ← render_localized s.instruction ps
  rest ← step_views ps ss
  ok (record { checkpoint = s.checkpoint; instruction = instruction } ∷ rest)

-- A lab with no tutorial has no steps, so the test on its length is the empty list.
unfoldable pub tutorial_steps : String → Lab → Params → Result (List Bytes) (List StepView)
unfolding step_views
tutorial_steps mode lab ps = if str_eq mode "tutorial" then step_views ps lab.tutorial else ok []

unfoldable pub new_view :
    Attempt → Lab → Resolved → List CheckpointRun → Time → Result (List Bytes) View
unfolding checkpoint_views tutorial_steps env_of elapsed_ms
new_view att lab resolved runs now = do
  ticket ← render_localized lab.ticket resolved.params
  checkpoints ← checkpoint_views resolved.params runs lab.checkpoints
  steps ← tutorial_steps att.mode lab resolved.params
  ok (record {
    id = att.id;
    user_id = att.user_id;
    lab_id = att.lab_id;
    mode = att.mode;
    status = att.status;
    error_message = att.error_message;
    sandbox_id = att.sandbox_id;
    runner = att.runner_id;
    lab = lab;
    case_id = att.case_id;
    seed = att.seed;
    params = resolved.params;
    env = env_of resolved;
    nodes = lab.nodes;
    checkpoints = checkpoints;
    tutorial_steps = steps;
    submit_count = att.submit_count;
    elapsed_ms = elapsed_ms att now;
    started_at = att.started_at;
    ended_at = att.ended_at;
    created_at = att.created_at;
    server_time = now;
    ticket = ticket;
  })
