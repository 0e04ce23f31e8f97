-- ===== src/Content/Tutorial.antt =====
-- `checkTutorial` of internal/content/validate_rules.go.
use network_skill_lab.Prelude.{
  Bool, List, Option, Result, String, [], contains, err, false, if◌then◌else◌, ltb, none, ok, some,
  suc, true, ℕ, ◌++◌, ◌∷◌,
}
use network_skill_lab.Content.Lab.{Bytes, Checkpoint, TutorialStep, Lab}
use network_skill_lab.Content.Render.{render}
use network_skill_lab.Content.Topology.{entry}
use network_skill_lab.Content.Links.{ParamSet, is_some}

-- The errors, by the index of the step or the checkpoint that they name.
pub data TutorialError : Type 0 where
  not_allowed empty_tutorial : TutorialError
  hidden_checkpoint duplicate_step not_visible empty_instruction : ℕ → TutorialError
  bad_instruction : ℕ → String → TutorialError
  no_step : String → TutorialError
  comes_before : ℕ → String → String → TutorialError

abbrev pub hidden : ℕ → List Checkpoint → List TutorialError
hidden i [] = []
hidden i (cp ∷ cps) =
    let rest = hidden (suc i) cps in if cp.visible then rest else hidden_checkpoint i ∷ rest

abbrev pub visible_ids : List Checkpoint → List String
visible_ids [] = []
visible_ids (cp ∷ cps) = let rest = visible_ids cps in if cp.visible then cp.id ∷ rest else rest

-- `position`
abbrev pub Positions : Type 0
Positions = List (String × ℕ)

abbrev pub add_position : Bool → String → ℕ → Positions → Positions
add_position true id i pos = pos
add_position false id i pos = (id, i) ∷ pos

abbrev pub positions : List TutorialStep → ℕ → Positions → Positions
positions [] i pos = pos
positions (s ∷ steps) i pos =
    positions steps (suc i) (add_position (is_some (entry s.checkpoint pos)) s.checkpoint i pos)

abbrev rendered_errors : ℕ → String → Result (List Bytes) Bytes → List TutorialError
rendered_errors i case_id (ok text) = []
rendered_errors i case_id (err unknown) = bad_instruction i case_id ∷ []

abbrev in_sets : ℕ → Bytes → List ParamSet → List TutorialError
in_sets i text [] = []
in_sets i text (set ∷ sets) =
    rendered_errors i set.case_id (render text set.params) ++ in_sets i text sets

abbrev instruction_errors : ℕ → Bytes → List ParamSet → List TutorialError
instruction_errors i [] sets = empty_instruction i ∷ []
instruction_errors i (b ∷ bs) sets = in_sets i (b ∷ bs) sets

abbrev pub new_step : ℕ → TutorialStep → List String → List ParamSet → List TutorialError
new_step i s visible sets =
    (if contains visible s.checkpoint then [] else not_visible i ∷ [])
    ++ instruction_errors i s.instruction.zh sets
    ++ instruction_errors i s.instruction.en sets

abbrev pub step_as : Bool → ℕ → TutorialStep → List String → List ParamSet → List TutorialError
step_as true i s visible sets = duplicate_step i ∷ []
step_as false i s visible sets = new_step i s visible sets

-- The loop over the steps.
abbrev pub step_errors :
    List TutorialStep → ℕ → Positions → List String → List ParamSet → List TutorialError
step_errors [] i pos visible sets = []
step_errors (s ∷ steps) i pos visible sets =
    let seen = is_some (entry s.checkpoint pos) in
    step_as seen i s visible sets
    ++ step_errors steps (suc i) (add_position seen s.checkpoint i pos) visible sets

abbrev pub stepless : List String → Positions → List TutorialError
stepless [] pos = []
stepless (id ∷ ids) pos =
    let rest = stepless ids pos in if is_some (entry id pos) then rest else no_step id ∷ rest

abbrev pub late : String → ℕ → String → Option ℕ → List TutorialError
late cp step id none = []
late cp step id (some required) = if ltb step required then comes_before step cp id ∷ [] else []

abbrev pub order_of : String → ℕ → List String → Positions → List TutorialError
order_of cp step [] pos = []
order_of cp step (id ∷ ids) pos = late cp step id (entry id pos) ++ order_of cp step ids pos

abbrev pub order_at : Option ℕ → Checkpoint → Positions → List TutorialError
order_at none cp pos = []
order_at (some step) cp pos = order_of cp.id step cp.requires pos

abbrev pub order_errors : List Checkpoint → Positions → List TutorialError
order_errors [] pos = []
order_errors (cp ∷ cps) pos = order_at (entry cp.id pos) cp pos ++ order_errors cps pos

abbrev pub wanted_errors : List TutorialStep → List Checkpoint → List ParamSet → List TutorialError
wanted_errors [] cps sets = hidden 0 cps ++ empty_tutorial ∷ []
wanted_errors (s ∷ steps) cps sets =
    let pos = positions (s ∷ steps) 0 [] in
    hidden 0 cps
    ++ step_errors (s ∷ steps) 0 [] (visible_ids cps) sets
    ++ stepless (visible_ids cps) pos
    ++ order_errors cps pos

abbrev pub unwanted_errors : List TutorialStep → List TutorialError
unwanted_errors [] = []
unwanted_errors (s ∷ steps) = not_allowed ∷ []

-- `checkTutorial`, with the sets of `paramSets`.
unfoldable pub check_tutorial : Lab → List ParamSet → List TutorialError
check_tutorial lab sets =
    if contains lab.modes "tutorial"
    then wanted_errors lab.tutorial lab.checkpoints sets
    else unwanted_errors lab.tutorial
