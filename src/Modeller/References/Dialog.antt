-- ===== src/Modeller/References/Dialog.antt =====
-- The button `Replace & delete` of workflow-modeller/src/panels/DeleteStepDialog.tsx: every
-- reference to the step is rewritten to the replacement, and the step is deleted.
pub mod Laws
use rochallor_engine.Base.{Option, none, List, map, true, is_empty, if◌then◌else◌, ◌||◌}
use rochallor_engine.Modeller.Types.{StepId, Step}
use rochallor_engine.Modeller.Rename.{Result, ok}
use rochallor_engine.Modeller.Store.State.{WorkflowState}
use rochallor_engine.Modeller.Store.Actions.{delete_step}
use rochallor_engine.Modeller.References.{rewrite_refs}

unfoldable pub rewrite_all : StepId → StepId → WorkflowState → WorkflowState
rewrite_all old_id new_id s = record s {
  definition = record (s.definition) {
    steps = map (λ t. rewrite_refs t old_id new_id) s.definition.steps;
  };
  dirty = true;
}

unfoldable pub replace_and_delete : StepId → StepId → WorkflowState → Result WorkflowState
unfolding rewrite_all
replace_and_delete id replacement s =
    if is_empty id || is_empty replacement
    then ok s
    else delete_step id none (rewrite_all id replacement s)
