-- ===== src/Modeller/Store/Editing.antt =====
-- Editing sessions: sequences of the actions of workflow-modeller/src/store/workflowStore.ts that
-- change the steps, with the replacement of panels/DeleteStepDialog.tsx.
pub mod Links
pub mod Deleting
pub mod Renaming
pub mod Laws
use rochallor_engine.Base.{
  String, Bool, true, false, Option, List, [], ◌∷◌, ◌≡◌, ◌==◌, is_empty, contains, flat_map, map,
  IsDistinct, ◌||◌,
}
use rochallor_engine.Modeller.Types.{StepId, Step, WorkflowDefinition}
use rochallor_engine.Modeller.Rename.{ok}
use rochallor_engine.Modeller.Validate.Outgoing.{all_outgoing}
use rochallor_engine.Modeller.Store.State.{WorkflowState}
use rochallor_engine.Modeller.Store.NewStep.{Template}
use rochallor_engine.Modeller.Store.Scrub.Laws.{ids}
use rochallor_engine.Modeller.Store.Actions.{add_step, delete_step, rename_step}
use rochallor_engine.Modeller.References.Dialog.{replace_and_delete}

-- One edit. The ids that the panels pass are not empty, and the replacement that the dialog offers
-- is the id of another step.
pub data Edit (s : WorkflowState) : WorkflowState → Type 0 where
  added : (template : Template) → Edit s (add_step template s).0
  deleted :
      {s' : WorkflowState} (id : StepId) (replacement : Option StepId)
      → is_empty id ≡ false
      → delete_step id replacement s ≡ ok s'
      → Edit s s'
  renamed :
      {s' : WorkflowState} (old_id new_id : StepId)
      → is_empty old_id ≡ false
      → is_empty new_id ≡ false
      → rename_step old_id new_id s ≡ ok s'
      → Edit s s'
  replaced :
      {s' : WorkflowState} (id replacement : StepId)
      → is_empty id ≡ false
      → is_empty replacement ≡ false
      → (id == replacement) ≡ false
      → contains (ids s.definition.steps) replacement ≡ true
      → replace_and_delete id replacement s ≡ ok s'
      → Edit s s'

pub data Edits (s : WorkflowState) : WorkflowState → Type 0 where
  untouched : Edits s s
  edited : {t u : WorkflowState} → Edits s t → Edit t u → Edits s u

-- Every target is empty (not chosen yet) or one of the ids.
abbrev pub Links : List StepId → List StepId → Type 0
Links ids targets = (t : StepId) → contains targets t ≡ true → is_empty t || contains ids t ≡ true

-- The ids of the steps are distinct, and no edge dangles.
abbrev pub IsLinked : WorkflowDefinition → Type 0
IsLinked def = IsDistinct (ids def.steps) × Links (ids def.steps) (flat_map all_outgoing def.steps)
