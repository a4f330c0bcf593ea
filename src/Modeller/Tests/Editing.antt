-- ===== src/Modeller/Tests/Editing.antt =====
-- The theorems about renaming, deleting and adding steps (workflow-modeller/src/domain/rename.ts,
-- store/workflowStore.ts, panels/DeleteStepDialog.tsx) at the sample definition.
use rochallor_engine.Base.{
  arith, true, false, none, some, ◌≡◌, refl, map, not, filter_by, contains, All, IsDistinct, ◌==◌,
}
use rochallor_engine.Modeller.Types.{Step, WorkflowDefinition, service_task_type}
use rochallor_engine.Modeller.Samples.{charge, order_flow, order_state}
use rochallor_engine.Modeller.Graph.{push_step_edges}
use rochallor_engine.Modeller.Graph.Laws.{push_step_edges-targets, non_empty, ends}
use rochallor_engine.Modeller.Validate.Outgoing.{all_outgoing}
use rochallor_engine.Modeller.Rename.{ok, remap, rename_step_id}
use rochallor_engine.Modeller.Rename.Laws.{variant_refs, IsUnnamed, rename_step_id-back}
use rochallor_engine.Modeller.Store.State.{WorkflowState}
use rochallor_engine.Modeller.Store.Scrub.Laws.{ids}
use rochallor_engine.Modeller.Store.NewStep.{Template}
use rochallor_engine.Modeller.Store.Actions.{delete_step, add_step}
use rochallor_engine.Modeller.Store.Actions.Laws.{
  remaining, delete_step_lem, delete_step-unreferenced,
}
use rochallor_engine.Modeller.Store.Editing.{deleted, added, Edits, untouched, edited, IsLinked}
use rochallor_engine.Modeller.Store.Editing.Laws.{Edits-IsLinked}
use rochallor_engine.Modeller.References.Dialog.{replace_and_delete}
use rochallor_engine.Modeller.References.Dialog.Laws.{label, replace_and_delete-redirects}

push_step_edges-targets_example :
    non_empty (ends (push_step_edges charge)) ≡ non_empty (all_outgoing charge)
push_step_edges-targets_example = push_step_edges-targets charge

order_flow-IsUnnamed : All (IsUnnamed "settled") order_flow.steps
unfolding variant_refs
order_flow-IsUnnamed = (
  (refl, refl),
  (
    (refl, refl),
    ((refl, refl), ((refl, refl), ((refl, refl), ((refl, refl), ((refl, refl), tt))))),
  ),
)

rename_step_id-back_example :
    (def' : WorkflowDefinition) × (rename_step_id order_flow "done" "settled" ≡ ok def')
    × (rename_step_id def' "settled" "done" ≡ ok order_flow)
rename_step_id-back_example =
    rename_step_id-back order_flow "done" "settled" refl order_flow-IsUnnamed

delete_step-unreferenced_example :
    (s' : WorkflowState) × (delete_step "done" (some "meet") order_state ≡ ok s')
    × (ids s'.definition.steps ≡ filter_by (λ i. not (i == "done")) (ids order_flow.steps))
    × All (λ t. contains (all_outgoing t) "done" ≡ false) s'.definition.steps
delete_step-unreferenced_example = delete_step-unreferenced "done" (some "meet") order_state refl

replace_and_delete-redirects_example :
    (s' : WorkflowState) × (replace_and_delete "done" "meet" order_state ≡ ok s')
    × (ids s'.definition.steps ≡ filter_by (λ i. not (i == "done")) (ids order_flow.steps))
    × (map label s'.definition.steps
        ≡ map label (filter_by (λ (t : Step). not (t.id == "done")) order_flow.steps))
    × (map all_outgoing s'.definition.steps
        ≡ map
            (λ t. map (remap "done" "meet") (all_outgoing t))
            (filter_by (λ (t : Step). not (t.id == "done")) order_flow.steps))
replace_and_delete-redirects_example =
    replace_and_delete-redirects "done" "meet" order_state refl refl refl

order_flow-IsDistinct : IsDistinct (ids order_flow.steps)
order_flow-IsDistinct = (refl, (refl, (refl, (refl, (refl, (refl, (refl, tt)))))))

abbrev task : Template
task = record { type = service_task_type; id = some "pack"; name = none }

order_flow-IsLinked : IsLinked order_flow
unfolding all_outgoing
order_flow-IsLinked = (order_flow-IsDistinct, λ t h. ground arith)

abbrev without_pack : WorkflowState
without_pack = record order_state {
  definition = record order_flow { steps = remaining "pack" order_flow.steps };
  dirty = true;
}

-- The step pack is deleted, and another one is added under its id.
session : Edits order_state (add_step task without_pack).0
session =
    edited (edited untouched (deleted "pack" none refl (delete_step_lem "pack" none order_state)))
      (added task)

Edits-IsLinked_example : IsLinked (add_step task without_pack).0.definition
Edits-IsLinked_example =
    Edits-IsLinked order_state (add_step task without_pack).0 session order_flow-IsLinked
