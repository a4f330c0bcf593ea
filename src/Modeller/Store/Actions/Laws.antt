-- ===== src/Modeller/Store/Actions/Laws.antt =====
-- What the actions of workflow-modeller/src/store/workflowStore.ts keep.
use rochallor_engine.Base.{
  true, false, Option, none, some, List, [], ◌∷◌, ◌++◌, ◌≡◌, refl, map, not, is_empty, contains,
  filter_by, arith, ◌==◌, ==_iff, ==_refl, All, IsDistinct, contains-append,
}
use mathlib.Core.List.{map-append}
use rochallor_engine.Modeller.Types.{StepId, Step, WorkflowDefinition}
use rochallor_engine.Modeller.Rename.{ok, rename_step_id}
use rochallor_engine.Modeller.Validate.Outgoing.{all_outgoing}
use rochallor_engine.Modeller.Store.State.{WorkflowState}
use rochallor_engine.Modeller.Store.Scrub.{scrub_step, scrub_refs}
use rochallor_engine.Modeller.Store.Scrub.Laws.{ids, ids-deleted, scrubbed-unreferenced}
use rochallor_engine.Modeller.Store.NewStep.{Template, new_step, step_ids}
use rochallor_engine.Modeller.Store.NewStep.Laws.{unique_step_id-fresh}
use rochallor_engine.Modeller.Store.Actions.{
  without_step, rename_replacement, delete_step, add_step,
}

rename_replacement_lem :
    (replacement : Option StepId) (def : WorkflowDefinition)
    → rename_replacement replacement def ≡ ok def
unfolding rename_replacement rename_step_id
rename_replacement_lem none def = refl
rename_replacement_lem (some r) def = ground (arith, ==_refl r)

-- The steps that a deletion leaves.
abbrev pub remaining : StepId → List Step → List Step
remaining id steps = map (scrub_step id) (filter_by (λ (t : Step). not (t.id == id)) steps)

pub delete_step_lem :
    (id : StepId) (replacement : Option StepId) (s : WorkflowState)
    → delete_step id replacement s
      ≡ ok (record s {
        definition = record (s.definition) { steps = remaining id s.definition.steps };
        dirty = true;
      })
unfolding delete_step without_step scrub_refs
delete_step_lem id replacement s =
    let rest = filter_by (λ (t : Step). not (t.id == id)) s.definition.steps in
    rw (delete_step, rename_replacement_lem replacement (record (s.definition) { steps = rest }))

-- Deleting a step whose id is not empty never throws, whatever replacement is named: the steps that
-- are left are those with another id, in their order, and no edge leads to the deleted id.
pub delete_step-unreferenced :
    (id : StepId) (replacement : Option StepId) (s : WorkflowState)
    → is_empty id ≡ false
    → (s' : WorkflowState) × (delete_step id replacement s ≡ ok s')
      × (ids s'.definition.steps ≡ filter_by (λ i. not (i == id)) (ids s.definition.steps))
      × All (λ t. contains (all_outgoing t) id ≡ false) s'.definition.steps
delete_step-unreferenced id replacement s text =
    let rest = filter_by (λ (t : Step). not (t.id == id)) s.definition.steps in
    (
      record s {
        definition = record (s.definition) { steps = remaining id s.definition.steps };
        dirty = true;
      },
      delete_step_lem id replacement s,
      ids-deleted id s.definition.steps,
      scrubbed-unreferenced id rest text,
    )

IsDistinct-snoc :
    (xs : List StepId) (x : StepId)
    → IsDistinct xs
    → contains xs x ≡ false
    → IsDistinct (xs ++ x ∷ [])
IsDistinct-snoc [] x h fresh = (refl, tt)
IsDistinct-snoc (y ∷ xs) x h fresh = (
  rw (contains-append xs (x ∷ []) y) (ground (arith, h.0, ==_iff x y, ==_iff y x)),
  IsDistinct-snoc xs x h.1 (ground arith),
)

new_step-fresh :
    (template : Template) (def : WorkflowDefinition)
    → contains (step_ids def.steps) (new_step template def).id ≡ false
unfolding new_step
new_step-fresh template def = unique_step_id-fresh def _

-- A step that is added keeps the ids of a definition distinct: it stands last, under the id that is
-- returned, which no step had.
pub add_step-IsDistinct :
    (template : Template) (s : WorkflowState)
    → IsDistinct (ids s.definition.steps)
    → IsDistinct (ids (add_step template s).0.definition.steps)
      × (contains (ids s.definition.steps) (add_step template s).1 ≡ false)
      × (ids (add_step template s).0.definition.steps
          ≡ ids s.definition.steps ++ (add_step template s).1 ∷ [])
unfolding add_step
add_step-IsDistinct template s distinct =
    let fresh = new_step-fresh template s.definition in
    let all_ids =
      map-append (λ (t : Step). t.id) s.definition.steps (new_step template s.definition ∷ []) in
    (rw all_ids (IsDistinct-snoc (ids s.definition.steps) _ distinct fresh), fresh, all_ids)
