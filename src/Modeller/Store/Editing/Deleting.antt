-- ===== src/Modeller/Store/Editing/Deleting.antt =====
-- `addStep` and `deleteStep` of workflow-modeller/src/store/workflowStore.ts leave no dangling edge.
use mathlib.Core.Path.{subst}
use mathlib.Core.List.{map-append, append_assoc}
use rochallor_engine.Base.{
  true, false, Option, List, [], ◌∷◌, ◌++◌, ◌≡◌, refl, sym, ◌∙◌, arith, not, contains,
  contains-append, flat_map, filter_by, All, ◌==◌, ==_iff, is_empty, Bool-cases, inl, inr,
}
use rochallor_engine.Modeller.Types.{
  StepId, Step, WorkflowDefinition, StepType, service_task_type, user_task_type, decision_type,
  decision_table_type, transformation_type, wait_type, parallel_gateway_type, join_gateway_type,
  end_type,
}
use rochallor_engine.Modeller.Rename.{ok}
use rochallor_engine.Modeller.Validate.Outgoing.{outgoing_targets, boundary_targets, all_outgoing}
use rochallor_engine.Modeller.Store.State.{WorkflowState}
use rochallor_engine.Modeller.Store.NewStep.{Template, new_variant, new_step}
use rochallor_engine.Modeller.Store.Scrub.Laws.{ids, ids-deleted, scrubbed-unreferenced}
use rochallor_engine.Modeller.Store.Actions.{add_step, delete_step}
use rochallor_engine.Modeller.Store.Actions.Laws.{remaining, delete_step_lem, add_step-IsDistinct}
use rochallor_engine.Modeller.Store.Editing.{Links, IsLinked}
use rochallor_engine.Modeller.Store.Editing.Links.{
  blank, steps-Kept, contains-filter_by, IsDistinct-filter_by,
}

ids-append :
    (steps : List Step) (step : Step) → ids (steps ++ step ∷ []) ≡ ids steps ++ step.id ∷ []
ids-append steps step = map-append (λ (t : Step). t.id) steps (step ∷ [])

-- Adding: the targets of a new step are not chosen yet.
new_variant-blank :
    (type : StepType) (t : StepId)
    → contains (outgoing_targets (new_variant type) ++ boundary_targets (new_variant type)) t ≡ true
    → is_empty t ≡ true
unfolding new_variant outgoing_targets boundary_targets
new_variant-blank service_task_type t h = cc
new_variant-blank user_task_type t h = cc
new_variant-blank decision_type t h = cc
new_variant-blank decision_table_type t h = cc
new_variant-blank transformation_type t h = ground (arith, blank t)
new_variant-blank wait_type t h = ground (arith, blank t)
new_variant-blank parallel_gateway_type t h = cc
new_variant-blank join_gateway_type t h = ground (arith, blank t)
new_variant-blank end_type t h = cc

new_step-blank :
    (template : Template) (def : WorkflowDefinition) (t : StepId)
    → contains (all_outgoing (new_step template def)) t ≡ true
    → is_empty t ≡ true
unfolding all_outgoing new_step
new_step-blank template def t h = new_variant-blank template.type t h

flat_map-append :
    (xs ys : List Step)
    → flat_map all_outgoing (xs ++ ys) ≡ flat_map all_outgoing xs ++ flat_map all_outgoing ys
flat_map-append [] ys = refl
flat_map-append (x ∷ xs) ys = simp (flat_map-append xs ys, append_assoc)

pub add_step-IsLinked :
    (template : Template) (s : WorkflowState)
    → IsLinked s.definition
    → IsLinked (add_step template s).0.definition
unfolding add_step
add_step-IsLinked template s (distinct, links) =
    let (distinct', fresh, all_ids) = add_step-IsDistinct template s distinct in
    let step = new_step template s.definition in
    let steps = s.definition.steps in
    (
      distinct',
      λ t h.
          let behind : contains (flat_map all_outgoing (steps ++ step ∷ [])) t ≡ true = h in
          rw (ids-append steps step) (
            ground (
              arith,
              links t,
              new_step-blank template s.definition t,
              rw (flat_map-append steps (step ∷ [])) at behind,
              contains-append (flat_map all_outgoing steps) (all_outgoing step ++ []) t,
              contains-append (all_outgoing step) [] t,
              contains-append (ids steps) (step.id ∷ []) t,
            )),
    )

-- Deleting.
contains-targets :
    (id : StepId) (steps : List Step)
    → All (λ t. contains (all_outgoing t) id ≡ false) steps
    → contains (flat_map all_outgoing steps) id ≡ false
contains-targets id [] h = refl
contains-targets id (s ∷ steps) h = ground (
  arith,
  h.0,
  contains-targets id steps h.1,
  contains-append (all_outgoing s) (flat_map all_outgoing steps) id,
)

targets-remaining :
    (id : StepId) (steps : List Step)
    → is_empty id ≡ false
    → contains (flat_map all_outgoing (remaining id steps)) id ≡ false
targets-remaining id steps text =
    contains-targets id (remaining id steps)
      (scrubbed-unreferenced id (filter_by (λ (t : Step). not (t.id == id)) steps) text)

remaining-Links :
    (id : StepId) (steps : List Step)
    → is_empty id ≡ false
    → Links (ids steps) (flat_map all_outgoing steps)
    → Links (ids (remaining id steps)) (flat_map all_outgoing (remaining id steps))
remaining-Links id steps text links t h = elim (Bool-cases (t == id)) [
  | inl same ↦
      let e = (==_iff t id).0 same in
      let bad : true ≡ false = sym (rw e at h) ∙ targets-remaining id steps text in cc
  | inr other ↦
      rw (ids-deleted id steps, contains-filter_by (λ i. not (i == id)) (ids steps) t)
        (ground (arith, steps-Kept id steps t h, links t))
]

pub delete_step-IsLinked :
    (id : StepId) (replacement : Option StepId) (s s' : WorkflowState)
    → is_empty id ≡ false
    → delete_step id replacement s ≡ ok s'
    → IsLinked s.definition
    → IsLinked s'.definition
delete_step-IsLinked id replacement s s' text e (distinct, links) =
    let steps = s.definition.steps in
    let s₁ = record s {
      definition = record (s.definition) { steps = remaining id steps };
      dirty = true;
    } in
    let exact : delete_step id replacement s ≡ ok s₁ = delete_step_lem id replacement s in
    let same : s₁ ≡ s' = cc in
    subst (λ u. IsLinked u.definition) same
      (
        rw (ids-deleted id steps) (IsDistinct-filter_by (λ i. not (i == id)) (ids steps) distinct),
        remaining-Links id steps text links,
      )
