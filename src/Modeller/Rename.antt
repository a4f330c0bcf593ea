-- ===== src/Modeller/Rename.antt =====
-- workflow-modeller/src/domain/rename.ts: a step id is replaced wherever a definition names it.
pub mod Laws
pub mod Edges
use rochallor_engine.Base.{
  String, Bool, Option, none, some, List, [], ◌∷◌, map, if◌then◌else◌, ◌==◌, ◌<>◌, any,
}
use mathlib.Core.Option
use rochallor_engine.Modeller.Types.{
  StepId, Step, Variant, service_task, user_task, decision, decision_table, transformation, wait,
  parallel_gateway, join_gateway, end_step, BoundaryEvent, WorkflowDefinition,
}

-- A thrown error carries its message.
pub data Result {ℓ} (A : Type ℓ) : Type ℓ where
  ok : A → Result A
  thrown : String → Result A

unfoldable pub remap : StepId → StepId → StepId → StepId
remap old_id new_id id = if id == old_id then new_id else id

unfoldable pub remap_event : (StepId → StepId) → BoundaryEvent → BoundaryEvent
remap_event f evt = record evt { target_step_id = f evt.target_step_id }

unfoldable pub remap_boundary :
    (StepId → StepId) → Option (List BoundaryEvent) → Option (List BoundaryEvent)
unfolding remap_event
remap_boundary f none = none
remap_boundary f (some events) = some (map (remap_event f) events)

unfoldable pub remap_optional : (StepId → StepId) → Option StepId → Option StepId
remap_optional f none = none
remap_optional f (some next) = some (f next)

unfoldable pub remap_branches : (StepId → StepId) → List (String × StepId) → List (String × StepId)
remap_branches f [] = []
remap_branches f ((expr, target) ∷ rest) = (expr, f target) ∷ remap_branches f rest

unfoldable pub remap_variant : (StepId → StepId) → Variant → Variant
unfolding remap_boundary remap_optional remap_branches
remap_variant f (service_task t) = service_task (record t {
  next_step = remap_optional f t.next_step;
  boundary_events = remap_boundary f t.boundary_events;
})
remap_variant f (user_task t) = user_task (record t {
  next_step = remap_optional f t.next_step;
  boundary_events = remap_boundary f t.boundary_events;
})
remap_variant f (wait t) =
    wait
      (record t { next_step = f t.next_step; boundary_events = remap_boundary f t.boundary_events })
remap_variant f (transformation t) = transformation (record t { next_step = f t.next_step })
remap_variant f (join_gateway next_step) = join_gateway (f next_step)
remap_variant f (decision branches) = decision (remap_branches f branches)
remap_variant f (decision_table t) = decision_table (record t { next_step = f t.next_step })
remap_variant f (parallel_gateway t) =
    parallel_gateway
      (record t { parallel_next_steps = map f t.parallel_next_steps; join_step = f t.join_step })
remap_variant f end_step = end_step

unfoldable pub remap_step : StepId → StepId → Step → Step
unfolding remap remap_variant
remap_step old_id new_id step = record step {
  id = if step.id == old_id then new_id else step.id;
  variant = remap_variant (remap old_id new_id) step.variant;
}

unfoldable pub has_id : StepId → List Step → Bool
has_id id steps = any (λ s. s.id == id) steps

unfoldable pub rename_step_id : WorkflowDefinition → StepId → StepId → Result WorkflowDefinition
unfolding has_id remap_step
rename_step_id def old_id new_id =
    if old_id == new_id
    then ok def
    else if has_id new_id def.steps
    then thrown
        ("Cannot rename \"" <> old_id <> "\" → \"" <> new_id <> "\": step id already exists.")
    else ok (record def { steps = map (remap_step old_id new_id) def.steps })
