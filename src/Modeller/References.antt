-- ===== src/Modeller/References.antt =====
-- workflow-modeller/src/panels/DeleteStepDialog.tsx: the references to a step that is to be
-- deleted, and the rewriting of them to a replacement.
pub mod Laws
pub mod Rewriting
pub mod Dialog
use rochallor_engine.Base.{
  ℕ, String, Option, none, some, List, [], ◌∷◌, ◌++◌, map, if◌then◌else◌, ◌==◌, ◌<>◌, decimal,
  flat_map, flat_map_from,
}
use rochallor_engine.Modeller.Types.{
  StepId, Step, Variant, service_task, user_task, decision, decision_table, transformation, wait,
  parallel_gateway, join_gateway, end_step, BoundaryEvent, WorkflowDefinition,
}

next_step_hit : StepId → StepId → StepId → List String
next_step_hit step_id next id = if next == id then (step_id <> ".nextStep") ∷ [] else []

optional_hit : StepId → Option StepId → StepId → List String
unfolding next_step_hit
optional_hit step_id none id = []
optional_hit step_id (some next) id = next_step_hit step_id next id

boundary_hits : StepId → Option (List BoundaryEvent) → StepId → List String
boundary_hits step_id none id = []
boundary_hits step_id (some events) id =
    flat_map_from 0
      (λ i evt.
        if evt.target_step_id == id
        then (step_id <> ".boundaryEvents[" <> decimal i <> "].targetStepId") ∷ []
        else [])
      events

branch_hits : StepId → List (String × StepId) → StepId → List String
branch_hits step_id [] id = []
branch_hits step_id ((expr, target) ∷ rest) id =
    (if target == id then (step_id <> ".conditionalNextSteps[\"" <> expr <> "\"]") ∷ [] else [])
    ++ branch_hits step_id rest id

parallel_hits : StepId → List StepId → StepId → List String
parallel_hits step_id targets id =
    flat_map_from 0
      (λ i target.
        if target == id then (step_id <> ".parallelNextSteps[" <> decimal i <> "]") ∷ [] else [])
      targets

-- The references that one step makes.
pub variant_hits : StepId → Variant → StepId → List String
unfolding next_step_hit optional_hit boundary_hits branch_hits parallel_hits
variant_hits step_id (service_task t) id =
    optional_hit step_id t.next_step id ++ boundary_hits step_id t.boundary_events id
variant_hits step_id (user_task t) id =
    optional_hit step_id t.next_step id ++ boundary_hits step_id t.boundary_events id
variant_hits step_id (wait t) id =
    next_step_hit step_id t.next_step id ++ boundary_hits step_id t.boundary_events id
variant_hits step_id (transformation t) id = next_step_hit step_id t.next_step id
variant_hits step_id (join_gateway next) id = next_step_hit step_id next id
variant_hits step_id (decision branches) id = branch_hits step_id branches id
variant_hits step_id (decision_table t) id = next_step_hit step_id t.next_step id
variant_hits step_id (parallel_gateway t) id =
    parallel_hits step_id t.parallel_next_steps id
    ++ (if t.join_step == id then (step_id <> ".joinStep") ∷ [] else [])
variant_hits step_id end_step id = []

pub find_references : WorkflowDefinition → StepId → List String
unfolding variant_hits
find_references def id = flat_map (λ step. variant_hits step.id step.variant id) def.steps

-- `rewriteRefs`, with `swap` for its test of one target.
swap : StepId → StepId → StepId → StepId
swap old_id new_id target = if target == old_id then new_id else target

swap_optional : StepId → StepId → Option StepId → Option StepId
unfolding swap
swap_optional old_id new_id none = none
swap_optional old_id new_id (some next) = some (swap old_id new_id next)

swap_events : StepId → StepId → Option (List BoundaryEvent) → Option (List BoundaryEvent)
swap_events old_id new_id none = none
swap_events old_id new_id (some events) = some (
    map
      (λ (e : BoundaryEvent).
        if e.target_step_id == old_id then record e { target_step_id = new_id } else e)
      events)

swap_branches : StepId → StepId → List (String × StepId) → List (String × StepId)
unfolding swap
swap_branches old_id new_id [] = []
swap_branches old_id new_id ((expr, target) ∷ rest) =
    (expr, swap old_id new_id target) ∷ swap_branches old_id new_id rest

rewrite_variant : StepId → StepId → Variant → Variant
unfolding swap swap_optional swap_events swap_branches
rewrite_variant old_id new_id (service_task t) = service_task (record t {
  next_step = swap_optional old_id new_id t.next_step;
  boundary_events = swap_events old_id new_id t.boundary_events;
})
rewrite_variant old_id new_id (user_task t) = user_task (record t {
  next_step = swap_optional old_id new_id t.next_step;
  boundary_events = swap_events old_id new_id t.boundary_events;
})
rewrite_variant old_id new_id (wait t) = wait (record t {
  next_step = swap old_id new_id t.next_step;
  boundary_events = swap_events old_id new_id t.boundary_events;
})
rewrite_variant old_id new_id (transformation t) =
    transformation (record t { next_step = swap old_id new_id t.next_step })
rewrite_variant old_id new_id (join_gateway next) = join_gateway (swap old_id new_id next)
rewrite_variant old_id new_id (decision branches) = decision (swap_branches old_id new_id branches)
rewrite_variant old_id new_id (decision_table t) =
    decision_table (record t { next_step = swap old_id new_id t.next_step })
rewrite_variant old_id new_id (parallel_gateway t) = parallel_gateway (record t {
  parallel_next_steps = map (swap old_id new_id) t.parallel_next_steps;
  join_step = swap old_id new_id t.join_step;
})
rewrite_variant old_id new_id end_step = end_step

pub rewrite_refs : Step → StepId → StepId → Step
unfolding rewrite_variant
rewrite_refs step old_id new_id = record step {
  variant = rewrite_variant old_id new_id step.variant;
}
