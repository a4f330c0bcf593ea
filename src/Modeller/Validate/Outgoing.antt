-- ===== src/Modeller/Validate/Outgoing.antt =====
-- `outgoingTargets` and `allOutgoing` of workflow-modeller/src/domain/validate.ts.
use rochallor_engine.Base.{
  Option, none, some, List, [], ◌∷◌, ◌++◌, map, if◌then◌else◌, is_empty, values,
}
use rochallor_engine.Modeller.Types.{
  StepId, Step, Variant, service_task, user_task, decision, decision_table, transformation, wait,
  parallel_gateway, join_gateway, end_step, BoundaryEvent,
}

-- `target ? [target] : []`.
abbrev pub present : StepId → List StepId
present target = if is_empty target then [] else target ∷ []

abbrev pub present_optional : Option StepId → List StepId
present_optional none = []
present_optional (some target) = present target

unfoldable pub outgoing_targets : Variant → List StepId
outgoing_targets (service_task t) = present_optional t.next_step
outgoing_targets (user_task t) = present_optional t.next_step
outgoing_targets (wait t) = t.next_step ∷ []
outgoing_targets (transformation t) = t.next_step ∷ []
outgoing_targets (join_gateway next_step) = next_step ∷ []
outgoing_targets (decision branches) = values branches
outgoing_targets (decision_table t) = present t.next_step
outgoing_targets (parallel_gateway t) = t.parallel_next_steps
outgoing_targets end_step = []

abbrev pub event_targets : Option (List BoundaryEvent) → List StepId
event_targets none = []
event_targets (some events) = map (λ (evt : BoundaryEvent). evt.target_step_id) events

unfoldable pub boundary_targets : Variant → List StepId
boundary_targets (service_task t) = event_targets t.boundary_events
boundary_targets (user_task t) = event_targets t.boundary_events
boundary_targets (wait t) = event_targets t.boundary_events
boundary_targets _ = []

unfoldable pub all_outgoing : Step → List StepId
unfolding outgoing_targets boundary_targets
all_outgoing step = outgoing_targets step.variant ++ boundary_targets step.variant
