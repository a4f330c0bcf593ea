-- ===== src/Modeller/Store/Scrub.antt =====
-- `scrubRefs` of workflow-modeller/src/store/workflowStore.ts: the references to a deleted step.
pub mod Laws
use rochallor_engine.Base.{
  String, Bool, true, false, Option, none, some, List, [], ◌∷◌, ◌++◌, map, ◌&&◌, not, if◌then◌else◌,
  ◌==◌, is_empty, filter_by, lookup, insert, erase,
}
use rochallor_engine.Modeller.Types.{
  StepId, Step, Variant, service_task, user_task, decision, decision_table, transformation, wait,
  parallel_gateway, join_gateway, end_step, BoundaryEvent, Rule, DecisionTable, WorkflowDefinition,
  Json, null, bool, num, str, arr, obj,
}

-- `next === removedId ? '' : next`.
unfoldable pub scrub_id : StepId → StepId → StepId
scrub_id removed next = if next == removed then "" else next

unfoldable pub scrub_optional : StepId → Option StepId → Option StepId
unfolding scrub_id
scrub_optional removed none = none
scrub_optional removed (some next) = some (scrub_id removed next)

unfoldable pub scrub_events : StepId → Option (List BoundaryEvent) → Option (List BoundaryEvent)
scrub_events removed none = none
scrub_events removed (some events) =
    some (filter_by (λ (e : BoundaryEvent). not (e.target_step_id == removed)) events)

unfoldable pub scrub_branches : StepId → List (String × StepId) → List (String × StepId)
scrub_branches removed [] = []
scrub_branches removed ((expr, target) ∷ rest) =
    if target == removed
    then scrub_branches removed rest
    else (expr, target) ∷ scrub_branches removed rest

-- `x === removedId` on a value of an unknown type.
abbrev pub is_id : StepId → Option Json → Bool
is_id removed (some (str s)) = s == removed
is_id removed _ = false

-- The truthiness of a value.
abbrev pub json_truthy : Json → Bool
json_truthy null = false
json_truthy (bool b) = b
json_truthy (num n) = not (n == "0")
json_truthy (str s) = not (is_empty s)
json_truthy (arr _) = true
json_truthy (obj _) = true

unfoldable pub scrub_rule : StepId → Rule → Rule
scrub_rule removed rule =
    if is_id removed (lookup "then" rule.extras)
    then record rule { extras = insert "then" (str "") rule.extras }
    else rule

abbrev keep_default : StepId → Option Json → List (String × Json)
keep_default removed none = []
keep_default removed (some value) =
    if json_truthy value && not (is_id removed (some value))
    then ("defaultNextStep", value) ∷ []
    else []

unfoldable pub scrub_table : StepId → DecisionTable → DecisionTable
unfolding scrub_rule
scrub_table removed table = record {
  rules = map (scrub_rule removed) table.rules;
  extras =
      erase "defaultNextStep" table.extras
      ++ keep_default removed (lookup "defaultNextStep" table.extras);
}

unfoldable pub scrub_variant : StepId → Variant → Variant
unfolding scrub_id scrub_optional scrub_events scrub_branches scrub_table
scrub_variant removed (service_task t) = service_task (record t {
  next_step = scrub_optional removed t.next_step;
  boundary_events = scrub_events removed t.boundary_events;
})
scrub_variant removed (user_task t) = user_task (record t {
  next_step = scrub_optional removed t.next_step;
  boundary_events = scrub_events removed t.boundary_events;
})
scrub_variant removed (wait t) = wait (record t {
  next_step = scrub_id removed t.next_step;
  boundary_events = scrub_events removed t.boundary_events;
})
scrub_variant removed (transformation t) =
    transformation (record t { next_step = scrub_id removed t.next_step })
scrub_variant removed (join_gateway next) = join_gateway (scrub_id removed next)
scrub_variant removed (decision branches) = decision (scrub_branches removed branches)
scrub_variant removed (decision_table t) = decision_table (record t {
  next_step = scrub_id removed t.next_step;
  decision_table = scrub_table removed t.decision_table;
})
scrub_variant removed (parallel_gateway t) = parallel_gateway (record t {
  parallel_next_steps = filter_by (λ target. not (target == removed)) t.parallel_next_steps;
  join_step = scrub_id removed t.join_step;
})
scrub_variant removed end_step = end_step

unfoldable pub scrub_step : StepId → Step → Step
unfolding scrub_variant
scrub_step removed step = record step { variant = scrub_variant removed step.variant }

unfoldable pub scrub_refs : WorkflowDefinition → StepId → WorkflowDefinition
unfolding scrub_step
scrub_refs def removed = record def { steps = map (scrub_step removed) def.steps }
