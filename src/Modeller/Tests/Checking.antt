-- ===== src/Modeller/Tests/Checking.antt =====
-- The theorems about the checks of workflow-modeller/src/domain/validate.ts at the sample
-- definition.
use rochallor_engine.Base.{none, String, some, true, false, [], ◌∷◌, ◌≡◌, ◌↔◌, refl, All, contains}
use rochallor_engine.Modeller.Types.{
  StepId, WorkflowDefinition, Diagnostic, join_gateway, graph_cycle, warning,
}
use rochallor_engine.Modeller.Samples.{
  charge, route, fork, pack, bill, done, step_of, later_steps, order_flow,
}
use rochallor_engine.Modeller.Validate.Diag.{plain}
use rochallor_engine.Modeller.Validate.Cycle.{check_graph_cycle}
use rochallor_engine.Modeller.Validate.Cycle.Trails.{Trail}
use rochallor_engine.Modeller.Validate.Cycle.Laws.{check_graph_cycle_iff}
use rochallor_engine.Modeller.Expression.Tree.{
  Expr, Parsed, tree, binary, op_gt, identifier, literal, int_literal,
}
use rochallor_engine.Modeller.Expression.Lint.{LintContext, lint_decision_expression}
use rochallor_engine.Modeller.Expression.Lint.Laws.{IsClean, lint_decision_expression_iff}
use rochallor_engine.Modeller.Validate.Unknown.{
  check_unknown_fields, collect_unknown_field_warnings,
}
use rochallor_engine.Modeller.Validate.Unknown.Laws.{
  IsCleanRoot, IsCleanStep, check_unknown_fields_iff,
}
use rochallor_engine.Modeller.Graph.{index_steps, index_from}
use rochallor_engine.Modeller.Validate.Outgoing.{all_outgoing}
use rochallor_engine.Modeller.Validate.Shape.{check_step_variant_shape, check_variant_shape}
use rochallor_engine.Modeller.Validate.Duration.{
  iso_duration, date_part, time_part, after_letter, skip_group, skip_seconds, skip_fraction,
  skip_digits, is_digit,
}
use rochallor_engine.Modeller.Validate.Refs.{
  check_refs_resolve, check_boundary_events, check_variant_refs, check_variant_events,
  check_optional_ref, check_ref, check_events, check_event,
}
use rochallor_engine.Modeller.Validate.Walk.{Walk, walk_from}
use rochallor_engine.Modeller.Validate.Walk.Laws.{Reach, walk_from_lem}
use rochallor_engine.Modeller.Validate.Reach.{check_reachability, check_nested_parallel}
use rochallor_engine.Modeller.Validate.Reach.Laws.{
  Reachable, EndReachable, IsFlat, check_reachability_iff, check_nested_parallel_iff,
}

check_reachability_iff_example : (check_reachability (index_steps order_flow) order_flow ≡ []) ↔ (
    All (λ s. Reachable (index_steps order_flow) "charge" s.id) order_flow.steps
    × EndReachable (index_steps order_flow) "charge")
check_reachability_iff_example = check_reachability_iff order_flow charge later_steps refl

check_nested_parallel_iff_example :
    (check_nested_parallel (index_steps order_flow) order_flow ≡ [])
    ↔ All (IsFlat (index_steps order_flow)) order_flow.steps
check_nested_parallel_iff_example = check_nested_parallel_iff order_flow

abbrev from_charge : Walk
from_charge = walk_from (index_steps order_flow) (λ _. false) all_outgoing (λ _. []) ("charge" ∷ [])

walk_from_lem_example :
    (from_charge.stack ≡ [])
    × ((contains from_charge.visited "done" ≡ true)
        ↔ Reach (index_steps order_flow) (λ _. false) all_outgoing ("charge" ∷ []) "done")
walk_from_lem_example =
    walk_from_lem (index_steps order_flow) (λ _. false) all_outgoing (λ _. []) ("charge" ∷ [])
      "done"

charge-shape : check_step_variant_shape charge ≡ []
unfolding check_step_variant_shape check_variant_shape
charge-shape = refl

charge-refs : check_refs_resolve (index_steps order_flow) charge ≡ []
unfolding check_refs_resolve check_variant_refs check_optional_ref check_ref index_steps index_from
charge-refs = refl

charge-events : check_boundary_events (index_steps order_flow) charge ≡ []
unfolding check_boundary_events check_variant_events check_events check_event index_steps index_from
    iso_duration date_part time_part after_letter skip_group skip_seconds skip_fraction skip_digits
    is_digit
charge-events = refl

check_graph_cycle_iff_example :
    (check_graph_cycle (index_steps order_flow) order_flow ≡ [])
    ↔ ((u : StepId) → ¬ Trail (index_steps order_flow) u u)
check_graph_cycle_iff_example = check_graph_cycle_iff order_flow

-- The join leads back to the decision.
abbrev loop_flow : WorkflowDefinition
loop_flow = record order_flow {
  steps = charge ∷ route ∷ fork ∷ pack ∷ bill ∷ step_of "meet" (join_gateway "route") ∷ done ∷ [];
}

abbrev loop_found : Diagnostic
loop_found =
    record (plain graph_cycle warning "Cycle detected in step graph (involves \"route\").") {
      node_id = some "route";
    }

loop_flow-found : check_graph_cycle (index_steps loop_flow) loop_flow ≡ loop_found ∷ []
unfolding check_graph_cycle index_steps all_outgoing
loop_flow-found = refl

check_unknown_fields_iff_example :
    ((check_unknown_fields order_flow ≡ [])
      ↔ (IsCleanRoot order_flow × All IsCleanStep order_flow.steps))
    × ((collect_unknown_field_warnings order_flow ≡ [])
        ↔ (IsCleanRoot order_flow × All IsCleanStep order_flow.steps))
check_unknown_fields_iff_example = check_unknown_fields_iff order_flow

-- The expression `total > 10`, whatever the text.
abbrev total : Expr
total = binary op_gt (identifier ("total" ∷ [])) (literal (int_literal "10"))

abbrev read_total : String → Parsed
read_total source = tree total

abbrev at_route : LintContext
at_route = record { node_id = some "route"; field = none; branch_key = none }

lint_decision_expression_iff_example :
    (lint_decision_expression read_total "total > 10" ("total" ∷ []) at_route ≡ [])
    ↔ IsClean ("total" ∷ []) (read_total "total > 10")
lint_decision_expression_iff_example =
    lint_decision_expression_iff read_total "total > 10" ("total" ∷ []) at_route
