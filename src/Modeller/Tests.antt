-- ===== src/Modeller/Tests.antt =====
-- The theorems about workflow-modeller/src at concrete definitions.
pub mod Checking
pub mod Editing
pub mod Saving
use rochallor_engine.Base.{
  ℕ, String, Bool, true, false, Option, none, some, List, [], ◌∷◌, ◌++◌, ◌≡◌, ◌≢◌, ◌↔◌, refl, map,
  All, contains, IsDistinct,
}
use rochallor_engine.Modeller.Types.{StepId, Step, WorkflowDefinition}
use rochallor_engine.Modeller.Samples.{
  charge, later_steps, order_flow, order_state, order_layout, read_true,
}
use rochallor_engine.Base.{is_blank}
use rochallor_engine.Modeller.Validate.Cycle.{check_graph_cycle}
use rochallor_engine.Modeller.Validate.Duration.{iso_duration}
use rochallor_engine.Modeller.Validate.Expressions.{collect_known_variables, check_expressions}
use rochallor_engine.Modeller.Validate.Format.{
  check_id_format, check_name_required, check_steps_nonempty, check_step_ids_unique,
  check_step_ids_present, check_step_types_valid, check_next_workflow_consistency,
}
use rochallor_engine.Modeller.Validate.Outgoing.{all_outgoing}
use rochallor_engine.Modeller.Validate.Reach.{check_reachability, check_nested_parallel}
use rochallor_engine.Modeller.Validate.Refs.{
  check_refs_resolve, check_boundary_events, check_parallel_join_target,
}
use rochallor_engine.Modeller.Validate.Shape.{check_step_variant_shape}
use rochallor_engine.Modeller.Validate.Unknown.{check_unknown_fields}
use rochallor_engine.Modeller.Validate.Walk.{walk_from}
use rochallor_engine.Modeller.Graph.{index_steps}
use rochallor_engine.Modeller.Expression.Tree.{collect_identifiers}
use rochallor_engine.Modeller.Expression.Lint.{
  lint_decision_expression, lint_transformation_expression,
}
use rochallor_engine.Modeller.Validate.{validate, check_step}
use rochallor_engine.Modeller.Validate.Laws.{IsSound, validate-IsSound}

order_flow-silent : validate read_true order_flow ≡ []
unfolding check_graph_cycle iso_duration collect_known_variables check_expressions check_id_format
    check_name_required check_steps_nonempty check_step_ids_unique check_step_ids_present
    check_step_types_valid check_next_workflow_consistency all_outgoing check_reachability
    check_nested_parallel check_refs_resolve check_boundary_events check_parallel_join_target
    check_step_variant_shape check_unknown_fields walk_from validate index_steps collect_identifiers
    lint_decision_expression lint_transformation_expression is_blank
order_flow-silent = refl

validate-IsSound_example : IsSound order_flow
validate-IsSound_example = validate-IsSound read_true order_flow order_flow-silent
