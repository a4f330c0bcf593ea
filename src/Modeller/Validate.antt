-- ===== src/Modeller/Validate.antt =====
-- workflow-modeller/src/domain/validate.ts: the diagnostics of a workflow definition. The
-- expression parser is the argument `parse`.
pub mod Laws
pub mod Diag
pub mod Format
pub mod Duration
pub mod Shape
pub mod Refs
pub mod Expressions
pub mod Outgoing
pub mod Walk
pub mod Reach
pub mod Cycle
pub mod Unknown
use rochallor_engine.Base.{String, List, ◌++◌, flat_map}
use rochallor_engine.Modeller.Types.{Step, WorkflowDefinition, Diagnostic}
use rochallor_engine.Modeller.Graph.{index_steps}
use rochallor_engine.Modeller.Expression.Tree.{Parsed}
use Format.{
  check_id_format, check_name_required, check_steps_nonempty, check_step_ids_unique,
  check_step_ids_present, check_step_types_valid, check_next_workflow_consistency,
}
use Shape.{check_step_variant_shape}
use Refs.{check_refs_resolve, check_boundary_events, check_parallel_join_target}
use Expressions.{check_expressions}
use Reach.{check_reachability, check_nested_parallel}
use Cycle.{check_graph_cycle}
use Unknown.{check_unknown_fields}

module _ (parse : String → Parsed) where
  -- The loop over the steps.
  unfoldable pub check_step : WorkflowDefinition → Step → List Diagnostic
  check_step def step =
      check_step_variant_shape step
      ++ check_refs_resolve (index_steps def) step
      ++ check_boundary_events (index_steps def) step
      ++ check_expressions parse def step

  unfoldable pub validate : WorkflowDefinition → List Diagnostic
  unfolding check_step
  validate def =
      check_id_format def
      ++ check_name_required def
      ++ check_steps_nonempty def
      ++ check_step_ids_unique def
      ++ check_step_ids_present def
      ++ check_step_types_valid def
      ++ check_next_workflow_consistency def
      ++ flat_map (check_step def) def.steps
      ++ check_parallel_join_target (index_steps def) def
      ++ check_reachability (index_steps def) def
      ++ check_nested_parallel (index_steps def) def
      ++ check_graph_cycle (index_steps def) def
      ++ check_unknown_fields def
