-- ===== src/Modeller/Validate/Reach.antt =====
-- `checkReachability` and `checkNestedParallel` of workflow-modeller/src/domain/validate.ts.
pub mod Laws
use rochallor_engine.Base.{
  String, Bool, true, false, Option, none, some, List, [], ◌∷◌, ◌++◌, if◌then◌else◌, ◌==◌, ◌<>◌,
  any, contains, flat_map, lookup,
}
use rochallor_engine.Modeller.Types.{
  StepId, Step, Variant, service_task, user_task, decision, decision_table, transformation, wait,
  parallel_gateway, join_gateway, end_step, ParallelGateway, WorkflowDefinition, Diagnostic, error,
  all_reachable, end_reachable, no_nested_parallel,
}
use rochallor_engine.Modeller.Validate.Diag.{plain, node_error}
use rochallor_engine.Modeller.Validate.Refs.{Index}
use rochallor_engine.Modeller.Validate.Outgoing.{outgoing_targets, all_outgoing}
use rochallor_engine.Modeller.Validate.Walk.{Walk, walk_from}

-- The first worklist loop: every edge is followed, and nothing is reported on the way.
unfoldable pub reached : Index → StepId → List StepId
reached index entry = (walk_from index (λ _. false) all_outgoing (λ _. []) (entry ∷ [])).visited

abbrev pub is_end_variant : Variant → Bool
is_end_variant end_step = true
is_end_variant _ = false

-- `index.get(id)?.type === 'END'`.
abbrev pub is_end : Option Step → Bool
is_end none = false
is_end (some step) = is_end_variant step.variant

unfoldable pub check_reached : List StepId → Step → List Diagnostic
check_reached visited step =
    if contains visited step.id
    then []
    else node_error all_reachable
        ("Step \"" <> step.id <> "\" is not reachable from the entry step.") step.id
      ∷ []

unfoldable pub check_end_reached : Index → List StepId → List Diagnostic
check_end_reached index visited =
    if any (λ id. is_end (lookup id index)) visited
    then []
    else plain end_reachable error "No END step is reachable from the entry step." ∷ []

unfoldable pub check_reachability_from : Index → StepId → List Step → List Diagnostic
unfolding reached check_reached check_end_reached
check_reachability_from index entry steps =
    flat_map (check_reached (reached index entry)) steps
    ++ check_end_reached index (reached index entry)

unfoldable pub reachability_of_steps : Index → List Step → List Diagnostic
unfolding check_reachability_from
reachability_of_steps index [] = []
reachability_of_steps index (entry ∷ steps) = check_reachability_from index entry.id (entry ∷ steps)

unfoldable pub check_reachability : Index → WorkflowDefinition → List Diagnostic
unfolding reachability_of_steps
check_reachability index def = reachability_of_steps index def.steps

-- What the second worklist loop reports at a step inside the gateway `outer`.
unfoldable pub report_nested : StepId → Step → List Diagnostic
report_nested outer step = elim step.variant [
  | parallel_gateway _ ↦
      node_error no_nested_parallel
        ("PARALLEL_GATEWAY \"" <> step.id <> "\" is nested inside \"" <> outer
          <> "\" without first reaching its join.")
        step.id
      ∷ []
  | _ ↦ []
]

-- `[...step.parallelNextSteps]` as a stack: the last element is the top.
abbrev pub as_stack : List StepId → List StepId
as_stack [] = []
as_stack (target ∷ targets) = as_stack targets ++ target ∷ []

-- The second worklist loop: it stops at the join, and follows no boundary event.
unfoldable pub nested_walk : Index → StepId → ParallelGateway → Walk
unfolding report_nested
nested_walk index outer t =
    walk_from index (λ id. id == t.join_step) (λ step. outgoing_targets step.variant)
      (report_nested outer) (as_stack t.parallel_next_steps)

unfoldable pub check_nested : Index → Step → List Diagnostic
unfolding nested_walk
check_nested index step = elim step.variant [
  | parallel_gateway t ↦ (nested_walk index step.id t).out
  | _ ↦ []
]

unfoldable pub check_nested_parallel : Index → WorkflowDefinition → List Diagnostic
unfolding check_nested
check_nested_parallel index def = flat_map (check_nested index) def.steps
