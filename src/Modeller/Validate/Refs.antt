-- ===== src/Modeller/Validate/Refs.antt =====
-- The checks of workflow-modeller/src/domain/validate.ts on the references between steps.
pub mod Laws
use rochallor_engine.Base.{
  ℕ, String, Bool, true, false, Option, none, some, List, [], ◌∷◌, ◌++◌, ◌||◌, not, if◌then◌else◌,
  ◌==◌, ◌<>◌, is_empty, decimal, flat_map, flat_map_from, lookup, is_some,
}
use rochallor_engine.Modeller.Types.{
  StepId, Step, Variant, service_task, user_task, decision, decision_table, transformation, wait,
  parallel_gateway, join_gateway, end_step, BoundaryEvent, WorkflowDefinition, Diagnostic,
  step_type, type_name, Json, arr, ref_resolves, boundary_type, boundary_duration,
  boundary_target_resolves, boundary_parent_supports, parallel_has_join,
}
use rochallor_engine.Modeller.Validate.Diag.{field_error}
use rochallor_engine.Modeller.Validate.Duration.{iso_duration}

-- The `Map` that `indexSteps` builds.
abbrev pub Index : Type 0
Index = List (StepId × Step)

abbrev pub resolves : Index → StepId → Bool
resolves index id = is_some (lookup id index)

unfoldable pub missing : StepId → StepId → String → Option String → Diagnostic
missing id target field key =
    record (field_error ref_resolves
      ("Step \"" <> id <> "\" references missing step \"" <> target <> "\".") id field) {
        branch_key = key;
      }

module _ (index : Index) (id : StepId) where
  -- `if (target && !index.has(target)) missing(target, field)`.
  unfoldable pub check_ref : String → StepId → List Diagnostic
  unfolding missing
  check_ref field target =
      if is_empty target || resolves index target then [] else missing id target field none ∷ []

  unfoldable pub check_optional_ref : Option StepId → List Diagnostic
  unfolding check_ref
  check_optional_ref none = []
  check_optional_ref (some target) = check_ref "nextStep" target

  unfoldable pub check_branch_refs : List (String × StepId) → List Diagnostic
  unfolding missing
  check_branch_refs [] = []
  check_branch_refs ((expr, target) ∷ rest) =
      (if resolves index target
        then []
        else missing id target "conditionalNextSteps" (some expr) ∷ [])
      ++ check_branch_refs rest

  unfoldable pub check_parallel_refs : List StepId → List Diagnostic
  unfolding missing
  check_parallel_refs [] = []
  check_parallel_refs (target ∷ rest) =
      (if resolves index target then [] else missing id target "parallelNextSteps" none ∷ [])
      ++ check_parallel_refs rest

  unfoldable pub check_variant_refs : Variant → List Diagnostic
  unfolding check_ref check_optional_ref check_branch_refs check_parallel_refs
  check_variant_refs (service_task t) = check_optional_ref t.next_step
  check_variant_refs (user_task t) = check_optional_ref t.next_step
  check_variant_refs (wait t) = check_ref "nextStep" t.next_step
  check_variant_refs (transformation t) = check_ref "nextStep" t.next_step
  check_variant_refs (join_gateway next_step) = check_ref "nextStep" next_step
  check_variant_refs (decision branches) = check_branch_refs branches
  check_variant_refs (decision_table t) = check_ref "nextStep" t.next_step
  check_variant_refs (parallel_gateway t) =
      check_parallel_refs t.parallel_next_steps ++ check_ref "joinStep" t.join_step
  check_variant_refs end_step = []

  unfoldable pub event_error : ℕ → Diagnostic → Diagnostic
  event_error i d = record d { boundary_index = some i }

  unfoldable pub check_event : ℕ → BoundaryEvent → List Diagnostic
  unfolding event_error
  check_event i evt =
      (if evt.type == "TIMER"
        then []
        else event_error i (
            field_error boundary_type
              ("Boundary event " <> decimal i <> " on \"" <> id <> "\" must be of type TIMER.") id
              "boundaryEvents")
          ∷ [])
      ++ (if is_empty evt.duration || not (iso_duration evt.duration)
          then event_error i (
              field_error boundary_duration
                ("Boundary event "
                  <> decimal i
                  <> " on \""
                  <> id
                  <> "\" must have a non-empty ISO-8601 duration.")
                id "boundaryEvents")
            ∷ []
          else [])
      ++ (if is_empty evt.target_step_id || not (resolves index evt.target_step_id)
          then event_error i (
              field_error boundary_target_resolves
                ("Boundary event "
                  <> decimal i
                  <> " on \""
                  <> id
                  <> "\" references missing step \""
                  <> evt.target_step_id
                  <> "\".")
                id "boundaryEvents")
            ∷ []
          else [])

  unfoldable pub check_events : Option (List BoundaryEvent) → List Diagnostic
  unfolding check_event
  check_events none = []
  check_events (some events) = flat_map_from 0 check_event events

unfoldable pub check_refs_resolve : Index → Step → List Diagnostic
unfolding check_variant_refs
check_refs_resolve index step = check_variant_refs index step.id step.variant

-- `Array.isArray(x)` on a key of a step.
abbrev is_array : Option Json → Bool
is_array (some (arr _)) = true
is_array _ = false

unfoldable pub check_unsupported_events : Step → List Diagnostic
check_unsupported_events step =
    if is_array (lookup "boundaryEvents" step.extras)
    then field_error boundary_parent_supports
        ("Step \""
          <> step.id
          <> "\" of type "
          <> type_name (step_type step.variant)
          <> " cannot have boundary events.")
        step.id "boundaryEvents"
      ∷ []
    else []

unfoldable pub check_variant_events : Index → Step → Variant → List Diagnostic
unfolding check_events check_unsupported_events
check_variant_events index step (service_task t) = check_events index step.id t.boundary_events
check_variant_events index step (user_task t) = check_events index step.id t.boundary_events
check_variant_events index step (wait t) = check_events index step.id t.boundary_events
check_variant_events index step _ = check_unsupported_events step

unfoldable pub check_boundary_events : Index → Step → List Diagnostic
unfolding check_variant_events
check_boundary_events index step = check_variant_events index step step.variant

abbrev join_mismatch : StepId → Variant → List Diagnostic
join_mismatch id (join_gateway _) = []
join_mismatch id variant =
    field_error parallel_has_join
      ("PARALLEL_GATEWAY \""
        <> id
        <> "\" must reference a JOIN_GATEWAY (got "
        <> type_name (step_type variant)
        <> ").")
      id "joinStep"
    ∷ []

unfoldable pub check_join_target : Index → Step → List Diagnostic
check_join_target index step = elim step.variant [
  | parallel_gateway t ↦ elim (lookup t.join_step index) [
    | none ↦ []
    | some join ↦ join_mismatch step.id join.variant
  ]
  | _ ↦ []
]

unfoldable pub check_parallel_join_target : Index → WorkflowDefinition → List Diagnostic
unfolding check_join_target
check_parallel_join_target index def = flat_map (check_join_target index) def.steps
