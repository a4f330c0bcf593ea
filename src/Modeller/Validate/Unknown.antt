-- ===== src/Modeller/Validate/Unknown.antt =====
-- `checkUnknownFields` of workflow-modeller/src/domain/validate.ts, the known keys of schema.ts,
-- and the warnings that io/import.ts makes of them.
pub mod Laws
use rochallor_engine.Base.{
  String, not, Option, none, some, List, [], ◌∷◌, ◌++◌, if◌then◌else◌, ◌<>◌, join, contains,
  filter_by, flat_map, keys, ltb, length,
}
use rochallor_engine.Modeller.Types.{
  Step, Variant, service_task, user_task, decision, decision_table, transformation, wait,
  parallel_gateway, join_gateway, end_step, WorkflowDefinition, Diagnostic, StepType, step_type,
  service_task_type, user_task_type, decision_type, decision_table_type, transformation_type,
  wait_type, parallel_gateway_type, join_gateway_type, end_type, warning, unknown_fields_present,
}
use rochallor_engine.Modeller.Validate.Diag.{plain}

abbrev pub common_keys : List String → List String
common_keys rest = "id" ∷ "name" ∷ "type" ∷ "description" ∷ rest

-- `KNOWN_STEP_KEYS`
unfoldable pub known_step_keys : StepType → List String
known_step_keys service_task_type =
    common_keys ("nextStep" ∷ "jobType" ∷ "delegateClass" ∷ "retryCount" ∷ "boundaryEvents" ∷ [])
known_step_keys user_task_type = common_keys ("nextStep" ∷ "jobType" ∷ "boundaryEvents" ∷ [])
known_step_keys decision_type = common_keys ("conditionalNextSteps" ∷ [])
known_step_keys decision_table_type = common_keys ("hitPolicy" ∷ "nextStep" ∷ "decisionTable" ∷ [])
known_step_keys transformation_type = common_keys ("nextStep" ∷ "transformations" ∷ [])
known_step_keys wait_type = common_keys ("nextStep" ∷ "boundaryEvents" ∷ [])
known_step_keys parallel_gateway_type = common_keys ("parallelNextSteps" ∷ "joinStep" ∷ [])
known_step_keys join_gateway_type = common_keys ("nextStep" ∷ [])
known_step_keys end_type = common_keys []

-- `KNOWN_ROOT_KEYS`
abbrev pub known_root_keys : List String
known_root_keys =
    "id" ∷ "version" ∷ "name" ∷ "description" ∷ "autoStartNextWorkflow" ∷ "nextWorkflowId" ∷ "steps"
    ∷ "metadata" ∷ []

-- A key that an optional field adds.
abbrev pub key_if {ℓ} : {A : Type ℓ} → String → Option A → List String
key_if key none = []
key_if key (some _) = key ∷ []

unfoldable pub variant_keys : Variant → List String
variant_keys (service_task t) =
    key_if "nextStep" t.next_step
    ++ (key_if "jobType" t.job_type
        ++ (key_if "delegateClass" t.delegate_class
            ++ (key_if "retryCount" t.retry_count ++ key_if "boundaryEvents" t.boundary_events)))
variant_keys (user_task t) =
    key_if "nextStep" t.next_step
    ++ (key_if "jobType" t.job_type ++ key_if "boundaryEvents" t.boundary_events)
variant_keys (decision _) = "conditionalNextSteps" ∷ []
variant_keys (decision_table t) =
    key_if "hitPolicy" t.hit_policy ++ "nextStep" ∷ "decisionTable" ∷ []
variant_keys (transformation _) = "nextStep" ∷ "transformations" ∷ []
variant_keys (wait t) = "nextStep" ∷ key_if "boundaryEvents" t.boundary_events
variant_keys (parallel_gateway _) = "parallelNextSteps" ∷ "joinStep" ∷ []
variant_keys (join_gateway _) = "nextStep" ∷ []
variant_keys end_step = []

-- `Object.keys(step)`: the keys of the schema, and the keys that were passed through behind them.
unfoldable pub step_keys : Step → List String
unfolding variant_keys
step_keys step =
    "id"
    ∷ "name"
    ∷ (key_if "description" step.description
        ++ ("type" ∷ (variant_keys step.variant ++ keys step.extras)))

unfoldable pub root_keys : WorkflowDefinition → List String
root_keys def =
    let extras = key_if "metadata" def.metadata ++ keys def.extras in
    let next = key_if "nextWorkflowId" def.next_workflow_id ++ ("steps" ∷ extras) in
    let auto = key_if "autoStartNextWorkflow" def.auto_start_next_workflow ++ next in
    "id"
    ∷ (key_if "version" def.version ++ ("name" ∷ (key_if "description" def.description ++ auto)))

unfoldable pub unknown_keys : List String → List String → List String
unknown_keys known = filter_by (λ k. not (contains known k))

unfoldable pub step_extras : Step → List String
unfolding known_step_keys step_keys unknown_keys
step_extras step = unknown_keys (known_step_keys (step_type step.variant)) (step_keys step)

unfoldable pub root_extras : WorkflowDefinition → List String
unfolding root_keys unknown_keys
root_extras def = unknown_keys known_root_keys (root_keys def)

unfoldable pub check_step_fields : Step → List Diagnostic
unfolding step_extras
check_step_fields step =
    if ltb 0 (length (step_extras step))
    then record (plain unknown_fields_present warning (
        "Step \""
        <> step.id
        <> "\" has unknown field(s): "
        <> join ", " (step_extras step)
        <> ".")) { node_id = some step.id }
      ∷ []
    else []

unfoldable pub check_unknown_fields : WorkflowDefinition → List Diagnostic
unfolding check_step_fields root_extras
check_unknown_fields def =
    (if ltb 0 (length (root_extras def))
      then plain unknown_fields_present warning
          ("Unknown top-level field(s): " <> join ", " (root_extras def) <> ".")
        ∷ []
      else [])
    ++ flat_map check_step_fields def.steps

-- `collectUnknownFieldWarnings` of io/import.ts, which filters the keys itself.
unfoldable pub import_root_extras : WorkflowDefinition → List String
unfolding root_keys
import_root_extras def = filter_by (λ k. not (contains known_root_keys k)) (root_keys def)

unfoldable pub import_step_extras : Step → List String
unfolding known_step_keys step_keys
import_step_extras step =
    let known = known_step_keys (step_type step.variant) in
    filter_by (λ k. not (contains known k)) (step_keys step)

unfoldable pub collect_unknown_field_warnings : WorkflowDefinition → List String
unfolding import_step_extras import_root_extras
collect_unknown_field_warnings def =
    (if ltb 0 (length (import_root_extras def))
      then ("Unknown top-level field(s): " <> join ", " (import_root_extras def)) ∷ []
      else [])
    ++ flat_map
        (λ step.
          if ltb 0 (length (import_step_extras step))
          then ("Step \""
              <> step.id
              <> "\" has unknown field(s): "
              <> join ", " (import_step_extras step))
            ∷ []
          else [])
        def.steps
