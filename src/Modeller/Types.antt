-- ===== src/Modeller/Types.antt =====
-- The data model of workflow-modeller/src/domain/types.ts and schema.ts.
--
-- Objects pass unknown keys through; those keys stand in `extras`, in their order behind the keys
-- of the schema. An object that maps strings (`Record<string, …>`) is the list of its entries in
-- the order of enumeration.
use rochallor_engine.Base.{ℕ, String, Bool, Option, List}

-- A JSON value. A number is kept as the text that `JSON.stringify` prints for it: the program tests
-- its type and whether it is 0, and does not compute with it.
mutual
  pub data Json : Type 0 where
    null : Json
    bool : Bool → Json
    num : String → Json
    str : String → Json
    arr : Items → Json
    obj : Fields → Json

  pub data Items : Type 0 where
    nil : Items
    cons : Json → Items → Items

  pub data Fields : Type 0 where
    end : Fields
    field : String → Json → Fields → Fields

abbrev pub StepId : Type 0
StepId = String

-- `zBoundaryEvent`. `type` is the text that the validator compares with TIMER.
pub record BoundaryEvent : Type 0 where
  pub type : String
  pub duration : String
  pub interrupting : Bool
  pub target_step_id : StepId
  pub extras : List (String × Json)

-- `zServiceTask`
pub record ServiceTask : Type 0 where
  pub next_step : Option StepId
  pub job_type : Option String
  pub delegate_class : Option String
  pub retry_count : Option ℕ
  pub boundary_events : Option (List BoundaryEvent)

-- `zUserTask`
pub record UserTask : Type 0 where
  pub next_step : Option StepId
  pub job_type : Option String
  pub boundary_events : Option (List BoundaryEvent)

-- `zDecisionTableRule`. The legacy key `then` is one of the extras.
pub record Rule : Type 0 where
  pub when : List (String × String)
  pub outputs : List (String × Json)
  pub extras : List (String × Json)

-- `zDecisionTable`. The legacy key `defaultNextStep` is one of the extras.
pub record DecisionTable : Type 0 where
  pub rules : List Rule
  pub extras : List (String × Json)

-- `zDecisionTableStep`
pub record DecisionTableStep : Type 0 where
  pub hit_policy : Option String
  pub next_step : StepId
  pub decision_table : DecisionTable

-- `zTransformation`
pub record Transformation : Type 0 where
  pub next_step : StepId
  pub transformations : List (String × Json)

-- `zWait`
pub record Wait : Type 0 where
  pub next_step : StepId
  pub boundary_events : Option (List BoundaryEvent)

-- `zParallelGateway`
pub record ParallelGateway : Type 0 where
  pub parallel_next_steps : List StepId
  pub join_step : StepId

-- The union over `type`, with the fields of each variant.
pub data Variant : Type 0 where
  service_task : ServiceTask → Variant
  user_task : UserTask → Variant
  decision : List (String × StepId) → Variant
  decision_table : DecisionTableStep → Variant
  transformation : Transformation → Variant
  wait : Wait → Variant
  parallel_gateway : ParallelGateway → Variant
  join_gateway : StepId → Variant
  end_step : Variant

-- `zStep`: the common keys, and the variant.
pub record Step : Type 0 where
  pub id : StepId
  pub name : String
  pub description : Option String
  pub variant : Variant
  pub extras : List (String × Json)

-- `zWorkflowDefinition`
pub record WorkflowDefinition : Type 0 where
  pub id : String
  pub version : Option ℕ
  pub name : String
  pub description : Option String
  pub auto_start_next_workflow : Option Bool
  pub next_workflow_id : Option String
  pub steps : List Step
  pub metadata : Option (List (String × Json))
  pub extras : List (String × Json)

-- `StepType`, and its spelling.
pub data StepType : Type 0 where
  service_task_type user_task_type decision_type decision_table_type : StepType
  transformation_type wait_type parallel_gateway_type join_gateway_type end_type : StepType

abbrev pub step_type : Variant → StepType
step_type (service_task _) = service_task_type
step_type (user_task _) = user_task_type
step_type (decision _) = decision_type
step_type (decision_table _) = decision_table_type
step_type (transformation _) = transformation_type
step_type (wait _) = wait_type
step_type (parallel_gateway _) = parallel_gateway_type
step_type (join_gateway _) = join_gateway_type
step_type end_step = end_type

abbrev pub type_name : StepType → String
type_name service_task_type = "SERVICE_TASK"
type_name user_task_type = "USER_TASK"
type_name decision_type = "DECISION"
type_name decision_table_type = "DECISION_TABLE"
type_name transformation_type = "TRANSFORMATION"
type_name wait_type = "WAIT"
type_name parallel_gateway_type = "PARALLEL_GATEWAY"
type_name join_gateway_type = "JOIN_GATEWAY"
type_name end_type = "END"

-- `DiagnosticCode`
pub data DiagnosticCode : Type 0 where
  id_format name_required steps_nonempty step_id_unique step_id_required : DiagnosticCode
  step_type_valid next_workflow_consistency decision_has_branches : DiagnosticCode
  transformation_has_next transformation_has_entries wait_has_next : DiagnosticCode
  parallel_min_branches parallel_has_join join_has_next ref_resolves : DiagnosticCode
  all_reachable end_reachable boundary_type boundary_duration : DiagnosticCode
  boundary_target_resolves boundary_parent_supports no_nested_parallel : DiagnosticCode
  decision_expr_syntax decision_expr_non_boolean decision_expr_unknown_ident : DiagnosticCode
  decision_expr_refs transformation_expr_syntax unknown_fields_present : DiagnosticCode
  graph_cycle decision_table_has_rules decision_table_has_next : DiagnosticCode
  decision_table_hit_policy_unknown decision_table_aggregator_on_non_c : DiagnosticCode
  decision_table_legacy_then decision_table_legacy_default_next_step : DiagnosticCode
  decision_table_unreachable_rule dt_cell_expr_syntax dt_cell_expr_non_boolean : DiagnosticCode
  dt_cell_expr_unknown_ident dt_output_expr_syntax step_field_invalid : DiagnosticCode

pub data Severity : Type 0 where
  error warning info : Severity

pub record Diagnostic : Type 0 where
  pub code : DiagnosticCode
  pub severity : Severity
  pub message : String
  pub node_id : Option StepId
  pub field : Option String
  pub branch_key : Option String
  pub boundary_index : Option ℕ
  pub rule_index : Option ℕ
  pub cell_column : Option String

-- `EdgeVariant`
pub data EdgeVariant : Type 0 where
  sequential : EdgeVariant
  conditional : String → EdgeVariant
  parallel : EdgeVariant
  join_target : EdgeVariant
  join_out : EdgeVariant
  boundary : ℕ → EdgeVariant

pub record GraphNode : Type 0 where
  pub id : StepId
  pub type : StepType
  pub name : String
  pub is_entry : Bool
  pub step : Step

pub record GraphEdge : Type 0 where
  pub id : String
  pub from : StepId
  pub to : StepId
  pub variant : EdgeVariant
  pub source_handle : Option String
