-- ===== src/Monitor/Variables.antt =====
-- workflow-monitor-bff/src/modules/process-variables/process-variable.queries.ts: the variables of
-- an instance, and those that a step execution recorded.
--
-- `V` is the type of JSON values: `parse` reads a column, and `byte_length` is
-- `Buffer.byteLength(JSON.stringify(value))`.
pub mod Laws
use rochallor_engine.Base.{
  ℕ, String, Bool, true, false, Option, none, some, List, [], ◌∷◌, ◌&&◌, if◌then◌else◌, ltb, ◌==◌,
  contains, filter_by,
}
use rochallor_engine.Monitor.Executions.{StepExecutionRow}
use rochallor_engine.Monitor.Context.{first_of}

pub data VariableDocument (V : Type 0) : Type 0 where
  present : V → ℕ → VariableDocument V
  not_recorded : VariableDocument V
  content_too_large : ℕ → VariableDocument V

pub data OutputInterpretation : Type 0 where
  variable_delta : OutputInterpretation
  full_state : OutputInterpretation
  unknown : OutputInterpretation

pub record RecordedVariables (V : Type 0) : Type 0 where
  pub output_interpretation : OutputInterpretation
  pub recorded_input : VariableDocument V
  pub recorded_output : VariableDocument V

-- The columns of `workflow_instance` that are read.
pub record VariablesRow : Type 0 where
  pub id : String
  pub variables : String

abbrev pub interpretation : String → OutputInterpretation
interpretation step_type =
    if step_type == "SERVICE_TASK"
    then variable_delta
    else if contains ("USER_TASK" ∷ "WAIT" ∷ "TRANSFORMATION" ∷ []) step_type
    then full_state
    else unknown

module _ {V : Type 0} (parse : String → V) (byte_length : V → ℕ) (max_json_document_bytes : ℕ) where
  unfoldable pub variable_document : V → VariableDocument V
  variable_document value =
      let size_bytes = byte_length value in
      if ltb max_json_document_bytes size_bytes
      then content_too_large size_bytes
      else present value size_bytes

  abbrev pub current_of : Option VariablesRow → Option (VariableDocument V)
  current_of none = none
  current_of (some row) = some (variable_document (parse row.variables))

  unfoldable pub current : List VariablesRow → String → Option (VariableDocument V)
  unfolding variable_document
  current workflow_instance instance_id =
      current_of (first_of (filter_by (λ row. row.id == instance_id) workflow_instance))

  -- `has_…_snapshot ? … : { status: "notRecorded" }`.
  abbrev pub snapshot_document : Option String → VariableDocument V
  snapshot_document none = not_recorded
  snapshot_document (some column) = variable_document (parse column)

  abbrev pub recorded_of : Option StepExecutionRow → Option (RecordedVariables V)
  recorded_of none = none
  recorded_of (some row) = some (record {
    output_interpretation = interpretation row.step_type;
    recorded_input = snapshot_document row.input_snapshot;
    recorded_output = snapshot_document row.output_snapshot;
  })

  unfoldable pub recorded : List StepExecutionRow → String → String → Option (RecordedVariables V)
  unfolding variable_document
  recorded step_execution instance_id execution_id = recorded_of (
      first_of (
        filter_by (λ row. row.id == execution_id && row.instance_id == instance_id) step_execution))
