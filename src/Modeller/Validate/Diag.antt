-- ===== src/Modeller/Validate/Diag.antt =====
-- The diagnostics that the checks of workflow-modeller/src/domain/validate.ts push.
use rochallor_engine.Base.{String, none, some}
use rochallor_engine.Modeller.Types.{StepId, Diagnostic, DiagnosticCode, Severity, error}

abbrev pub plain : DiagnosticCode → Severity → String → Diagnostic
plain code severity message = record {
  code = code;
  severity = severity;
  message = message;
  node_id = none;
  field = none;
  branch_key = none;
  boundary_index = none;
  rule_index = none;
  cell_column = none;
}

-- An error on a field of the definition.
abbrev pub root_error : DiagnosticCode → String → String → Diagnostic
root_error code message field = record (plain code error message) { field = some field }

-- An error on a step as a whole.
abbrev pub node_error : DiagnosticCode → String → StepId → Diagnostic
node_error code message id = record (plain code error message) { node_id = some id }

-- An error on a field of a step.
abbrev pub field_error : DiagnosticCode → String → StepId → String → Diagnostic
field_error code message id field = record (node_error code message id) { field = some field }
