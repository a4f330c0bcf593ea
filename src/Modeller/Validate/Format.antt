-- ===== src/Modeller/Validate/Format.antt =====
-- The checks of workflow-modeller/src/domain/validate.ts on ids, names and the next workflow.
pub mod Laws
use Prim.Native.String
use rochallor_engine.Base.{
  ℕ, zero, suc, String, Bool, true, false, Option, none, some, List, [], ◌∷◌, ◌++◌, ◌&&◌, ◌||◌, not,
  if◌then◌else◌, ◌==◌, ◌<>◌, code, nat_eq, leb, ltb, is_empty, is_blank, utf16_length, decimal,
  contains, length, flat_map, flat_map_from, map,
}
use rochallor_engine.Modeller.Types.{
  StepId, Step, WorkflowDefinition, Diagnostic, step_type, type_name, StepType, service_task_type,
  user_task_type, decision_type, decision_table_type, transformation_type, wait_type,
  parallel_gateway_type, join_gateway_type, end_type, id_format, name_required, steps_nonempty,
  step_id_unique, step_id_required, step_type_valid, next_workflow_consistency,
}
use rochallor_engine.Modeller.Validate.Diag.{plain, root_error, node_error, field_error}

-- `[A-Za-z0-9_:\-]`.
unfoldable pub id_char : ℕ → Bool
id_char c =
    leb b'A' c && leb c b'Z'
    || leb b'a' c && leb c b'z'
    || leb b'0' c && leb c b'9'
    || nat_eq c b'_'
    || nat_eq c b':'
    || nat_eq c b'-'

unfoldable pub id_chars : String → Bool
unfolding id_char
id_chars String.[] = true
id_chars (String.◌∷◌ c s) = id_char (code c) && id_chars s

-- `ID_PATTERN.test(s)`.
unfoldable pub id_pattern : String → Bool
unfolding id_chars
id_pattern s = not (is_empty s) && id_chars s

unfoldable pub check_id_format : WorkflowDefinition → List Diagnostic
unfolding id_pattern utf16_length
check_id_format def =
    if is_empty def.id || not (id_pattern def.id) || ltb 256 (utf16_length def.id)
    then root_error id_format "Workflow id must match [A-Za-z0-9_:-]+ and be ≤ 256 characters." "id"
      ∷ []
    else []

unfoldable pub check_step_name : Step → List Diagnostic
check_step_name step =
    if is_empty step.name || is_blank step.name
    then field_error name_required ("Step \"" <> step.id <> "\" must have a name.") step.id "name"
      ∷ []
    else []

unfoldable pub check_name_required : WorkflowDefinition → List Diagnostic
unfolding check_step_name
check_name_required def =
    (if is_empty def.name || is_blank def.name
      then root_error name_required "Workflow name is required." "name" ∷ []
      else [])
    ++ flat_map check_step_name def.steps

unfoldable pub check_steps_nonempty : WorkflowDefinition → List Diagnostic
check_steps_nonempty def =
    if nat_eq (length def.steps) 0
    then root_error steps_nonempty "Workflow must contain at least one step." "steps" ∷ []
    else []

-- The loop of `checkStepIdsUnique`.
unfoldable pub repeated_ids : List StepId → List Step → List Diagnostic
repeated_ids seen [] = []
repeated_ids seen (step ∷ steps) =
    (if contains seen step.id
      then field_error step_id_unique ("Duplicate step id: \"" <> step.id <> "\".") step.id "id"
        ∷ []
      else [])
    ++ repeated_ids (step.id ∷ seen) steps

unfoldable pub check_step_ids_unique : WorkflowDefinition → List Diagnostic
unfolding repeated_ids
check_step_ids_unique def = repeated_ids [] def.steps

unfoldable pub check_step_id : ℕ → Step → List Diagnostic
check_step_id i step =
    if is_empty step.id || is_blank step.id
    then root_error step_id_required ("Step at index " <> decimal i <> " is missing an id.") "id"
      ∷ []
    else []

unfoldable pub check_step_ids_present : WorkflowDefinition → List Diagnostic
unfolding check_step_id
check_step_ids_present def = flat_map_from 0 check_step_id def.steps

abbrev pub step_types : List StepType
step_types =
    service_task_type ∷ user_task_type ∷ decision_type ∷ decision_table_type ∷ transformation_type
    ∷ wait_type ∷ parallel_gateway_type ∷ join_gateway_type ∷ end_type ∷ []

unfoldable pub check_step_types_valid : WorkflowDefinition → List Diagnostic
check_step_types_valid def =
    flat_map
      (λ step.
        let type = type_name (step_type step.variant) in
        if contains (map type_name step_types) type
        then []
        else field_error step_type_valid
            ("Step \"" <> step.id <> "\" has unknown type \"" <> type <> "\".") step.id "type"
          ∷ [])
      def.steps

-- `x === true` on an optional Boolean.
abbrev pub is_true : Option Bool → Bool
is_true none = false
is_true (some b) = b

-- A string that is there and not blank.
abbrev pub has_text : Option String → Bool
has_text none = false
has_text (some s) = not (is_blank s)

abbrev bool_ne : Bool → Bool → Bool
bool_ne true b = not b
bool_ne false b = b

unfoldable pub check_next_workflow_consistency : WorkflowDefinition → List Diagnostic
check_next_workflow_consistency def =
    if bool_ne (is_true def.auto_start_next_workflow) (has_text def.next_workflow_id)
    then root_error next_workflow_consistency
        "autoStartNextWorkflow must be set together with a non-empty nextWorkflowId."
        "nextWorkflowId"
      ∷ []
    else []
