-- ===== src/Modeller/Store/Actions.antt =====
-- The actions of workflow-modeller/src/store/workflowStore.ts. Each maps a state to the next one;
-- `Date.now()`, the drafts and the results of the engine's client are arguments.
pub mod Laws
pub mod RoundTrip
use rochallor_engine.Base.{
  ℕ, String, Bool, true, false, Option, none, some, List, [], ◌∷◌, ◌++◌, map, ◌&&◌, not,
  if◌then◌else◌, ◌==◌, ◌<>◌, is_empty, leb, ltb, decimal, filter_by, contains, insert,
}
use rochallor_engine.Modeller.Types.{
  StepId, Step, WorkflowDefinition, Diagnostic, error, step_type_valid, Json,
}
use rochallor_engine.Modeller.Graph.{truthy}
use rochallor_engine.Modeller.Rename.{Result, ok, thrown, rename_step_id}
use rochallor_engine.Modeller.Expression.Tree.{Parsed}
use rochallor_engine.Modeller.Validate
use rochallor_engine.Modeller.Validate.Diag.{plain}
use rochallor_engine.Modeller.Store.State.{
  Position, Layout, EdgeHandles, Status, status_ok, status_unreachable, status_error,
  EngineConnection, Selection, nothing, Source, new, file, engine, Validation, WorkflowState,
  empty_definition, no_diagnostics, initial_state,
}
use rochallor_engine.Modeller.Store.NewStep.{Template, new_step, or_else, step_ids}
use rochallor_engine.Modeller.Store.Scrub.{scrub_refs}
use rochallor_engine.Modeller.Io.Embed.{embed_layout, extract_layout, extract_handles, export_json}
use rochallor_engine.Modeller.Io.Import.{Decoded, ImportResult, imported, refused, import_json}
use rochallor_engine.Modeller.Io.Drafts.{Draft, DraftInput}

-- `{ ...definition, steps }, dirty: true`.
abbrev set_steps : WorkflowState → List Step → WorkflowState
set_steps s steps = record s { definition = record (s.definition) { steps = steps }; dirty = true }

unfoldable pub add_step : Template → WorkflowState → WorkflowState × StepId
add_step template s =
    let step = new_step template s.definition in
    (set_steps s (s.definition.steps ++ step ∷ []), step.id)

-- The definition without the step, before its references are scrubbed.
unfoldable pub without_step : StepId → WorkflowDefinition → WorkflowDefinition
without_step id def = record def { steps = filter_by (λ (s : Step). not (s.id == id)) def.steps }

-- `if (replacement) def = applyRename(def, replacement, replacement)`.
unfoldable pub rename_replacement : Option StepId → WorkflowDefinition → Result WorkflowDefinition
rename_replacement none def = ok def
rename_replacement (some r) def = if is_empty r then ok def else rename_step_id def r r

unfoldable pub delete_step : StepId → Option StepId → WorkflowState → Result WorkflowState
unfolding without_step rename_replacement
delete_step id replacement s =
    elim (rename_replacement replacement (without_step id s.definition)) [
      | thrown message ↦ thrown message
      | ok def ↦ ok (record s { definition = scrub_refs def id; dirty = true })
    ]

unfoldable pub rename_step : StepId → StepId → WorkflowState → Result WorkflowState
rename_step old_id new_id s = elim (rename_step_id s.definition old_id new_id) [
  | thrown message ↦ thrown message
  | ok def ↦ ok (record s { definition = def; dirty = true })
]

-- `assign` is the assignment of a key of the step, `{ ...s, [key]: value }`.
unfoldable pub update_step_property : StepId → (Step → Step) → WorkflowState → WorkflowState
update_step_property id assign s =
    set_steps s (map (λ (t : Step). if t.id == id then assign t else t) s.definition.steps)

-- `assign` is `{ ...definition, ...patch }`.
unfoldable pub set_definition_meta :
    (WorkflowDefinition → WorkflowDefinition) → WorkflowState → WorkflowState
set_definition_meta assign s = record s { definition = assign s.definition; dirty = true }

-- What `newWorkflow`, `loadDraft`, `importFromJson` and `loadFromEngine` set.
abbrev fresh :
    WorkflowDefinition → Layout → EdgeHandles → List String → Source → WorkflowState → WorkflowState
fresh def layout handles warnings source s = record s {
  definition = def;
  layout = layout;
  edge_handles = handles;
  selection = nothing;
  validation = no_diagnostics;
  dirty = false;
  import_warnings = warnings;
  source = source;
}

unfoldable pub new_workflow : WorkflowState → WorkflowState
new_workflow = fresh empty_definition [] [] [] new

-- What `saveDraft` of the store saves.
unfoldable pub draft_input : String → WorkflowState → DraftInput
draft_input name s = record {
  name = name;
  definition = s.definition;
  layout = s.layout;
  edge_handles = s.edge_handles;
}

-- `found` is the result of `getDraft`.
unfoldable pub load_draft : Option Draft → WorkflowState → WorkflowState × Bool
load_draft none s = (s, false)
load_draft (some draft) s = (fresh draft.definition draft.layout draft.edge_handles [] new s, true)

unfoldable pub set_layout : StepId → Position → WorkflowState → WorkflowState
set_layout id pos s = record s { layout = insert id pos s.layout }

unfoldable pub set_edge_handle : String → Json → WorkflowState → WorkflowState
set_edge_handle edge_id handles s = record s {
  edge_handles = insert edge_id handles s.edge_handles;
}

unfoldable pub select : Selection → WorkflowState → WorkflowState
select sel s = record s { selection = sel }

unfoldable pub run_validation : (String → Parsed) → ℕ → WorkflowState → WorkflowState
run_validation parse now s = record s {
  validation = record {
    last_run_at = some now;
    diagnostics = Validate.validate parse s.definition;
  };
}

unfoldable pub set_engine_connection :
    (EngineConnection → EngineConnection) → WorkflowState → WorkflowState
set_engine_connection assign s = record s { engine = assign s.engine }

-- The result that the caller gets: the warnings, or the errors.
pub data ImportReply : Type 0 where
  import_ok : List String → ImportReply
  import_failed : List String → ImportReply

-- `exportToJson`, with `includeLayout` for the option of that name.
unfoldable pub export_to_json : (Bool → WorkflowDefinition → String) → Bool → WorkflowState → String
export_to_json stringify include_layout s = export_json stringify s.definition (record {
  include_layout = include_layout;
  layout = some s.layout;
  edge_handles = some s.edge_handles;
  pretty = true;
})

unfoldable pub import_from_json :
    (String → Decoded) → String → Option String → WorkflowState → WorkflowState × ImportReply
import_from_json parse text name s = elim (import_json parse text) [
  | refused errors ↦ (s, import_failed errors)
  | imported def warnings ↦ (
    fresh def (extract_layout def) (extract_handles def) warnings (file name) s,
    import_ok warnings,
  )
]

unfoldable pub kept_layout : List StepId → Layout → Layout
kept_layout ids = filter_by (λ (e : StepId × Position). contains ids e.0)

unfoldable pub apply_definition_from_json :
    (String → Decoded) → String → WorkflowState → WorkflowState × ImportReply
unfolding kept_layout
apply_definition_from_json parse text s = elim (import_json parse text) [
  | refused errors ↦ (s, import_failed errors)
  | imported def warnings ↦ (
    record s {
      definition = def;
      layout = kept_layout (step_ids def.steps) s.layout;
      selection = nothing;
      validation = no_diagnostics;
      dirty = true;
      import_warnings = warnings;
    },
    import_ok warnings,
  )
]

-- `def` is what the client returned; a client that throws leaves the state.
unfoldable pub load_from_engine :
    String → Option ℕ → WorkflowDefinition → WorkflowState → WorkflowState
load_from_engine id version def =
    fresh def (extract_layout def) (extract_handles def) []
      (engine id (or_else def.version (or_else version 0)))

-- How the client's `upload` ends. An `EngineError` carries a status, a body and a message.
pub data Upload : Type 0 where
  uploaded : String → ℕ → Upload
  http_error : ℕ → String → String → Upload
  network_error : Upload
  other_failure : Upload

unfoldable pub rejection : ℕ → String → String → Diagnostic
rejection status body message = plain step_type_valid error (
    "Engine rejected upload ("
    <> decimal status
    <> "): "
    <> (if is_empty body then message else body))

abbrev failed_status : WorkflowState → WorkflowState
failed_status s = record s { engine = record (s.engine) { status = status_error } }

-- What `uploadToEngine` sends.
unfoldable pub upload_body : WorkflowState → WorkflowDefinition
upload_body s = embed_layout s.definition s.layout (some s.edge_handles)

-- The state after the upload. On every error the exception is thrown again.
unfoldable pub upload_to_engine : ℕ → Upload → WorkflowState → WorkflowState
unfolding rejection
upload_to_engine now (uploaded id version) s = record s {
  definition = record (s.definition) { version = some version };
  dirty = false;
  source = engine id version;
  engine = record (s.engine) { status = status_ok; last_checked_at = some now };
}
upload_to_engine now (http_error status body message) s =
    if leb 400 status && ltb status 500
    then record (failed_status s) {
      validation = record {
        last_run_at = some now;
        diagnostics = s.validation.diagnostics ++ rejection status body message ∷ [];
      };
    }
    else failed_status s
upload_to_engine now network_error s = record s {
  engine = record (s.engine) { status = status_unreachable; last_checked_at = some now };
}
upload_to_engine now other_failure s = failed_status s

unfoldable pub test_engine_connection : ℕ → Status → WorkflowState → WorkflowState
test_engine_connection now status s = record s {
  engine = record (s.engine) { status = status; last_checked_at = some now };
}

unfoldable pub reset : WorkflowState → WorkflowState
reset s = initial_state
