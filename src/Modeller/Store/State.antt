-- ===== src/Modeller/Store/State.antt =====
-- The state of workflow-modeller/src/store/workflowStore.ts.
use rochallor_engine.Base.{ℕ, String, Bool, false, Option, none, List, []}
use rochallor_engine.Modeller.Types.{StepId, WorkflowDefinition, EdgeVariant, Diagnostic, Json}

-- A coordinate is kept as its text: the store never computes with it.
pub record Position : Type 0 where
  pub x : String
  pub y : String

abbrev pub Layout : Type 0
Layout = List (StepId × Position)

-- The handles of an edge are passed on as they are.
abbrev pub EdgeHandles : Type 0
EdgeHandles = List (String × Json)

pub data Status : Type 0 where
  status_unknown status_ok status_unreachable status_unauthorized status_error : Status

pub record EngineConnection : Type 0 where
  pub base_url : String
  pub auth_header : String
  pub status : Status
  pub last_checked_at : Option ℕ

pub data Selection : Type 0 where
  nothing : Selection
  a_step : StepId → Selection
  an_edge : StepId → StepId → EdgeVariant → Selection

pub data Source : Type 0 where
  new : Source
  file : Option String → Source
  engine : String → ℕ → Source

pub record Validation : Type 0 where
  pub last_run_at : Option ℕ
  pub diagnostics : List Diagnostic

pub record WorkflowState : Type 0 where
  pub definition : WorkflowDefinition
  pub layout : Layout
  pub edge_handles : EdgeHandles
  pub selection : Selection
  pub validation : Validation
  pub dirty : Bool
  pub import_warnings : List String
  pub engine : EngineConnection
  pub source : Source

abbrev pub empty_definition : WorkflowDefinition
empty_definition = record {
  id = "new-workflow";
  version = none;
  name = "Untitled workflow";
  description = none;
  auto_start_next_workflow = none;
  next_workflow_id = none;
  steps = [];
  metadata = none;
  extras = [];
}

abbrev pub no_diagnostics : Validation
no_diagnostics = record { last_run_at = none; diagnostics = [] }

abbrev pub initial_state : WorkflowState
initial_state = record {
  definition = empty_definition;
  layout = [];
  edge_handles = [];
  selection = nothing;
  validation = no_diagnostics;
  dirty = false;
  import_warnings = [];
  engine = record {
    base_url = "http://localhost:8080";
    auth_header = "";
    status = status_unknown;
    last_checked_at = none;
  };
  source = new;
}
