-- ===== src/Modeller/Samples.antt =====
-- Workflow definitions in the form that workflow-modeller/src/domain/schema.ts accepts, for the
-- tests.
use rochallor_engine.Base.{String, true, none, some, List, [], ◌∷◌}
use rochallor_engine.Modeller.Types.{
  StepId, Step, Variant, service_task, user_task, decision, transformation, parallel_gateway,
  join_gateway, end_step, BoundaryEvent, WorkflowDefinition, str,
}
use rochallor_engine.Modeller.Expression.Tree.{Parsed, tree, literal, bool_literal}
use rochallor_engine.Modeller.Store.State.{Layout, WorkflowState, initial_state}

abbrev pub step_of : StepId → Variant → Step
step_of id variant = record {
  id = id;
  name = id;
  description = none;
  variant = variant;
  extras = [];
}

abbrev pub timeout : BoundaryEvent
timeout = record {
  type = "TIMER";
  duration = "PT5M";
  interrupting = true;
  target_step_id = "done";
  extras = [];
}

abbrev pub charge : Step
charge = step_of "charge" (
    service_task (record {
      next_step = some "route";
      job_type = some "charge-card";
      delegate_class = none;
      retry_count = some 3;
      boundary_events = some (timeout ∷ []);
    }))

abbrev pub route : Step
route = step_of "route" (decision (("amount > 10", "fork") ∷ ("true", "done") ∷ []))

abbrev pub fork : Step
fork =
    step_of "fork"
      (parallel_gateway (record { parallel_next_steps = "pack" ∷ "bill" ∷ []; join_step = "meet" }))

abbrev pub pack : Step
pack = step_of "pack" (
    user_task
      (record { next_step = some "meet"; job_type = some "packing"; boundary_events = none }))

abbrev pub bill : Step
bill = step_of "bill" (
    transformation
      (record { next_step = "meet"; transformations = ("total", str "${amount}") ∷ [] }))

abbrev pub meet : Step
meet = step_of "meet" (join_gateway "done")

abbrev pub done : Step
done = step_of "done" end_step

abbrev pub later_steps : List Step
later_steps = route ∷ fork ∷ pack ∷ bill ∷ meet ∷ done ∷ []

abbrev pub order_flow : WorkflowDefinition
order_flow = record {
  id = "order-flow";
  version = some 2;
  name = "Order flow";
  description = none;
  auto_start_next_workflow = none;
  next_workflow_id = none;
  steps = charge ∷ later_steps;
  metadata = some (("owner", str "billing") ∷ []);
  extras = [];
}

abbrev pub order_state : WorkflowState
order_state = record initial_state { definition = order_flow }

abbrev pub order_layout : Layout
order_layout =
    ("charge", record { x = "0"; y = "0" }) ∷ ("done", record { x = "40"; y = "12.5" }) ∷ []

-- A parser that reads every expression as the literal `true`.
abbrev pub read_true : String → Parsed
read_true source = tree (literal (bool_literal true))
