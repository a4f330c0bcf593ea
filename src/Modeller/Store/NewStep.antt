-- ===== src/Modeller/Store/NewStep.antt =====
-- `newStep`, `uniqueStepId` and `defaultStepName` of workflow-modeller/src/store/workflowStore.ts.
pub mod Laws
use rochallor_engine.Base.{
  ℕ, zero, suc, String, Option, none, some, List, [], map, if◌then◌else◌, ◌<>◌, contains, decimal,
  length,
}
use rochallor_engine.Modeller.Types.{
  StepId, Step, Variant, service_task, user_task, decision, decision_table, transformation, wait,
  parallel_gateway, join_gateway, end_step, WorkflowDefinition, StepType, service_task_type,
  user_task_type, decision_type, decision_table_type, transformation_type, wait_type,
  parallel_gateway_type, join_gateway_type, end_type,
}

-- `NewStepTemplate`
pub record Template : Type 0 where
  pub type : StepType
  pub id : Option StepId
  pub name : Option String

-- `type.toLowerCase().replace(/_/g, '-')`, type by type.
unfoldable pub default_id : StepType → StepId
default_id service_task_type = "service-task"
default_id user_task_type = "user-task"
default_id decision_type = "decision"
default_id decision_table_type = "decision-table"
default_id transformation_type = "transformation"
default_id wait_type = "wait"
default_id parallel_gateway_type = "parallel-gateway"
default_id join_gateway_type = "join-gateway"
default_id end_type = "end"

-- `defaultStepName`, type by type.
unfoldable pub default_step_name : StepType → String
default_step_name service_task_type = "Service Task"
default_step_name user_task_type = "User Task"
default_step_name decision_type = "Decision"
default_step_name decision_table_type = "Decision Table"
default_step_name transformation_type = "Transformation"
default_step_name wait_type = "Wait"
default_step_name parallel_gateway_type = "Parallel Gateway"
default_step_name join_gateway_type = "Join Gateway"
default_step_name end_type = "End"

abbrev pub numbered : StepId → ℕ → StepId
numbered preferred i = preferred <> "-" <> decimal i

-- `while (existing.has(…)) i++`, on fuel. Without fuel the candidate is not tested.
unfoldable pub first_free : List StepId → StepId → ℕ → ℕ → StepId
first_free existing preferred zero i = numbered preferred i
first_free existing preferred (suc fuel) i =
    let next = first_free existing preferred fuel (suc i) in
    if contains existing (numbered preferred i) then next else numbered preferred i

abbrev pub step_ids : List Step → List StepId
step_ids = map (λ (s : Step). s.id)

-- A round of the loop for each step is enough.
unfoldable pub unique_step_id : WorkflowDefinition → StepId → StepId
unfolding first_free
unique_step_id def preferred =
    if contains (step_ids def.steps) preferred
    then first_free (step_ids def.steps) preferred (length def.steps) 2
    else preferred

unfoldable pub new_variant : StepType → Variant
new_variant service_task_type = service_task (record {
  next_step = none;
  job_type = none;
  delegate_class = none;
  retry_count = none;
  boundary_events = none;
})
new_variant user_task_type =
    user_task (record { next_step = none; job_type = none; boundary_events = none })
new_variant decision_type = decision []
new_variant decision_table_type = decision_table (record {
  hit_policy = some "U";
  next_step = "";
  decision_table = record { rules = []; extras = [] };
})
new_variant transformation_type = transformation (record { next_step = ""; transformations = [] })
new_variant wait_type = wait (record { next_step = ""; boundary_events = none })
new_variant parallel_gateway_type =
    parallel_gateway (record { parallel_next_steps = []; join_step = "" })
new_variant join_gateway_type = join_gateway ""
new_variant end_type = end_step

-- `x ?? y`.
abbrev pub or_else {ℓ} : {A : Type ℓ} → Option A → A → A
or_else none y = y
or_else (some x) y = x

unfoldable pub new_step : Template → WorkflowDefinition → Step
unfolding new_variant
new_step template def = record {
  id = unique_step_id def (or_else template.id (default_id template.type));
  name = or_else template.name (default_step_name template.type);
  description = none;
  variant = new_variant template.type;
  extras = [];
}
