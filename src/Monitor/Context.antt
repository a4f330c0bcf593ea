-- ===== src/Monitor/Context.antt =====
-- workflow-monitor-bff/src/modules/process-instances/execution-context.ts: what a process instance
-- waits for at each of its current steps.
--
-- `context_row` is what `EXECUTION_CONTEXT_SQL` selects for a step, from tables whose rows stand in
-- the orders of the statement.
pub mod Laws
use rochallor_engine.Base.{
  ℕ, String, Bool, true, false, Option, none, some, List, [], ◌∷◌, ◌&&◌, ◌||◌, not, if◌then◌else◌,
  ltb, ◌==◌, contains, filter_by, take, map, length, is_some,
}

pub record ContextJob : Type 0 where
  pub id : String
  pub type : String
  pub status : String
  pub worker_id : Option String
  pub locked_at : Option String
  pub lock_expires_at : Option String
  pub created_at : String
  pub retries_remaining : ℕ

pub record ContextTask : Type 0 where
  pub id : String
  pub assignee : Option String
  pub assignee_group : Option String

pub record ContextTimer : Type 0 where
  pub id : String
  pub fire_at : String
  pub target_step_id : String
  pub interrupting : Bool

pub data Reason : Type 0 where
  signal : Reason
  user_task : Reason
  job_available : Reason
  job_locked : Reason
  unavailable : Reason

pub record ExecutionContext : Type 0 where
  pub step_id : String
  pub execution_id : Option String
  pub step_type : Option String
  pub status : Option String
  pub started_at : Option ℕ
  pub reason : Reason
  pub unavailable_reason : Option String
  pub job : Option ContextJob
  pub task : Option ContextTask
  pub timers : List ContextTimer
  pub timers_truncated : Bool

-- A count that is `null` where its row is missing.
pub record ContextRow : Type 0 where
  pub step_id : String
  pub execution_id : Option String
  pub step_type : Option String
  pub status : Option String
  pub started_at : Option ℕ
  pub running_count : Option ℕ
  pub job : Option ContextJob
  pub job_count : Option ℕ
  pub task : Option ContextTask
  pub task_count : Option ℕ
  pub timers : List ContextTimer

-- Rows of `step_execution`, and of the tables that belong to an execution of an instance.
pub record ExecutionRow : Type 0 where
  pub id : String
  pub instance_id : String
  pub step_id : String
  pub step_type : String
  pub status : String
  pub started_at : ℕ

pub record Owned (A : Type 0) : Type 0 where
  pub instance_id : String
  pub step_execution_id : String
  pub content : A

pub record TaskRow : Type 0 where
  pub task : ContextTask
  pub status : String

pub record TimerRow : Type 0 where
  pub timer : ContextTimer
  pub fired : Bool

pub record Tables : Type 0 where
  pub step_execution : List ExecutionRow
  pub job : List (Owned ContextJob)
  pub user_task : List (Owned TaskRow)
  pub boundary_event_schedule : List (Owned TimerRow)

module _ (t : Tables) (instance_id : String) where
  -- The executions of a step, the latest first.
  unfoldable pub executions_of : String → List ExecutionRow
  executions_of step_id =
      filter_by (λ e. e.instance_id == instance_id && e.step_id == step_id) t.step_execution

  abbrev belongs : {A : Type 0} → ExecutionRow → Owned A → Bool
  belongs e o = o.instance_id == instance_id && o.step_execution_id == e.id

  unfoldable pub live_jobs : ExecutionRow → List ContextJob
  live_jobs e =
      map (λ o. o.content)
        (filter_by
          (λ o.
            belongs e o
            && contains ("UNLOCKED" ∷ "LOCKED" ∷ []) o.content.status
            && e.status == "RUNNING"
            && e.step_type == "SERVICE_TASK")
          t.job)

  unfoldable pub live_tasks : ExecutionRow → List ContextTask
  live_tasks e =
      map (λ o. o.content.task)
        (filter_by
          (λ o.
            belongs e o
            && o.content.status == "OPEN"
            && e.status == "RUNNING"
            && e.step_type == "USER_TASK")
          t.user_task)

  unfoldable pub pending_timers : ExecutionRow → List ContextTimer
  pending_timers e =
      map (λ o. o.content.timer)
        (filter_by (λ o. belongs e o && not o.content.fired && e.status == "RUNNING")
          t.boundary_event_schedule)

-- `LIMIT 1`, with the count of the window.
abbrev pub first_of : {A : Type 0} → List A → Option A
first_of [] = none
first_of (x ∷ xs) = some x

abbrev pub count_of : {A : Type 0} → List A → Option ℕ
count_of [] = none
count_of (x ∷ xs) = some (length (x ∷ xs))

abbrev pub running : List ExecutionRow → List ExecutionRow
running executions = filter_by (λ e. e.status == "RUNNING") executions

-- The row of a step, by its executions.
unfoldable pub row_of :
    String
    → List ExecutionRow
    → (ExecutionRow → List ContextJob)
    → (ExecutionRow → List ContextTask)
    → (ExecutionRow → List ContextTimer)
    → ContextRow
row_of step_id [] jobs tasks timers = record {
  step_id = step_id;
  execution_id = none;
  step_type = none;
  status = none;
  started_at = none;
  running_count = none;
  job = none;
  job_count = none;
  task = none;
  task_count = none;
  timers = [];
}
row_of step_id (e ∷ older) jobs tasks timers = record {
  step_id = step_id;
  execution_id = some e.id;
  step_type = some e.step_type;
  status = some e.status;
  started_at = some e.started_at;
  running_count = some (length (running (e ∷ older)));
  job = first_of (jobs e);
  job_count = count_of (jobs e);
  task = first_of (tasks e);
  task_count = count_of (tasks e);
  timers = take 101 (timers e);
}

unfoldable pub context_row : Tables → String → String → ContextRow
unfolding row_of
context_row t instance_id step_id =
    row_of step_id (executions_of t instance_id step_id) (live_jobs t instance_id)
      (live_tasks t instance_id) (pending_timers t instance_id)

-- `Number(count) > 1`: `null` counts as 0.
abbrev more_than_one : Option ℕ → Bool
more_than_one none = false
more_than_one (some n) = ltb 1 n

abbrev pub is : Option String → String → Bool
is none s = false
is (some t) s = t == s

abbrev job_reason : Option ContextJob → Reason
job_reason none = unavailable
job_reason (some job) = if job.status == "LOCKED" then job_locked else job_available

-- The three tests on `step_type`, for a running execution.
unfoldable pub running_reason : ContextRow → Reason
running_reason row =
    let waiting = if is row.step_type "WAIT" then signal else unavailable in
    let assigned =
      if is row.step_type "USER_TASK" && is_some row.task then user_task else waiting in
    if is row.step_type "SERVICE_TASK" && is_some row.job then job_reason row.job else assigned

abbrev pub is_unavailable : Reason → Bool
is_unavailable unavailable = true
is_unavailable _ = false

-- `reason` and `unavailableReason`.
unfoldable pub reason_of : ContextRow → Reason × Option String
unfolding running_reason
reason_of row =
    if more_than_one row.running_count
      || more_than_one row.job_count
      || more_than_one row.task_count
    then (unavailable, some "Conflicting live execution records")
    else if is row.status "RUNNING"
    then (
      running_reason row,
      if is_unavailable (running_reason row)
          then some "Related evidence is missing or this step type is unsupported"
          else none,
    )
    else (unavailable, some "No running execution evidence")

unfoldable pub context_of : ContextRow → ExecutionContext
unfolding reason_of
context_of row =
    let (reason, unavailable_reason) = reason_of row in
    record {
      step_id = row.step_id;
      execution_id = row.execution_id;
      step_type = row.step_type;
      status = row.status;
      started_at = row.started_at;
      reason = reason;
      unavailable_reason = unavailable_reason;
      job =
          if not (is_unavailable reason) && is row.step_type "SERVICE_TASK" then row.job else none;
      task = if not (is_unavailable reason) && is row.step_type "USER_TASK" then row.task else none;
      timers = take 100 row.timers;
      timers_truncated = ltb 100 (length row.timers);
    }

unfoldable pub read_execution_context : Tables → String → List String → List ExecutionContext
unfolding context_row context_of
read_execution_context t instance_id step_ids =
    map (λ step_id. context_of (context_row t instance_id step_id)) step_ids
