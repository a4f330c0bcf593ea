-- ===== src/Monitor/Context/Laws.antt =====
-- What the evidence on a current step says, against the tables.
use rochallor_engine.Base.{
  String, Bool, true, false, Option, none, some, List, [], ◌∷◌, ◌&&◌, not, if◌then◌else◌, ltb, ◌==◌,
  ==_iff, filter_by, take, length, any, is_some, ◌≡◌, refl, ap, arith, map,
}
use rochallor_engine.Monitor.Paging.Laws.{take-take, ltb-length-take}
use rochallor_engine.Monitor.Context.{
  ContextRow, is, ContextJob, ContextTask, ContextTimer, Reason, signal, user_task, job_available,
  job_locked, unavailable, ExecutionRow, Tables, executions_of, live_jobs, live_tasks,
  pending_timers, running, row_of, context_row, running_reason, is_unavailable, reason_of,
  context_of,
}

-- Exactly one record is evidence.
abbrev pub of_tasks : List ContextTask → Reason
of_tasks (task ∷ []) = user_task
of_tasks _ = unavailable

abbrev pub of_jobs : List ContextJob → Reason
of_jobs (job ∷ []) = if job.status == "LOCKED" then job_locked else job_available
of_jobs _ = unavailable

-- The latest execution has to be the only one that runs.
unfoldable pub evidence :
    List ExecutionRow
    → (ExecutionRow → List ContextJob)
    → (ExecutionRow → List ContextTask)
    → Reason
evidence [] jobs tasks = unavailable
evidence (e ∷ older) jobs tasks =
    if e.status == "RUNNING" && not (any (λ o. o.status == "RUNNING") older)
    then (if e.step_type == "WAIT"
        then signal
        else if e.step_type == "USER_TASK"
        then of_tasks (tasks e)
        else if e.step_type == "SERVICE_TASK"
        then of_jobs (jobs e)
        else unavailable)
    else unavailable

none_running :
    (older : List ExecutionRow)
    → any (λ o. o.status == "RUNNING") older ≡ ltb 0 (length (running older))
none_running [] = refl
none_running (o ∷ older) = ground (arith, none_running older)

filter_by-never {ℓ} :
    {A : Type ℓ} (p : A → Bool) (xs : List A) → ((x : A) → p x ≡ false) → filter_by p xs ≡ []
filter_by-never p [] h = refl
filter_by-never p (x ∷ xs) h = rw (h x) (filter_by-never p xs h)

module _ (t : Tables) (instance_id : String) where
  live_jobs-other :
      (e : ExecutionRow) → (e.step_type == "SERVICE_TASK") ≡ false → live_jobs t instance_id e ≡ []
  unfolding live_jobs
  live_jobs-other e h = ap (map _) (filter_by-never _ t.job λ o. ground arith)

  live_tasks-other :
      (e : ExecutionRow) → (e.step_type == "USER_TASK") ≡ false → live_tasks t instance_id e ≡ []
  unfolding live_tasks
  live_tasks-other e h = ap (map _) (filter_by-never _ t.user_task λ o. ground arith)

-- The records of an execution that is not of their type are left out by the statement.
abbrev IsTyped : ExecutionRow → List ContextJob → List ContextTask → Type 0
IsTyped e jobs tasks =
    ((e.step_type == "SERVICE_TASK") ≡ false → jobs ≡ [])
    × ((e.step_type == "USER_TASK") ≡ false → tasks ≡ [])

apart :
    (s : String)
    → (s == "WAIT") ≡ true
    → ((s == "USER_TASK") ≡ false) × ((s == "SERVICE_TASK") ≡ false)
apart s h = rw ((==_iff s "WAIT").0 h) (refl, refl)

apart_user :
    (s : String)
    → (s == "USER_TASK") ≡ true
    → ((s == "WAIT") ≡ false) × ((s == "SERVICE_TASK") ≡ false)
apart_user s h = rw ((==_iff s "USER_TASK").0 h) (refl, refl)

module _ (step_id : String) (e : ExecutionRow) (older : List ExecutionRow)
    (jobs : ExecutionRow → List ContextJob) (tasks : ExecutionRow → List ContextTask)
    (timers : ExecutionRow → List ContextTimer) where
  reason_of-row_of :
      (js : List ContextJob) (ts : List ContextTask)
      → jobs e ≡ js
      → tasks e ≡ ts
      → IsTyped e js ts
      → (reason_of (row_of step_id (e ∷ older) jobs tasks timers)).0
        ≡ evidence (e ∷ older) jobs tasks
  unfolding reason_of row_of evidence running_reason
  reason_of-row_of [] [] ej et typed =
      ground (arith, none_running older, apart e.step_type, apart_user e.step_type)
  reason_of-row_of (j ∷ []) [] ej et typed =
      ground (arith, none_running older, apart e.step_type, apart_user e.step_type, typed.0)
  reason_of-row_of [] (u ∷ []) ej et typed =
      ground (arith, none_running older, apart e.step_type, apart_user e.step_type, typed.1)
  reason_of-row_of (j ∷ k ∷ js) [] ej et typed =
      ground (arith, none_running older, apart e.step_type, apart_user e.step_type, typed.0)
  reason_of-row_of [] (u ∷ v ∷ ts) ej et typed =
      ground (arith, none_running older, apart e.step_type, apart_user e.step_type, typed.1)
  reason_of-row_of (j ∷ js) (u ∷ ts) ej et typed =
      ground
        (arith, none_running older, apart e.step_type, apart_user e.step_type, typed.0, typed.1)

no_executions :
    (step_id : String) (jobs : ExecutionRow → List ContextJob)
    (tasks : ExecutionRow → List ContextTask) (timers : ExecutionRow → List ContextTimer)
    → (reason_of (row_of step_id [] jobs tasks timers)).0 ≡ evidence [] jobs tasks
unfolding reason_of row_of evidence
no_executions step_id jobs tasks timers = refl

-- The reason that is given for a current step is the one that the records are evidence for: the
-- latest execution of the step is its only running one, and a service task has exactly one live
-- job, a user task exactly one open task. In every other case the reason is unavailable.
pub context_row-reason :
    (t : Tables) (instance_id step_id : String)
    → (context_of (context_row t instance_id step_id)).reason
      ≡ evidence
          (executions_of t instance_id step_id)
          (live_jobs t instance_id)
          (live_tasks t instance_id)
unfolding context_of context_row
context_row-reason t instance_id step_id = by_executions (executions_of t instance_id step_id)
  where
    by_executions :
        (es : List ExecutionRow)
        → (reason_of (
            row_of step_id es
              (live_jobs t instance_id)
              (live_tasks t instance_id)
              (pending_timers t instance_id))).0
          ≡ evidence es (live_jobs t instance_id) (live_tasks t instance_id)
    by_executions [] =
        no_executions step_id (live_jobs t instance_id) (live_tasks t instance_id)
          (pending_timers t instance_id)
    by_executions (e ∷ older) =
        reason_of-row_of step_id e older (live_jobs t instance_id) (live_tasks t instance_id)
          (pending_timers t instance_id) (live_jobs t instance_id e) (live_tasks t instance_id e)
          refl refl (live_jobs-other t instance_id e, live_tasks-other t instance_id e)

abbrev pub is_job_reason : Reason → Bool
is_job_reason job_available = true
is_job_reason job_locked = true
is_job_reason _ = false

abbrev pub is_user_task : Reason → Bool
is_user_task user_task = true
is_user_task _ = false

-- The timers of the latest execution.
abbrev pub timers_of : List ExecutionRow → (ExecutionRow → List ContextTimer) → List ContextTimer
timers_of [] timers = []
timers_of (e ∷ older) timers = timers e

step_type-apart :
    (o : Option String)
    → is o "SERVICE_TASK" ≡ true
    → (is o "USER_TASK" ≡ false) × (is o "WAIT" ≡ false)
step_type-apart none h = cc
step_type-apart (some s) h = rw ((==_iff s "SERVICE_TASK").0 h) (refl, refl)

user_task-apart : (o : Option String) → is o "USER_TASK" ≡ true → is o "WAIT" ≡ false
user_task-apart none h = cc
user_task-apart (some s) h = rw ((==_iff s "USER_TASK").0 h) refl

job-reason :
    (row : ContextRow) → is_some (context_of row).job ≡ is_job_reason (context_of row).reason
unfolding context_of reason_of running_reason
job-reason row = ground (arith, step_type-apart row.step_type)

task-reason :
    (row : ContextRow) → is_some (context_of row).task ≡ is_user_task (context_of row).reason
unfolding context_of reason_of running_reason
task-reason row = ground (arith, step_type-apart row.step_type, user_task-apart row.step_type)

explained :
    (row : ContextRow)
    → is_some (context_of row).unavailable_reason ≡ is_unavailable (context_of row).reason
unfolding context_of reason_of
explained row = ground arith

timers-row_of :
    (step_id : String) (executions : List ExecutionRow) (jobs : ExecutionRow → List ContextJob)
    (tasks : ExecutionRow → List ContextTask) (timers : ExecutionRow → List ContextTimer)
    → let c = context_of (row_of step_id executions jobs tasks timers) in
      (c.timers ≡ take 100 (timers_of executions timers))
      × (c.timers_truncated ≡ ltb 100 (length (timers_of executions timers)))
unfolding context_of row_of
timers-row_of step_id [] jobs tasks timers = (refl, refl)
timers-row_of step_id (e ∷ older) jobs tasks timers =
    (take-take 100 (timers e), ltb-length-take 100 (timers e))

-- A context carries a job exactly with a reason about a job, a task exactly with the reason of a
-- user task, and an explanation exactly if it is unavailable; it lists the first 100 of the
-- pending timers of the latest execution and tells whether there are more.
pub context_row-IsConsistent :
    (t : Tables) (instance_id step_id : String)
    → let c = context_of (context_row t instance_id step_id) in
      let timers = timers_of (executions_of t instance_id step_id) (pending_timers t instance_id) in
      (is_some c.job ≡ is_job_reason c.reason)
      × (is_some c.task ≡ is_user_task c.reason)
      × (is_some c.unavailable_reason ≡ is_unavailable c.reason)
      × (c.timers ≡ take 100 timers)
      × (c.timers_truncated ≡ ltb 100 (length timers))
unfolding context_of context_row
context_row-IsConsistent t instance_id step_id =
    let row = context_row t instance_id step_id in
    let (listed, truncated) =
      timers-row_of step_id (executions_of t instance_id step_id) (live_jobs t instance_id)
        (live_tasks t instance_id) (pending_timers t instance_id) in
    (job-reason row, task-reason row, explained row, listed, truncated)
