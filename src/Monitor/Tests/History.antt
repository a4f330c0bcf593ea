-- ===== src/Monitor/Tests/History.antt =====
-- The theorems about the step executions, the incidents, the detail and the variables of instances.
use rochallor_engine.Base.{
  IsDistinct, ℕ, suc, String, Bool, true, none, some, [], ◌∷◌, ◌≡◌, refl, ◌⊎◌, All, any, filter_by,
  length, map, ◌==◌, nat_eq,
}
use rochallor_engine.Monitor.Request.{ok, Platform, page_size}
use rochallor_engine.Monitor.Samples.{
  platform_of, platform_of-IsPlatform, first_code, id_before, id_before-IsOrder,
}
use rochallor_engine.Monitor.Paging.{read_all, key_before}
use rochallor_engine.Monitor.Paging.Keyset.{IsNewestFirst}
use rochallor_engine.Monitor.Context.{first_of}
use rochallor_engine.Monitor.Detail.{Snapshot, returned, thrown, latest_by_step, detail}
use rochallor_engine.Monitor.Detail.Laws.{closed, any_failed, view, detail-closed}
use rochallor_engine.Monitor.Detail.Latest.{covers, is_row, of_instance, latest_by_step-covers}
use rochallor_engine.Monitor.Variables.{recorded}
use rochallor_engine.Monitor.Variables.Laws.{shown, promised, recorded-listed}
use rochallor_engine.Monitor.Executions.{
  StepExecutionRow, StepExecutionCursor, step_execution_item, History, list_step_executions,
}
use rochallor_engine.Monitor.Executions.Laws.{executions, read_all-list_step_executions}
use rochallor_engine.Monitor.Incidents.{
  IncidentRow, map_list_item, IncidentFilters, IncidentCursor, Incidents, validate_incident_filters,
  list_incidents, incident_detail,
}
use rochallor_engine.Monitor.Incidents.Laws.{
  asked, no_filters, item_of, first_item, read_all-list_incidents, incident_detail-asked,
}

-- The history of the instance `i1` is two attempts on a step; one is of another instance.
abbrev attempt : String → String → ℕ → ℕ → StepExecutionRow
attempt id instance_id started_at attempt_number = record {
  id = id;
  instance_id = instance_id;
  step_id = "charge";
  step_type = "SERVICE_TASK";
  attempt_number = attempt_number;
  status = "FAILED";
  started_at = started_at;
  ended_at = some 9000;
  failure_reason = some "declined";
  input_snapshot = none;
  output_snapshot = none;
}

abbrev history : History
history = record {
  step_execution = attempt "c" "i1" 5000 2 ∷ attempt "b" "i2" 4000 1 ∷ attempt "a" "i1" 3000 1 ∷ [];
  id_before = id_before;
}

abbrev step_platform : Platform StepExecutionCursor StepExecutionCursor String
step_platform = platform_of (λ k. k)

two_executions : page_size step_platform (some "2") ≡ ok 2
unfolding page_size
two_executions = refl

history-IsNewestFirst :
    IsNewestFirst id_before (λ row. row.started_at) (λ row. row.id) history.step_execution
unfolding key_before first_code
history-IsNewestFirst = ((refl, (refl, tt)), ((refl, tt), (tt, tt)))

read_all-list_step_executions_example :
    read_all
      (λ cursor.
        list_step_executions step_platform history "i1"
          (record { cursor = cursor; page_size = some "2" }))
      (suc (length (map step_execution_item (executions history "i1"))))
      none
    ≡ some (map step_execution_item (executions history "i1"))
read_all-list_step_executions_example =
    read_all-list_step_executions step_platform
      (platform_of-IsPlatform StepExecutionCursor (λ k. k)) history "i1" id_before-IsOrder
      history-IsNewestFirst (refl, (refl, (refl, tt))) (refl, (refl, (refl, tt))) (some "2") 1
      two_executions

-- Two failed executions and one of a cancelled instance.
abbrev incident : String → String → ℕ → IncidentRow
incident id instance_status ended_at = record {
  id = id;
  status = "FAILED";
  instance_id = "i1";
  instance_status = instance_status;
  business_key = none;
  definition_id = "loan";
  definition_version = 3;
  definition_name = "Loan";
  step_id = "charge";
  step_type = "SERVICE_TASK";
  attempt_number = 1;
  ended_at = ended_at;
  failure_reason = some "declined";
  job_id = some "j1";
  job_type = some "charge-card";
  job_status = some "FAILED";
  latest_execution_id = "c";
  latest_status = "FAILED";
  latest_attempt_number = 2;
}

abbrev incidents : Incidents
incidents = record {
  joined =
      incident "c" "FAILED" 5000 ∷ incident "b" "CANCELLED" 4000 ∷ incident "a" "FAILED" 3000 ∷ [];
  id_before = id_before;
}

abbrev incident_filters : IncidentFilters
incident_filters = record {
  definition_id = some "loan";
  job_type = some "charge-card";
  from = none;
  to = none;
}

abbrev incident_platform : Platform IncidentCursor IncidentCursor IncidentFilters
incident_platform = platform_of (λ k. "F")

two_per_page : page_size incident_platform (some "2") ≡ ok 2
unfolding page_size
two_per_page = refl

incident_filters-valid : validate_incident_filters incident_platform incident_filters ≡ ok tt
unfolding validate_incident_filters
incident_filters-valid = refl

incidents-IsNewestFirst :
    IsNewestFirst id_before (λ row. row.ended_at) (λ row. row.id) incidents.joined
unfolding key_before first_code
incidents-IsNewestFirst = ((refl, (refl, tt)), ((refl, tt), (tt, tt)))

read_all-list_incidents_example :
    read_all
      (λ cursor.
        list_incidents incident_platform incidents
          (record { filters = incident_filters; cursor = cursor; page_size = some "2" }))
      (suc (
        length
          (map map_list_item (asked incident_platform.timestamptz incidents incident_filters))))
      none
    ≡ some (map map_list_item (asked incident_platform.timestamptz incidents incident_filters))
read_all-list_incidents_example =
    read_all-list_incidents incident_platform (platform_of-IsPlatform IncidentCursor (λ k. "F"))
      incidents incident_filters id_before-IsOrder incidents-IsNewestFirst
      (refl, (refl, (refl, tt))) (refl, (refl, (refl, tt))) (some "2") 1 incident_filters-valid
      two_per_page

incident_detail-asked_example :
    item_of (incident_detail incidents "a")
    ≡ first_item (
        filter_by (λ row. row.id == "a") (asked incident_platform.timestamptz incidents no_filters))
incident_detail-asked_example = incident_detail-asked incident_platform.timestamptz incidents "a"

-- A failed instance, whose definition is found.
abbrev snapshot : Snapshot String
snapshot = record {
  transaction_timestamp = 9000;
  workflow_instance =
      record {
        id = "i1";
        definition_id = "loan";
        definition_version = 3;
        status = "FAILED";
        current_step_ids = [];
        started_at = 1000;
        completed_at = none;
        failure_reason = some "declined";
        business_key = none;
      }
      ∷ [];
  workflow_definition = record { id = "loan"; version = 3; raw_json = "{}" } ∷ [];
  step_execution = history.step_execution;
  context = record { step_execution = []; job = []; user_task = []; boundary_event_schedule = [] };
  id_before = id_before;
}

-- The commit is the seventh call.
abbrev commit_fails : ℕ → Bool
commit_fails n = nat_eq n 6

detail-closed_example :
    (closed (detail commit_fails snapshot "i1") ≡ true)
    × ((((detail commit_fails snapshot "i1").0 ≡ thrown)
          × (any_failed commit_fails (detail commit_fails snapshot "i1").1 ≡ true))
        ⊎ ((detail commit_fails snapshot "i1").0 ≡ returned (view snapshot "i1")))
detail-closed_example = detail-closed commit_fails snapshot "i1"

-- It is an error.
commit_failed : (detail commit_fails snapshot "i1").0 ≡ thrown
unfolding detail
commit_failed = refl

latest_by_step-covers_example :
    IsDistinct (map (λ s. s.step_id) (latest_by_step snapshot "i1"))
    × All
        (λ row. any (covers row) (latest_by_step snapshot "i1") ≡ true)
        (of_instance snapshot "i1")
    × All
        (λ s. any (λ row. is_row row s) (of_instance snapshot "i1") ≡ true)
        (latest_by_step snapshot "i1")
latest_by_step-covers_example = latest_by_step-covers snapshot "i1"

-- The size of a text is the code of its first character.
recorded-listed_example :
    shown (recorded (λ s. s) first_code 100 history.step_execution "i1" "c")
    ≡ promised (
        first_of
          (filter_by (λ item. item.id == "c") (map step_execution_item (executions history "i1"))))
recorded-listed_example = recorded-listed (λ s. s) first_code 100 history "i1" "c"
