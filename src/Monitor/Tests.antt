-- ===== src/Monitor/Tests.antt =====
-- The theorems about workflow-monitor-bff/src at concrete rows, filters and requests.
pub mod History
pub mod Counts
use rochallor_engine.Base.{
  ℕ, suc, filter_by, ◌*◌, ◌/◌, ◌≤◌, String, none, some, List, [], ◌∷◌, ◌++◌, ◌&&◌, ◌≡◌, refl, arith,
  All, all, length, take, is_some, map, take, is_some, code, ltb, if◌then◌else◌, ◌==◌,
}
use rochallor_engine.Monitor.Request.{text, texts, ok, bad_request, Platform, IsPlatform, page_size}
use rochallor_engine.Monitor.Samples.{
  iso, platform_of, platform_of-IsPlatform, first_status, first_code, id_before, id_before-IsOrder,
}
use rochallor_engine.Monitor.Paging.{read_all, key_before}
use rochallor_engine.Monitor.Instances.{
  InstanceRow, instance_item, InstanceFilters, validate_filters,
}
use rochallor_engine.Monitor.Instances.Cursor.{
  Fingerprinted, InstanceCursor, filter_fingerprint, encode_cursor, decode_cursor,
}
use rochallor_engine.Monitor.Instances.Cursor.Laws.{decode_cursor-encode_cursor}
use rochallor_engine.Monitor.Instances.Query.{
  number, Database, holds, select, build, push_limit, list_instances,
}
use rochallor_engine.Monitor.Paging.Keyset.{IsOrder, IsNewestFirst}
use rochallor_engine.Monitor.Instances.Query.Where.{matches, behind, build-Means}
use rochallor_engine.Monitor.Instances.Query.Pages.{
  wanted, cursor_of, select-bounded, read_all-list_instances,
}
use rochallor_engine.Monitor.Context.{
  ContextJob, job_locked, ExecutionRow, Tables, executions_of, live_jobs, live_tasks,
  pending_timers, context_row, is_unavailable, context_of,
}
use rochallor_engine.Monitor.Context.Laws.{
  evidence, context_row-reason, is_job_reason, is_user_task, timers_of, context_row-IsConsistent,
}

abbrev platform : Platform InstanceCursor InstanceCursor Fingerprinted
platform = platform_of (λ k. first_status k.statuses)

platform-IsPlatform : IsPlatform platform
platform-IsPlatform = platform_of-IsPlatform InstanceCursor (λ k. first_status k.statuses)

abbrev row : String → ℕ → String → InstanceRow
row id started_at status = record {
  id = id;
  definition_id = "loan";
  definition_version = 3;
  status = status;
  current_step_ids = "review" ∷ [];
  started_at = started_at;
  completed_at = none;
  failure_reason = none;
  business_key = some "K-1";
}

abbrev table : List InstanceRow
table =
    row "d" 5000 "FAILED"
    ∷ row "c" 4000 "ACTIVE"
    ∷ row "b" 4000 "WAITING"
    ∷ row "a" 1000 "ACTIVE"
    ∷ []

abbrev db : Database
db = record {
  instances = table;
  latest_execution = λ instance step. some (record { status = "RUNNING"; started_at = 2000 });
  id_before = id_before;
}

abbrev filters : InstanceFilters
filters = record {
  definition_version = some (text "3");
  current_step_id = some (text "review");
  step_started_before = none;
  definition_id = some "loan";
  status = some (texts ("ACTIVE" ∷ "WAITING" ∷ []));
  business_key = none;
  from = none;
  to = none;
}

filters-valid : validate_filters platform filters ≡ ok tt
unfolding validate_filters
filters-valid = refl

two : page_size platform (some "2") ≡ ok 2
unfolding page_size
two = refl

table-IsNewestFirst : IsNewestFirst db.id_before (λ row. row.started_at) (λ row. row.id) table
unfolding key_before first_code
table-IsNewestFirst = ((refl, (refl, (refl, tt))), ((refl, (refl, tt)), ((refl, tt), (tt, tt))))

read_all-list_instances_example :
    read_all
      (λ cursor.
        list_instances platform db
          (record { filters = filters; cursor = cursor; page_size = some "2" }))
      (suc (length (map instance_item (wanted platform.timestamptz db filters))))
      none
    ≡ some (map instance_item (wanted platform.timestamptz db filters))
read_all-list_instances_example =
    read_all-list_instances platform platform-IsPlatform db filters id_before-IsOrder
      table-IsNewestFirst (refl, (refl, (refl, (refl, tt)))) (refl, (refl, (refl, (refl, tt))))
      (some "2") 1 filters-valid two

-- The three live rows are listed.
wanted_rows :
    wanted platform.timestamptz db filters
    ≡ row "c" 4000 "ACTIVE" ∷ row "b" 4000 "WAITING" ∷ row "a" 1000 "ACTIVE" ∷ []
unfolding matches
wanted_rows = refl

build-Means_example :
    all
      (holds platform.timestamptz db
        (row "a" 1000 "ACTIVE")
        ((build filters (some (iso 4, "b"))).values ++ number 3 ∷ []))
      (build filters (some (iso 4, "b"))).conditions
    ≡ (matches platform.timestamptz db (row "a" 1000 "ACTIVE") filters
        && behind platform.timestamptz db (row "a" 1000 "ACTIVE") (some (iso 4, "b")))
build-Means_example =
    build-Means platform.timestamptz db (row "a" 1000 "ACTIVE") filters (some (iso 4, "b"))
      (number 3 ∷ [])

select-bounded_example :
    All
      (λ r. r.started_at ≤ 4700 / 1000 * 1000)
      (select platform.timestamptz db
        (push_limit 2 (build filters (some (cursor_of platform (row "c" 4700 "ACTIVE"))))))
select-bounded_example =
    select-bounded platform platform-IsPlatform db filters (row "c" 4700 "ACTIVE") 2

abbrev failed_only : InstanceFilters
failed_only = record filters { status = some (text "FAILED") }

decode_cursor-encode_cursor_example :
    decode_cursor platform failed_only
      (encode_cursor platform filters (instance_item (row "c" 4000 "ACTIVE")))
    ≡ (if filter_fingerprint platform filters == filter_fingerprint platform failed_only
        then ok (iso (4000 / 1000), "c")
        else bad_request "Invalid cursor")
unfolding instance_item
decode_cursor-encode_cursor_example =
    decode_cursor-encode_cursor platform platform-IsPlatform filters failed_only
      (instance_item (row "c" 4000 "ACTIVE")) refl

-- One running service task with one locked job, and an attempt before it that failed.
abbrev execution : String → String → ExecutionRow
execution id status = record {
  id = id;
  instance_id = "i1";
  step_id = "charge";
  step_type = "SERVICE_TASK";
  status = status;
  started_at = 7;
}

abbrev locked_job : ContextJob
locked_job = record {
  id = "j1";
  type = "charge-card";
  status = "LOCKED";
  worker_id = some "w1";
  locked_at = some "12:00";
  lock_expires_at = some "12:01";
  created_at = "11:59";
  retries_remaining = 2;
}

abbrev tables : Tables
tables = record {
  step_execution = execution "e2" "RUNNING" ∷ execution "e1" "FAILED" ∷ [];
  job = record { instance_id = "i1"; step_execution_id = "e2"; content = locked_job } ∷ [];
  user_task = [];
  boundary_event_schedule = [];
}

context_row-reason_example :
    (context_of (context_row tables "i1" "charge")).reason
    ≡ evidence (executions_of tables "i1" "charge") (live_jobs tables "i1") (live_tasks tables "i1")
context_row-reason_example = context_row-reason tables "i1" "charge"

-- It is locked.
locked_reason : (context_of (context_row tables "i1" "charge")).reason ≡ job_locked
unfolding context_of context_row executions_of live_jobs live_tasks
locked_reason = refl

context_row-IsConsistent_example :
    let c = context_of (context_row tables "i1" "charge") in
    let timers = timers_of (executions_of tables "i1" "charge") (pending_timers tables "i1") in
    (is_some c.job ≡ is_job_reason c.reason)
    × (is_some c.task ≡ is_user_task c.reason)
    × (is_some c.unavailable_reason ≡ is_unavailable c.reason)
    × (c.timers ≡ take 100 timers)
    × (c.timers_truncated ≡ ltb 100 (length timers))
context_row-IsConsistent_example = context_row-IsConsistent tables "i1" "charge"
