-- ===== src/Monitor/Incidents.antt =====
-- workflow-monitor-bff/src/modules/incidents/incident.queries.ts: the failed executions of steps.
--
-- The rows of the joins are selected by `joined`, from tables whose rows stand in the orders of the
-- statement. An execution that has failed has an end.
pub mod Where
pub mod Laws
use rochallor_engine.Base.{
  ℕ, suc, ◌+◌, String, Bool, true, false, Option, none, some, List, [], ◌∷◌, ◌++◌, ◌&&◌, ◌||◌, not,
  if◌then◌else◌, leb, ltb, nat_eq, ◌==◌, is_empty, all, filter_by, take, map, length,
}
use rochallor_engine.Monitor.Request.{
  Checked, ok, bad_request, ◌>>=◌, ◌>>◌, refuse_if, Platform, equals, given, is_utc_timestamp,
  not_before, page_size,
}
use rochallor_engine.Monitor.Sql.{
  Built, nothing_built, add_condition, add_pair, add_fixed, placeholder, Value, text, number,
  on_text, limited,
}
use rochallor_engine.Monitor.Paging.{Page, slice_page, key_before}
use rochallor_engine.Monitor.Instances.{to_date, bad_timestamp, bad_range}

-- `IncidentRow`, with the statuses that the conditions read. Times are microseconds.
pub record IncidentRow : Type 0 where
  pub id : String
  pub status : String
  pub instance_id : String
  pub instance_status : String
  pub business_key : Option String
  pub definition_id : String
  pub definition_version : ℕ
  pub definition_name : String
  pub step_id : String
  pub step_type : String
  pub attempt_number : ℕ
  pub ended_at : ℕ
  pub failure_reason : Option String
  pub job_id : Option String
  pub job_type : Option String
  pub job_status : Option String
  pub latest_execution_id : String
  pub latest_status : String
  pub latest_attempt_number : ℕ

pub record Attempt : Type 0 where
  pub execution_id : String
  pub status : String
  pub attempt_number : ℕ

pub record IncidentJob : Type 0 where
  pub id : String
  pub type : String
  pub status : String

pub record IncidentItem : Type 0 where
  pub id : String
  pub historical : Bool
  pub latest_attempt : Attempt
  pub process_instance_id : String
  pub definition_id : String
  pub definition_version : ℕ
  pub definition_name : String
  pub step_id : String
  pub step_type : String
  pub attempt_number : ℕ
  pub occurred_at : ℕ
  pub job : Option IncidentJob

pub record IncidentDetail : Type 0 where
  pub item : IncidentItem
  pub error_details : Option String
  pub instance_id : String
  pub instance_status : String
  pub business_key : Option String

-- `row.job_id && row.job_type && row.job_status ? … : null`.
unfoldable pub incident_job : Option String → Option String → Option String → Option IncidentJob
incident_job (some id) (some type) (some status) =
    if is_empty id || is_empty type || is_empty status
    then none
    else some (record { id = id; type = type; status = status })
incident_job _ _ _ = none

unfoldable pub map_list_item : IncidentRow → IncidentItem
unfolding incident_job
map_list_item row = record {
  id = row.id;
  historical = not (row.id == row.latest_execution_id);
  latest_attempt = record {
    execution_id = row.latest_execution_id;
    status = row.latest_status;
    attempt_number = row.latest_attempt_number;
  };
  process_instance_id = row.instance_id;
  definition_id = row.definition_id;
  definition_version = row.definition_version;
  definition_name = row.definition_name;
  step_id = row.step_id;
  step_type = row.step_type;
  attempt_number = row.attempt_number;
  occurred_at = to_date row.ended_at;
  job = incident_job row.job_id row.job_type row.job_status;
}

pub record IncidentFilters : Type 0 where
  pub definition_id : Option String
  pub job_type : Option String
  pub from : Option String
  pub to : Option String

pub record IncidentQuery (T : Type 0) : Type 0 where
  pub filters : IncidentFilters
  pub cursor : Option T
  pub page_size : Option String

-- `Partial<IncidentCursor>`.
pub record IncidentCursor : Type 0 where
  pub v : Option ℕ
  pub occurred_at : Option String
  pub id : Option String
  pub filters : Option String

-- The conditions of the statement.
pub data Condition : Type 0 where
  execution_failed : Condition
  instance_not_cancelled : Condition
  definition_id_is : ℕ → Condition
  job_type_is : ℕ → Condition
  ended_from : ℕ → Condition
  ended_to : ℕ → Condition
  before_row : ℕ → ℕ → Condition

-- The joined rows in the order of the statement, and the order of the ids.
pub record Incidents : Type 0 where
  pub joined : List IncidentRow
  pub id_before : String → String → Bool

module _ (timestamptz : String → ℕ) (db : Incidents) where
  unfoldable pub holds : IncidentRow → List Value → Condition → Bool
  unfolding key_before
  holds row values execution_failed = row.status == "FAILED"
  holds row values instance_not_cancelled = not (row.instance_status == "CANCELLED")
  holds row values (definition_id_is n) = on_text (placeholder values n) λ s. row.definition_id == s
  holds row values (job_type_is n) = on_text (placeholder values n) λ s. equals row.job_type s
  holds row values (ended_from n) =
      on_text (placeholder values n) λ s. leb (timestamptz s) row.ended_at
  holds row values (ended_to n) =
      on_text (placeholder values n) λ s. ltb row.ended_at (timestamptz s)
  holds row values (before_row m n) = on_text (placeholder values m) λ occurred_at.
      on_text (placeholder values n)
        λ id. key_before db.id_before row.ended_at row.id (timestamptz occurred_at) id

  unfoldable pub select_incidents : Built Condition Value → List IncidentRow
  unfolding holds
  select_incidents b =
      limited (placeholder b.values (length b.values))
        (filter_by (λ row. all (holds row b.values) b.conditions) db.joined)

-- `if (value) addCondition(condition, value)`.
unfoldable pub add_given :
    (ℕ → Condition) → Option String → Built Condition Value → Built Condition Value
add_given condition none b = b
add_given condition (some s) b = add_condition condition (text s) b

unfoldable pub add_cursor : Option (String × String) → Built Condition Value → Built Condition Value
add_cursor none b = b
add_cursor (some (occurred_at, id)) b = add_pair before_row (text occurred_at) (text id) b

abbrev pub fixed_conditions : Built Condition Value
fixed_conditions = record {
  conditions = execution_failed ∷ instance_not_cancelled ∷ [];
  values = [];
}

unfoldable pub build_incidents : IncidentFilters → Option (String × String) → Built Condition Value
unfolding add_given add_cursor
build_incidents filters cursor =
    let b1 = add_given definition_id_is (given filters.definition_id) fixed_conditions in
    let b2 = add_given job_type_is (given filters.job_type) b1 in
    let b3 = add_given ended_from (given filters.from) b2 in
    let b4 = add_given ended_to (given filters.to) b3 in add_cursor cursor b4

unfoldable pub push_limit : ℕ → Built Condition Value → Built Condition Value
push_limit limit b = record b { values = b.values ++ number (suc limit) ∷ [] }

-- The object that is digested is the filters, with `null` for what is missing.
module _ {T : Type 0} (platform : Platform T IncidentCursor IncidentFilters) where
  unfoldable pub validate_incident_filters : IncidentFilters → Checked (Unit {0})
  unfolding bad_timestamp bad_range
  validate_incident_filters filters = do
    refuse_if (bad_timestamp platform filters.from) "Invalid UTC timestamp"
    refuse_if (bad_timestamp platform filters.to) "Invalid UTC timestamp"
    refuse_if (bad_range platform filters.from filters.to) "Occurrence-time range must increase"

  unfoldable pub encode_incident_cursor : IncidentFilters → IncidentItem → T
  encode_incident_cursor filters item = platform.encode (record {
    v = some 1;
    occurred_at = some (platform.to_iso_string item.occurred_at);
    id = some item.id;
    filters = some (platform.digest filters);
  })

  unfoldable pub checked_incident_cursor :
      IncidentFilters → IncidentCursor → Option (String × String)
  checked_incident_cursor filters cursor = elim cursor.occurred_at [
    | none ↦ none
    | some occurred_at ↦ elim cursor.id [
      | none ↦ none
      | some id ↦
          if elim cursor.v [ none ↦ false | some v ↦ nat_eq v 1 ]
            && is_utc_timestamp platform occurred_at
            && not (is_empty id)
            && equals cursor.filters (platform.digest filters)
          then some (occurred_at, id)
          else none
    ]
  ]

  unfoldable pub decode_incident_cursor : IncidentFilters → T → Checked (String × String)
  unfolding checked_incident_cursor
  decode_incident_cursor filters value = elim (platform.decode value) [
    | none ↦ bad_request "Invalid cursor"
    | some cursor ↦ elim (checked_incident_cursor filters cursor) [
      | none ↦ bad_request "Invalid cursor"
      | some fields ↦ ok fields
    ]
  ]

  unfoldable pub requested_incident_cursor :
      IncidentFilters → Option T → Checked (Option (String × String))
  unfolding decode_incident_cursor
  requested_incident_cursor filters none = ok none
  requested_incident_cursor filters (some cursor) =
      decode_incident_cursor filters cursor >>= λ c. ok (some c)

  unfoldable pub list_incidents : Incidents → IncidentQuery T → Checked (Page IncidentItem T)
  unfolding requested_incident_cursor select_incidents build_incidents push_limit map_list_item
  list_incidents db query = do
    validate_incident_filters query.filters
    limit ← page_size platform query.page_size
    cursor ← requested_incident_cursor query.filters query.cursor
    ok (
        slice_page limit (encode_incident_cursor query.filters) (
          map map_list_item (
            select_incidents platform.timestamptz db
              (push_limit limit (build_incidents query.filters cursor)))))

unfoldable pub detail_of : List IncidentRow → Option IncidentDetail
unfolding map_list_item
detail_of [] = none
detail_of (row ∷ rows) = some (record {
  item = map_list_item row;
  error_details = row.failure_reason;
  instance_id = row.instance_id;
  instance_status = row.instance_status;
  business_key = row.business_key;
})

-- `detail`: the first row with the id that is listed at all.
unfoldable pub incident_detail : Incidents → String → Option IncidentDetail
unfolding detail_of
incident_detail db incident_id = detail_of (
    filter_by
      (λ row.
        row.id == incident_id && row.status == "FAILED" && not (row.instance_status == "CANCELLED"))
      db.joined)
