-- ===== src/Monitor/Instances.antt =====
-- workflow-monitor-bff/src/modules/process-instances: the rows of the database, the filters of the
-- list of process instances, and their validation.
pub mod Cursor
pub mod Query
use rochallor_engine.Base.{
  ℕ, String, Bool, true, false, Option, none, some, List, [], ◌∷◌, ◌&&◌, ◌||◌, not, if◌then◌else◌,
  ltb, contains, any, is_empty, ◌/◌,
}
use rochallor_engine.Monitor.Request.{
  QueryValue, text, texts, Checked, ok, bad_request, ◌>>=◌, ◌>>◌, refuse_if, Platform, given,
  all_digits, digits_value, is_utc_timestamp, not_before,
}

-- A row of `workflow_instance`. Times are microseconds.
pub record InstanceRow : Type 0 where
  pub id : String
  pub definition_id : String
  pub definition_version : ℕ
  pub status : String
  pub current_step_ids : List String
  pub started_at : ℕ
  pub completed_at : Option ℕ
  pub failure_reason : Option String
  pub business_key : Option String

-- The item made of a row. The driver reads a time as a `Date`, which counts milliseconds.
pub record InstanceItem : Type 0 where
  pub id : String
  pub definition_id : String
  pub definition_version : ℕ
  pub status : String
  pub current_step_ids : List String
  pub started_at : ℕ
  pub completed_at : Option ℕ
  pub failure_reason : Option String
  pub business_key : Option String

abbrev pub to_date : ℕ → ℕ
to_date micros = micros / 1000

abbrev pub to_nullable_date : Option ℕ → Option ℕ
to_nullable_date none = none
to_nullable_date (some micros) = some (to_date micros)

unfoldable pub instance_item : InstanceRow → InstanceItem
instance_item row = record {
  id = row.id;
  definition_id = row.definition_id;
  definition_version = row.definition_version;
  status = row.status;
  current_step_ids = row.current_step_ids;
  started_at = to_date row.started_at;
  completed_at = to_nullable_date row.completed_at;
  failure_reason = row.failure_reason;
  business_key = row.business_key;
}

-- The fields that are tested with `typeof`, and `status`, may be repeated in the query string.
pub record InstanceFilters : Type 0 where
  pub definition_version : Option QueryValue
  pub current_step_id : Option QueryValue
  pub step_started_before : Option QueryValue
  pub definition_id : Option String
  pub status : Option QueryValue
  pub business_key : Option String
  pub from : Option String
  pub to : Option String

abbrev pub process_instance_statuses : List String
process_instance_statuses = "ACTIVE" ∷ "WAITING" ∷ "COMPLETED" ∷ "FAILED" ∷ "CANCELLED" ∷ []

unfoldable pub status_values : Option QueryValue → List String
status_values none = []
status_values (some (text status)) = status ∷ []
status_values (some (texts statuses)) = statuses

abbrev pub is_given : Option String → Bool
is_given none = false
is_given (some s) = not (is_empty s)

-- `if (value)` on a value that may be repeated: an array counts.
abbrev pub given_value : Option QueryValue → Option QueryValue
given_value none = none
given_value (some (text s)) = if is_empty s then none else some (text s)
given_value (some (texts values)) = some (texts values)

abbrev pub has_value : Option QueryValue → Bool
has_value none = false
has_value (some (text s)) = not (is_empty s)
has_value (some (texts values)) = true

unfoldable pub bad_version : Option QueryValue → Option String → Bool
unfolding all_digits digits_value
bad_version none definition_id = false
bad_version (some (texts _)) definition_id = true
bad_version (some (text version)) definition_id =
    not (all_digits version)
    || ltb (digits_value 0 version) 1
    || ltb 2147483647 (digits_value 0 version)
    || not (is_given definition_id)

unfoldable pub bad_current_step : Option QueryValue → Option String → Bool
bad_current_step none definition_id = false
bad_current_step (some (texts _)) definition_id = true
bad_current_step (some (text step_id)) definition_id =
    is_empty step_id || not (is_given definition_id)

module _ {T P K : Type 0} (platform : Platform T P K) where
  unfoldable pub bad_cutoff : Option QueryValue → Option QueryValue → Bool
  bad_cutoff none current_step_id = false
  bad_cutoff (some (texts _)) current_step_id = true
  bad_cutoff (some (text cutoff)) current_step_id =
      not (has_value current_step_id) || not (is_utc_timestamp platform cutoff)

  unfoldable pub bad_timestamp : Option String → Bool
  bad_timestamp value = elim (given value) [
    | none ↦ false
    | some timestamp ↦ not (is_utc_timestamp platform timestamp)
  ]

  unfoldable pub bad_range : Option String → Option String → Bool
  bad_range from to = elim (given from) [
    | none ↦ false
    | some lower ↦ elim (given to) [ none ↦ false | some upper ↦ not_before platform lower upper ]
  ]

  unfoldable pub validate_filters : InstanceFilters → Checked (Unit {0})
  unfolding bad_version bad_current_step bad_cutoff bad_timestamp bad_range status_values
  validate_filters filters = do
    refuse_if (bad_version filters.definition_version filters.definition_id)
        "Definition version must be a positive integer with a Definition ID"
    refuse_if (bad_current_step filters.current_step_id filters.definition_id)
        "Current Step ID requires a Definition ID"
    refuse_if (bad_cutoff filters.step_started_before filters.current_step_id)
        "Step-start cutoff requires a Current Step ID and a valid UTC timestamp"
    refuse_if
        (any (λ status. not (contains process_instance_statuses status))
          (status_values filters.status))
        "Unknown Process Instance status"
    refuse_if (bad_timestamp filters.from) "Invalid UTC timestamp"
    refuse_if (bad_timestamp filters.to) "Invalid UTC timestamp"
    refuse_if (bad_range filters.from filters.to) "Start-time range must increase"
