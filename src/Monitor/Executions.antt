-- ===== src/Monitor/Executions.antt =====
-- `listStepExecutions` of workflow-monitor-bff/src/modules/process-instances/
-- process-instance.queries.ts: the history of an instance.
pub mod Laws
use rochallor_engine.Base.{
  ℕ, suc, String, Bool, true, false, Option, none, some, List, [], ◌∷◌, ◌++◌, ◌&&◌, not,
  if◌then◌else◌, nat_eq, ◌==◌, is_empty, is_some, filter_by, take, map, length, ◌/◌,
}
use rochallor_engine.Monitor.Request.{
  Checked, ok, bad_request, ◌>>=◌, Platform, equals, is_utc_timestamp, page_size,
}
use rochallor_engine.Monitor.Sql.{placeholder, Value, text, number, on_text, limited}
use rochallor_engine.Monitor.Paging.{Page, slice_page, key_before}
use rochallor_engine.Monitor.Instances.{to_date, to_nullable_date}

-- A row of `step_execution`. The snapshots are JSON texts.
pub record StepExecutionRow : Type 0 where
  pub id : String
  pub instance_id : String
  pub step_id : String
  pub step_type : String
  pub attempt_number : ℕ
  pub status : String
  pub started_at : ℕ
  pub ended_at : Option ℕ
  pub failure_reason : Option String
  pub input_snapshot : Option String
  pub output_snapshot : Option String

pub record StepExecutionItem : Type 0 where
  pub id : String
  pub step_id : String
  pub step_type : String
  pub attempt_number : ℕ
  pub status : String
  pub started_at : ℕ
  pub ended_at : Option ℕ
  pub has_failure : Bool
  pub has_input_snapshot : Bool
  pub has_output_snapshot : Bool

unfoldable pub step_execution_item : StepExecutionRow → StepExecutionItem
step_execution_item row = record {
  id = row.id;
  step_id = row.step_id;
  step_type = row.step_type;
  attempt_number = row.attempt_number;
  status = row.status;
  started_at = to_date row.started_at;
  ended_at = to_nullable_date row.ended_at;
  has_failure = is_some row.failure_reason;
  has_input_snapshot = is_some row.input_snapshot;
  has_output_snapshot = is_some row.output_snapshot;
}

-- `Partial<StepExecutionCursor>`.
pub record StepExecutionCursor : Type 0 where
  pub v : Option ℕ
  pub started_at : Option String
  pub id : Option String
  pub instance_id : Option String

pub record StepExecutionQuery (T : Type 0) : Type 0 where
  pub cursor : Option T
  pub page_size : Option String

-- The rows in the order of the statement, and the order of the ids.
pub record History : Type 0 where
  pub step_execution : List StepExecutionRow
  pub id_before : String → String → Bool

-- `values` and whether there is a `cursorCondition`.
abbrev pub statement_values : String → Option (String × String) → ℕ → List Value
statement_values instance_id none limit = text instance_id ∷ number (suc limit) ∷ []
statement_values instance_id (some (started_at, id)) limit =
    text instance_id ∷ text started_at ∷ text id ∷ number (suc limit) ∷ []

module _ (timestamptz : String → ℕ) (history : History) where
  abbrev pub in_history : List Value → Bool → StepExecutionRow → Bool
  in_history values behind_cursor row =
      on_text (placeholder values 1) (λ s. row.instance_id == s)
      && (if behind_cursor
          then (on_text (placeholder values 2) λ started_at.
              on_text (placeholder values 3) λ id.
                key_before history.id_before row.started_at row.id (timestamptz started_at) id)
          else true)

  unfoldable pub select_executions : String → Option (String × String) → ℕ → List StepExecutionRow
  unfolding placeholder
  select_executions instance_id cursor limit =
      let values = statement_values instance_id cursor limit in
      limited (placeholder values (length values))
        (filter_by (in_history values (is_some cursor)) history.step_execution)

module _ {T K : Type 0} (platform : Platform T StepExecutionCursor K) where
  unfoldable pub encode_step_execution_cursor : String → StepExecutionItem → T
  encode_step_execution_cursor instance_id item = platform.encode (record {
    v = some 1;
    started_at = some (platform.to_iso_string item.started_at);
    id = some item.id;
    instance_id = some instance_id;
  })

  unfoldable pub checked_step_cursor : String → StepExecutionCursor → Option (String × String)
  checked_step_cursor instance_id cursor = elim cursor.started_at [
    | none ↦ none
    | some started_at ↦ elim cursor.id [
      | none ↦ none
      | some id ↦
          if elim cursor.v [ none ↦ false | some v ↦ nat_eq v 1 ]
            && is_utc_timestamp platform started_at
            && not (is_empty id)
            && equals cursor.instance_id instance_id
          then some (started_at, id)
          else none
    ]
  ]

  unfoldable pub decode_step_execution_cursor : String → T → Checked (String × String)
  unfolding checked_step_cursor
  decode_step_execution_cursor instance_id value = elim (platform.decode value) [
    | none ↦ bad_request "Invalid cursor"
    | some cursor ↦ elim (checked_step_cursor instance_id cursor) [
      | none ↦ bad_request "Invalid cursor"
      | some fields ↦ ok fields
    ]
  ]

  unfoldable pub requested_step_cursor : String → Option T → Checked (Option (String × String))
  unfolding decode_step_execution_cursor
  requested_step_cursor instance_id none = ok none
  requested_step_cursor instance_id (some cursor) =
      decode_step_execution_cursor instance_id cursor >>= λ c. ok (some c)

  unfoldable pub list_step_executions :
      History → String → StepExecutionQuery T → Checked (Page StepExecutionItem T)
  unfolding requested_step_cursor select_executions
  list_step_executions history instance_id query = do
    limit ← page_size platform query.page_size
    cursor ← requested_step_cursor instance_id query.cursor
    ok (
        slice_page limit (encode_step_execution_cursor instance_id) (
          map step_execution_item
            (select_executions platform.timestamptz history instance_id cursor limit)))
