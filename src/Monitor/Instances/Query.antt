-- ===== src/Monitor/Instances/Query.antt =====
-- `list` of workflow-monitor-bff/src/modules/process-instances/process-instance.queries.ts.
--
-- The text of a condition is a value of `Condition`, with the numbers of its placeholders; `holds`
-- is what the text means to the database.

pub mod Pages
pub mod Where
use rochallor_engine.Base.{
  ℕ, suc, ◌+◌, String, Bool, true, false, Option, none, some, List, [], ◌∷◌, ◌&&◌, ◌||◌,
  if◌then◌else◌, ltb, leb, nat_eq, ◌==◌, contains, is_empty, all, filter_by, take, map, ◌++◌,
  length,
}
use rochallor_engine.Monitor.Request.{
  QueryValue, text, texts, Checked, ok, ◌>>=◌, ◌>>◌, Platform, given, digits_value, page_size,
}
use rochallor_engine.Monitor.Sql.{
  Built, nothing_built, add_condition, add_pair, add_fixed, placeholder,
}
use rochallor_engine.Monitor.Paging.{Page, slice_page, key_before}
use rochallor_engine.Monitor.Instances.{
  InstanceRow, InstanceItem, instance_item, InstanceFilters, status_values, given_value,
  validate_filters,
}
use rochallor_engine.Monitor.Instances.Cursor.{
  Fingerprinted, InstanceCursor, encode_cursor, decode_cursor,
}

pub data Value : Type 0 where
  undefined : Value
  query_value : QueryValue → Value
  number : ℕ → Value

-- `latest_started_before m n` is the `EXISTS` over the latest execution of step `$m`.
pub data Condition : Type 0 where
  definition_id_is : ℕ → Condition
  definition_version_is : ℕ → Condition
  current_step_is : ℕ → Condition
  status_is_live : Condition
  latest_started_before : ℕ → ℕ → Condition
  status_in : ℕ → Condition
  business_key_is : ℕ → Condition
  started_from : ℕ → Condition
  started_to : ℕ → Condition
  before_row : ℕ → ℕ → Condition

-- The status and the start of a step execution.
pub record Execution : Type 0 where
  pub status : String
  pub started_at : ℕ

-- The instances in the order of the statement, the latest execution of a step of an instance, and
-- the order of the ids.
pub record Database : Type 0 where
  pub instances : List InstanceRow
  pub latest_execution : String → String → Option Execution
  pub id_before : String → String → Bool

abbrev to_value : Option QueryValue → Value
to_value none = undefined
to_value (some v) = query_value v

abbrev pub on_text : Option Value → (String → Bool) → Bool
on_text (some (query_value (text s))) p = p s
on_text _ p = false

abbrev pub on_texts : Option Value → (List String → Bool) → Bool
on_texts (some (query_value (texts ts))) p = p ts
on_texts _ p = false

abbrev pub limited : {A : Type 0} → Option Value → List A → List A
limited (some (number n)) rows = take n rows
limited _ rows = rows

abbrev pub keyed : Option String → String → Bool
keyed none s = false
keyed (some key) s = key == s

abbrev pub started_running : Option Execution → ℕ → Bool
started_running none cutoff = false
started_running (some e) cutoff = e.status == "RUNNING" && ltb e.started_at cutoff

module _ (timestamptz : String → ℕ) (db : Database) where
  unfoldable pub holds : InstanceRow → List Value → Condition → Bool
  unfolding key_before
  holds row values (definition_id_is n) = on_text (placeholder values n) λ s. row.definition_id == s
  holds row values (definition_version_is n) =
      on_text (placeholder values n) λ s. nat_eq row.definition_version (digits_value 0 s)
  holds row values (current_step_is n) =
      on_text (placeholder values n) λ s. contains row.current_step_ids s
  holds row values status_is_live = contains ("ACTIVE" ∷ "WAITING" ∷ []) row.status
  holds row values (latest_started_before m n) = on_text (placeholder values m) λ step_id.
      on_text (placeholder values n)
        λ cutoff. started_running (db.latest_execution row.id step_id) (timestamptz cutoff)
  holds row values (status_in n) = on_texts (placeholder values n) λ ss. contains ss row.status
  holds row values (business_key_is n) =
      on_text (placeholder values n) λ s. keyed row.business_key s
  holds row values (started_from n) =
      on_text (placeholder values n) λ s. leb (timestamptz s) row.started_at
  holds row values (started_to n) =
      on_text (placeholder values n) λ s. ltb row.started_at (timestamptz s)
  holds row values (before_row m n) = on_text (placeholder values m) λ started_at.
      on_text (placeholder values n)
        λ id. key_before db.id_before row.started_at row.id (timestamptz started_at) id

  -- The `SELECT`: `WHERE`, `ORDER BY`, and `LIMIT` by the last of the values.
  unfoldable pub select : Built Condition Value → List InstanceRow
  unfolding holds
  select b =
      limited (placeholder b.values (length b.values))
        (filter_by (λ row. all (holds row b.values) b.conditions) db.instances)

abbrev pub query_text : String → Value
query_text s = query_value (text s)

-- `if (value) addCondition(condition, value)`.
unfoldable pub add_given :
    (ℕ → Condition) → Option QueryValue → Built Condition Value → Built Condition Value
add_given condition none b = b
add_given condition (some v) b = add_condition condition (query_value v) b

abbrev pub as_value : Option String → Option QueryValue
as_value none = none
as_value (some s) = some (text s)

unfoldable pub add_current_step : Option QueryValue → Built Condition Value → Built Condition Value
add_current_step none b = b
add_current_step (some step_id) b =
    add_fixed status_is_live (add_condition current_step_is (query_value step_id) b)

unfoldable pub add_cutoff :
    Option QueryValue → Option QueryValue → Built Condition Value → Built Condition Value
add_cutoff none step_id b = b
add_cutoff (some cutoff) step_id b =
    add_pair latest_started_before (to_value step_id) (query_value cutoff) b

unfoldable pub add_statuses : List String → Built Condition Value → Built Condition Value
add_statuses [] b = b
add_statuses (status ∷ statuses) b =
    add_condition status_in (query_value (texts (status ∷ statuses))) b

unfoldable pub add_cursor : Option (String × String) → Built Condition Value → Built Condition Value
add_cursor none b = b
add_cursor (some (started_at, id)) b = add_pair before_row (query_text started_at) (query_text id) b

-- The conditions and values, in the order of the code.
unfoldable pub build : InstanceFilters → Option (String × String) → Built Condition Value
unfolding add_given add_current_step add_cutoff add_statuses add_cursor
build filters cursor =
    let b1 = add_given definition_id_is (as_value (given filters.definition_id)) nothing_built in
    let b2 = add_given definition_version_is (given_value filters.definition_version) b1 in
    let b3 = add_current_step (given_value filters.current_step_id) b2 in
    let b4 = add_cutoff (given_value filters.step_started_before) filters.current_step_id b3 in
    let b5 = add_statuses (status_values filters.status) b4 in
    let b6 = add_given business_key_is (as_value (given filters.business_key)) b5 in
    let b7 = add_given started_from (as_value (given filters.from)) b6 in
    let b8 = add_given started_to (as_value (given filters.to)) b7 in add_cursor cursor b8

-- `values.push(limit + 1)`.
unfoldable pub push_limit : ℕ → Built Condition Value → Built Condition Value
push_limit limit b = record b { values = b.values ++ number (suc limit) ∷ [] }

pub record InstanceQuery (T : Type 0) : Type 0 where
  pub filters : InstanceFilters
  pub cursor : Option T
  pub page_size : Option String

module _ {T : Type 0} (platform : Platform T InstanceCursor Fingerprinted) (db : Database) where
  -- `query.cursor ? decodeCursor(query.cursor, filters) : undefined`.
  unfoldable pub requested_cursor : InstanceFilters → Option T → Checked (Option (String × String))
  requested_cursor filters none = ok none
  requested_cursor filters (some cursor) =
      decode_cursor platform filters cursor >>= λ c. ok (some c)

  unfoldable pub list_page : InstanceFilters → ℕ → Option (String × String) → Page InstanceItem T
  unfolding select build push_limit instance_item
  list_page filters limit cursor =
      slice_page limit (encode_cursor platform filters) (
        map instance_item
          (select platform.timestamptz db (push_limit limit (build filters cursor))))

  unfoldable pub list_instances : InstanceQuery T → Checked (Page InstanceItem T)
  unfolding requested_cursor list_page
  list_instances query = do
    validate_filters platform query.filters
    limit ← page_size platform query.page_size
    cursor ← requested_cursor query.filters query.cursor
    ok (list_page query.filters limit cursor)
