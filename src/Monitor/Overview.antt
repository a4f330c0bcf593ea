-- ===== src/Monitor/Overview.antt =====
-- workflow-monitor-bff/src/modules/overview/overview.queries.ts: counts of instances by definition,
-- and by current step.
--
-- `digest` of the platform makes the text of a scope. `strpos(lower(a), lower(b)) > 0` is an
-- argument, and so is the time of the transaction, in microseconds.
pub mod Laws
pub mod Steps
pub mod Complete
use rochallor_engine.Base.{
  ℕ, suc, ◌+◌, ◌-◌, ◌*◌, String, Bool, true, false, Option, none, some, List, [], ◌∷◌, ◌++◌, ◌&&◌,
  ◌||◌, not, if◌then◌else◌, ltb, nat_eq, ◌==◌, ◌<>◌, is_empty, contains, filter_by, map, take,
  length, decimal, trim,
}
use rochallor_engine.Monitor.Request.{
  QueryValue, text, texts, Checked, ok, bad_request, ◌>>=◌, ◌>>◌, refuse_if, Platform, all_digits,
  digits_value, equals,
}
use rochallor_engine.Monitor.Paging.{Page, slice_page}
use rochallor_engine.Monitor.Context.{first_of}
use rochallor_engine.Monitor.Instances.{InstanceRow, to_date}
use rochallor_engine.Monitor.Instances.Query.{Execution}

pub record OverviewQuery (T : Type 0) : Type 0 where
  pub cursor : Option T
  pub page_size : Option QueryValue
  pub workflow : Option QueryValue
  pub definition_id : Option QueryValue
  pub definition_version : Option QueryValue
  pub min_step_age_seconds : Option QueryValue

pub record DefinitionCount : Type 0 where
  pub definition_id : String
  pub definition_version : ℕ
  pub name : String
  pub active : ℕ
  pub waiting : ℕ
  pub failed : ℕ

pub record StepCount : Type 0 where
  pub step_id : String
  pub instances : ℕ
  pub aged : ℕ
  pub age_unavailable : ℕ

-- The object in a cursor, as `decodeCursor` reads it.
pub record OverviewCursor : Type 0 where
  pub v : Option ℕ
  pub scope : Option String
  pub id : Option String
  pub version : Option ℕ

pub data Scope : Type 0 where
  all_definitions : Scope
  searched : String → Scope
  steps_of : String → ℕ → ℕ → Scope

-- `Number.MAX_SAFE_INTEGER`, and the greatest value of a column of 32 bits.
abbrev pub max_safe : ℕ
max_safe = 9007199254740991

abbrev pub max_integer : ℕ
max_integer = 2147483647

abbrev bad_integer : ℕ → String → Checked ℕ
bad_integer maximum name =
    bad_request (name <> " must be an integer between 1 and " <> decimal maximum)

abbrev pub in_bounds : ℕ → ℕ → String → Checked ℕ
in_bounds number maximum name =
    if ltb max_safe number || ltb number 1 || ltb maximum number
    then bad_integer maximum name
    else ok number

unfoldable pub positive_integer : Option QueryValue → ℕ → ℕ → String → Checked ℕ
positive_integer none fallback maximum name = in_bounds fallback maximum name
positive_integer (some (texts ts)) fallback maximum name = bad_integer maximum name
positive_integer (some (text value)) fallback maximum name =
    if not (all_digits value)
    then bad_integer maximum name
    else in_bounds (digits_value 0 value) maximum name

module _ {T : Type 0} (platform : Platform T OverviewCursor Scope) where
  unfoldable pub checked_overview_cursor : Scope → OverviewCursor → Option (String × ℕ)
  checked_overview_cursor scope decoded = elim decoded.id [
    | none ↦ none
    | some id ↦ elim decoded.version [
      | none ↦ none
      | some version ↦
          if equals decoded.scope (platform.digest scope)
            && elim decoded.v [ none ↦ false | some v ↦ nat_eq v 1 ]
            && not (is_empty id)
            && not (ltb max_safe version)
            && not (ltb max_integer version)
          then some (id, version)
          else none
    ]
  ]

  unfoldable pub decode_overview_cursor : Option T → Scope → Checked (String × ℕ)
  unfolding checked_overview_cursor
  decode_overview_cursor none scope = ok ("", 0)
  decode_overview_cursor (some value) scope = elim (platform.decode value) [
    | none ↦ bad_request "Invalid Overview cursor"
    | some decoded ↦ elim (checked_overview_cursor scope decoded) [
      | none ↦ bad_request "Invalid Overview cursor"
      | some after ↦ ok after
    ]
  ]

  unfoldable pub encode_overview_cursor : Scope → String → ℕ → T
  encode_overview_cursor scope id version = platform.encode (record {
    v = some 1;
    scope = some (platform.digest scope);
    id = some id;
    version = some version;
  })

-- A row of `workflow_definition`.
pub record NamedDefinition : Type 0 where
  pub id : String
  pub version : ℕ
  pub name : String

pub record OverviewTables : Type 0 where
  pub workflow_instance : List InstanceRow
  pub workflow_definition : List NamedDefinition
  pub latest_execution : String → String → Option Execution
  pub id_before : String → String → Bool
  pub found_in : String → String → Bool
  pub transaction_timestamp : ℕ

abbrev pub same_key : String × ℕ → String × ℕ → Bool
same_key a b = (a.0 == b.0) && nat_eq a.1 b.1

abbrev pub key_of : InstanceRow → String × ℕ
key_of row = (row.definition_id, row.definition_version)

-- `COALESCE(d.name, counts."definitionId")`.
abbrev name_or : Option NamedDefinition → String → String
name_or none id = id
name_or (some d) id = d.name

module _ (db : OverviewTables) where
  -- The order of the pairs.
  abbrev pub pair_before : String × ℕ → String × ℕ → Bool
  pair_before a b = db.id_before a.0 b.0 || ((a.0 == b.0) && ltb a.1 b.1)

  -- `GROUP BY` with `ORDER BY`: one key more.
  unfoldable pub add_key : String × ℕ → List (String × ℕ) → List (String × ℕ)
  add_key key [] = key ∷ []
  add_key key (k ∷ ks) =
      let later = add_key key ks in
      if same_key key k then k ∷ ks else if pair_before key k then key ∷ k ∷ ks else k ∷ later

  unfoldable pub group_keys : List InstanceRow → List (String × ℕ)
  unfolding add_key
  group_keys [] = []
  group_keys (row ∷ rows) = add_key (key_of row) (group_keys rows)

  -- `WHERE ($1 = '' OR (definition_id, definition_version) > ($1, $2))`.
  abbrev pub behind_key : String × ℕ → String × ℕ → Bool
  behind_key after key = is_empty after.0 || pair_before after key

  unfoldable pub count_with : String × ℕ → String → List InstanceRow → ℕ
  count_with key status rows =
      length (filter_by (λ row. same_key (key_of row) key && row.status == status) rows)

  abbrev pub find_named : String × ℕ → Option NamedDefinition
  find_named key = first_of (filter_by (λ d. same_key (d.id, d.version) key) db.workflow_definition)

  unfoldable pub count_row : List InstanceRow → String × ℕ → DefinitionCount
  unfolding count_with
  count_row rows key = record {
    definition_id = key.0;
    definition_version = key.1;
    name = name_or (find_named key) key.0;
    active = count_with key "ACTIVE" rows;
    waiting = count_with key "WAITING" rows;
    failed = count_with key "FAILED" rows;
  }

  abbrev pub name_found : Option NamedDefinition → String → Bool
  name_found none workflow = false
  name_found (some d) workflow = db.found_in d.name workflow

  abbrev pub is_searched : String → String × ℕ → Bool
  is_searched workflow key =
      is_empty workflow || db.found_in key.0 workflow || name_found (find_named key) workflow

  unfoldable pub select_definitions : String × ℕ → ℕ → String → List DefinitionCount
  unfolding group_keys count_row
  select_definitions after limit workflow =
      let rows = filter_by (λ row. behind_key after (key_of row)) db.workflow_instance in
      map (count_row rows) (take limit (filter_by (is_searched workflow) (group_keys rows)))

-- `query.workflow?.trim() ?? ""`, a string.
abbrev pub workflow_text : Option QueryValue → Checked String
workflow_text none = ok ""
workflow_text (some (texts ts)) = bad_request "Workflow search must be a string"
workflow_text (some (text s)) = ok (trim s)

abbrev pub definitions_scope : String → Scope
definitions_scope workflow = if is_empty workflow then all_definitions else searched workflow

module _ {T : Type 0} (platform : Platform T OverviewCursor Scope) (db : OverviewTables) where
  -- The time of the observation, and the page.
  unfoldable pub definitions : OverviewQuery T → Checked (ℕ × Page DefinitionCount T)
  unfolding positive_integer decode_overview_cursor encode_overview_cursor select_definitions
  definitions query = do
    limit ← positive_integer query.page_size 50 100 "Page size"
    workflow ← workflow_text query.workflow
    after ← decode_overview_cursor platform query.cursor (definitions_scope workflow)
    ok (
      to_date db.transaction_timestamp,
      slice_page limit
          (λ item.
            encode_overview_cursor platform (definitions_scope workflow) item.definition_id
              item.definition_version)
          (select_definitions db after (suc limit) workflow),
    )
