-- ===== src/Monitor/Overview/Steps.antt =====
-- `steps` of workflow-monitor-bff/src/modules/overview/overview.queries.ts: the live instances of a
-- definition, counted at each current step. A cutoff before 1970 stands for 1970.
use rochallor_engine.Base.{
  ℕ, suc, ◌-◌, ◌*◌, String, Bool, false, Option, none, some, List, [], ◌∷◌, ◌++◌, ◌&&◌, ◌||◌, not,
  if◌then◌else◌, ltb, nat_eq, ◌==◌, is_empty, contains, filter_by, map, take, length,
}
use rochallor_engine.Monitor.Request.{QueryValue, text, Checked, ok, bad_request, ◌>>=◌, Platform}
use rochallor_engine.Monitor.Paging.{Page, slice_page}
use rochallor_engine.Monitor.Instances.{InstanceRow, to_date}
use rochallor_engine.Monitor.Instances.Query.{Execution}
use rochallor_engine.Monitor.Overview.{
  OverviewQuery, StepCount, OverviewCursor, Scope, steps_of, OverviewTables, max_integer,
  positive_integer, decode_overview_cursor, encode_overview_cursor,
}

-- A row of the lateral join: an instance at one of its current steps.
pub record AtStep : Type 0 where
  pub step_id : String
  pub instance_id : String
  pub execution : Option Execution

-- The distinct texts of a list, as `count(DISTINCT …)` counts them.
unfoldable pub distinct : List String → List String
distinct [] = []
distinct (x ∷ xs) = let rest = distinct xs in if contains rest x then rest else x ∷ rest

abbrev pub count_instances : List AtStep → ℕ
count_instances rows = length (distinct (map (λ row. row.instance_id) rows))

-- `status = 'RUNNING'`, and `status IS DISTINCT FROM 'RUNNING'` is its negation.
abbrev pub is_running : Option Execution → Bool
is_running none = false
is_running (some e) = e.status == "RUNNING"

abbrev pub started_before : ℕ → Option Execution → Bool
started_before cutoff none = false
started_before cutoff (some e) = ltb e.started_at cutoff

module _ (db : OverviewTables) where
  abbrev pub at_steps : InstanceRow → List String → List AtStep
  at_steps row [] = []
  at_steps row (step_id ∷ step_ids) =
      record {
        step_id = step_id;
        instance_id = row.id;
        execution = db.latest_execution row.id step_id;
      }
      ∷ at_steps row step_ids

  abbrev pub unnested : List InstanceRow → List AtStep
  unnested [] = []
  unnested (row ∷ rows) = at_steps row row.current_step_ids ++ unnested rows

  -- `GROUP BY current.step_id ORDER BY current.step_id`: one step more.
  unfoldable pub add_step_id : String → List String → List String
  add_step_id step_id [] = step_id ∷ []
  add_step_id step_id (s ∷ ss) =
      let later = add_step_id step_id ss in
      if step_id == s
      then s ∷ ss
      else if db.id_before step_id s
      then step_id ∷ s ∷ ss
      else s ∷ later

  unfoldable pub group_steps : List AtStep → List String
  unfolding add_step_id
  group_steps [] = []
  group_steps (row ∷ rows) = add_step_id row.step_id (group_steps rows)

  unfoldable pub count_step : ℕ → List AtStep → String → StepCount
  unfolding distinct
  count_step cutoff rows step_id =
      let at = filter_by (λ row. row.step_id == step_id) rows in
      record {
        step_id = step_id;
        instances = count_instances at;
        aged =
            count_instances (
              filter_by (λ row. is_running row.execution && started_before cutoff row.execution)
                at);
        age_unavailable = count_instances (filter_by (λ row. not (is_running row.execution)) at);
      }

  -- `WHERE`.
  abbrev pub live_of : String → ℕ → InstanceRow → Bool
  live_of definition_id version row =
      row.definition_id == definition_id
      && nat_eq row.definition_version version
      && (row.status == "ACTIVE" || row.status == "WAITING")

  abbrev pub behind_step : String → AtStep → Bool
  behind_step after row = is_empty after || db.id_before after row.step_id

  abbrev pub cutoff_of : ℕ → ℕ
  cutoff_of age = db.transaction_timestamp - age * 1000000

  unfoldable pub select_steps : String → ℕ → ℕ → String → ℕ → List StepCount
  unfolding group_steps count_step
  select_steps definition_id version age after limit =
      let rows =
        filter_by (behind_step after)
          (unnested (filter_by (live_of definition_id version) db.workflow_instance)) in
      map (count_step (cutoff_of age) rows) (take limit (group_steps rows))

pub record StepOverview (T : Type 0) : Type 0 where
  pub observed_at : ℕ
  pub step_started_before : ℕ
  pub definition_id : String
  pub definition_version : ℕ
  pub min_step_age_seconds : ℕ
  pub page : Page StepCount T

-- The definition that is asked for, a non-empty string, if a version is given.
abbrev pub asked_definition : Option QueryValue → Option QueryValue → Checked String
asked_definition (some (text id)) (some version) =
    if is_empty id then bad_request "Definition ID and version are required" else ok id
asked_definition _ _ = bad_request "Definition ID and version are required"

module _ {T : Type 0} (platform : Platform T OverviewCursor Scope) (db : OverviewTables) where
  unfoldable pub steps : OverviewQuery T → Checked (StepOverview T)
  unfolding positive_integer decode_overview_cursor encode_overview_cursor select_steps
  steps query = do
    definition_id ← asked_definition query.definition_id query.definition_version
    version ← positive_integer query.definition_version 1 max_integer "Definition version"
    age ← positive_integer query.min_step_age_seconds 1800 max_integer "Minimum step age"
    limit ← positive_integer query.page_size 50 100 "Page size"
    after ← decode_overview_cursor platform query.cursor (steps_of definition_id version age)
    ok (record {
      observed_at = to_date db.transaction_timestamp;
      step_started_before = to_date (cutoff_of db age);
      definition_id = definition_id;
      definition_version = version;
      min_step_age_seconds = age;
      page =
          slice_page limit
            (λ item.
              encode_overview_cursor platform (steps_of definition_id version age) item.step_id 0)
            (select_steps db definition_id version age after.0 (suc limit));
    })
