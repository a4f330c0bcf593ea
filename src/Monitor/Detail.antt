-- ===== src/Monitor/Detail.antt =====
-- `detail` of workflow-monitor-bff/src/modules/process-instances/process-instance.queries.ts: one
-- process instance, read in one transaction.
--
-- All statements of the transaction read one snapshot. A call of the client fails or not as an
-- argument says for its place among the calls.
pub mod Latest
pub mod Laws
use rochallor_engine.Base.{
  ℕ, String, Bool, true, false, Option, none, some, List, [], ◌∷◌, ◌&&◌, ◌||◌, if◌then◌else◌, ltb,
  nat_eq, ◌==◌, filter_by, map, length,
}
use rochallor_engine.Monitor.Instances.{InstanceRow, InstanceItem, instance_item, to_date}
use rochallor_engine.Monitor.Executions.{StepExecutionRow}
use rochallor_engine.Monitor.Context.{Tables, ExecutionContext, first_of, read_execution_context}

-- The calls of the connection pool and of its client.
pub data Call : Type 0 where
  connect : Call
  begin_transaction : Call
  select_instance : Call
  select_definition : Call
  select_latest : Call
  select_failed : Call
  select_context : Call
  commit : Call
  rollback : Call
  release : Call

-- A promise that is settled.
pub data Settled (A : Type 0) : Type 0 where
  returned : A → Settled A
  thrown : Settled A

-- `await`: the calls so far stand in front, the last one first.
abbrev pub Client : Type 0 → Type 0
Client A = List Call → Settled A × List Call

abbrev pub continue_with :
    {A B : Type 0} → (A → Client B) → Settled A × List Call → Settled B × List Call
continue_with f (returned a, calls) = f a calls
continue_with f (thrown, calls) = (thrown, calls)

infixl 5 ◌>>=◌ ◌>>◌
abbrev pub ◌>>=◌ : {A B : Type 0} → Client A → (A → Client B) → Client B
m >>= f = λ calls. continue_with f (m calls)

abbrev pub ◌>>◌ : {B : Type 0} → Client (Unit {0}) → Client B → Client B
m >> k = m >>= λ _. k

abbrev pub pure : {A : Type 0} → A → Client A
pure a = λ calls. (returned a, calls)

-- A row of `workflow_definition`; `D` is the type of `raw_json`.
pub record DefinitionRow (D : Type 0) : Type 0 where
  pub id : String
  pub version : ℕ
  pub raw_json : D

-- `StepExecutionSummary`.
pub record StepExecutionSummary : Type 0 where
  pub execution_id : String
  pub step_id : String
  pub status : String
  pub attempt_number : ℕ

pub record ExecutionOverlay : Type 0 where
  pub current_token_step_ids : List String
  pub failed_step_id : Option String
  pub latest_by_step : List StepExecutionSummary

-- `definition` is `raw_json` with its `version`.
pub record InstanceDetail (D : Type 0) : Type 0 where
  pub observed_at : ℕ
  pub execution_context : List ExecutionContext
  pub instance_of : InstanceItem
  pub definition : D × ℕ
  pub execution_overlay : ExecutionOverlay

-- What a transaction sees. `context` holds the tables in the orders of its statement.
pub record Snapshot (D : Type 0) : Type 0 where
  pub transaction_timestamp : ℕ
  pub workflow_instance : List InstanceRow
  pub workflow_definition : List (DefinitionRow D)
  pub step_execution : List StepExecutionRow
  pub context : Tables
  pub id_before : String → String → Bool

-- `ORDER BY attempt_number DESC, started_at DESC, id DESC`: `a` stands in front of `b`.
abbrev pub later_attempt : (String → String → Bool) → StepExecutionRow → StepExecutionRow → Bool
later_attempt id_before a b =
    ltb b.attempt_number a.attempt_number
    || (nat_eq a.attempt_number b.attempt_number
        && (ltb b.started_at a.started_at
            || (nat_eq a.started_at b.started_at && id_before b.id a.id)))

-- `DISTINCT ON (step_id)`: one row more, of which each step keeps the first in the order.
unfoldable pub place :
    (String → String → Bool) → StepExecutionRow → List StepExecutionRow → List StepExecutionRow
place id_before row [] = row ∷ []
place id_before row (r ∷ rs) =
    let later = place id_before row rs in
    if row.step_id == r.step_id
    then (if later_attempt id_before row r then row ∷ rs else r ∷ rs)
    else r ∷ later

unfoldable pub distinct_on_step :
    (String → String → Bool) → List StepExecutionRow → List StepExecutionRow
unfolding place
distinct_on_step id_before [] = []
distinct_on_step id_before (row ∷ rows) = place id_before row (distinct_on_step id_before rows)

-- `ORDER BY step_id`: one row more.
unfoldable pub put_in_order :
    (String → String → Bool) → StepExecutionRow → List StepExecutionRow → List StepExecutionRow
put_in_order id_before row [] = row ∷ []
put_in_order id_before row (r ∷ rs) =
    let later = put_in_order id_before row rs in
    if id_before row.step_id r.step_id then row ∷ r ∷ rs else r ∷ later

unfoldable pub order_by_step :
    (String → String → Bool) → List StepExecutionRow → List StepExecutionRow
unfolding put_in_order
order_by_step id_before [] = []
order_by_step id_before (row ∷ rows) = put_in_order id_before row (order_by_step id_before rows)

abbrev pub summary : StepExecutionRow → StepExecutionSummary
summary row = record {
  execution_id = row.id;
  step_id = row.step_id;
  status = row.status;
  attempt_number = row.attempt_number;
}

-- `ended_at DESC NULLS LAST`: the first is in front of, or beside, the second.
abbrev pub ended_after : Option ℕ → Option ℕ → Bool
ended_after none n = false
ended_after (some m) none = true
ended_after (some m) (some n) = ltb n m

abbrev pub ended_together : Option ℕ → Option ℕ → Bool
ended_together none none = true
ended_together (some m) (some n) = nat_eq m n
ended_together _ _ = false

-- `ORDER BY ended_at DESC NULLS LAST, started_at DESC, id DESC`.
abbrev pub failed_later : (String → String → Bool) → StepExecutionRow → StepExecutionRow → Bool
failed_later id_before a b =
    ended_after a.ended_at b.ended_at
    || (ended_together a.ended_at b.ended_at
        && (ltb b.started_at a.started_at
            || (nat_eq a.started_at b.started_at && id_before b.id a.id)))

-- `LIMIT 1`.
unfoldable pub last_failed :
    (String → String → Bool) → List StepExecutionRow → Option StepExecutionRow
last_failed id_before [] = none
last_failed id_before (row ∷ rows) = elim (last_failed id_before rows) [
  | none ↦ some row
  | some best ↦ if failed_later id_before best row then some best else some row
]

abbrev pub step_id_of : Option StepExecutionRow → Option String
step_id_of none = none
step_id_of (some row) = some row.step_id

module _ {D : Type 0} (db : Snapshot D) (instance_id : String) where
  abbrev pub find_instance : Option InstanceRow
  find_instance = first_of (filter_by (λ row. row.id == instance_id) db.workflow_instance)

  abbrev pub find_definition : InstanceRow → Option (DefinitionRow D)
  find_definition row = first_of (
      filter_by (λ d. d.id == row.definition_id && nat_eq d.version row.definition_version)
        db.workflow_definition)

  unfoldable pub latest_by_step : List StepExecutionSummary
  unfolding distinct_on_step order_by_step
  latest_by_step = map summary (
      order_by_step db.id_before (
        distinct_on_step db.id_before
          (filter_by (λ row. row.instance_id == instance_id) db.step_execution)))

  unfoldable pub failed_step_id : Option String
  unfolding last_failed
  failed_step_id = step_id_of (
      last_failed db.id_before (
        filter_by (λ row. row.instance_id == instance_id && row.status == "FAILED")
          db.step_execution))

abbrev pub current_tokens : InstanceRow → List String
current_tokens row =
    if row.status == "ACTIVE" || row.status == "WAITING" then row.current_step_ids else []

unfoldable pub instance_detail :
    {D : Type 0}
    → Snapshot D
    → String
    → InstanceRow
    → DefinitionRow D
    → Option String
    → List ExecutionContext
    → InstanceDetail D
unfolding latest_by_step
instance_detail db instance_id row definition failed context = record {
  observed_at = to_date db.transaction_timestamp;
  execution_context = context;
  instance_of = instance_item row;
  definition = (definition.raw_json, definition.version);
  execution_overlay = record {
    current_token_step_ids = current_tokens row;
    failed_step_id = failed;
    latest_by_step = latest_by_step db instance_id;
  };
}

-- `catch`, in which a failed `ROLLBACK` is ignored.
abbrev pub caught : {A : Type 0} → Settled A × List Call → Settled A × List Call
caught (returned a, calls) = (returned a, calls)
caught (thrown, calls) = (thrown, rollback ∷ calls)

-- `finally`.
abbrev pub released : {A : Type 0} → Settled A × List Call → Settled A × List Call
released (result, calls) = (result, release ∷ calls)

module _ (fails : ℕ → Bool) where
  abbrev pub send : Call → Client (Unit {0})
  send call calls = ((if fails (length calls) then thrown else returned tt), call ∷ calls)

  module _ {D : Type 0} (db : Snapshot D) (instance_id : String) where
    abbrev pub read_failed_step : InstanceRow → Client (Option String)
    read_failed_step row =
        if row.status == "FAILED"
        then (do send select_failed; pure (failed_step_id db instance_id))
        else pure none

    -- `readExecutionContext` with its query.
    abbrev pub read_context : List String → Client (List ExecutionContext)
    read_context [] = pure []
    read_context (step_id ∷ step_ids) = do
      send select_context
      pure (read_execution_context db.context instance_id (step_id ∷ step_ids))

    abbrev pub with_definition :
        InstanceRow → Option (DefinitionRow D) → Client (Option (InstanceDetail D))
    with_definition row none = do send rollback; pure none
    with_definition row (some definition) = do
      send select_latest
      failed ← read_failed_step row
      context ← read_context (current_tokens row)
      send commit
      pure (some (instance_detail db instance_id row definition failed context))

    abbrev pub with_instance : Option InstanceRow → Client (Option (InstanceDetail D))
    with_instance none = do send rollback; pure none
    with_instance (some row) = do
      send select_definition
      with_definition row (find_definition db instance_id row)

    -- The body of `try`.
    abbrev pub in_transaction : Client (Option (InstanceDetail D))
    in_transaction = do
      send begin_transaction
      send select_instance
      with_instance (find_instance db instance_id)

    unfoldable pub detail : Settled (Option (InstanceDetail D)) × List Call
    unfolding failed_step_id instance_detail
    detail = (send connect >> λ calls. released (caught (in_transaction calls))) []
