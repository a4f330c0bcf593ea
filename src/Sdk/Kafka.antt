-- ===== src/Sdk/Kafka.antt =====
-- workflow-sdk-node/src/runner/kafka_runner.ts: the consumer of one topic.
--
-- The state holds the maps of `startConsumer` and the fields of the runner. An event is what runs
-- between two awaits: a callback of the Kafka client, or a work that goes on. Abort controllers
-- are numbers, and the calls of the Kafka client and the acknowledgements of the engine are a log,
-- the newest first.
pub mod Works
mod Tests
pub mod Commits
pub mod Exclusive
use rochallor_engine.Base.{
  ℕ, zero, suc, ◌+◌, String, Bool, true, false, Option, none, some, List, [], ◌∷◌, ◌&&◌, ◌||◌, not,
  if◌then◌else◌, nat_eq, is_empty, get_elem?,
}
use rochallor_engine.Sdk.Dedup.{Cache, has, mark, close}
use rochallor_engine.Sdk.Registry.{Job, Handlers}
use rochallor_engine.Sdk.Callback.{
  Outcome, fail, Printed, execute, Attempt, Ending, delivered, still_pending, Metrics, deliver,
}

-- `JobDispatchEvent`. The payload is the text of its bytes.
pub record DispatchEvent : Type 0 where
  pub job_id : String
  pub dedup_id : String
  pub job_type : String
  pub instance_id : String
  pub retries_remaining : ℕ
  pub job_payload : String

pub record Record : Type 0 where
  pub offset : ℕ
  pub value : Option String

-- What `JSON.parse` returns, if it does not throw.
pub data Parsed (V : Type 0) : Type 0 where
  object : V → Parsed V
  not_an_object : Parsed V

-- Where the async function of a record waits: for the next turn, for the engine, for the commit.
pub data Stage : Type 0 where
  scheduled : Stage
  delivering : DispatchEvent → Stage
  committing : ℕ → Stage

pub record Work : Type 0 where
  pub partition : ℕ
  pub owner : ℕ
  pub record_taken : Record
  pub stage : Stage

pub data Effect : Type 0 where
  paused : ℕ → Record → Effect
  acknowledged : DispatchEvent → Effect
  commit : ℕ → ℕ → Effect
  resumed : ℕ → ℕ → Effect

-- `aborted` are the controllers of revoked partitions, `stopped` is the signal of `shutdown`.
pub record State : Type 0 where
  pub owners : ℕ → Option ℕ
  pub active : ℕ → Option ℕ
  pub commits : ℕ → Option ℕ
  pub aborted : ℕ → Bool
  pub stopped : Bool
  pub next_owner : ℕ
  pub pending : List Work
  pub dedup : Cache
  pub record_errors : ℕ
  pub log : List Effect

abbrev pub put : {A : Type 0} → ℕ → A → (ℕ → A) → ℕ → A
put key value m other = if nat_eq key other then value else m other

abbrev pub holds : Option ℕ → ℕ → Bool
holds none owner = false
holds (some o) owner = nat_eq o owner

abbrev pub remove : ℕ → List Work → List Work
remove i [] = []
remove zero (w ∷ ws) = ws
remove (suc i) (w ∷ ws) = w ∷ remove i ws

abbrev pub with_stage : Stage → ℕ → List Work → List Work
with_stage stage i [] = []
with_stage stage zero (w ∷ ws) = record w { stage = stage } ∷ ws
with_stage stage (suc i) (w ∷ ws) = w ∷ with_stage stage i ws

-- `signal.aborted` of a work.
abbrev pub is_aborted : State → Work → Bool
is_aborted s w = s.aborted w.owner || s.stopped

-- `rebalance_cb` for one partition.
unfoldable pub assign : ℕ → State → State
assign p s = elim (s.owners p) [
  | some _ ↦ s
  | none ↦ record s { owners = put p (some s.next_owner) s.owners; next_owner = suc s.next_owner }
]

unfoldable pub revoke : ℕ → State → State
revoke p s = elim (s.owners p) [
  | none ↦ s
  | some owner ↦ record s { aborted = put owner true s.aborted; owners = put p none s.owners }
]

-- `eachBatch`: the first message becomes a work, and the partition is paused.
abbrev pub take_record : ℕ → ℕ → Record → State → State
take_record p owner r s = record s {
  active = put p (some owner) s.active;
  pending =
      record { partition = p; owner = owner; record_taken = r; stage = scheduled } ∷ s.pending;
  log = paused p r ∷ s.log;
}

unfoldable pub each_batch : ℕ → List Record → Bool → Bool → State → State
each_batch p [] stale running s = s
each_batch p (r ∷ messages) stale running s = elim (s.owners p) [
  | none ↦ s
  | some owner ↦
      if s.stopped || stale || not running
      then s
      else if holds (s.active p) owner
      then s
      else take_record p owner r s
]

-- The `finally` of a work, behind its `catch`.
unfoldable pub finish : ℕ → Work → State → State
finish i w s = record s {
  active = if holds (s.active w.partition) w.owner then put w.partition none s.active else s.active;
  pending = remove i s.pending;
}

abbrev pub count_error : State → State
count_error s = record s { record_errors = suc s.record_errors }

-- Behind `this.dispatch`: the commit is submitted by the owner of the partition only.
unfoldable pub submit_commit : ℕ → Work → State → State
unfolding finish
submit_commit i w s =
    if is_aborted s w
    then finish i w s
    else if not (holds (s.owners w.partition) w.owner)
    then finish i w s
    else record s {
      commits = put w.partition (some (suc w.record_taken.offset)) s.commits;
      pending = with_stage (committing (suc w.record_taken.offset)) i s.pending;
      log = commit w.partition (suc w.record_taken.offset) ∷ s.log;
    }

-- `commits.delete`, and `seek` with `resume`.
abbrev pub commit_over : Work → State → State
commit_over w s = record s { commits = put w.partition none s.commits }

abbrev pub resume : Work → ℕ → State → State
resume w offset s = record s { log = resumed w.partition offset ∷ s.log }

-- Behind `await commit`.
unfoldable pub end_commit : ℕ → Work → ℕ → Bool → State → State
unfolding finish
end_commit i w offset succeeded s =
    if not succeeded || is_aborted s w || not (holds (s.owners w.partition) w.owner)
    then finish i w (commit_over w s)
    else finish i w (resume w offset (commit_over w s))

-- The answer of the engine, and `dedupCache.mark`.
abbrev pub marked : DispatchEvent → ℕ → State → State
marked event now s = record s {
  dedup = mark s.dedup now event.dedup_id;
  log = acknowledged event ∷ s.log;
}

-- Behind `deliver`, which the engine has acknowledged.
unfoldable pub end_delivery : ℕ → Work → DispatchEvent → ℕ → State → State
unfolding finish submit_commit
end_delivery i w event now s =
    let answered = record s { log = acknowledged event ∷ s.log } in
    if is_aborted s w then finish i w answered else submit_commit i w (marked event now s)

-- The end of a delivery: acknowledged, not yet, or thrown.
unfoldable pub settle : Ending → ℕ → Work → DispatchEvent → ℕ → State → State
unfolding finish end_delivery
settle delivered i w event now s = end_delivery i w event now s
settle still_pending i w event now s = s
settle _ i w event now s = finish i w s

-- `turn`, `delivery` and `commit_settled` continue the work with this place in `pending`.
pub data Event : Type 0 where
  assigned : ℕ → Event
  revoked : ℕ → Event
  batch : ℕ → List Record → Bool → Bool → Event
  turn : ℕ → ℕ → Event
  delivery : ℕ → List Attempt → ℕ → Event
  commit_settled : ℕ → Bool → Event
  stop : Event
  close_cache : Event

abbrev no_metrics : Metrics
no_metrics = record { retries = 0; rejected = 0; pending = 0 }

unfoldable pub continue_commit : ℕ → Work → Bool → Stage → State → State
unfolding end_commit
continue_commit i w succeeded (committing offset) s = end_commit i w offset succeeded s
continue_commit i w succeeded _ s = s

abbrev pub at : ℕ → State → (Work → State) → State
at i s f = elim (get_elem? s.pending i) [ none ↦ s | some w ↦ f w ]

-- `dispatch` up to the call of the engine. A known id is not delivered again.
unfoldable pub begin_dispatch : ℕ → Work → DispatchEvent → ℕ → State → State
unfolding finish submit_commit
begin_dispatch i w event now s =
    if is_empty event.job_id
    then finish i w (count_error s)
    else if not (is_empty event.dedup_id) && has s.dedup now event.dedup_id
    then submit_commit i w s
    else record s { pending = with_stage (delivering event) i s.pending }

module _ {V S : Type 0} (parse : String → Option (Parsed V)) (empty : V) (stringify : V → Printed)
    (handlers : Handlers V S) where
  abbrev job_of : DispatchEvent → V → Job V
  job_of event variables = record {
    id = event.job_id;
    job_type = event.job_type;
    instance_id = event.instance_id;
    retries_remaining = event.retries_remaining;
    variables = some variables;
  }

  -- `variables`, or `none` for an `invalid` payload.
  abbrev variables_of : String → Option V
  variables_of payload = if is_empty payload then some empty else elim (parse payload) [
    | none ↦ none
    | some (object variables) ↦ some variables
    | some not_an_object ↦ none
  ]

  unfoldable pub outcome_for : DispatchEvent → Outcome
  outcome_for event = elim (variables_of event.job_payload) [
    | none ↦ fail "invalid job payload" false
    | some variables ↦ execute empty stringify handlers (job_of event variables) none
  ]

-- The outcome of an event is a parameter of the rest, which `outcome_for` fills.
module _ (decode : String → Option DispatchEvent) (outcome : DispatchEvent → Outcome)
    (worker_id : String) where
  -- Behind `await nextTurn()`.
  unfoldable pub begin_work : ℕ → Work → ℕ → State → State
  unfolding finish begin_dispatch
  begin_work i w now s = if is_aborted s w then finish i w s else elim w.record_taken.value [
    | none ↦ finish i w (count_error s)
    | some value ↦ elim (decode value) [
      | none ↦ finish i w (count_error s)
      | some event ↦ begin_dispatch i w event now s
    ]
  ]

  unfoldable pub continue_turn : ℕ → Work → ℕ → Stage → State → State
  unfolding begin_work
  continue_turn i w now scheduled s = begin_work i w now s
  continue_turn i w now _ s = s

  unfoldable pub continue_delivery : ℕ → Work → List Attempt → ℕ → Stage → State → State
  unfolding settle
  continue_delivery i w attempts now (delivering event) s =
      settle (deliver worker_id event.job_id (outcome event) true attempts no_metrics).1.ending i w
        event now s
  continue_delivery i w attempts now _ s = s

  unfoldable pub step : Event → State → State
  unfolding assign revoke each_batch continue_turn continue_delivery continue_commit
  step (assigned p) s = assign p s
  step (revoked p) s = revoke p s
  step (batch p messages stale running) s = each_batch p messages stale running s
  step (turn i now) s = at i s λ w. continue_turn i w now w.stage s
  step (delivery i attempts now) s = at i s λ w. continue_delivery i w attempts now w.stage s
  step (commit_settled i succeeded) s = at i s λ w. continue_commit i w succeeded w.stage s
  step stop s = record s { stopped = true }
  step close_cache s = elim s.pending [ [] ↦ record s { dedup = close s.dedup } | _ ∷ _ ↦ s ]

  unfoldable pub run : List Event → State → State
  unfolding step
  run [] s = s
  run (event ∷ events) s = run events (step event s)

-- A consumer that was started.
unfoldable pub started : ℕ → State
started window = record {
  owners = λ p. none;
  active = λ p. none;
  commits = λ p. none;
  aborted = λ o. false;
  stopped = false;
  next_owner = 0;
  pending = [];
  dedup = record { seen_at = []; window_ms = window };
  record_errors = 0;
  log = [];
}
