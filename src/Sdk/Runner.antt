-- ===== src/Sdk/Runner.antt =====
-- workflow-sdk-node/src/runner/runner.ts: the settings of a runner, its poll loop, and what it does
-- with a job.
--
-- An event of the loop is the end of an await. The promises in flight are numbers, and a number
-- that is not natural (a fraction, a negative number, NaN) is `none` in the settings.

pub mod Laws
mod Tests
use rochallor_engine.Base.{
  ℕ, zero, suc, ◌+◌, ◌-◌, ◌*◌, ◌≤◌, String, Bool, true, false, Option, none, some, List, [], ◌∷◌,
  ◌++◌, ◌≡◌, ◌&&◌, ◌||◌, not, if◌then◌else◌, ltb, leb, nat_eq, length,
}

-- The interval of the heartbeat is counted in thirds of a millisecond, which the default needs.
pub record Settings : Type 0 where
  pub concurrency : Option ℕ
  pub lease_seconds : Option ℕ
  pub heartbeat : Bool
  pub heartbeat_interval : ℕ
  pub shutdown_timeout_ms : Option ℕ

pub data Created : Type 0 where
  created : Settings → Created
  refused : String → Created

abbrev bad_lease : Option ℕ → Bool
bad_lease none = true
bad_lease (some n) = not (nat_eq n 0) && (ltb n 5 || ltb 3600 n)

-- `leaseSeconds || 30`.
abbrev pub lease_or_default : Option ℕ → ℕ
lease_or_default none = 30
lease_or_default (some n) = if nat_eq n 0 then 30 else n

abbrev bad_positive : Option ℕ → Bool
bad_positive none = true
bad_positive (some n) = ltb n 1

-- The tests of the constructor, on settings with their defaults filled in.
unfoldable pub create : Settings → Created
create cfg =
    if bad_lease cfg.lease_seconds
    then refused "leaseSeconds must be 0 or 5–3600"
    else if ltb cfg.heartbeat_interval 1
        || ltb (lease_or_default cfg.lease_seconds * 1000) cfg.heartbeat_interval
    then refused "heartbeatIntervalMs must be positive and at most one third of the lease"
    else if bad_positive cfg.shutdown_timeout_ms
    then refused "shutdownTimeoutMs must be finite and positive"
    else if bad_positive cfg.concurrency
    then refused "concurrency must be a positive integer"
    else created cfg

-- Where the loop waits: for a job in flight, for the engine, for the interval, for the jobs in
-- flight to end, or nowhere.
pub data Phase : Type 0 where
  waiting_slot : Phase
  polling : ℕ → Phase
  waiting_interval : Phase
  draining : Phase

-- `polls` are the `maxJobs` of the polls, the last one first.
pub record State : Type 0 where
  pub phase : Phase
  pub aborted : Bool
  pub running : Bool
  pub in_flight : List ℕ
  pub next_promise : ℕ
  pub polls : List ℕ

pub data Event : Type 0 where
  polled : ℕ → Event
  poll_failed : Event
  interval_over : Event
  settled : ℕ → Event
  aborted_now : Event
  drained : Event

-- The `for` loop over the jobs: one promise for each.
unfoldable pub add_jobs : ℕ → State → State
add_jobs zero s = s
add_jobs (suc n) s =
    add_jobs n
      (record s { in_flight = s.next_promise ∷ s.in_flight; next_promise = suc s.next_promise })

abbrev pub without : ℕ → List ℕ → List ℕ
without promise [] = []
without promise (p ∷ ps) = if nat_eq p promise then ps else p ∷ without promise ps

-- `wait(pollIntervalMs, undefined, { signal })`, which an aborted signal ends at once; behind it the
-- loop is left.
abbrev pub wait_interval : State → State
wait_interval s = record s { phase = if s.aborted then draining else waiting_interval }

unfoldable pub on_poll_failed : Phase → State → State
on_poll_failed (polling _) s = wait_interval s
on_poll_failed _ s = s

-- An abort ends the waits at once, but for a poll, which then fails.
unfoldable pub on_abort : Phase → State → State
on_abort (polling n) s = s
on_abort _ s = record s { phase = draining }

-- `allSettled(inFlight)` clears `running`.
unfoldable pub on_drained : Phase → List ℕ → State → State
on_drained draining [] s = record s { running = false }
on_drained _ _ s = s

-- The engine returns no more jobs than a poll asks for.
abbrev pub Allowed : Event → Phase → Type 0
Allowed (polled n) (polling max_jobs) = n ≤ max_jobs
Allowed _ _ = Unit

-- The state in front of the loop.
abbrev pub entered : Bool → State
entered aborted = record {
  phase = draining;
  aborted = aborted;
  running = true;
  in_flight = [];
  next_promise = 0;
  polls = [];
}

module _ (concurrency : ℕ) where
  -- The head of the `while` loop.
  unfoldable pub loop_head : State → State
  loop_head s =
      if s.aborted
      then record s { phase = draining }
      else if leb concurrency (length s.in_flight)
      then record s { phase = waiting_slot }
      else record s {
        phase = polling (concurrency - length s.in_flight);
        polls = (concurrency - length s.in_flight) ∷ s.polls;
      }

  -- A poll that returned this many jobs.
  unfoldable pub on_polled : Phase → ℕ → State → State
  unfolding loop_head add_jobs
  on_polled (polling _) zero s = wait_interval s
  on_polled (polling _) (suc n) s = loop_head (add_jobs (suc n) s)
  on_polled _ n s = s

  unfoldable pub on_interval : Phase → State → State
  unfolding loop_head
  on_interval waiting_interval s = loop_head s
  on_interval _ s = s

  -- `inFlight.delete`, and the end of `Promise.race`.
  unfoldable pub on_settled : Phase → State → State
  unfolding loop_head
  on_settled waiting_slot s = loop_head s
  on_settled _ s = s

  unfoldable pub step : Event → State → State
  unfolding on_polled on_poll_failed on_interval on_settled on_abort on_drained
  step (polled n) s = on_polled s.phase n s
  step poll_failed s = on_poll_failed s.phase s
  step interval_over s = on_interval s.phase s
  step (settled promise) s =
      on_settled s.phase (record s { in_flight = without promise s.in_flight })
  step aborted_now s = on_abort s.phase (record s { aborted = true })
  step drained s = on_drained s.phase s.in_flight s

  -- `run` on a runner that does not run, up to its first await.
  unfoldable pub start : Bool → State
  unfolding loop_head
  start aborted = loop_head (entered aborted)

  -- The states of a run.
  pub data Reach : State → Type 0 where
    begin : (aborted : Bool) → Reach (start aborted)
    next : {s : State} (event : Event) → Reach s → Allowed event s.phase → Reach (step event s)

  unfoldable pub run_events : List Event → State → State
  unfolding step
  run_events [] s = s
  run_events (event ∷ events) s = run_events events (step event s)

-- `lockExpiresAt` of a job.
pub data Deadline : Type 0 where
  undefined : Deadline
  not_a_time : Deadline
  time : ℕ → Deadline

-- How `maintainLease` ends: it throws because of the lease or for another reason, or a lease is
-- held; `valid` and `aborted` are asked for when the handler has ended.
pub data Lease : Type 0 where
  lost : Lease
  failed : Lease
  held : Bool → Lease

-- What `dispatch` does with a job: nothing, a fatal error, the handler only, or a delivery, with
-- retries or with one attempt.
pub data Dispatched : Type 0 where
  skipped : Dispatched
  fatal : Dispatched
  not_delivered : Dispatched
  delivered : Bool → Dispatched

abbrev pub is_over : Deadline → ℕ → Bool
is_over undefined now = false
is_over not_a_time now = true
is_over (time t) now = leb t now

abbrev pub has_deadline : Deadline → Bool
has_deadline undefined = false
has_deadline _ = true

-- Behind the handler, with its lease or without a heartbeat.
unfoldable pub after_handler : Deadline → Option Bool → Bool → ℕ → Dispatched
after_handler deadline (some valid) owned_aborted now =
    if owned_aborted || not valid then not_delivered else delivered (has_deadline deadline)
after_handler deadline none owned_aborted now =
    if owned_aborted || is_over deadline now
    then not_delivered
    else delivered (has_deadline deadline)

unfoldable pub with_lease : Bool → Deadline → Lease → Bool → ℕ → Dispatched
unfolding after_handler
with_lease aborted deadline lost owned_aborted later = skipped
with_lease aborted deadline failed owned_aborted later = if aborted then skipped else fatal
with_lease aborted deadline (held valid) owned_aborted later =
    after_handler deadline (some valid) owned_aborted later

-- `heartbeat` is the setting, `lease` how `maintainLease` ends and whether the signal is aborted
-- then, and `owned_aborted` and `later` the signal and the clock when the handler has ended.
unfoldable pub dispatch : Bool → Bool → Deadline → ℕ → Lease × Bool → Bool → ℕ → Dispatched
unfolding with_lease after_handler
dispatch heartbeat aborted deadline now (lease, aborted_then) owned_aborted later =
    if aborted || is_over deadline now
    then skipped
    else if heartbeat
    then with_lease aborted_then deadline lease owned_aborted later
    else after_handler deadline none owned_aborted later
