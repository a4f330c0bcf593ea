-- ===== src/Sdk/Callback.antt =====
-- workflow-sdk-node/src/runner/callback.ts: the outcome of a job, and its delivery to the engine.
--
-- The engine's answers, the abort signal and the random draws of the delays are the list of
-- attempts; the delivery that has used them all is pending.
pub mod Laws
use rochallor_engine.Base.{
  ℕ, zero, suc, ◌+◌, ◌-◌, String, Bool, true, false, Option, none, some, List, [], ◌∷◌, ◌&&◌, not,
  if◌then◌else◌, leb, ltb, nat_eq, any, ◌<>◌,
}
use rochallor_engine.Sdk.Backoff.{delay}
use rochallor_engine.Sdk.Registry.{
  Job, JobContext, Thrown, non_retryable_error, an_error, a_value, Settled, returned, threw,
  Handler, Handlers, get, context_from, value_or,
}

-- The variables of a completion are kept as their JSON text.
pub data Outcome : Type 0 where
  complete : String → Outcome
  fail : String → Bool → Outcome

-- The `catch` of `execute`.
unfoldable pub failed : Thrown → Outcome
failed (non_retryable_error message) = fail message false
failed (an_error message) = fail message true
failed (a_value text) = fail text true

-- What `JSON.stringify` does: it returns a text, or throws (on a cycle, say).
pub data Printed : Type 0 where
  printed : String → Printed
  not_printed : Thrown → Printed

unfoldable pub printed_outcome : Printed → Outcome
unfolding failed
printed_outcome (printed text) = complete text
printed_outcome (not_printed thrown) = failed thrown

unfoldable pub outcome_of : {V : Type 0} → V → (V → Printed) → Settled V → Outcome
unfolding failed printed_outcome
outcome_of empty stringify (returned variables_to_set) =
    printed_outcome (stringify (value_or empty variables_to_set))
outcome_of empty stringify (threw thrown) = failed thrown

module _ {V S : Type 0} (empty : V) (stringify : V → Printed) where
  unfoldable pub execute : Handlers V S → Job V → Option S → Outcome
  unfolding outcome_of
  execute handlers job signal = elim (get job.job_type handlers) [
    | none ↦ fail ("no handler registered for " <> job.job_type) false
    | some handler ↦ outcome_of empty stringify (handler (context_from empty job signal))
  ]

-- What the engine's client throws: an `HttpError` with its status, an object whose `code` is a
-- natural number, or anything else.
pub data Failure : Type 0 where
  http_error : ℕ → Failure
  with_code : ℕ → Failure
  other_failure : Failure

unfoldable pub permanent : Failure → Bool
permanent (http_error status) =
    leb 400 status && ltb status 500 && not (any (nat_eq status) (408 ∷ 429 ∷ []))
permanent (with_code code) = any (nat_eq code) (3 ∷ 5 ∷ 6 ∷ 7 ∷ 9 ∷ 11 ∷ 12 ∷ 15 ∷ 16 ∷ [])
permanent other_failure = false

pub data Reply : Type 0 where
  acknowledged : Reply
  refused : Failure → Reply

-- One round of the loop: whether the signal is aborted when the round begins, how the call ends
-- (the timeout of five seconds is a failure), whether the signal is aborted then, the draw of the
-- delay, and whether the wait is aborted.
pub record Attempt : Type 0 where
  pub aborted_before : Bool
  pub reply : Reply
  pub aborted_after : Bool
  pub scale : ℕ
  pub draw : ℕ
  pub aborted_wait : Bool

-- The call of the engine.
pub data Call : Type 0 where
  complete_job : String → String → String → Call
  fail_job : String → String → String → Bool → Call

unfoldable pub call_of : String → String → Outcome → Call
call_of worker_id job_id (complete variables) = complete_job job_id worker_id variables
call_of worker_id job_id (fail message retryable) = fail_job job_id worker_id message retryable

-- How the promise settles: returned, the engine's refusal thrown, the last failure thrown because
-- nothing is retried, the reason of the abort thrown, or not yet.
pub data Ending : Type 0 where
  delivered : Ending
  rejected : Failure → Ending
  gave_up : Failure → Ending
  aborted : Ending
  still_pending : Ending

-- The calls that were sent and the delays that were waited for, in order, what the loop adds to
-- the counters `callbackRetries` and `callbackRejected`, and the ending.
pub record Run : Type 0 where
  pub calls : List Call
  pub waits : List ℕ
  pub retries : ℕ
  pub rejections : ℕ
  pub ending : Ending

abbrev pub stop : List Call → ℕ → Ending → Run
stop calls rejections ending = record {
  calls = calls;
  waits = [];
  retries = 0;
  rejections = rejections;
  ending = ending;
}

-- A failed call that is tried again, with the rounds behind it.
abbrev pub again : Call → ℕ → Bool → Run → Run
again call ms aborted_wait later =
    if aborted_wait
    then record {
      calls = call ∷ [];
      waits = ms ∷ [];
      retries = 1;
      rejections = 0;
      ending = aborted;
    }
    else record later {
      calls = call ∷ later.calls;
      waits = ms ∷ later.waits;
      retries = suc later.retries;
    }

module _ (call : Call) (retry : Bool) where
  -- The `catch` of a round, behind its test of the signal.
  unfoldable pub handle : ℕ → Attempt → Failure → Run → Run
  handle attempt a failure later =
      if permanent failure
      then stop (call ∷ []) 1 (rejected failure)
      else if retry
      then again call (delay attempt a.scale a.draw) a.aborted_wait later
      else stop (call ∷ []) 0 (gave_up failure)

  unfoldable pub deliver_loop : ℕ → List Attempt → Run
  unfolding handle
  deliver_loop attempt [] = stop [] 0 still_pending
  deliver_loop attempt (a ∷ attempts) =
      let later = deliver_loop (suc attempt) attempts in
      if a.aborted_before
      then stop [] 0 aborted
      else if a.aborted_after
      then stop (call ∷ []) 0 aborted
      else elim a.reply [
        | acknowledged ↦ stop (call ∷ []) 0 delivered
        | refused failure ↦ handle attempt a failure later
      ]

-- The counters and the gauge `callbackPending` under the labels of one delivery.
pub record Metrics : Type 0 where
  pub retries : ℕ
  pub rejected : ℕ
  pub pending : ℕ

-- `finish()`, which a delivery that still runs has not called.
abbrev pub finish : Ending → ℕ → ℕ
finish still_pending pending = pending
finish _ pending = pending - 1

unfoldable pub deliver : String → String → Outcome → Bool → List Attempt → Metrics → Metrics × Run
unfolding deliver_loop call_of
deliver worker_id job_id outcome retry attempts m =
    let run = deliver_loop (call_of worker_id job_id outcome) retry 1 attempts in
    (
      record {
        retries = m.retries + run.retries;
        rejected = m.rejected + run.rejections;
        pending = finish run.ending (suc m.pending);
      },
      run,
    )
