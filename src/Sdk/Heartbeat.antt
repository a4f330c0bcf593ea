-- ===== src/Sdk/Heartbeat.antt =====
-- workflow-sdk-node/src/runner/heartbeat.ts: the renewal of the lease of a job.
--
-- The clock, the answers of the engine and the aborts are the list of rounds; a renewal that has
-- used them all is still running. Times are milliseconds.

pub mod Laws
mod Tests
use rochallor_engine.Base.{
  ℕ, zero, suc, ◌+◌, ◌-◌, ◌/◌, ◌*◌, Bool, true, false, Option, none, some, List, [], ◌∷◌, ◌++◌,
  ◌||◌, ◌&&◌, if◌then◌else◌, ltb, leb,
}
use rochallor_engine.Sdk.Backoff.{delay}
use rochallor_engine.Sdk.Callback.{Failure, permanent}

-- How a call of `extendJobLease` ends: with a text that `Date.parse` reads as a time, or not, or
-- with an error.
pub data Renewal : Type 0 where
  renewed : Option ℕ → Renewal
  lease_lost_error : Renewal
  unsupported_error : Renewal
  failed : Failure → Renewal

-- What aborts the signal: the parent or `fatal`, or the timer of `armExpiry`, which counts a lost
-- lease when it fires. The first one to abort decides; the timer is cleared when the loop ends.
pub data Abort : Type 0 where
  from_parent : Abort
  expiry_timer : Abort

-- One turn of the loop: whether the signal is aborted when it begins, the clock then, how the call
-- ends, whether the signal is aborted then, the clock then, the draw of the delay, and whether the
-- wait at the end is aborted.
pub record Round : Type 0 where
  pub aborted_before : Option Abort
  pub called_at : ℕ
  pub renewal : Renewal
  pub aborted_after : Option Abort
  pub answered_at : ℕ
  pub scale : ℕ
  pub draw : ℕ
  pub aborted_wait : Option Abort

-- The loop has left by its test, thrown the reason of an abort, lost the lease, or given up.
pub data Ending : Type 0 where
  stopped : Abort → Ending
  aborted : Abort → Ending
  lease_lost : Ending
  gave_up : Ending
  still_running : Ending

-- A renewal that was accepted: the expiry before, the clock, the new expiry, and the wait.
pub record Accepted : Type 0 where
  pub old_expiry : ℕ
  pub at : ℕ
  pub new_expiry : ℕ
  pub wait : ℕ

-- The timeouts of the calls, the renewals accepted, the waits of the retries, the expiry at the
-- end, the counters of `heartbeats` for a lost lease, by the loop or by the timer, and for a
-- rejection, and the calls of `fatal`.
pub record Run : Type 0 where
  pub timeouts : List ℕ
  pub accepted : List Accepted
  pub retry_waits : List ℕ
  pub expiry : ℕ
  pub lost : ℕ
  pub rejected : ℕ
  pub fatal : ℕ
  pub ending : Ending

abbrev pub at_least_one : ℕ → ℕ
at_least_one n = if ltb n 1 then 1 else n

abbrev pub smaller : ℕ → ℕ → ℕ
smaller m n = if leb m n then m else n

-- `Math.max(1, Math.min(5000, expiry - Date.now()))`; a difference below 0 counts as 0 here.
unfoldable pub call_timeout : ℕ → ℕ → ℕ
call_timeout expiry now = at_least_one (smaller 5000 (expiry - now))

-- `Math.max(1, Math.min(intervalMs, (expiry - Date.now()) / 3))`, in whole milliseconds.
unfoldable pub renewal_wait : ℕ → ℕ → ℕ → ℕ
renewal_wait interval expiry now = at_least_one (smaller interval ((expiry - now) / 3))

unfoldable pub retry_wait : ℕ → ℕ → Round → ℕ
retry_wait attempt expiry r =
    at_least_one (smaller (delay attempt r.scale r.draw) (expiry - r.answered_at))

abbrev pub over : ℕ → Ending → Run
over expiry ending = record {
  timeouts = [];
  accepted = [];
  retry_waits = [];
  expiry = expiry;
  lost = 0;
  rejected = 0;
  fatal = 0;
  ending = ending;
}

-- The increments by the timer.
abbrev pub counted : Abort → ℕ
counted from_parent = 0
counted expiry_timer = 1

abbrev pub stopped_by : ℕ → Abort → Run
stopped_by expiry abort = record (over expiry (stopped abort)) { lost = counted abort }

abbrev pub aborted_by : ℕ → Abort → Run
aborted_by expiry abort = record (over expiry (aborted abort)) { lost = counted abort }

abbrev pub unless_aborted : Option Abort → (Abort → Run) → Run → Run
unless_aborted (some abort) end later = end abort
unless_aborted none end later = later

abbrev pub called : ℕ → Run → Run
called timeout later = record later { timeouts = timeout ∷ later.timeouts }

-- `next` is a time, not before the old expiry and not past.
abbrev pub acceptable : ℕ → ℕ → Option ℕ → Bool
acceptable expiry now none = false
acceptable expiry now (some next) = leb expiry next && ltb now next

abbrev pub or_zero : Option ℕ → ℕ
or_zero none = 0
or_zero (some n) = n

-- The last branch of the `catch`: another turn, behind a wait.
abbrev pub try_again : ℕ → ℕ → Option Abort → Run → Run
try_again expiry wait (some abort) later = record (aborted_by expiry abort) {
  retry_waits = wait ∷ [];
}
try_again expiry wait none later = record later { retry_waits = wait ∷ later.retry_waits }

abbrev pub accept : ℕ → ℕ → ℕ → ℕ → Option Abort → Run → Run
accept interval expiry now next aborted_wait later =
    let entry : Accepted = record {
      old_expiry = expiry;
      at = now;
      new_expiry = next;
      wait = renewal_wait interval next now;
    } in
    elim aborted_wait [
      | some abort ↦ record (aborted_by next abort) { accepted = entry ∷ [] }
      | none ↦ record later { accepted = entry ∷ later.accepted }
    ]

-- `fatal_aborts` tells whether `fatal` aborts the signal, as it does in the runner.
module _ (interval : ℕ) (fatal_aborts : Bool) where
  -- A call that returned, before the lease was over or not. `rest` is the loop from an attempt and
  -- an expiry on.
  unfoldable pub on_renewed : ℕ → ℕ → Round → Option ℕ → (ℕ → ℕ → Run) → Run
  unfolding retry_wait renewal_wait
  on_renewed attempt expiry r next rest =
      if leb expiry r.answered_at
      then record (over expiry lease_lost) { lost = 1 }
      else if acceptable expiry r.answered_at next
      then accept interval expiry r.answered_at (or_zero next) r.aborted_wait
          (rest 0 (or_zero next))
      else if fatal_aborts
      then record (aborted_by expiry from_parent) { fatal = 1 }
      else let later =
          try_again expiry (retry_wait (suc attempt) expiry r) r.aborted_wait
            (rest (suc attempt) expiry) in
        record later { fatal = suc later.fatal }

  unfoldable pub on_renewal : ℕ → ℕ → Round → Renewal → (ℕ → ℕ → Run) → Run
  unfolding on_renewed retry_wait
  on_renewal attempt expiry r (renewed next) rest = on_renewed attempt expiry r next rest
  on_renewal attempt expiry r lease_lost_error rest = record (over expiry lease_lost) { lost = 1 }
  on_renewal attempt expiry r unsupported_error rest = record (over expiry gave_up) {
    rejected = 1;
    fatal = 1;
  }
  on_renewal attempt expiry r (failed failure) rest =
      if permanent failure
      then record (over expiry gave_up) { rejected = 1; fatal = 1 }
      else try_again expiry (retry_wait (suc attempt) expiry r) r.aborted_wait
          (rest (suc attempt) expiry)

  unfoldable pub renew_loop : List Round → ℕ → ℕ → Run
  unfolding on_renewal
  renew_loop [] attempt expiry = over expiry still_running
  renew_loop (r ∷ rounds) attempt expiry =
      let rest = renew_loop rounds in
      unless_aborted r.aborted_before (stopped_by expiry) (
        called (call_timeout expiry r.called_at) (
          unless_aborted r.aborted_after (aborted_by expiry)
            (on_renewal attempt expiry r r.renewal rest)))

-- What `maintainLease` checks before it starts the loop: the parsed expiry of the job.
pub data Start : Type 0 where
  no_metadata : Start
  lost_before : Start
  started : Run → Start

unfoldable pub maintain_lease : ℕ → Bool → ℕ → Option ℕ → List Round → Start
unfolding renew_loop
maintain_lease interval fatal_aborts now none rounds = no_metadata
maintain_lease interval fatal_aborts now (some expiry) rounds =
    if leb expiry now
    then lost_before
    else started (renew_loop interval fatal_aborts rounds 0 expiry)
