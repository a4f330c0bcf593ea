-- ===== src/Sdk/Kafka/Tests.antt =====
-- The theorems about workflow-sdk-node/src/runner/kafka_runner.ts at a run of one record.
use rochallor_engine.Base.{
  ℕ, String, true, false, Option, none, some, List, [], ◌∷◌, ◌≡◌, refl, All, ◌==◌, if◌then◌else◌,
}
use rochallor_engine.Sdk.Dedup.{has}
use rochallor_engine.Sdk.Registry.{JobContext, Settled, returned}
use rochallor_engine.Sdk.Callback.{
  Outcome, printed, http_error, acknowledged, refused, Attempt, permanent, deliver,
}
use rochallor_engine.Sdk.Kafka.{
  DispatchEvent, Record, Parsed, object, not_an_object, Effect, paused, commit, resumed, State,
  holds, outcome_for, Event, assigned, revoked, batch, turn, delivery, commit_settled, run, started,
}
use rochallor_engine.Sdk.Kafka.Works.{Apart}
use rochallor_engine.Sdk.Kafka.Exclusive.{run-Apart}
use rochallor_engine.Sdk.Kafka.Commits.{IsJustified, run-IsJustified}

abbrev event : DispatchEvent
event = record {
  job_id = "job-1";
  dedup_id = "d-1";
  job_type = "charge";
  instance_id = "i1";
  retries_remaining = 2;
  job_payload = "";
}

abbrev decode : String → Option DispatchEvent
decode value = if value == "bytes" then some event else none

abbrev parse : String → Option (Parsed String)
parse payload = if payload == "[]" then some not_an_object else some (object payload)

abbrev echo : JobContext String ℕ → Settled String
echo ctx = returned (some ctx.variables)

abbrev outcome : DispatchEvent → Outcome
outcome = outcome_for parse "{}" printed (("charge", echo) ∷ [])

abbrev taken : Record
taken = record { offset = 41; value = some "bytes" }

abbrev busy : Attempt
busy = record {
  aborted_before = false;
  reply = refused (http_error 503);
  aborted_after = false;
  scale = 1000;
  draw = 400;
  aborted_wait = false;
}

abbrev accepted : Attempt
accepted = record busy { reply = acknowledged }

-- The record is delivered at the second attempt and committed.
abbrev events : List Event
events =
    assigned 3
    ∷ batch 3 (taken ∷ []) false true
    ∷ batch 3 (taken ∷ []) false true
    ∷ turn 0 10
    ∷ delivery 0 (busy ∷ accepted ∷ []) 20
    ∷ commit_settled 0 true
    ∷ []

abbrev after : State
after = run decode outcome "w1" events (started 600000)

log_after : after.log ≡ resumed 3 42 ∷ commit 3 42 ∷ Effect.acknowledged event ∷ paused 3 taken ∷ []
unfolding run started outcome_for has deliver permanent
log_after = refl

-- A partition that is revoked before the engine answers is not committed.
log_revoked :
    (run decode outcome "w1"
      (assigned 3
        ∷ batch 3 (taken ∷ []) false true
        ∷ turn 0 10
        ∷ revoked 3
        ∷ delivery 0 (accepted ∷ []) 20
        ∷ [])
      (started 600000)).log
    ≡ Effect.acknowledged event ∷ paused 3 taken ∷ []
unfolding run started outcome_for has deliver
log_revoked = refl

run-IsJustified_example : IsJustified decode (run decode outcome "w1" events (started 600000)).log
run-IsJustified_example = run-IsJustified decode outcome "w1" 600000 events

run-Apart_example :
    let s = run decode outcome "w1" events (started 600000) in
    Apart s.pending
    × All
        (λ w.
          holds (s.owners w.partition) w.owner ≡ true → holds (s.active w.partition) w.owner ≡ true)
        s.pending
run-Apart_example = run-Apart decode outcome "w1" 600000 events
