-- ===== src/Sdk/Runner/Tests.antt =====
-- The theorems about workflow-sdk-node/src/runner/runner.ts at concrete runs and jobs.
use rochallor_engine.Base.{
  ◌↔◌, ◌+◌, ◌≤◌, true, false, some, [], ◌∷◌, ◌++◌, ◌≡◌, ◌⊎◌, refl, All, length, map, arith,
}
use rochallor_engine.Sdk.Runner.{
  created, create, draining, State, polled, poll_failed, settled, aborted_now, drained, step, start,
  Reach, begin, next, run_events, time, held, delivered, dispatch,
}
use rochallor_engine.Sdk.Runner.Laws.{
  room, Reach-IsBounded, without_all, run_events-aborted, dispatch-delivered, IsCurrent, IsRetried,
}

default_settings :
    create (record {
      concurrency = some 64;
      lease_seconds = some 0;
      heartbeat = false;
      heartbeat_interval = 30000;
      shutdown_timeout_ms = some 5000;
    })
    ≡ created (record {
      concurrency = some 64;
      lease_seconds = some 0;
      heartbeat = false;
      heartbeat_interval = 30000;
      shutdown_timeout_ms = some 5000;
    })
unfolding create
default_settings = refl

-- Two jobs come with the first poll of a runner that may have three.
abbrev two_jobs : State
two_jobs = step 3 (polled 2) (start 3 false)

polls_one : two_jobs.polls ≡ 1 ∷ 3 ∷ []
unfolding step start
polls_one = refl

two_jobs-Reach : Reach 3 two_jobs
unfolding step start
two_jobs-Reach = next (polled 2) (begin false) (omega arith)

Reach-IsBounded_example :
    (length two_jobs.in_flight + room two_jobs.phase ≤ 3)
    × All (λ n. (1 ≤ n) × (n ≤ 3)) two_jobs.polls
    × (two_jobs.running ≡ false → (two_jobs.phase ≡ draining) × (two_jobs.in_flight ≡ []))
Reach-IsBounded_example = Reach-IsBounded two_jobs-Reach

both_settle : without_all (0 ∷ 1 ∷ []) two_jobs.in_flight ≡ []
unfolding step start
both_settle = refl

run_events-aborted_example :
    let t =
      run_events 3
        (aborted_now ∷ poll_failed ∷ (map settled (0 ∷ 1 ∷ []) ++ drained ∷ []))
        two_jobs in
    (t.running ≡ false) × (t.in_flight ≡ []) × (t.polls ≡ two_jobs.polls)
run_events-aborted_example = run_events-aborted 3 (0 ∷ 1 ∷ []) two_jobs both_settle

one_attempt : dispatch true false (time 90) 10 (held true, false) false 60 ≡ delivered true
unfolding dispatch
one_attempt = refl

dispatch-delivered_example :
    (dispatch true false (time 90) 10 (held true, false) false 60 ≡ delivered true) ↔ (
      (false ≡ false)
      × (false ≡ false)
      × IsCurrent (time 90) 10
      × ((true ≡ true) × (held true ≡ held true) ⊎ ((true ≡ false) × IsCurrent (time 90) 60))
      × IsRetried (time 90) true)
dispatch-delivered_example =
    dispatch-delivered true false (time 90) 10 (held true) false false 60 true
