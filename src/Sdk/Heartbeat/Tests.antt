-- ===== src/Sdk/Heartbeat/Tests.antt =====
-- The theorem about workflow-sdk-node/src/runner/heartbeat.ts at a renewal behind a failed call.
use rochallor_engine.Base.{◌≤◌, true, none, some, List, [], ◌∷◌, ◌≡◌, refl, All}
use rochallor_engine.Sdk.Callback.{http_error, permanent}
use rochallor_engine.Sdk.Heartbeat.{
  renewed, failed, Round, Run, lease_lost, expiry_timer, renew_loop,
}
use rochallor_engine.Sdk.Heartbeat.Laws.{Leads, lost_of, rejected_of, renew_loop-Leads}

-- A call that is answered at 9 s with an expiry at 39 s.
abbrev in_time : Round
in_time = record {
  aborted_before = none;
  called_at = 8900;
  renewal = renewed (some 39000);
  aborted_after = none;
  answered_at = 9000;
  scale = 1000;
  draw = 500;
  aborted_wait = none;
}

abbrev three_rounds : List Round
three_rounds =
    record in_time { renewal = failed (http_error 503); answered_at = 8000 }
    ∷ in_time
    ∷ record in_time { called_at = 39500; answered_at = 40000 }
    ∷ []

abbrev kept : Run
kept = renew_loop 10000 true three_rounds 0 30000

kept-lost : kept.ending ≡ lease_lost
unfolding renew_loop permanent
kept-lost = refl

renew_loop-Leads_example :
    let run = renew_loop 10000 true three_rounds 0 30000 in
    Leads 10000 30000 run.accepted run.expiry
    × (run.lost ≡ lost_of run.ending)
    × (run.rejected ≡ rejected_of run.ending)
    × All (λ t. (1 ≤ t) × (t ≤ 5000)) run.timeouts
    × All (λ w. 1 ≤ w) run.retry_waits
renew_loop-Leads_example = renew_loop-Leads 10000 true three_rounds 0 30000

-- A timer that fires during the wait has counted the lost lease.
timed_out :
    (renew_loop 10000 true (record in_time { aborted_wait = some expiry_timer } ∷ []) 0 30000).lost
    ≡ 1
unfolding renew_loop
timed_out = refl
