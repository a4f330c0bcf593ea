-- ===== src/Sdk/Tests.antt =====
-- The theorems about workflow-sdk-node/src at concrete handlers, attempts and times.
use rochallor_engine.Base.{
  ℕ, suc, ◌+◌, ◌*◌, ◌/◌, ◌≤◌, String, true, false, some, [], ◌∷◌, ◌≡◌, refl, arith, All, length,
  ltb,
}
use rochallor_engine.Sdk.Backoff.{base_delay, delay}
use rochallor_engine.Sdk.Backoff.Laws.{delay_bounds}
use rochallor_engine.Sdk.Dedup.{Cache, seen_recently}
use rochallor_engine.Sdk.Dedup.Laws.{seen_recently_again}
use rochallor_engine.Sdk.Registry.{Job, Handler, returned, register}
use rochallor_engine.Sdk.Callback.{
  complete, http_error, permanent, acknowledged, refused, Attempt, Call, complete_job, call_of,
  delivered, Run, deliver_loop, Metrics, deliver,
}
use rochallor_engine.Sdk.Callback.Laws.{
  IsTransient, rejections_of, still_counted, deliver-counts, deliver_loop-transient,
}

delay_bounds_example :
    ((8 * base_delay 3 + 5) / 10 ≤ delay 3 1000 250)
    × (delay 3 1000 250 ≤ (12 * base_delay 3 + 5) / 10)
    × (delay 3 1000 250 ≤ 30000)
delay_bounds_example = delay_bounds 3 1000 250 (omega arith) (omega arith)

abbrev seen_once : Cache
seen_once = record { seen_at = ("job-1", 5000) ∷ []; window_ms = 600000 }

unseen : (seen_recently seen_once 6000 "job-2").1 ≡ false
unfolding seen_recently
unseen = refl

seen_recently_again_example :
    (seen_recently (seen_recently seen_once 6000 "job-2").0 7000 "job-2").1
    ≡ ltb 7000 (6000 + 600000)
seen_recently_again_example = seen_recently_again seen_once 6000 7000 "job-2" refl unseen

-- A handler that returns its variables, which are a text.
abbrev echo : Handler String ℕ
echo ctx = returned (some ctx.variables)

abbrev job : Job String
job = record {
  id = "job-1";
  job_type = "charge-card";
  instance_id = "inst-1";
  retries_remaining = 3;
  variables = some "{\"amount\":12}";
}

registered : register "charge-card" echo [] ≡ some (("charge-card", echo) ∷ [])
unfolding register
registered = refl

-- An attempt that the engine answers with 503, and one that it acknowledges.
abbrev busy : Attempt
busy = record {
  aborted_before = false;
  reply = refused (http_error 503);
  aborted_after = false;
  scale = 1000;
  draw = 400;
  aborted_wait = false;
}

abbrev accepted : Attempt
accepted = record busy { reply = acknowledged }

abbrev call : Call
call = complete_job "w1" "job-1" "{}"

abbrev sent : Run
sent = deliver_loop (call_of "w1" "job-1" (complete "{}")) true 1 (busy ∷ accepted ∷ [])

abbrev counted : Metrics
counted =
    (deliver "w1" "job-1" (complete "{}") true (busy ∷ accepted ∷ [])
      (record { retries = 4; rejected = 0; pending = 1 })).0

deliver-result :
    deliver "w1" "job-1"
      (complete "{}")
      true
      (busy ∷ accepted ∷ [])
      (record { retries = 4; rejected = 0; pending = 1 })
    ≡ (counted, sent)
unfolding deliver
deliver-result = refl

deliver-counts_example :
    All (λ c. c ≡ call_of "w1" "job-1" (complete "{}")) sent.calls
    × (counted.retries ≡ 4 + length sent.waits)
    × (length sent.waits ≤ length sent.calls)
    × (length sent.calls ≤ suc (length sent.waits))
    × (counted.rejected ≡ 0 + rejections_of sent.ending)
    × (counted.pending ≡ 1 + still_counted sent.ending)
deliver-counts_example =
    deliver-counts "w1" "job-1" (complete "{}") true (busy ∷ accepted ∷ [])
      (record { retries = 4; rejected = 0; pending = 1 }) counted sent deliver-result

busy-IsTransient : All IsTransient (busy ∷ [])
unfolding permanent
busy-IsTransient = ((refl, refl, refl, (http_error 503, refl, refl)), tt)

deliver_loop-transient_example :
    ((deliver_loop call true 1 (busy ∷ accepted ∷ [])).ending ≡ delivered)
    × ((deliver_loop call true 1 (busy ∷ accepted ∷ [])).retries ≡ 1)
    × ((deliver_loop call true 1 (busy ∷ accepted ∷ [])).rejections ≡ 0)
deliver_loop-transient_example =
    deliver_loop-transient call 1 (busy ∷ []) accepted [] busy-IsTransient refl refl refl
