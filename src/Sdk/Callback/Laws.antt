-- ===== src/Sdk/Callback/Laws.antt =====
-- What the delivery of workflow-sdk-node/src/runner/callback.ts guarantees.
use mathlib.Core.Path.{subst}
use rochallor_engine.Base.{
  ℕ, suc, ◌+◌, ◌≤◌, ◌<◌, String, Bool, true, false, Option, some, List, [], ◌∷◌, ◌≡◌, refl, ap, ◌∙◌,
  ◌++◌, arith, All, ◌==◌, lookup-insert, length, if◌then◌else◌, Bool-cases, inl, inr,
}
use rochallor_engine.Sdk.Backoff.{delay}
use rochallor_engine.Sdk.Backoff.Laws.{delay_bounds}
use rochallor_engine.Sdk.Registry.{Job, Handler, Handlers, register, get, context_from}
use rochallor_engine.Sdk.Callback.{
  Printed, Outcome, outcome_of, execute, Failure, permanent, Reply, acknowledged, refused, Attempt,
  Call, call_of, Ending, delivered, rejected, still_pending, Run, stop, again, finish, handle,
  deliver_loop, Metrics, deliver,
}

-- Once a handler is registered, jobs of its type get its outcome, and all others what they got.
pub execute-register :
    {V S : Type 0} (empty : V) (stringify : V → Printed) (handlers handlers' : Handlers V S)
    (job_type : String) (handler : Handler V S) (job : Job V) (signal : Option S)
    → register job_type handler handlers ≡ some handlers'
    → execute empty stringify handlers' job signal ≡ (
        if job_type == job.job_type
        then outcome_of empty stringify (handler (context_from empty job signal))
        else execute empty stringify handlers job signal)
unfolding execute register get
execute-register empty stringify handlers handlers' job_type handler job signal e =
    ground (arith, lookup-insert job_type job.job_type handler handlers)

-- A random draw is a fraction between 0 and 1.
abbrev pub IsDraw : Attempt → Type 0
IsDraw a = (0 < a.scale) × (a.draw ≤ a.scale)

-- A round in which the call fails for the moment and nothing is aborted.
abbrev pub IsTransient : Attempt → Type 0
IsTransient a =
    (a.aborted_before ≡ false)
    × (a.aborted_after ≡ false)
    × (a.aborted_wait ≡ false)
    × ((failure : Failure) × (a.reply ≡ refused failure) × (permanent failure ≡ false))

-- The rejection that an ending counts, and the calls that it adds to the retried ones.
abbrev pub rejections_of : Ending → ℕ
rejections_of (rejected _) = 1
rejections_of _ = 0

-- What every run of the loop satisfies: it only ever repeats the one call, it waits once for each
-- retry, it sends the retried calls and at most one more, and it counts the rejection it ends with.
abbrev pub IsFaithful : Call → Run → Type 0
IsFaithful call run =
    All (λ c. c ≡ call) run.calls
    × (length run.waits ≡ run.retries)
    × (run.retries ≤ length run.calls)
    × (length run.calls ≤ suc run.retries)
    × (run.rejections ≡ rejections_of run.ending)

IsFaithful-again :
    (call : Call) (ms : ℕ) (aborted_wait : Bool) (later : Run)
    → IsFaithful call later
    → IsFaithful call (again call ms aborted_wait later)
IsFaithful-again call ms true later h = ((refl, tt), refl, omega arith, omega arith, refl)
IsFaithful-again call ms false later h =
    let (same, waited, least, most, counted) = h in
    ((refl, same), omega (arith, waited), omega (arith, least), omega (arith, most), counted)

IsFaithful-handle :
    (call : Call) (retry : Bool) (n : ℕ) (a : Attempt) (failure : Failure) (later : Run)
    → IsFaithful call later
    → IsFaithful call (handle call retry n a failure later)
unfolding handle
IsFaithful-handle call retry n a failure later h = elim (Bool-cases (permanent failure)) [
  | inl refusal ↦ rw refusal ((refl, tt), refl, omega arith, omega arith, refl)
  | inr transient ↦ elim (Bool-cases retry) [
    | inl repeats ↦
        rw (transient, repeats)
          (IsFaithful-again call (delay n a.scale a.draw) a.aborted_wait later h)
    | inr never ↦ rw (transient, never) ((refl, tt), refl, omega arith, omega arith, refl)
  ]
]

IsFaithful-reply :
    (call : Call) (retry : Bool) (n : ℕ) (a : Attempt) (reply : Reply) (later : Run)
    → IsFaithful call later
    → IsFaithful call (elim reply [
      | acknowledged ↦ stop (call ∷ []) 0 delivered
      | refused failure ↦ handle call retry n a failure later
    ])
IsFaithful-reply call retry n a acknowledged later h =
    ((refl, tt), refl, omega arith, omega arith, refl)
IsFaithful-reply call retry n a (refused failure) later h =
    IsFaithful-handle call retry n a failure later h

deliver_loop-IsFaithful :
    (call : Call) (retry : Bool) (n : ℕ) (attempts : List Attempt)
    → IsFaithful call (deliver_loop call retry n attempts)
unfolding deliver_loop
deliver_loop-IsFaithful call retry n [] = (tt, refl, omega arith, omega arith, refl)
deliver_loop-IsFaithful call retry n (a ∷ attempts) =
    let ih = deliver_loop-IsFaithful call retry (suc n) attempts in
    elim (Bool-cases a.aborted_before) [
      | inl early ↦ rw early (tt, refl, omega arith, omega arith, refl)
      | inr live ↦ elim (Bool-cases a.aborted_after) [
        | inl late ↦ rw (live, late) ((refl, tt), refl, omega arith, omega arith, refl)
        | inr on ↦ rw (live, on) (IsFaithful-reply call retry n a a.reply _ ih)
      ]
    ]

-- A delivery that still runs is counted as pending, any other is not.
abbrev pub still_counted : Ending → ℕ
still_counted still_pending = 1
still_counted _ = 0

finish_lem : (e : Ending) (n : ℕ) → finish e (suc n) ≡ n + still_counted e
finish_lem still_pending n = omega arith
finish_lem _ n = omega arith

-- Whatever the engine answers and whenever the signal is aborted: a delivery only repeats the one
-- call of its outcome, waits once for each retry, counts each retry, sends at most one call more
-- than it counts retries, counts a rejection exactly if it ends with one, and leaves the gauge of
-- the pending deliveries as it was once it has ended.
pub deliver-counts :
    (worker_id job_id : String) (outcome : Outcome) (retry : Bool) (attempts : List Attempt)
    (m m' : Metrics) (run : Run)
    → deliver worker_id job_id outcome retry attempts m ≡ (m', run)
    → All (λ c. c ≡ call_of worker_id job_id outcome) run.calls
      × (m'.retries ≡ m.retries + length run.waits)
      × (length run.waits ≤ length run.calls)
      × (length run.calls ≤ suc (length run.waits))
      × (m'.rejected ≡ m.rejected + rejections_of run.ending)
      × (m'.pending ≡ m.pending + still_counted run.ending)
unfolding deliver
deliver-counts worker_id job_id outcome retry attempts m m' run e =
    let call = call_of worker_id job_id outcome in
    let run' = deliver_loop call retry 1 attempts in
    let (same, waited, least, most, counted) = deliver_loop-IsFaithful call retry 1 attempts in
    subst
      (λ (r : Metrics × Run).
        All (λ c. c ≡ call) r.1.calls
        × (r.0.retries ≡ m.retries + length r.1.waits)
        × (length r.1.waits ≤ length r.1.calls)
        × (length r.1.calls ≤ suc (length r.1.waits))
        × (r.0.rejected ≡ m.rejected + rejections_of r.1.ending)
        × (r.0.pending ≡ m.pending + still_counted r.1.ending))
      e
      (
        same,
        omega (arith, waited),
        omega (arith, waited, least),
        omega (arith, waited, most),
        omega (arith, counted),
        finish_lem run'.ending m.pending,
      )

transient_round :
    (call : Call) (n : ℕ) (a : Attempt) (attempts : List Attempt)
    → IsTransient a
    → deliver_loop call true n (a ∷ attempts)
      ≡ again call (delay n a.scale a.draw) false (deliver_loop call true (suc n) attempts)
unfolding deliver_loop handle
transient_round call n a attempts (live, on, waits, (failure, reply, soft)) =
    rw (live, on, reply, soft, waits) refl

-- Failures for the moment, however many, do not lose an outcome: with retries on, an acknowledged
-- call behind them ends the delivery, and each of them is one retry.
pub deliver_loop-transient :
    (call : Call) (n : ℕ) (failures : List Attempt) (a : Attempt) (attempts : List Attempt)
    → All IsTransient failures
    → a.aborted_before ≡ false
    → a.aborted_after ≡ false
    → a.reply ≡ acknowledged
    → ((deliver_loop call true n (failures ++ a ∷ attempts)).ending ≡ delivered)
      × ((deliver_loop call true n (failures ++ a ∷ attempts)).retries ≡ length failures)
      × ((deliver_loop call true n (failures ++ a ∷ attempts)).rejections ≡ 0)
unfolding deliver_loop
deliver_loop-transient call n [] a attempts h live on reply =
    (rw (live, on, reply) refl, rw (live, on, reply) refl, rw (live, on, reply) refl)
deliver_loop-transient call n (f ∷ failures) a attempts h live on reply =
    let (ended, counted, kept) =
      deliver_loop-transient call (suc n) failures a attempts h.1 live on reply in
    let round = transient_round call n f (failures ++ a ∷ attempts) h.0 in
    (
      ap (λ (r : Run). r.ending) round ∙ ended,
      ap (λ (r : Run). r.retries) round ∙ ap suc counted,
      ap (λ (r : Run). r.rejections) round ∙ kept,
    )

-- With draws that are fractions, no delay between two calls is longer than 30 s.
pub deliver_loop-waits :
    (call : Call) (retry : Bool) (n : ℕ) (attempts : List Attempt)
    → All IsDraw attempts
    → All (λ ms. ms ≤ 30000) (deliver_loop call retry n attempts).waits
unfolding deliver_loop handle
deliver_loop-waits call retry n [] h = tt
deliver_loop-waits call retry n (a ∷ attempts) h =
    let ih = deliver_loop-waits call retry (suc n) attempts h.1 in
    let (_, _, top) = delay_bounds n a.scale a.draw h.0.0 h.0.1 in ground (arith, ih, top)
