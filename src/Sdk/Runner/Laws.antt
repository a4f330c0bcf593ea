-- ===== src/Sdk/Runner/Laws.antt =====
-- What the poll loop and the dispatch of a job guarantee.
use mathlib.Core.Path.{subst}
use rochallor_engine.Base.{
  ℕ, zero, suc, ◌+◌, ◌≤◌, ◌<◌, ◌↔◌, Bool, true, false, List, [], ◌∷◌, ◌++◌, map, ap, ◌≡◌, refl,
  arith, All, leb, length, branch, sym, ◌∙◌, ◌⊎◌, inl, inr, Bool-cases,
}
use rochallor_engine.Sdk.Runner.{
  Phase, waiting_slot, polling, waiting_interval, draining, State, Event, polled, poll_failed,
  interval_over, settled, aborted_now, drained, add_jobs, without, wait_interval, on_poll_failed,
  on_abort, on_drained, Allowed, loop_head, on_polled, on_interval, on_settled, step, entered,
  start, Reach, begin, next, run_events, Deadline, undefined, not_a_time, time, is_over,
  has_deadline, Lease, held, delivered, after_handler, with_lease, dispatch,
}

-- The jobs that a poll that is under way may still bring.
abbrev pub room : Phase → ℕ
room (polling n) = n
room _ = 0

abbrev is_draining : Phase → Bool
is_draining draining = true
is_draining _ = false

record Inv (c : ℕ) (s : State) : Type 0 where
  bounded : length s.in_flight + room s.phase ≤ c
  polls : All (λ n. (1 ≤ n) × (n ≤ c)) s.polls
  quiet : s.running ≡ false → (is_draining s.phase ≡ true) × (s.in_flight ≡ [])

length-without : (promise : ℕ) (ps : List ℕ) → length (without promise ps) ≤ length ps
length-without promise [] = omega arith
length-without promise (p ∷ ps) = ground (arith, length-without promise ps)

add_jobs-fields :
    (n : ℕ) (s : State)
    → (length (add_jobs n s).in_flight ≡ n + length s.in_flight)
      × ((add_jobs n s).polls ≡ s.polls)
      × ((add_jobs n s).running ≡ s.running)
unfolding add_jobs
add_jobs-fields zero s = (omega arith, refl, refl)
add_jobs-fields (suc n) s =
    let (counted, polls, on) =
      add_jobs-fields n (record s {
        in_flight = s.next_promise ∷ s.in_flight;
        next_promise = suc s.next_promise;
      }) in
    (omega (arith, counted), polls, on)

module _ {c : ℕ} where
  -- What the head of the loop needs: a running loop with no more jobs than it may have.
  loop_head-Inv :
      (s : State)
      → length s.in_flight ≤ c
      → All (λ n. (1 ≤ n) × (n ≤ c)) s.polls
      → s.running ≡ true
      → Inv c (loop_head c s)
  unfolding loop_head
  loop_head-Inv s few polls on =
      branch (Inv c) s.aborted
        (λ _. record { bounded = omega arith; polls = polls; quiet = λ off. cc })
        λ _.
          branch (Inv c) (leb c (length s.in_flight))
            (λ _. record { bounded = omega arith; polls = polls; quiet = λ off. cc })
            λ free. record {
              bounded = ground arith;
              polls = ((ground arith, omega arith), polls);
              quiet = λ off. cc;
            }

  on : {s : State} → Inv c s → is_draining s.phase ≡ false → s.running ≡ true
  on {s} inv h = elim (Bool-cases s.running) [
    | inl yes_on ↦ yes_on
    | inr off ↦ absurd (clash (is_draining s.phase) h (inv.quiet off).0)
  ]
    where
      clash : (b : Bool) → b ≡ false → b ≡ true → ⊥
      clash true p q = cc
      clash false p q = cc

  wait_interval-Inv :
      (s : State)
      → length s.in_flight ≤ c
      → All (λ n. (1 ≤ n) × (n ≤ c)) s.polls
      → s.running ≡ true
      → Inv c (wait_interval s)
  wait_interval-Inv s few polls running = record {
    bounded = ground arith;
    polls = polls;
    quiet = λ off. cc;
  }

  on_polled-Inv :
      (phase : Phase) (n : ℕ) {s : State}
      → s.phase ≡ phase
      → Allowed (polled n) phase
      → Inv c s
      → Inv c (on_polled c phase n s)
  unfolding on_polled
  on_polled-Inv (polling m) zero {s} e h inv =
      wait_interval-Inv s (ground (arith, inv.bounded)) inv.polls (on inv (rw e refl))
  on_polled-Inv (polling m) (suc n) {s} e h inv =
      let (counted, polls, running) = add_jobs-fields (suc n) s in
      loop_head-Inv (add_jobs (suc n) s)
        (omega (arith, counted, subst (λ p. length s.in_flight + room p ≤ c) e inv.bounded))
        (subst (All (λ n. (1 ≤ n) × (n ≤ c))) (sym polls) inv.polls) (running ∙ on inv (rw e refl))
  on_polled-Inv waiting_slot n e h inv = inv
  on_polled-Inv waiting_interval n e h inv = inv
  on_polled-Inv draining n e h inv = inv

  on_poll_failed-Inv :
      (phase : Phase) {s : State} → s.phase ≡ phase → Inv c s → Inv c (on_poll_failed phase s)
  unfolding on_poll_failed
  on_poll_failed-Inv (polling m) {s} e inv =
      wait_interval-Inv s (omega (arith, inv.bounded)) inv.polls (on inv (rw e refl))
  on_poll_failed-Inv waiting_slot e inv = inv
  on_poll_failed-Inv waiting_interval e inv = inv
  on_poll_failed-Inv draining e inv = inv

  on_interval-Inv :
      (phase : Phase) {s : State} → s.phase ≡ phase → Inv c s → Inv c (on_interval c phase s)
  unfolding on_interval
  on_interval-Inv waiting_interval {s} e inv =
      loop_head-Inv s (omega (arith, inv.bounded)) inv.polls (on inv (rw e refl))
  on_interval-Inv waiting_slot e inv = inv
  on_interval-Inv (polling m) e inv = inv
  on_interval-Inv draining e inv = inv

  shrink-Inv :
      (promise : ℕ) {s : State}
      → Inv c s
      → Inv c (record s { in_flight = without promise s.in_flight })
  shrink-Inv promise {s} inv = record {
    bounded = omega (arith, inv.bounded, length-without promise s.in_flight);
    polls = inv.polls;
    quiet = λ off. ((inv.quiet off).0, rw ((inv.quiet off).1) refl);
  }

  on_settled-Inv :
      (phase : Phase) {s : State} → s.phase ≡ phase → Inv c s → Inv c (on_settled c phase s)
  unfolding on_settled
  on_settled-Inv waiting_slot {s} e inv =
      loop_head-Inv s (omega (arith, inv.bounded)) inv.polls (on inv (rw e refl))
  on_settled-Inv waiting_interval e inv = inv
  on_settled-Inv (polling m) e inv = inv
  on_settled-Inv draining e inv = inv

  drain-Inv : {s : State} → Inv c s → Inv c (record s { phase = draining; aborted = true })
  drain-Inv {s} inv = record {
    bounded = omega (arith, inv.bounded);
    polls = inv.polls;
    quiet = λ off. (refl, (inv.quiet off).1);
  }

  on_abort-Inv :
      (phase : Phase) {s : State}
      → s.phase ≡ phase
      → Inv c s
      → Inv c (on_abort phase (record s { aborted = true }))
  unfolding on_abort
  on_abort-Inv (polling m) e inv = record {
    bounded = inv.bounded;
    polls = inv.polls;
    quiet = inv.quiet;
  }
  on_abort-Inv waiting_slot e inv = drain-Inv inv
  on_abort-Inv waiting_interval e inv = drain-Inv inv
  on_abort-Inv draining e inv = drain-Inv inv

  on_drained-Inv :
      (phase : Phase) (ps : List ℕ) {s : State}
      → s.phase ≡ phase
      → s.in_flight ≡ ps
      → Inv c s
      → Inv c (on_drained phase ps s)
  unfolding on_drained
  on_drained-Inv draining [] {s} e none_left inv = record {
    bounded = inv.bounded;
    polls = inv.polls;
    quiet = λ off. (rw e refl, none_left);
  }
  on_drained-Inv draining (p ∷ ps) e left inv = inv
  on_drained-Inv waiting_slot ps e left inv = inv
  on_drained-Inv waiting_interval ps e left inv = inv
  on_drained-Inv (polling m) ps e left inv = inv

  step-Inv : (event : Event) {s : State} → Allowed event s.phase → Inv c s → Inv c (step c event s)
  unfolding step
  step-Inv (polled n) {s} h inv = on_polled-Inv s.phase n refl h inv
  step-Inv poll_failed {s} h inv = on_poll_failed-Inv s.phase refl inv
  step-Inv interval_over {s} h inv = on_interval-Inv s.phase refl inv
  step-Inv (settled promise) {s} h inv =
      on_settled-Inv s.phase {s = record s { in_flight = without promise s.in_flight }} refl
        (shrink-Inv promise inv)
  step-Inv aborted_now {s} h inv = on_abort-Inv s.phase refl inv
  step-Inv drained {s} h inv = on_drained-Inv s.phase s.in_flight refl refl inv

  start-Inv : (aborted : Bool) → Inv c (start c aborted)
  unfolding start
  start-Inv aborted = loop_head-Inv (entered aborted) (omega arith) tt refl

  Reach-Inv : {s : State} → Reach c s → Inv c s
  Reach-Inv (begin aborted) = start-Inv aborted
  Reach-Inv (next {s} event r h) = step-Inv event h (Reach-Inv r)

  -- If the engine returns no more jobs than a poll asks for, then in every state of a run the jobs
  -- in flight and those that the poll under way may bring are at most `concurrency`; each poll
  -- asks for at least one job and at most `concurrency`; and `running` is cleared, so that `run`
  -- may be called again, only when the loop is left and nothing is in flight.
  pub Reach-IsBounded :
      {s : State}
      → Reach c s
      → (length s.in_flight + room s.phase ≤ c)
        × All (λ n. (1 ≤ n) × (n ≤ c)) s.polls
        × (s.running ≡ false → (s.phase ≡ draining) × (s.in_flight ≡ []))
  Reach-IsBounded {s} r =
      let inv = Reach-Inv r in
      (inv.bounded, inv.polls, λ off. (left s.phase (inv.quiet off).0, (inv.quiet off).1))
    where
      left : (phase : Phase) → is_draining phase ≡ true → phase ≡ draining
      left draining h = refl
      left waiting_slot h = cc
      left waiting_interval h = cc
      left (polling n) h = cc

-- The promises that are left when these have settled, one after the other.
abbrev pub without_all : List ℕ → List ℕ → List ℕ
without_all [] ps = ps
without_all (p ∷ settled_ones) ps = without_all settled_ones (without p ps)

settle_all :
    (c : ℕ) (order : List ℕ) (s : State)
    → s.phase ≡ draining
    → without_all order s.in_flight ≡ []
    → let t = run_events c (map settled order ++ drained ∷ []) s in
      (t.running ≡ false) × (t.in_flight ≡ []) × (t.polls ≡ s.polls)
unfolding run_events step on_settled on_drained
settle_all c [] s e h = rw (e, h) (refl, refl, refl)
settle_all c (p ∷ order) s e h =
    subst
      (λ (u : State).
        let t = run_events c (map settled order ++ drained ∷ []) u in
        (t.running ≡ false) × (t.in_flight ≡ []) × (t.polls ≡ s.polls))
      (ap (λ phase. on_settled c phase (record s { in_flight = without p s.in_flight })) (sym e))
      (settle_all c order (record s { in_flight = without p s.in_flight }) e h)

draining-after_abort :
    (c : ℕ) (phase : Phase) (s : State)
    → s.phase ≡ phase
    → let t = run_events c (aborted_now ∷ poll_failed ∷ []) s in
      (t.phase ≡ draining) × (t.in_flight ≡ s.in_flight) × (t.polls ≡ s.polls)
unfolding run_events step on_abort on_poll_failed
draining-after_abort c (polling n) s e = rw (e) (refl, refl, refl)
draining-after_abort c waiting_slot s e = rw (e) (refl, refl, refl)
draining-after_abort c waiting_interval s e = rw (e) (refl, refl, refl)
draining-after_abort c draining s e = rw (e) (refl, refl, refl)

-- An aborted run ends from whatever state it is in: when the poll under way has failed, if there is
-- one, and all promises in flight have settled, in whatever order, `running` is cleared, nothing is
-- in flight, and no further poll was sent.
pub run_events-aborted :
    (c : ℕ) (order : List ℕ) (s : State)
    → without_all order s.in_flight ≡ []
    → let t = run_events c (aborted_now ∷ poll_failed ∷ (map settled order ++ drained ∷ [])) s in
      (t.running ≡ false) × (t.in_flight ≡ []) × (t.polls ≡ s.polls)
unfolding run_events
run_events-aborted c order s h =
    let (left, same, polls) = draining-after_abort c s.phase s refl in
    let u = run_events c (aborted_now ∷ poll_failed ∷ []) s in
    let (off, empty, kept) = settle_all c order u left (ap (without_all order) same ∙ h) in
    (off, empty, kept ∙ polls)

-- The lock of a job has not expired: a job without metadata never expires, one whose deadline is no
-- time always has.
abbrev pub IsCurrent : Deadline → ℕ → Type 0
IsCurrent undefined now = Unit
IsCurrent not_a_time now = ⊥
IsCurrent (time t) now = now < t

-- A delivery is repeated for a job with lease metadata only.
abbrev pub IsRetried : Deadline → Bool → Type 0
IsRetried undefined retry = retry ≡ false
IsRetried not_a_time retry = retry ≡ true
IsRetried (time t) retry = retry ≡ true

is_over_iff :
    (deadline : Deadline) (now : ℕ) → (is_over deadline now ≡ false) ↔ IsCurrent deadline now
is_over_iff undefined now = (λ _. tt, λ _. refl)
is_over_iff not_a_time now = (λ e. cc, λ h. absurd h)
is_over_iff (time t) now = (λ e. ground arith, λ h. ground arith)

has_deadline_iff :
    (deadline : Deadline) (retry : Bool)
    → (retry ≡ has_deadline deadline) ↔ IsRetried deadline retry
has_deadline_iff undefined retry = (λ e. e, λ h. h)
has_deadline_iff not_a_time retry = (λ e. e, λ h. h)
has_deadline_iff (time t) retry = (λ e. e, λ h. h)

-- A result is delivered exactly if the signal was not aborted before the handler was started nor
-- when it ended, the lock of the job had not expired before, and at the end the heartbeat held a
-- valid lease or, without a heartbeat, the lock had not expired; and the delivery is retried exactly
-- if the job has lease metadata.
pub dispatch-delivered :
    (heartbeat aborted : Bool) (deadline : Deadline) (now : ℕ) (lease : Lease)
    (aborted_then owned_aborted : Bool) (end_time : ℕ) (retry : Bool)
    → (dispatch heartbeat aborted deadline now (lease, aborted_then) owned_aborted end_time
        ≡ delivered retry)
      ↔ ((aborted ≡ false)
          × (owned_aborted ≡ false)
          × IsCurrent deadline now
          × ((heartbeat ≡ true) × (lease ≡ held true)
              ⊎ ((heartbeat ≡ false) × IsCurrent deadline end_time))
          × IsRetried deadline retry)
unfolding dispatch with_lease after_handler
dispatch-delivered heartbeat aborted deadline now lease aborted_then owned_aborted end_time retry =
    let before = is_over_iff deadline now in
    let after = is_over_iff deadline end_time in
    let retried = has_deadline_iff deadline retry in
    (
      λ h. (
        ground arith,
        ground arith,
        before.0 (ground arith),
        elim (Bool-cases heartbeat) [
          | inl with_heartbeat ↦ inl (with_heartbeat, ground arith)
          | inr without_heartbeat ↦ inr (without_heartbeat, after.0 (ground arith))
        ],
        retried.0 (ground arith),
      ),
      λ h.
          let open_before = before.1 h.2 in
          let same = retried.1 h.4 in
          elim h.3 [
            | inl held_lease ↦
                rw (h.0, open_before, held_lease.0, held_lease.1, h.1) (ap delivered (sym same))
            | inr open_after ↦
                let open_then = after.1 open_after.1 in
                rw (h.0, open_before, open_after.0, h.1, open_then) (ap delivered (sym same))
          ],
    )
