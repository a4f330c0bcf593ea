-- ===== src/Sdk/Kafka/Exclusive.antt =====
-- One record at a time: no two works run for one owner of a partition.
use rochallor_engine.Base.{
  All-weaken, ℕ, suc, ◌<◌, String, Bool, true, false, Option, none, some, List, [], ◌∷◌, ◌&&◌, ◌||◌,
  not, ◌≡◌, arith, All, get_elem?, branch, Option-cases, inl, inr, is_empty,
}
use rochallor_engine.Sdk.Dedup.{has, close}
use rochallor_engine.Sdk.Callback.{Outcome, Attempt, Ending, delivered, still_pending}
use rochallor_engine.Sdk.Kafka.{
  DispatchEvent, Record, Stage, scheduled, delivering, committing, Work, State, holds, remove,
  with_stage, is_aborted, assign, revoke, take_record, each_batch, finish, count_error,
  submit_commit, end_commit, end_delivery, marked, begin_dispatch, begin_work, settle, Event,
  assigned, revoked, batch, turn, delivery, commit_settled, stop, close_cache, continue_turn,
  continue_delivery, continue_commit, step, run, started,
}
use rochallor_engine.Sdk.Kafka.Works.{
  Apart, at-keeps, All-zip, All-get_elem?, All-remove, All-with_stage, Apart-remove,
  Apart-with_stage, Apart-removed,
}

-- A work of the present owner of a partition is the active one, and owners are numbered.
abbrev IsActive : (ℕ → Option ℕ) → (ℕ → Option ℕ) → ℕ → Work → Type 0
IsActive owners active next w =
    (w.owner < next)
    × (holds (owners w.partition) w.owner ≡ true → holds (active w.partition) w.owner ≡ true)

record Inv (s : State) : Type 0 where
  below : (p o : ℕ) → s.owners p ≡ some o → o < s.next_owner
  works : All (IsActive s.owners s.active s.next_owner) s.pending
  apart : Apart s.pending

module _ {s : State} (inv : Inv s) where
  assign-Inv : (p : ℕ) → Inv (assign p s)
  unfolding assign
  assign-Inv p = elim (Option-cases (s.owners p)) [
    | inr (o, e) ↦ rw (e, assign) inv
    | inl e ↦
        rw (e, assign)
          (record {
            below = λ q o h. ground (arith, inv.below q o);
            works = All-weaken (λ w h. ground arith) s.pending inv.works;
            apart = inv.apart;
          })
  ]

  revoke-Inv : (p : ℕ) → Inv (revoke p s)
  unfolding revoke
  revoke-Inv p = elim (Option-cases (s.owners p)) [
    | inl e ↦ rw (e, revoke) inv
    | inr (o, e) ↦
        rw (e, revoke)
          (record {
            below = λ q o' h. ground (arith, inv.below q o');
            works = All-weaken (λ w h. ground arith) s.pending inv.works;
            apart = inv.apart;
          })
  ]

  take_record-Inv :
      (p owner : ℕ) (r : Record)
      → s.owners p ≡ some owner
      → holds (s.active p) owner ≡ false
      → Inv (take_record p owner r s)
  take_record-Inv p owner r e idle = record {
    below = inv.below;
    works = (
      (inv.below p owner e, λ h. ground arith),
      All-weaken (λ w h. ground arith) s.pending inv.works,
    );
    apart = (All-weaken (λ w h. ground arith) s.pending inv.works, inv.apart);
  }

  finish-Inv : (i : ℕ) (w : Work) → get_elem? s.pending i ≡ some w → Inv (finish i w s)
  unfolding finish
  finish-Inv i w e = record {
    below = inv.below;
    works =
        All-zip (λ v h apart. ground arith) (remove i s.pending)
          (All-remove _ i s.pending inv.works) (Apart-removed i s.pending w e inv.apart);
    apart = Apart-remove i s.pending inv.apart;
  }

each_batch-Inv :
    {s : State} (p : ℕ) (messages : List Record) (stale running : Bool)
    → Inv s
    → Inv (each_batch p messages stale running s)
unfolding each_batch
each_batch-Inv p [] stale running inv = inv
each_batch-Inv {s} p (r ∷ messages) stale running inv = elim (Option-cases (s.owners p)) [
  | inl e ↦ rw (e, each_batch) inv
  | inr (owner, e) ↦
      rw (e, each_batch)
        (branch Inv (s.stopped || stale || not running) (λ _. inv)
          λ _.
            branch Inv (holds (s.active p) owner) (λ _. inv)
              λ idle. take_record-Inv inv p owner r e idle)
]

module _ {s : State} (inv : Inv s) (i : ℕ) (w : Work) (e : get_elem? s.pending i ≡ some w) where
  with_stage-works :
      (stage : Stage) → All (IsActive s.owners s.active s.next_owner) (with_stage stage i s.pending)
  with_stage-works stage =
      All-with_stage (IsActive s.owners s.active s.next_owner) stage i s.pending w e
        (All-get_elem? (IsActive s.owners s.active s.next_owner) i s.pending w e inv.works)
        inv.works

  submit_commit-Inv : Inv (submit_commit i w s)
  unfolding submit_commit
  submit_commit-Inv =
      branch Inv (is_aborted s w) (λ _. finish-Inv inv i w e)
        λ _.
          branch Inv (not (holds (s.owners w.partition) w.owner)) (λ _. finish-Inv inv i w e)
            λ _. record {
              below = inv.below;
              works = with_stage-works (committing (suc w.record_taken.offset));
              apart =
                  Apart-with_stage (committing (suc w.record_taken.offset)) i s.pending inv.apart;
            }

  -- Changes of the other fields.
  end_commit-Inv : (offset : ℕ) (succeeded : Bool) → Inv (end_commit i w offset succeeded s)
  unfolding end_commit
  end_commit-Inv offset succeeded =
      branch Inv (not succeeded || is_aborted s w || not (holds (s.owners w.partition) w.owner))
        (λ _. finish-Inv (record { below = inv.below; works = inv.works; apart = inv.apart }) i w e)
        λ _. finish-Inv (record { below = inv.below; works = inv.works; apart = inv.apart }) i w e

  begin-delivery-Inv :
      (event : DispatchEvent)
      → Inv (record s { pending = with_stage (delivering event) i s.pending })
  begin-delivery-Inv event = record {
    below = inv.below;
    works = with_stage-works (delivering event);
    apart = Apart-with_stage (delivering event) i s.pending inv.apart;
  }

count_error-Inv : {s : State} → Inv s → Inv (count_error s)
count_error-Inv inv = record { below = inv.below; works = inv.works; apart = inv.apart }

continue_commit-Inv :
    {s : State} (i : ℕ) (w : Work) (succeeded : Bool) (stage : Stage)
    → get_elem? s.pending i ≡ some w
    → Inv s
    → Inv (continue_commit i w succeeded stage s)
unfolding continue_commit
continue_commit-Inv i w succeeded (committing offset) e inv =
    end_commit-Inv inv i w e offset succeeded
continue_commit-Inv i w succeeded _ e inv = inv

end_delivery-Inv :
    {s : State} (i : ℕ) (w : Work) (event : DispatchEvent) (now : ℕ)
    → get_elem? s.pending i ≡ some w
    → Inv s
    → Inv (end_delivery i w event now s)
unfolding end_delivery
end_delivery-Inv {s} i w event now e inv =
    branch Inv (is_aborted s w)
      (λ _. finish-Inv (record { below = inv.below; works = inv.works; apart = inv.apart }) i w e)
      λ _.
        submit_commit-Inv {s = marked event now s}
          (record { below = inv.below; works = inv.works; apart = inv.apart }) i w e

settle-Inv :
    {s : State} (ending : Ending) (i : ℕ) (w : Work) (event : DispatchEvent) (now : ℕ)
    → get_elem? s.pending i ≡ some w
    → Inv s
    → Inv (settle ending i w event now s)
unfolding settle
settle-Inv delivered i w event now e inv = end_delivery-Inv i w event now e inv
settle-Inv still_pending i w event now e inv = inv
settle-Inv _ i w event now e inv = finish-Inv inv i w e

begin_dispatch-Inv :
    {s : State} (i : ℕ) (w : Work) (event : DispatchEvent) (now : ℕ)
    → get_elem? s.pending i ≡ some w
    → Inv s
    → Inv (begin_dispatch i w event now s)
unfolding begin_dispatch
begin_dispatch-Inv {s} i w event now e inv =
    branch Inv (is_empty event.job_id) (λ _. finish-Inv (count_error-Inv inv) i w e)
      λ _.
        branch Inv (not (is_empty event.dedup_id) && has s.dedup now event.dedup_id)
          (λ _. submit_commit-Inv inv i w e) (λ _. begin-delivery-Inv inv i w e event)

module _ (decode : String → Option DispatchEvent) (outcome : DispatchEvent → Outcome)
    (worker_id : String) where
  begin_work-Inv :
      {s : State} (i : ℕ) (w : Work) (now : ℕ)
      → get_elem? s.pending i ≡ some w
      → Inv s
      → Inv (begin_work decode outcome worker_id i w now s)
  unfolding begin_work
  begin_work-Inv {s} i w now e inv =
      branch Inv (is_aborted s w) (λ _. finish-Inv inv i w e) λ _. read w.record_taken.value
    where
      decoded :
          (o : Option DispatchEvent)
          → Inv (elim o [
            | none ↦ finish i w (count_error s)
            | some event ↦ begin_dispatch i w event now s
          ])
      decoded none = finish-Inv (count_error-Inv inv) i w e
      decoded (some event) = begin_dispatch-Inv i w event now e inv

      read :
          (o : Option String)
          → Inv (elim o [
            | none ↦ finish i w (count_error s)
            | some value ↦ elim (decode value) [
              | none ↦ finish i w (count_error s)
              | some event ↦ begin_dispatch i w event now s
            ]
          ])
      read none = finish-Inv (count_error-Inv inv) i w e
      read (some value) = decoded (decode value)

  continue_turn-Inv :
      {s : State} (i : ℕ) (w : Work) (now : ℕ) (stage : Stage)
      → get_elem? s.pending i ≡ some w
      → Inv s
      → Inv (continue_turn decode outcome worker_id i w now stage s)
  unfolding continue_turn
  continue_turn-Inv i w now scheduled e inv = begin_work-Inv i w now e inv
  continue_turn-Inv i w now _ e inv = inv

  continue_delivery-Inv :
      {s : State} (i : ℕ) (w : Work) (attempts : List Attempt) (now : ℕ) (stage : Stage)
      → get_elem? s.pending i ≡ some w
      → Inv s
      → Inv (continue_delivery decode outcome worker_id i w attempts now stage s)
  unfolding continue_delivery
  continue_delivery-Inv i w attempts now (delivering event) e inv = settle-Inv _ i w event now e inv
  continue_delivery-Inv i w attempts now _ e inv = inv

  step-Inv : {s : State} (event : Event) → Inv s → Inv (step decode outcome worker_id event s)
  unfolding step
  step-Inv (assigned p) inv = assign-Inv inv p
  step-Inv (revoked p) inv = revoke-Inv inv p
  step-Inv (batch p messages stale running) inv = each_batch-Inv p messages stale running inv
  step-Inv (turn i now) inv = at-keeps Inv i _ inv λ w e. continue_turn-Inv i w now w.stage e inv
  step-Inv (delivery i attempts now) inv =
      at-keeps Inv i _ inv λ w e. continue_delivery-Inv i w attempts now w.stage e inv
  step-Inv (commit_settled i succeeded) inv =
      at-keeps Inv i _ inv λ w e. continue_commit-Inv i w succeeded w.stage e inv
  step-Inv stop inv = record { below = inv.below; works = inv.works; apart = inv.apart }
  step-Inv {s} close_cache inv = closed s.pending
    where
      closed :
          (ws : List Work) → Inv (elim ws [ [] ↦ record s { dedup = close s.dedup } | _ ∷ _ ↦ s ])
      closed [] = record { below = inv.below; works = inv.works; apart = inv.apart }
      closed (w ∷ ws) = inv

  run-Inv : (events : List Event) {s : State} → Inv s → Inv (run decode outcome worker_id events s)
  unfolding run
  run-Inv [] inv = inv
  run-Inv (event ∷ events) {s} inv =
      run-Inv events {s = step decode outcome worker_id event s} (step-Inv event inv)

  started-Inv : (window : ℕ) → Inv (started window)
  unfolding started
  started-Inv window = record { below = λ p o h. cc; works = tt; apart = tt }

  -- Whatever the Kafka client calls and in whatever order the awaits end: the works that run are
  -- for pairwise different owners or partitions, and if the present owner of a partition has one,
  -- the partition is marked as active for it, so that no second record is taken.
  pub run-Apart :
      (window : ℕ) (events : List Event)
      → let s = run decode outcome worker_id events (started window) in
        Apart s.pending
        × All
            (λ w.
              holds (s.owners w.partition) w.owner ≡ true
              → holds (s.active w.partition) w.owner ≡ true)
            s.pending
  run-Apart window events =
      let inv = run-Inv events (started-Inv window) in
      (inv.apart, All-weaken (λ w h. h.1) _ inv.works)
