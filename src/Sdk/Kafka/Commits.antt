-- ===== src/Sdk/Kafka/Commits.antt =====
-- At least once: an offset is committed only behind an acknowledged record.
use mathlib.Core.Path.{subst}
use rochallor_engine.Base.{
  All-weaken, ℕ, suc, String, Bool, true, false, Option, none, some, List, [], ◌∷◌, ◌&&◌, ◌||◌, not,
  ◌≡◌, ◌⊎◌, refl, sym, ap, ◌∙◌, arith, All, get_elem?, branch, Bool-cases, Option-cases, inl, inr,
  is_empty, lookup, lookup-insert, ◌==◌, ==_iff,
}
use rochallor_engine.Sdk.Dedup.{Cache, is_recent, has, mark, close}
use rochallor_engine.Sdk.Callback.{Outcome, Attempt, Ending, delivered, still_pending}
use rochallor_engine.Sdk.Kafka.{
  DispatchEvent, Record, Stage, scheduled, delivering, committing, Work, Effect, paused,
  acknowledged, commit, resumed, State, holds, is_aborted, assign, revoke, take_record, each_batch,
  finish, count_error, submit_commit, end_commit, end_delivery, marked, commit_over, resume,
  begin_dispatch, begin_work, settle, Event, assigned, revoked, batch, turn, delivery,
  commit_settled, stop, close_cache, continue_turn, continue_delivery, continue_commit, step, run,
  started,
}
use rochallor_engine.Sdk.Kafka.Works.{at-keeps, All-get_elem?, All-remove, All-with_stage}

-- An effect is in the log.
abbrev pub In : Effect → List Effect → Type 0
In e [] = ⊥
In e (x ∷ log) = (x ≡ e) ⊎ In e log

-- The engine acknowledged an event with this deduplication id.
abbrev pub Answered : String → List Effect → Type 0
Answered id log = (event : DispatchEvent) × In (acknowledged event) log × (event.dedup_id ≡ id)

module _ (decode : String → Option DispatchEvent) where
  abbrev pub Decodes : Record → DispatchEvent → Type 0
  Decodes r event = (value : String) × (r.value ≡ some value) × (decode value ≡ some event)

  -- The engine acknowledged the event of the record, or an event with the same id before.
  abbrev pub Served : Record → List Effect → Type 0
  Served r log =
      (event : DispatchEvent) × Decodes r event
      × (In (acknowledged event) log
          ⊎ ((is_empty event.dedup_id ≡ false) × Answered event.dedup_id log))

  -- The record before the offset was taken from the partition, and is served.
  abbrev pub Backed : ℕ → ℕ → List Effect → Type 0
  Backed p offset log = (r : Record) × In (paused p r) log × (offset ≡ suc r.offset) × Served r log

  -- Each commit in the log is backed by what stands before it.
  abbrev pub IsJustified : List Effect → Type 0
  IsJustified [] = Unit
  IsJustified (commit p offset ∷ log) = Backed p offset log × IsJustified log
  IsJustified (_ ∷ log) = IsJustified log

  abbrev StageOk : Record → Stage → Type 0
  StageOk r (delivering event) = Decodes r event
  StageOk r _ = Unit

  abbrev WorkOk : List Effect → Work → Type 0
  WorkOk log w = In (paused w.partition w.record_taken) log × StageOk w.record_taken w.stage

  record Inv (s : State) : Type 0 where
    justified : IsJustified s.log
    works : All (WorkOk s.log) s.pending
    remembered : (id : String) (t : ℕ) → lookup id s.dedup.seen_at ≡ some t → Answered id s.log

  later-works :
      (e : Effect) (log : List Effect) (ws : List Work)
      → All (WorkOk log) ws
      → All (WorkOk (e ∷ log)) ws
  later-works e log ws = All-weaken (λ w (h : WorkOk log w). (inr h.0, h.1)) ws

  later-Answered :
      (e : Effect) (log : List Effect) (id : String) → Answered id log → Answered id (e ∷ log)
  later-Answered e log id (event, there, same) = (event, inr there, same)

  finish-Inv : {s : State} (i : ℕ) (w : Work) → Inv s → Inv (finish i w s)
  unfolding finish
  finish-Inv {s} i w inv = record {
    justified = inv.justified;
    works = All-remove (WorkOk s.log) i s.pending inv.works;
    remembered = inv.remembered;
  }

  -- Fields that the invariant does not read.
  count_error-Inv : {s : State} → Inv s → Inv (count_error s)
  count_error-Inv inv = record {
    justified = inv.justified;
    works = inv.works;
    remembered = inv.remembered;
  }

  submit_commit-Inv :
      {s : State} (i : ℕ) (w : Work)
      → get_elem? s.pending i ≡ some w
      → Inv s
      → Served w.record_taken s.log
      → Inv (submit_commit i w s)
  unfolding submit_commit
  submit_commit-Inv {s} i w e inv served =
      let ok = All-get_elem? (WorkOk s.log) i s.pending w e inv.works in
      let offset = suc w.record_taken.offset in
      branch Inv (is_aborted s w) (λ _. finish-Inv i w inv)
        λ _.
          branch Inv (not (holds (s.owners w.partition) w.owner)) (λ _. finish-Inv i w inv)
            λ _. record {
              justified = ((w.record_taken, ok.0, refl, served), inv.justified);
              works = later-works (commit w.partition offset) s.log _ (
                  All-with_stage (WorkOk s.log) (committing offset) i s.pending w e (ok.0, tt)
                    inv.works);
              remembered = λ id t h. later-Answered _ s.log id (inv.remembered id t h);
            }

  end_commit-Inv :
      {s : State} (i : ℕ) (w : Work) (offset : ℕ) (succeeded : Bool)
      → Inv s
      → Inv (end_commit i w offset succeeded s)
  unfolding end_commit
  end_commit-Inv {s} i w offset succeeded inv =
      branch Inv (not succeeded || is_aborted s w || not (holds (s.owners w.partition) w.owner))
        (λ _.
          finish-Inv {s = commit_over w s} i w
            (record { justified = inv.justified; works = inv.works; remembered = inv.remembered }))
        λ _. finish-Inv {s = resume w offset (commit_over w s)} i w (record {
          justified = inv.justified;
          works = later-works (resumed w.partition offset) s.log s.pending inv.works;
          remembered = λ id t h. later-Answered _ s.log id (inv.remembered id t h);
        })

  has-lookup :
      (c : Cache) (now : ℕ) (id : String)
      → has c now id ≡ true
      → (t : ℕ) × (lookup id c.seen_at ≡ some t)
  unfolding has
  has-lookup c now id h = elim (Option-cases (lookup id c.seen_at)) [
    | inl e ↦ absurd (unseen (lookup id c.seen_at) e h)
    | inr (t, e) ↦ (t, e)
  ]
    where
      unseen :
          (o : Option ℕ)
          → o ≡ none
          → elim o [ none ↦ false | some seen ↦ is_recent c.window_ms now seen ] ≡ true
          → ⊥
      unseen none e k = cc
      unseen (some seen) e k = cc

  -- The answer to an event, and its id in the cache.
  marked-Inv : {s : State} (event : DispatchEvent) (now : ℕ) → Inv s → Inv (marked event now s)
  unfolding mark
  marked-Inv {s} event now inv = record {
    justified = inv.justified;
    works = later-works (acknowledged event) s.log s.pending inv.works;
    remembered = λ id t h. elim (Bool-cases (is_empty event.dedup_id)) [
      | inl blank ↦ later-Answered _ s.log id (inv.remembered id t (ground arith))
      | inr text ↦ elim (Bool-cases (event.dedup_id == id)) [
        | inl same ↦ (event, inl refl, (==_iff event.dedup_id id).0 same)
        | inr other ↦ later-Answered _ s.log id (
            inv.remembered id t
              (ground (arith, lookup-insert event.dedup_id id now s.dedup.seen_at)))
      ]
    ];
  }

  answered-Inv :
      {s : State} (event : DispatchEvent)
      → Inv s
      → Inv (record s { log = acknowledged event ∷ s.log })
  answered-Inv {s} event inv = record {
    justified = inv.justified;
    works = later-works (acknowledged event) s.log s.pending inv.works;
    remembered = λ id t h. later-Answered _ s.log id (inv.remembered id t h);
  }

  end_delivery-Inv :
      {s : State} (i : ℕ) (w : Work) (event : DispatchEvent) (now : ℕ)
      → get_elem? s.pending i ≡ some w
      → Decodes w.record_taken event
      → Inv s
      → Inv (end_delivery i w event now s)
  unfolding end_delivery
  end_delivery-Inv {s} i w event now e decodes inv =
      branch Inv (is_aborted s w)
        (λ _.
          finish-Inv {s = record s { log = acknowledged event ∷ s.log }} i w
            (answered-Inv event inv))
        λ _.
          submit_commit-Inv {s = marked event now s} i w e (marked-Inv event now inv)
            (event, decodes, inl (inl refl))

  settle-Inv :
      {s : State} (ending : Ending) (i : ℕ) (w : Work) (event : DispatchEvent) (now : ℕ)
      → get_elem? s.pending i ≡ some w
      → Decodes w.record_taken event
      → Inv s
      → Inv (settle ending i w event now s)
  unfolding settle
  settle-Inv delivered i w event now e decodes inv = end_delivery-Inv i w event now e decodes inv
  settle-Inv still_pending i w event now e decodes inv = inv
  settle-Inv _ i w event now e decodes inv = finish-Inv i w inv

  begin_dispatch-Inv :
      {s : State} (i : ℕ) (w : Work) (event : DispatchEvent) (now : ℕ)
      → get_elem? s.pending i ≡ some w
      → Decodes w.record_taken event
      → Inv s
      → Inv (begin_dispatch i w event now s)
  unfolding begin_dispatch
  begin_dispatch-Inv {s} i w event now e decodes inv =
      branch Inv (is_empty event.job_id) (λ _. finish-Inv i w (count_error-Inv inv))
        λ _.
          branch Inv (not (is_empty event.dedup_id) && has s.dedup now event.dedup_id)
            (λ known.
              let (t, there) = has-lookup s.dedup now event.dedup_id (ground arith) in
              submit_commit-Inv i w e inv
                (event, decodes, inr (ground arith, inv.remembered event.dedup_id t there)))
            λ _. record {
              justified = inv.justified;
              works =
                  All-with_stage (WorkOk s.log) (delivering event) i s.pending w e
                    ((All-get_elem? (WorkOk s.log) i s.pending w e inv.works).0, decodes) inv.works;
              remembered = inv.remembered;
            }

  closed-Inv : {s : State} → Inv s → Inv (record s { dedup = close s.dedup })
  unfolding close
  closed-Inv inv = record {
    justified = inv.justified;
    works = inv.works;
    remembered = λ id t h. cc;
  }

  -- The maps are not read by the invariant.
  same-log :
      {s t : State} → t.log ≡ s.log → t.pending ≡ s.pending → t.dedup ≡ s.dedup → Inv s → Inv t
  same-log {s} {t} logs works dedups inv = record {
    justified = subst IsJustified (sym logs) inv.justified;
    works =
        subst (λ l. All (WorkOk l) t.pending) (sym logs)
          (subst (All (WorkOk s.log)) (sym works) inv.works);
    remembered = λ id v h.
        subst (Answered id) (sym logs)
          (inv.remembered id v (ap (λ (c : Cache). lookup id c.seen_at) (sym dedups) ∙ h));
  }

  assign-Inv : {s : State} (p : ℕ) → Inv s → Inv (assign p s)
  unfolding assign
  assign-Inv {s} p inv = same-log {s = s} (ground arith) (ground arith) (ground arith) inv

  revoke-Inv : {s : State} (p : ℕ) → Inv s → Inv (revoke p s)
  unfolding revoke
  revoke-Inv {s} p inv = same-log {s = s} (ground arith) (ground arith) (ground arith) inv

  take_record-Inv : {s : State} (p owner : ℕ) (r : Record) → Inv s → Inv (take_record p owner r s)
  take_record-Inv {s} p owner r inv = record {
    justified = inv.justified;
    works = ((inl refl, tt), later-works (paused p r) s.log s.pending inv.works);
    remembered = λ id t h. later-Answered _ s.log id (inv.remembered id t h);
  }

  each_batch-Inv :
      {s : State} (p : ℕ) (messages : List Record) (stale running : Bool)
      → Inv s
      → Inv (each_batch p messages stale running s)
  unfolding each_batch
  each_batch-Inv p [] stale running inv = inv
  each_batch-Inv {s} p (r ∷ messages) stale running inv = elim (Option-cases (s.owners p)) [
    | inl e ↦ rw (e, each_batch) inv
    | inr (owner, e) ↦
        rw (e, each_batch)
          (branch Inv (s.stopped || stale || not running) (λ _. inv)
            λ _.
              branch Inv (holds (s.active p) owner) (λ _. inv) λ _. take_record-Inv p owner r inv)
  ]

  module _ (outcome : DispatchEvent → Outcome) (worker_id : String) where
    begin_work-Inv :
        {s : State} (i : ℕ) (w : Work) (now : ℕ)
        → get_elem? s.pending i ≡ some w
        → Inv s
        → Inv (begin_work decode outcome worker_id i w now s)
    unfolding begin_work
    begin_work-Inv {s} i w now e inv =
        branch Inv (is_aborted s w) (λ _. finish-Inv i w inv) λ _. read w.record_taken.value refl
      where
        decoded :
            (value : String)
            → w.record_taken.value ≡ some value
            → (o : Option DispatchEvent) → decode value ≡ o
            → Inv (elim o [
              | none ↦ finish i w (count_error s)
              | some event ↦ begin_dispatch i w event now s
            ])
        decoded value taken none read = finish-Inv i w (count_error-Inv inv)
        decoded value taken (some event) read =
            begin_dispatch-Inv i w event now e (value, taken, read) inv

        read :
            (o : Option String)
            → w.record_taken.value ≡ o
            → Inv (elim o [
              | none ↦ finish i w (count_error s)
              | some value ↦ elim (decode value) [
                | none ↦ finish i w (count_error s)
                | some event ↦ begin_dispatch i w event now s
              ]
            ])
        read none taken = finish-Inv i w (count_error-Inv inv)
        read (some value) taken = decoded value taken (decode value) refl

    continue_turn-Inv :
        {s : State} (i : ℕ) (w : Work) (now : ℕ) (stage : Stage)
        → get_elem? s.pending i ≡ some w
        → Inv s
        → Inv (continue_turn decode outcome worker_id i w now stage s)
    unfolding continue_turn
    continue_turn-Inv i w now scheduled e inv = begin_work-Inv i w now e inv
    continue_turn-Inv i w now _ e inv = inv

    continue_delivery-Inv :
        {s : State} (i : ℕ) (w : Work) (attempts : List Attempt) (now : ℕ) (stage : Stage)
        → get_elem? s.pending i ≡ some w
        → StageOk w.record_taken stage
        → Inv s
        → Inv (continue_delivery decode outcome worker_id i w attempts now stage s)
    unfolding continue_delivery
    continue_delivery-Inv i w attempts now (delivering event) e decodes inv =
        settle-Inv _ i w event now e decodes inv
    continue_delivery-Inv i w attempts now scheduled e decodes inv = inv
    continue_delivery-Inv i w attempts now (committing offset) e decodes inv = inv

    continue_commit-Inv :
        {s : State} (i : ℕ) (w : Work) (succeeded : Bool) (stage : Stage)
        → Inv s
        → Inv (continue_commit i w succeeded stage s)
    unfolding continue_commit
    continue_commit-Inv i w succeeded (committing offset) inv =
        end_commit-Inv i w offset succeeded inv
    continue_commit-Inv i w succeeded _ inv = inv

    step-Inv : {s : State} (event : Event) → Inv s → Inv (step decode outcome worker_id event s)
    unfolding step
    step-Inv (assigned p) inv = assign-Inv p inv
    step-Inv (revoked p) inv = revoke-Inv p inv
    step-Inv (batch p messages stale running) inv = each_batch-Inv p messages stale running inv
    step-Inv (turn i now) inv = at-keeps Inv i _ inv λ w e. continue_turn-Inv i w now w.stage e inv
    step-Inv {s} (delivery i attempts now) inv = at-keeps Inv i _ inv λ w e.
        continue_delivery-Inv i w attempts now w.stage e
          (All-get_elem? (WorkOk s.log) i s.pending w e inv.works).1 inv
    step-Inv (commit_settled i succeeded) inv =
        at-keeps Inv i _ inv λ w e. continue_commit-Inv i w succeeded w.stage inv
    step-Inv stop inv = record {
      justified = inv.justified;
      works = inv.works;
      remembered = inv.remembered;
    }
    step-Inv {s} close_cache inv = closed s.pending
      where
        closed :
            (ws : List Work) → Inv (elim ws [ [] ↦ record s { dedup = close s.dedup } | _ ∷ _ ↦ s ])
        closed [] = closed-Inv inv
        closed (w ∷ ws) = inv

    run-Inv :
        (events : List Event) {s : State} → Inv s → Inv (run decode outcome worker_id events s)
    unfolding run
    run-Inv [] inv = inv
    run-Inv (event ∷ events) {s} inv =
        run-Inv events {s = step decode outcome worker_id event s} (step-Inv event inv)

    started-Inv : (window : ℕ) → Inv (started window)
    unfolding started
    started-Inv window = record { justified = tt; works = tt; remembered = λ id t h. cc }

    -- Whatever the Kafka client calls and however the deliveries and commits end: an offset is
    -- committed for a partition only if the record before it was taken from that partition, can be
    -- decoded, and before the commit the engine acknowledged its event, or another event with the
    -- same deduplication id.
    pub run-IsJustified :
        (window : ℕ) (events : List Event)
        → IsJustified (run decode outcome worker_id events (started window)).log
    run-IsJustified window events = (run-Inv events (started-Inv window)).justified
