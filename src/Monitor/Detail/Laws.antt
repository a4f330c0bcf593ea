-- ===== src/Monitor/Detail/Laws.antt =====
-- What the transaction of an instance's detail calls and answers, whichever calls fail.
use rochallor_engine.Base.{
  ℕ, String, Bool, true, false, Option, none, some, List, [], ◌∷◌, ◌≡◌, refl, all, not, ◌==◌,
  if◌then◌else◌, ◌⊎◌, inl, inr, length, ◌||◌, arith,
}
use rochallor_engine.Monitor.Instances.{InstanceRow}
use rochallor_engine.Monitor.Context.{ExecutionContext, read_execution_context}
use rochallor_engine.Monitor.Detail.{
  Call, connect, begin_transaction, select_instance, select_definition, select_latest,
  select_failed, select_context, commit, rollback, release, Settled, returned, thrown, Client,
  continue_with, ◌>>=◌, ◌>>◌, pure, DefinitionRow, InstanceDetail, Snapshot, find_instance,
  find_definition, failed_step_id, current_tokens, instance_detail, send, read_context,
  with_definition, with_instance, in_transaction, caught, released, detail,
}

abbrev pub is_release : Call → Bool
is_release release = true
is_release _ = false

abbrev pub still_open : List Call → Bool
still_open calls = all (λ call. not (is_release call)) calls

-- The client is released once and last, right behind the end of the transaction, which is a commit
-- exactly with an instance; without a client nothing is released.
abbrev pub closed : {A : Type 0} → Settled (Option A) × List Call → Bool
closed (returned (some a), release ∷ commit ∷ calls) = still_open calls
closed (returned none, release ∷ rollback ∷ calls) = still_open calls
closed (thrown, release ∷ rollback ∷ calls) = still_open calls
closed (thrown, connect ∷ []) = true
closed _ = false

-- One of the calls failed.
abbrev pub any_failed : (ℕ → Bool) → List Call → Bool
any_failed fails [] = false
any_failed fails (call ∷ calls) = fails (length calls) || any_failed fails calls

module _ {D : Type 0} (db : Snapshot D) (instance_id : String) where
  abbrev pub view_definition : InstanceRow → Option (DefinitionRow D) → Option (InstanceDetail D)
  view_definition row none = none
  view_definition row (some definition) = some (
      instance_detail db instance_id row definition
        (if row.status == "FAILED" then failed_step_id db instance_id else none)
        (read_execution_context db.context instance_id (current_tokens row)))

  abbrev pub view_instance : Option InstanceRow → Option (InstanceDetail D)
  view_instance none = none
  view_instance (some row) = view_definition row (find_definition db instance_id row)

  -- What the snapshot says of the instance.
  unfoldable pub view : Option (InstanceDetail D)
  view = view_instance (find_instance db instance_id)

abbrev IsAnswer :
    {D : Type 0}
    → (ℕ → Bool)
    → Option (InstanceDetail D)
    → Settled (Option (InstanceDetail D)) × List Call
    → Type 0
IsAnswer fails answer end =
    (closed end ≡ true)
    × (((end.0 ≡ thrown) × (any_failed fails end.1 ≡ true)) ⊎ (end.0 ≡ returned answer))

-- The same of the body of `try`.
abbrev IsGood :
    {D : Type 0}
    → (ℕ → Bool)
    → Option (InstanceDetail D)
    → Settled (Option (InstanceDetail D)) × List Call
    → Type 0
IsGood fails answer end =
    (closed (released (caught end)) ≡ true)
    × (((end.0 ≡ thrown) × (any_failed fails end.1 ≡ true)) ⊎ (end.0 ≡ returned answer))

module _ (fails : ℕ → Bool) where
  settle_send :
      {B : Type 0} (P : Settled B × List Call → Type 0) (call : Call) (k : Client B)
      (calls : List Call) (b : Bool)
      → (b ≡ true → P (thrown, call ∷ calls))
      → P (k (call ∷ calls))
      → P (continue_with (λ _. k) ((if b then thrown else returned tt), call ∷ calls))
  settle_send P call k calls true stop go = stop refl
  settle_send P call k calls false stop go = go

  after_send :
      {B : Type 0} (P : Settled B × List Call → Type 0) (call : Call) (k : Client B)
      (calls : List Call)
      → (fails (length calls) ≡ true → P (thrown, call ∷ calls))
      → P (k (call ∷ calls))
      → P ((send fails call >> k) calls)
  after_send P call k calls = settle_send P call k calls (fails (length calls))

  settle_nested :
      {A B : Type 0} (P : Settled B × List Call → Type 0) (f : A → Client B) (call : Call) (a : A)
      (calls : List Call) (b : Bool)
      → (b ≡ true → P (thrown, call ∷ calls))
      → P (f a (call ∷ calls))
      → P (
          continue_with f
            (continue_with (λ _. pure a) ((if b then thrown else returned tt), call ∷ calls)))
  settle_nested P f call a calls true stop go = stop refl
  settle_nested P f call a calls false stop go = go

  module _ {D : Type 0} (db : Snapshot D) (instance_id : String) where
    commit-IsGood :
        (row : InstanceRow) (d : DefinitionRow D) (failed : Option String)
        (context : List ExecutionContext) (calls : List Call)
        → still_open calls ≡ true
        → IsGood fails (some (instance_detail db instance_id row d failed context)) (
            (send fails commit >> pure (some (instance_detail db instance_id row d failed context)))
              calls)
    commit-IsGood row d failed context calls unreleased =
        after_send (IsGood fails (some (instance_detail db instance_id row d failed context)))
          commit _ calls (λ failed. (unreleased, inl (refl, ground (arith)))) (unreleased, inr refl)

    read_context-IsGood :
        (row : InstanceRow) (d : DefinitionRow D) (failed : Option String) (steps : List String)
        (calls : List Call)
        → still_open calls ≡ true
        → IsGood fails
            (some (
              instance_detail db instance_id row d failed
                (read_execution_context db.context instance_id steps)))
            ((read_context fails db instance_id steps >>= λ context.
                send fails commit
                >> pure (some (instance_detail db instance_id row d failed context)))
              calls)
    unfolding read_execution_context
    read_context-IsGood row d failed [] calls unreleased =
        commit-IsGood row d failed [] calls unreleased
    read_context-IsGood row d failed (step ∷ steps) calls unreleased =
        let context = read_execution_context db.context instance_id (step ∷ steps) in
        settle_nested (IsGood fails (some (instance_detail db instance_id row d failed context)))
          (λ context.
            send fails commit >> pure (some (instance_detail db instance_id row d failed context)))
          select_context context calls (fails (length calls))
          (λ failed. (unreleased, inl (refl, ground (arith))))
          (commit-IsGood row d failed context (select_context ∷ calls) unreleased)

    read_failed_step-IsGood :
        (row : InstanceRow) (d : DefinitionRow D) (is_failed : Bool) (calls : List Call)
        → still_open calls ≡ true
        → IsGood fails
            (some (
              instance_detail db instance_id row d
                (if is_failed then failed_step_id db instance_id else none)
                (read_execution_context db.context instance_id (current_tokens row))))
            (((if is_failed
                  then send fails select_failed >> pure (failed_step_id db instance_id)
                  else pure none)
                >>= λ failed. read_context fails db instance_id (current_tokens row) >>= λ context.
                    send fails commit
                    >> pure (some (instance_detail db instance_id row d failed context)))
              calls)
    read_failed_step-IsGood row d false calls unreleased =
        read_context-IsGood row d none (current_tokens row) calls unreleased
    read_failed_step-IsGood row d true calls unreleased =
        settle_nested
          (IsGood fails (
            some (
              instance_detail db instance_id row d (failed_step_id db instance_id)
                (read_execution_context db.context instance_id (current_tokens row)))))
          (λ failed. read_context fails db instance_id (current_tokens row) >>= λ context.
            send fails commit >> pure (some (instance_detail db instance_id row d failed context)))
          select_failed (failed_step_id db instance_id) calls (fails (length calls))
          (λ failed. (unreleased, inl (refl, ground (arith))))
          (read_context-IsGood row d (failed_step_id db instance_id) (current_tokens row)
            (select_failed ∷ calls) unreleased)

    with_definition-IsGood :
        (row : InstanceRow) (found : Option (DefinitionRow D)) (calls : List Call)
        → still_open calls ≡ true
        → IsGood fails
            (view_definition db instance_id row found)
            (with_definition fails db instance_id row found calls)
    with_definition-IsGood row none calls unreleased =
        after_send (IsGood fails none) rollback (pure none) calls
          (λ failed. (unreleased, inl (refl, ground (arith)))) (unreleased, inr refl)
    with_definition-IsGood row (some d) calls unreleased =
        after_send (IsGood fails (view_definition db instance_id row (some d))) select_latest _
          calls (λ failed. (unreleased, inl (refl, ground (arith))))
          (read_failed_step-IsGood row d (row.status == "FAILED") (select_latest ∷ calls)
            unreleased)

    with_instance-IsGood :
        (found : Option InstanceRow) (calls : List Call)
        → still_open calls ≡ true
        → IsGood fails
            (view_instance db instance_id found)
            (with_instance fails db instance_id found calls)
    with_instance-IsGood none calls unreleased =
        after_send (IsGood fails none) rollback (pure none) calls
          (λ failed. (unreleased, inl (refl, ground (arith)))) (unreleased, inr refl)
    with_instance-IsGood (some row) calls unreleased =
        after_send (IsGood fails (view_instance db instance_id (some row))) select_definition _
          calls (λ failed. (unreleased, inl (refl, ground (arith))))
          (with_definition-IsGood row (find_definition db instance_id row)
            (select_definition ∷ calls) unreleased)

    later_failed :
        (call : Call) (calls : List Call)
        → any_failed fails calls ≡ true
        → any_failed fails (call ∷ calls) ≡ true
    later_failed call calls h = ground arith

    released-IsGood :
        (answer : Option (InstanceDetail D)) (end : Settled (Option (InstanceDetail D)) × List Call)
        → IsGood fails answer end
        → IsAnswer fails answer (released (caught end))
    released-IsGood answer (returned a, calls) h =
        (h.0, elim h.1 [ inl f ↦ inl (f.0, later_failed release calls f.1) | inr e ↦ inr e ])
    released-IsGood answer (thrown, calls) h = (
      h.0,
      elim h.1 [
        | inl f ↦
            inl (f.0, later_failed release (rollback ∷ calls) (later_failed rollback calls f.1))
        | inr e ↦ inr e
      ],
    )

    -- Whichever calls of the client fail, the client is released once and last, behind a commit if
    -- an instance is returned and behind a rollback otherwise, unless it was never connected; and
    -- the answer is the whole view of the one snapshot, or an error, and then a call has failed.
    pub detail-closed :
        (closed (detail fails db instance_id) ≡ true)
        × ((((detail fails db instance_id).0 ≡ thrown)
              × (any_failed fails (detail fails db instance_id).1 ≡ true))
            ⊎ ((detail fails db instance_id).0 ≡ returned (view db instance_id)))
    unfolding detail view
    detail-closed =
        let answer = view_instance db instance_id (find_instance db instance_id) in
        after_send (IsAnswer fails answer) connect
          (λ calls. released (caught (in_transaction fails db instance_id calls))) []
          (λ failed. (refl, inl (refl, ground (arith))))
          (released-IsGood answer _ (
            after_send (IsGood fails answer) begin_transaction _ (connect ∷ [])
              (λ failed. (refl, inl (refl, ground (arith))))
              (after_send (IsGood fails answer) select_instance _ (begin_transaction ∷ connect ∷ [])
                (λ failed. (refl, inl (refl, ground (arith))))
                (with_instance-IsGood (find_instance db instance_id)
                  (select_instance ∷ begin_transaction ∷ connect ∷ []) refl))))
