-- ===== src/Modeller/Validate/Refs/Laws.antt =====
-- The reference checks of workflow-modeller/src/domain/validate.ts close the step graph.
use rochallor_engine.Base.{
  ℕ, suc, String, true, false, Option, none, some, List, [], ◌∷◌, ◌≡◌, map, is_empty, contains,
  values, flat_map_from, All, All-iff, All-append, sym, ◌∙◌, arith, append-eq-nil_iff, Bool-cases,
  inl, inr,
}
use rochallor_engine.Modeller.Types.{
  StepId, Step, Variant, service_task, user_task, decision, decision_table, transformation, wait,
  parallel_gateway, join_gateway, end_step, BoundaryEvent, WorkflowDefinition, DecisionTableStep,
  Json,
}
use rochallor_engine.Modeller.Graph.{index_steps}
use rochallor_engine.Modeller.Graph.Laws.{index_steps-keys}
use rochallor_engine.Modeller.Validate.Outgoing.{
  outgoing_targets, boundary_targets, all_outgoing, event_targets, present, present_optional,
}
use rochallor_engine.Modeller.Validate.Shape.{
  lacks_text, check_variant_shape, check_step_variant_shape, check_decision_table,
}
use rochallor_engine.Modeller.Validate.Refs.{
  Index, resolves, check_ref, check_optional_ref, check_branch_refs, check_parallel_refs,
  check_variant_refs, check_refs_resolve, check_event, check_events, check_variant_events,
  check_boundary_events,
}

module _ (index : Index) (id : StepId) where
  abbrev IsClosed : List StepId → Type 0
  IsClosed = All (λ t. resolves index t ≡ true)

  check_ref-present :
      (field : String) (target : StepId)
      → check_ref index id field target ≡ []
      → IsClosed (present target)
  unfolding check_ref
  check_ref-present field target e = elim (Bool-cases (is_empty target)) [
    | inl blank ↦ rw blank tt
    | inr text ↦ rw text (ground arith, tt)
  ]

  check_ref-text :
      (field : String) (target : StepId)
      → lacks_text target ≡ false
      → check_ref index id field target ≡ []
      → resolves index target ≡ true
  unfolding check_ref lacks_text
  check_ref-text field target text e = ground arith

  check_optional_ref-IsClosed :
      (next : Option StepId)
      → check_optional_ref index id next ≡ []
      → IsClosed (present_optional next)
  unfolding check_optional_ref
  check_optional_ref-IsClosed none e = tt
  check_optional_ref-IsClosed (some target) e = check_ref-present "nextStep" target e

  check_branch_refs-IsClosed :
      (branches : List (String × StepId))
      → check_branch_refs index id branches ≡ []
      → IsClosed (values branches)
  unfolding check_branch_refs
  check_branch_refs-IsClosed [] e = tt
  check_branch_refs-IsClosed ((expr, t) ∷ rest) e =
      (ground arith, check_branch_refs-IsClosed rest (ground arith))

  check_parallel_refs-IsClosed :
      (targets : List StepId) → check_parallel_refs index id targets ≡ [] → IsClosed targets
  unfolding check_parallel_refs
  check_parallel_refs-IsClosed [] e = tt
  check_parallel_refs-IsClosed (t ∷ targets) e =
      (ground arith, check_parallel_refs-IsClosed targets (ground arith))

  check_event-closed :
      (i : ℕ) (evt : BoundaryEvent)
      → check_event index id i evt ≡ []
      → resolves index evt.target_step_id ≡ true
  unfolding check_event
  check_event-closed i evt e = ground arith

  check_event_list-IsClosed :
      (i : ℕ) (events : List BoundaryEvent)
      → flat_map_from i (check_event index id) events ≡ []
      → IsClosed (event_targets (some events))
  check_event_list-IsClosed i [] e = tt
  check_event_list-IsClosed i (evt ∷ events) e =
      let split = (append-eq-nil_iff (check_event index id i evt) _).0 e in
      (check_event-closed i evt split.0, check_event_list-IsClosed (suc i) events split.1)

  check_events-IsClosed :
      (events : Option (List BoundaryEvent))
      → check_events index id events ≡ []
      → IsClosed (event_targets events)
  unfolding check_events
  check_events-IsClosed none e = tt
  check_events-IsClosed (some events) e = check_event_list-IsClosed 0 events e

  check_decision_table-next :
      (t : DecisionTableStep) (extras : List (String × Json))
      → check_decision_table id t extras ≡ []
      → lacks_text t.next_step ≡ false
  unfolding check_decision_table
  check_decision_table-next t extras e = ground arith

closed_outgoing :
    (index : Index) (step : Step) (v : Variant)
    → check_variant_shape step.id step.extras v ≡ []
    → check_variant_refs index step.id v ≡ []
    → All (λ t. resolves index t ≡ true) (outgoing_targets v)
unfolding check_variant_shape check_variant_refs outgoing_targets
closed_outgoing index step (service_task t) shape refs =
    check_optional_ref-IsClosed index step.id t.next_step refs
closed_outgoing index step (user_task t) shape refs =
    check_optional_ref-IsClosed index step.id t.next_step refs
closed_outgoing index step (wait t) shape refs =
    (check_ref-text index step.id "nextStep" t.next_step (ground arith) refs, tt)
closed_outgoing index step (transformation t) shape refs =
    (check_ref-text index step.id "nextStep" t.next_step (ground arith) refs, tt)
closed_outgoing index step (join_gateway next) shape refs =
    (check_ref-text index step.id "nextStep" next (ground arith) refs, tt)
closed_outgoing index step (decision branches) shape refs =
    check_branch_refs-IsClosed index step.id branches refs
closed_outgoing index step (decision_table t) shape refs =
    check_ref-present index step.id "nextStep" t.next_step refs
closed_outgoing index step (parallel_gateway t) shape refs =
    check_parallel_refs-IsClosed index step.id t.parallel_next_steps
      ((append-eq-nil_iff (check_parallel_refs index step.id t.parallel_next_steps) _).0 refs).0
closed_outgoing index step end_step shape refs = tt

closed_boundary :
    (index : Index) (step : Step) (v : Variant)
    → check_variant_events index step v ≡ []
    → All (λ t. resolves index t ≡ true) (boundary_targets v)
unfolding check_variant_events boundary_targets
closed_boundary index step (service_task t) e =
    check_events-IsClosed index step.id t.boundary_events e
closed_boundary index step (user_task t) e = check_events-IsClosed index step.id t.boundary_events e
closed_boundary index step (wait t) e = check_events-IsClosed index step.id t.boundary_events e
closed_boundary index step _ e = tt

-- A step on whose shape, references and boundary events nothing is reported leads only to steps of
-- the definition.
pub outgoing-resolve :
    (def : WorkflowDefinition) (step : Step)
    → check_step_variant_shape step ≡ []
    → check_refs_resolve (index_steps def) step ≡ []
    → check_boundary_events (index_steps def) step ≡ []
    → All (λ t. contains (map (λ (s : Step). s.id) def.steps) t ≡ true) (all_outgoing step)
unfolding check_step_variant_shape check_refs_resolve check_boundary_events all_outgoing
outgoing-resolve def step shape refs events =
    let index = index_steps def in
    let closed =
      All-append (λ t. resolves index t ≡ true) (outgoing_targets step.variant)
        (boundary_targets step.variant) (closed_outgoing index step step.variant shape refs)
        (closed_boundary index step step.variant events) in
    (All-iff (λ t. (λ e. sym (index_steps-keys def t) ∙ e, λ e. index_steps-keys def t ∙ e)) _).0
      closed
