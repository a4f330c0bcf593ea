-- ===== src/Modeller/References/Dialog/Laws.antt =====
-- What `Replace & delete` of workflow-modeller/src/panels/DeleteStepDialog.tsx leaves.
use rochallor_engine.Base.{
  String, true, false, Option, none, some, List, [], ◌∷◌, ◌≡◌, refl, ap, ◌∙◌, map, not, arith,
  contains, contains-append, values, filter_by, is_empty, ◌==◌, ==_iff, Bool-cases, inl, inr,
}
use rochallor_engine.Modeller.Types.{
  StepId, Step, StepType, step_type, Json, Variant, service_task, user_task, decision,
  decision_table, transformation, wait, parallel_gateway, join_gateway, end_step, BoundaryEvent,
}
use rochallor_engine.Modeller.Rename.{ok, remap, remap_step}
use rochallor_engine.Modeller.Rename.Edges.{all_outgoing-remap_step}
use rochallor_engine.Modeller.Validate.Outgoing.{
  outgoing_targets, boundary_targets, all_outgoing, event_targets, present, present_optional,
}
use rochallor_engine.Modeller.Store.State.{WorkflowState}
use rochallor_engine.Modeller.Store.Scrub.{
  scrub_id, scrub_optional, scrub_events, scrub_branches, scrub_variant, scrub_step, scrub_refs,
}
use rochallor_engine.Modeller.Store.Scrub.Laws.{ids, ids-deleted}
use rochallor_engine.Modeller.Store.Actions.{without_step, rename_replacement, delete_step}
use rochallor_engine.Modeller.References.{rewrite_refs, rewrite_variant}
use rochallor_engine.Modeller.References.Rewriting.{rewrite_refs_lem}
use rochallor_engine.Modeller.References.Dialog.{rewrite_all, replace_and_delete}

-- Scrubbing an id leaves the edges that do not lead to it.
module _ (removed : StepId) where
  scrub_id-other : (next : StepId) → (next == removed) ≡ false → scrub_id removed next ≡ next
  unfolding scrub_id
  scrub_id-other next h = ground arith

  present-other :
      (next : StepId)
      → contains (present next) removed ≡ false
      → present (scrub_id removed next) ≡ present next
  unfolding scrub_id
  present-other next h = ground (arith, ==_iff next removed)

  optional-other :
      (next : Option StepId)
      → contains (present_optional next) removed ≡ false
      → present_optional (scrub_optional removed next) ≡ present_optional next
  unfolding scrub_optional
  optional-other none h = refl
  optional-other (some next) h = present-other next h

  events-other :
      (events : List BoundaryEvent)
      → contains (event_targets (some events)) removed ≡ false
      → filter_by (λ (e : BoundaryEvent). not (e.target_step_id == removed)) events ≡ events
  events-other [] h = refl
  events-other (e ∷ events) h = ground (arith, events-other events)

  boundary-other :
      (events : Option (List BoundaryEvent))
      → contains (event_targets events) removed ≡ false
      → scrub_events removed events ≡ events
  unfolding scrub_events
  boundary-other none h = refl
  boundary-other (some events) h = ap some (events-other events h)

  branches-other :
      (branches : List (String × StepId))
      → contains (values branches) removed ≡ false
      → scrub_branches removed branches ≡ branches
  unfolding scrub_branches
  branches-other [] h = refl
  branches-other ((expr, t) ∷ rest) h = ground (arith, branches-other rest)

  targets-other :
      (targets : List StepId)
      → contains targets removed ≡ false
      → filter_by (λ t. not (t == removed)) targets ≡ targets
  targets-other [] h = refl
  targets-other (t ∷ targets) h = ground (arith, targets-other targets)

  outgoing-other :
      (v : Variant)
      → contains (outgoing_targets v) removed ≡ false
      → outgoing_targets (scrub_variant removed v) ≡ outgoing_targets v
  unfolding scrub_variant outgoing_targets
  outgoing-other (service_task t) h = optional-other t.next_step h
  outgoing-other (user_task t) h = optional-other t.next_step h
  outgoing-other (wait t) h = ground (arith, scrub_id-other t.next_step)
  outgoing-other (transformation t) h = ground (arith, scrub_id-other t.next_step)
  outgoing-other (join_gateway next) h = ground (arith, scrub_id-other next)
  outgoing-other (decision branches) h = ap values (branches-other branches h)
  outgoing-other (decision_table t) h = present-other t.next_step h
  outgoing-other (parallel_gateway t) h = targets-other t.parallel_next_steps h
  outgoing-other end_step h = refl

  events_of-other :
      (v : Variant)
      → contains (boundary_targets v) removed ≡ false
      → boundary_targets (scrub_variant removed v) ≡ boundary_targets v
  unfolding scrub_variant boundary_targets
  events_of-other (service_task t) h = ap event_targets (boundary-other t.boundary_events h)
  events_of-other (user_task t) h = ap event_targets (boundary-other t.boundary_events h)
  events_of-other (wait t) h = ap event_targets (boundary-other t.boundary_events h)
  events_of-other (transformation t) h = refl
  events_of-other (join_gateway next) h = refl
  events_of-other (decision branches) h = refl
  events_of-other (decision_table t) h = refl
  events_of-other (parallel_gateway t) h = refl
  events_of-other end_step h = refl

  scrub_step-other :
      (step : Step)
      → contains (all_outgoing step) removed ≡ false
      → all_outgoing (scrub_step removed step) ≡ all_outgoing step
  unfolding all_outgoing scrub_step
  scrub_step-other step h =
      let both =
        contains-append (outgoing_targets step.variant) (boundary_targets step.variant) removed in
      rw (outgoing-other step.variant (ground arith), events_of-other step.variant (ground arith))

contains-redirected :
    (old_id new_id : StepId) (ids : List StepId)
    → (old_id == new_id) ≡ false
    → contains (map (remap old_id new_id) ids) old_id ≡ false
unfolding remap
contains-redirected old_id new_id [] apart = refl
contains-redirected old_id new_id (id ∷ ids) apart =
    ground (
      arith,
      contains-redirected old_id new_id ids apart,
      ==_iff new_id old_id,
      ==_iff old_id new_id,
    )

module _ (id replacement : StepId) (text : is_empty id ≡ false)
    (new_text : is_empty replacement ≡ false) (apart : (id == replacement) ≡ false) where
  -- Rewriting a step redirects its edges.
  edges-rewrite_refs :
      (step : Step)
      → all_outgoing (rewrite_refs step id replacement)
        ≡ map (remap id replacement) (all_outgoing step)
  unfolding all_outgoing remap_step
  edges-rewrite_refs step =
      ap all_outgoing (rewrite_refs_lem id replacement step)
      ∙ all_outgoing-remap_step id replacement text new_text step

  edges-scrubbed :
      (step : Step)
      → all_outgoing (scrub_step id (rewrite_refs step id replacement))
        ≡ map (remap id replacement) (all_outgoing step)
  edges-scrubbed step =
      scrub_step-other id (rewrite_refs step id replacement) (
        rw (edges-rewrite_refs step) (contains-redirected id replacement (all_outgoing step) apart))
      ∙ edges-rewrite_refs step

  own_id : (step : Step) → (rewrite_refs step id replacement).id ≡ step.id
  unfolding rewrite_refs
  own_id step = refl

  edges_of_all :
      (steps : List Step)
      → map all_outgoing (
          map (scrub_step id) (
            filter_by
              (λ (t : Step). not (t.id == id))
              (map (λ t. rewrite_refs t id replacement) steps)))
        ≡ map
            (λ t. map (remap id replacement) (all_outgoing t))
            (filter_by (λ (t : Step). not (t.id == id)) steps)
  unfolding all_outgoing scrub_step
  edges_of_all [] = refl
  edges_of_all (s ∷ steps) = elim (Bool-cases (s.id == id)) [
    | inl deleted ↦ rw (own_id s, deleted) (edges_of_all steps)
    | inr kept ↦ rw (own_id s, kept) (cc (edges-scrubbed s, edges_of_all steps))
  ]

  ids-rewritten :
      (steps : List Step) → ids (map (λ t. rewrite_refs t id replacement) steps) ≡ ids steps
  unfolding rewrite_refs
  ids-rewritten [] = refl
  ids-rewritten (s ∷ steps) = rw (ids-rewritten steps)

-- What a step is called and holds besides its variant.
pub record Label : Type 0 where
  pub id : StepId
  pub name : String
  pub description : Option String
  pub type : StepType
  pub extras : List (String × Json)

abbrev pub label : Step → Label
label step = record {
  id = step.id;
  name = step.name;
  description = step.description;
  type = step_type step.variant;
  extras = step.extras;
}

step_type-scrub_variant :
    (removed : StepId) (v : Variant) → step_type (scrub_variant removed v) ≡ step_type v
unfolding scrub_variant
step_type-scrub_variant removed (service_task t) = refl
step_type-scrub_variant removed (user_task t) = refl
step_type-scrub_variant removed (decision b) = refl
step_type-scrub_variant removed (decision_table t) = refl
step_type-scrub_variant removed (transformation t) = refl
step_type-scrub_variant removed (wait t) = refl
step_type-scrub_variant removed (parallel_gateway t) = refl
step_type-scrub_variant removed (join_gateway n) = refl
step_type-scrub_variant removed end_step = refl

step_type-rewrite_variant :
    (old_id new_id : StepId) (v : Variant)
    → step_type (rewrite_variant old_id new_id v) ≡ step_type v
unfolding rewrite_variant
step_type-rewrite_variant old_id new_id (service_task t) = refl
step_type-rewrite_variant old_id new_id (user_task t) = refl
step_type-rewrite_variant old_id new_id (decision b) = refl
step_type-rewrite_variant old_id new_id (decision_table t) = refl
step_type-rewrite_variant old_id new_id (transformation t) = refl
step_type-rewrite_variant old_id new_id (wait t) = refl
step_type-rewrite_variant old_id new_id (parallel_gateway t) = refl
step_type-rewrite_variant old_id new_id (join_gateway n) = refl
step_type-rewrite_variant old_id new_id end_step = refl

label-rewritten :
    (id replacement : StepId) (step : Step)
    → label (scrub_step id (rewrite_refs step id replacement)) ≡ label step
unfolding scrub_step rewrite_refs
label-rewritten id replacement step =
    ap (λ type. record (label step) { type = type })
      (step_type-scrub_variant id (rewrite_variant id replacement step.variant)
        ∙ step_type-rewrite_variant id replacement step.variant)

labels-rewritten :
    (id replacement : StepId) (steps : List Step)
    → map label (
        map (scrub_step id) (
          filter_by
            (λ (t : Step). not (t.id == id))
            (map (λ t. rewrite_refs t id replacement) steps)))
      ≡ map label (filter_by (λ (t : Step). not (t.id == id)) steps)
unfolding rewrite_refs
labels-rewritten id replacement [] = refl
labels-rewritten id replacement (s ∷ steps) = elim (Bool-cases (s.id == id)) [
  | inl deleted ↦ rw (deleted) (labels-rewritten id replacement steps)
  | inr kept ↦
      rw (kept) (cc (label-rewritten id replacement s, labels-rewritten id replacement steps))
]

-- Deleting a step with a replacement, neither of them empty nor the same, succeeds: the other steps
-- stay in their order with their id, name, description, type and extra keys, and each of their edges
-- that led to the step leads to the replacement, the others where they led.
pub replace_and_delete-redirects :
    (id replacement : StepId) (s : WorkflowState)
    → is_empty id ≡ false
    → is_empty replacement ≡ false
    → (id == replacement) ≡ false
    → (s' : WorkflowState) × (replace_and_delete id replacement s ≡ ok s')
      × (ids s'.definition.steps ≡ filter_by (λ i. not (i == id)) (ids s.definition.steps))
      × (map label s'.definition.steps
          ≡ map label (filter_by (λ (t : Step). not (t.id == id)) s.definition.steps))
      × (map all_outgoing s'.definition.steps
          ≡ map
              (λ t. map (remap id replacement) (all_outgoing t))
              (filter_by (λ (t : Step). not (t.id == id)) s.definition.steps))
unfolding replace_and_delete rewrite_all delete_step without_step rename_replacement scrub_refs
replace_and_delete-redirects id replacement s text new_text apart =
    let rewritten = map (λ t. rewrite_refs t id replacement) s.definition.steps in
    let rest = filter_by (λ (t : Step). not (t.id == id)) rewritten in
    let def = record (s.definition) { steps = map (scrub_step id) rest } in
    (
      record s { definition = def; dirty = true },
      rw (text, new_text) refl,
      ids-deleted id rewritten
          ∙ ap (filter_by (λ i. not (i == id)))
              (ids-rewritten id replacement text new_text apart s.definition.steps),
      labels-rewritten id replacement s.definition.steps,
      edges_of_all id replacement text new_text apart s.definition.steps,
    )
