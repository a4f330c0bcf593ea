-- ===== src/Modeller/Store/Scrub/Laws.antt =====
-- After a step is deleted (workflow-modeller/src/store/workflowStore.ts) nothing leads to it.
use rochallor_engine.Base.{
  Bool-cases, inl, inr, String, false, Option, none, some, List, [], ◌∷◌, ◌++◌, ◌≡◌, ◌∙◌, refl, map,
  not, is_empty, contains, contains-append, values, filter_by, arith, ◌==◌, ==_iff, All,
}
use mathlib.Core.List.{append-nil}
use rochallor_engine.Modeller.Types.{
  StepId, Step, Variant, service_task, user_task, decision, decision_table, transformation, wait,
  parallel_gateway, join_gateway, end_step, BoundaryEvent,
}
use rochallor_engine.Modeller.Validate.Outgoing.{
  outgoing_targets, boundary_targets, all_outgoing, event_targets, present, present_optional,
}
use rochallor_engine.Modeller.Store.Scrub.{
  scrub_id, scrub_optional, scrub_events, scrub_branches, scrub_variant, scrub_step,
}

empty-ne : (s : String) → is_empty s ≡ false → ("" == s) ≡ false
empty-ne String.[] h = cc
empty-ne (String.◌∷◌ c s) h = elim (Bool-cases ("" == String.◌∷◌ c s)) [
  | inl same ↦ let e = (==_iff "" (String.◌∷◌ c s)).0 same in cc
  | inr apart ↦ apart
]

-- The id of the deleted step is not empty.
module _ (removed : StepId) (text : is_empty removed ≡ false) where
  scrub_id-ne : (next : StepId) → (scrub_id removed next == removed) ≡ false
  unfolding scrub_id
  scrub_id-ne next = elim (Bool-cases (next == removed)) [
    | inl same ↦ rw same (empty-ne removed text)
    | inr other ↦ rw other other
  ]

  present-scrub : (next : StepId) → contains (present (scrub_id removed next)) removed ≡ false
  present-scrub next = ground (arith, scrub_id-ne next)

  optional-scrub :
      (next : Option StepId)
      → contains (present_optional (scrub_optional removed next)) removed ≡ false
  unfolding scrub_optional
  optional-scrub none = refl
  optional-scrub (some next) = present-scrub next

  events-scrub :
      (events : List BoundaryEvent)
      → contains
          (event_targets
            (some (filter_by (λ (e : BoundaryEvent). not (e.target_step_id == removed)) events)))
          removed
        ≡ false
  events-scrub [] = refl
  events-scrub (e ∷ events) = ground (arith, events-scrub events)

  boundary-scrub :
      (events : Option (List BoundaryEvent))
      → contains (event_targets (scrub_events removed events)) removed ≡ false
  unfolding scrub_events
  boundary-scrub none = refl
  boundary-scrub (some events) = events-scrub events

  branches-scrub :
      (branches : List (String × StepId))
      → contains (values (scrub_branches removed branches)) removed ≡ false
  unfolding scrub_branches
  branches-scrub [] = refl
  branches-scrub ((expr, t) ∷ rest) = ground (arith, branches-scrub rest)

  targets-scrub :
      (targets : List StepId)
      → contains (filter_by (λ t. not (t == removed)) targets) removed ≡ false
  targets-scrub [] = refl
  targets-scrub (t ∷ targets) = ground (arith, targets-scrub targets)

  outgoing-scrub :
      (v : Variant)
      → contains
          (outgoing_targets (scrub_variant removed v) ++ boundary_targets (scrub_variant removed v))
          removed
        ≡ false
  unfolding scrub_variant outgoing_targets boundary_targets
  outgoing-scrub (service_task t) =
      rw (contains-append (present_optional (scrub_optional removed t.next_step)) _ removed)
        (ground (arith, optional-scrub t.next_step, boundary-scrub t.boundary_events))
  outgoing-scrub (user_task t) =
      rw (contains-append (present_optional (scrub_optional removed t.next_step)) _ removed)
        (ground (arith, optional-scrub t.next_step, boundary-scrub t.boundary_events))
  outgoing-scrub (wait t) =
      ground (arith, scrub_id-ne t.next_step, boundary-scrub t.boundary_events)
  outgoing-scrub (transformation t) = ground (arith, scrub_id-ne t.next_step)
  outgoing-scrub (join_gateway next) = ground (arith, scrub_id-ne next)
  outgoing-scrub (decision branches) = simp (append-nil, branches-scrub branches)
  outgoing-scrub (decision_table t) = simp (append-nil, present-scrub t.next_step)
  outgoing-scrub (parallel_gateway t) = simp (append-nil, targets-scrub t.parallel_next_steps)
  outgoing-scrub end_step = refl

  -- No edge leads from a scrubbed step to the removed id.
  pub all_outgoing-scrub_step :
      (step : Step) → contains (all_outgoing (scrub_step removed step)) removed ≡ false
  unfolding all_outgoing scrub_step
  all_outgoing-scrub_step step = outgoing-scrub step.variant

abbrev pub ids : List Step → List StepId
ids = map (λ (s : Step). s.id)

ids-scrubbed :
    (removed : StepId) (steps : List Step) → ids (map (scrub_step removed) steps) ≡ ids steps
unfolding scrub_step
ids-scrubbed removed [] = refl
ids-scrubbed removed (s ∷ steps) = rw (ids-scrubbed removed steps)

ids-filtered :
    (removed : StepId) (steps : List Step)
    → ids (filter_by (λ (s : Step). not (s.id == removed)) steps)
      ≡ filter_by (λ id. not (id == removed)) (ids steps)
ids-filtered removed [] = refl
ids-filtered removed (s ∷ steps) = ground (arith, ids-filtered removed steps)

pub ids-deleted :
    (removed : StepId) (steps : List Step)
    → ids (map (scrub_step removed) (filter_by (λ (s : Step). not (s.id == removed)) steps))
      ≡ filter_by (λ id. not (id == removed)) (ids steps)
ids-deleted removed steps = ids-scrubbed removed _ ∙ ids-filtered removed steps

pub scrubbed-unreferenced :
    (removed : StepId) (steps : List Step)
    → is_empty removed ≡ false
    → All (λ s. contains (all_outgoing s) removed ≡ false) (map (scrub_step removed) steps)
scrubbed-unreferenced removed [] text = tt
scrubbed-unreferenced removed (s ∷ steps) text =
    (all_outgoing-scrub_step removed text s, scrubbed-unreferenced removed steps text)
