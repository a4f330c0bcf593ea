-- ===== src/Modeller/Rename/Edges.antt =====
-- What renaming a step (workflow-modeller/src/domain/rename.ts) does to the edges out of the steps.
use rochallor_engine.Base.{
  String, false, Option, none, some, List, [], ◌∷◌, ◌++◌, ◌≡◌, refl, map, is_empty, values, arith,
  ==_iff,
}
use mathlib.Core.List.{map-append, append-nil}
use rochallor_engine.Modeller.Types.{
  StepId, Step, Variant, service_task, user_task, decision, decision_table, transformation, wait,
  parallel_gateway, join_gateway, end_step, BoundaryEvent,
}
use rochallor_engine.Modeller.Rename.{
  remap, remap_event, remap_boundary, remap_optional, remap_branches, remap_variant, remap_step,
}
use rochallor_engine.Modeller.Validate.Outgoing.{
  outgoing_targets, boundary_targets, all_outgoing, event_targets, present, present_optional,
}

-- The renaming of one id to another, neither of them empty.
module _ (old_id new_id : StepId) (old_text : is_empty old_id ≡ false)
    (new_text : is_empty new_id ≡ false) where
  abbrev f : StepId → StepId
  f = remap old_id new_id

  pub is_empty-remap : (id : StepId) → is_empty (remap old_id new_id id) ≡ is_empty id
  unfolding remap
  is_empty-remap id = ground (arith, ==_iff id old_id)

  present-remap : (id : StepId) → present (f id) ≡ map f (present id)
  present-remap id = ground (arith, is_empty-remap id)

  present_optional-remap :
      (next : Option StepId)
      → present_optional (remap_optional f next) ≡ map f (present_optional next)
  unfolding remap_optional
  present_optional-remap none = refl
  present_optional-remap (some next) = present-remap next

  events-remap :
      (events : List BoundaryEvent)
      → event_targets (some (map (remap_event f) events)) ≡ map f (event_targets (some events))
  unfolding remap_event
  events-remap [] = refl
  events-remap (e ∷ events) = rw (events-remap events)

  boundary-remap :
      (events : Option (List BoundaryEvent))
      → event_targets (remap_boundary f events) ≡ map f (event_targets events)
  unfolding remap_boundary
  boundary-remap none = refl
  boundary-remap (some events) = events-remap events

  values-remap :
      (branches : List (String × StepId))
      → values (remap_branches f branches) ≡ map f (values branches)
  unfolding remap_branches
  values-remap [] = refl
  values-remap ((expr, t) ∷ rest) = rw (values-remap rest)

  outgoing-remap :
      (v : Variant)
      → outgoing_targets (remap_variant f v) ++ boundary_targets (remap_variant f v)
        ≡ map f (outgoing_targets v ++ boundary_targets v)
  unfolding remap_variant outgoing_targets boundary_targets
  outgoing-remap (service_task t) =
      simp (map-append, present_optional-remap t.next_step, boundary-remap t.boundary_events)
  outgoing-remap (user_task t) =
      simp (map-append, present_optional-remap t.next_step, boundary-remap t.boundary_events)
  outgoing-remap (wait t) = simp (boundary-remap t.boundary_events)
  outgoing-remap (transformation t) = refl
  outgoing-remap (join_gateway next) = refl
  outgoing-remap (decision branches) = simp (append-nil, values-remap branches)
  outgoing-remap (decision_table t) = simp (append-nil, present-remap t.next_step)
  outgoing-remap (parallel_gateway t) = simp append-nil
  outgoing-remap end_step = refl

  -- The edges out of a renamed step are the edges of the step, with their targets renamed.
  pub all_outgoing-remap_step :
      (step : Step)
      → all_outgoing (remap_step old_id new_id step) ≡ map (remap old_id new_id) (all_outgoing step)
  unfolding all_outgoing remap_step
  all_outgoing-remap_step step = outgoing-remap step.variant
