-- ===== src/Modeller/Store/Editing/Links.antt =====
-- What the edits of workflow-modeller/src/store/workflowStore.ts do to ids and targets.
use rochallor_engine.Base.{
  String, Bool, true, Option, none, some, List, [], ◌∷◌, ◌≡◌, refl, arith, not, ◌||◌, ◌&&◌, map,
  contains, contains-append, flat_map, filter_by, IsDistinct, ◌==◌, ==_iff, ==_refl, is_empty,
  values, Bool-cases, inl, inr,
}
use rochallor_engine.Modeller.Types.{
  StepId, Step, Variant, service_task, user_task, decision, decision_table, transformation, wait,
  parallel_gateway, join_gateway, end_step, BoundaryEvent,
}
use rochallor_engine.Modeller.Validate.Outgoing.{
  outgoing_targets, boundary_targets, all_outgoing, event_targets, present, present_optional,
}
use rochallor_engine.Modeller.Store.Scrub.{
  scrub_id, scrub_optional, scrub_events, scrub_branches, scrub_variant, scrub_step,
}

pub blank : (t : String) → ("" == t) ≡ true → is_empty t ≡ true
blank String.[] h = refl
blank (String.◌∷◌ c t) h = let e = (==_iff "" (String.◌∷◌ c t)).0 h in cc

-- A target behind a scrubbing is empty, or it stood there before.
abbrev pub Kept : List StepId → List StepId → Type 0
Kept before after = (t : StepId) → contains after t ≡ true → is_empty t || contains before t ≡ true

module _ (removed : StepId) where
  scrub_id-Kept : (next : StepId) → Kept (next ∷ []) (scrub_id removed next ∷ [])
  unfolding scrub_id
  scrub_id-Kept next t h = ground (arith, blank t)

  present-Kept : (next : StepId) → Kept (present next) (present (scrub_id removed next))
  unfolding scrub_id
  present-Kept next t h = ground (arith, blank t)

  optional-Kept :
      (next : Option StepId)
      → Kept (present_optional next) (present_optional (scrub_optional removed next))
  unfolding scrub_optional
  optional-Kept none t h = cc
  optional-Kept (some next) t h = present-Kept next t h

  events-Kept :
      (events : List BoundaryEvent)
      → Kept (event_targets (some events)) (
          event_targets
            (some (filter_by (λ (e : BoundaryEvent). not (e.target_step_id == removed)) events)))
  events-Kept [] t h = cc
  events-Kept (e ∷ events) t h = ground (arith, events-Kept events t)

  boundary-Kept :
      (events : Option (List BoundaryEvent))
      → Kept (event_targets events) (event_targets (scrub_events removed events))
  unfolding scrub_events
  boundary-Kept none t h = cc
  boundary-Kept (some events) t h = events-Kept events t h

  branches-Kept :
      (branches : List (String × StepId))
      → Kept (values branches) (values (scrub_branches removed branches))
  unfolding scrub_branches
  branches-Kept [] t h = cc
  branches-Kept ((expr, u) ∷ rest) t h = ground (arith, branches-Kept rest t)

  targets-Kept :
      (targets : List StepId) → Kept targets (filter_by (λ t. not (t == removed)) targets)
  targets-Kept [] t h = cc
  targets-Kept (u ∷ targets) t h = ground (arith, targets-Kept targets t)

  outgoing-Kept :
      (v : Variant) → Kept (outgoing_targets v) (outgoing_targets (scrub_variant removed v))
  unfolding outgoing_targets scrub_variant
  outgoing-Kept (service_task t) u h = optional-Kept t.next_step u h
  outgoing-Kept (user_task t) u h = optional-Kept t.next_step u h
  outgoing-Kept (wait t) u h = scrub_id-Kept t.next_step u h
  outgoing-Kept (transformation t) u h = scrub_id-Kept t.next_step u h
  outgoing-Kept (join_gateway next) u h = scrub_id-Kept next u h
  outgoing-Kept (decision branches) u h = branches-Kept branches u h
  outgoing-Kept (decision_table t) u h = present-Kept t.next_step u h
  outgoing-Kept (parallel_gateway t) u h = targets-Kept t.parallel_next_steps u h
  outgoing-Kept end_step u h = cc

  events_of-Kept :
      (v : Variant) → Kept (boundary_targets v) (boundary_targets (scrub_variant removed v))
  unfolding boundary_targets scrub_variant
  events_of-Kept (service_task t) u h = boundary-Kept t.boundary_events u h
  events_of-Kept (user_task t) u h = boundary-Kept t.boundary_events u h
  events_of-Kept (wait t) u h = boundary-Kept t.boundary_events u h
  events_of-Kept (transformation t) u h = cc
  events_of-Kept (join_gateway next) u h = cc
  events_of-Kept (decision branches) u h = cc
  events_of-Kept (decision_table t) u h = cc
  events_of-Kept (parallel_gateway t) u h = cc
  events_of-Kept end_step u h = cc

  pub scrub_step-Kept :
      (step : Step) → Kept (all_outgoing step) (all_outgoing (scrub_step removed step))
  unfolding all_outgoing scrub_step
  scrub_step-Kept step t h =
      let v = step.variant in
      ground (
        arith,
        contains-append (outgoing_targets v) (boundary_targets v) t,
        contains-append (outgoing_targets (scrub_variant removed v))
            (boundary_targets (scrub_variant removed v)) t,
        outgoing-Kept v t,
        events_of-Kept v t,
      )

  abbrev scrubbed_targets : List Step → List StepId
  scrubbed_targets steps =
      flat_map all_outgoing
        (map (scrub_step removed) (filter_by (λ (s : Step). not (s.id == removed)) steps))

  pub steps-Kept :
      (steps : List Step)
      → Kept (flat_map all_outgoing steps) (
          flat_map all_outgoing
            (map (scrub_step removed) (filter_by (λ (s : Step). not (s.id == removed)) steps)))
  steps-Kept [] t h = cc
  steps-Kept (s ∷ steps) t h = elim (Bool-cases (s.id == removed)) [
    | inl deleted ↦
        let rest = steps-Kept steps t (rw deleted at h) in
        ground (arith, rest, contains-append (all_outgoing s) (flat_map all_outgoing steps) t)
    | inr kept ↦ ground (
      arith,
      rw kept at h,
      contains-append (all_outgoing s) (flat_map all_outgoing steps) t,
      contains-append (all_outgoing (scrub_step removed s)) (scrubbed_targets steps) t,
      scrub_step-Kept s t,
      steps-Kept steps t,
    )
  ]

module _ (f : StepId → StepId) where
  pub contains-map :
      (ids : List StepId) (t : StepId) → contains ids t ≡ true → contains (map f ids) (f t) ≡ true
  contains-map [] t h = cc
  contains-map (id ∷ ids) t h = elim (Bool-cases (id == t)) [
    | inl same ↦ rw ((==_iff id t).0 same, ==_refl (f t)) refl
    | inr other ↦ ground (arith, contains-map ids t)
  ]

  pub contains-map_back :
      (ids : List StepId) (t : StepId)
      → contains (map f ids) t ≡ true
      → (u : StepId) × (contains ids u ≡ true) × (f u ≡ t)
  contains-map_back [] t h = cc
  contains-map_back (id ∷ ids) t h = elim (Bool-cases (f id == t)) [
    | inl same ↦ (id, ground (arith, ==_refl id), (==_iff (f id) t).0 same)
    | inr other ↦
        let (u, listed, e) = contains-map_back ids t (ground arith) in (u, ground arith, e)
  ]

pub contains-filter_by :
    (p : StepId → Bool) (ids : List StepId) (t : StepId)
    → contains (filter_by p ids) t ≡ contains ids t && p t
contains-filter_by p [] t = refl
contains-filter_by p (id ∷ ids) t = elim (Bool-cases (id == t)) [
  | inl same ↦ rw ((==_iff id t).0 same) (ground (arith, contains-filter_by p ids t, ==_refl t))
  | inr other ↦ ground (arith, contains-filter_by p ids t)
]

pub IsDistinct-filter_by :
    (p : StepId → Bool) (ids : List StepId) → IsDistinct ids → IsDistinct (filter_by p ids)
IsDistinct-filter_by p [] h = tt
IsDistinct-filter_by p (id ∷ ids) h = elim (Bool-cases (p id)) [
  | inl chosen ↦
      rw chosen (ground (arith, h.0, contains-filter_by p ids id), IsDistinct-filter_by p ids h.1)
  | inr dropped ↦ rw dropped (IsDistinct-filter_by p ids h.1)
]
