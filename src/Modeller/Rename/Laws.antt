-- ===== src/Modeller/Rename/Laws.antt =====
-- What renaming a step (workflow-modeller/src/domain/rename.ts) keeps.
use rochallor_engine.Base.{
  String, false, Option, none, some, List, [], ◌∷◌, ◌++◌, ◌≡◌, refl, ap, map, contains, values,
  arith, All-append_split, ◌==◌, ==_iff, ==_refl, All, if◌then◌else◌,
}
use rochallor_engine.Modeller.Types.{
  StepId, Step, Variant, service_task, user_task, decision, decision_table, transformation, wait,
  parallel_gateway, join_gateway, end_step, BoundaryEvent, WorkflowDefinition,
}
use rochallor_engine.Modeller.Rename.{
  ok, remap, remap_event, remap_boundary, remap_optional, remap_branches, remap_variant, remap_step,
  has_id, rename_step_id,
}
use rochallor_engine.Modeller.Validate.Outgoing.{event_targets}

-- `f` gives back every id of the list.
abbrev pub Restores : (StepId → StepId) → List StepId → Type 0
Restores f = All (λ id. f id ≡ id)

-- Every id that a variant names.
abbrev pub optional_ids : Option StepId → List StepId
optional_ids none = []
optional_ids (some next) = next ∷ []

unfoldable pub variant_refs : Variant → List StepId
variant_refs (service_task t) = optional_ids t.next_step ++ event_targets t.boundary_events
variant_refs (user_task t) = optional_ids t.next_step ++ event_targets t.boundary_events
variant_refs (wait t) = t.next_step ∷ event_targets t.boundary_events
variant_refs (transformation t) = t.next_step ∷ []
variant_refs (join_gateway next) = next ∷ []
variant_refs (decision branches) = values branches
variant_refs (decision_table t) = t.next_step ∷ []
variant_refs (parallel_gateway t) = t.join_step ∷ t.parallel_next_steps
variant_refs end_step = []

module _ (f g : StepId → StepId) where
  abbrev Undone : List StepId → Type 0
  Undone = Restores (λ id. g (f id))

  remap_ids-back : (ids : List StepId) → Undone ids → map g (map f ids) ≡ ids
  remap_ids-back [] h = refl
  remap_ids-back (id ∷ ids) h = cc (h.0, remap_ids-back ids h.1)

  remap_optional-back :
      (next : Option StepId)
      → Undone (optional_ids next)
      → remap_optional g (remap_optional f next) ≡ next
  unfolding remap_optional
  remap_optional-back none h = refl
  remap_optional-back (some next) h = cc (h.0)

  remap_events-back :
      (events : List BoundaryEvent)
      → Undone (event_targets (some events))
      → map (remap_event g) (map (remap_event f) events) ≡ events
  unfolding remap_event
  remap_events-back [] h = refl
  remap_events-back (e ∷ events) h = ground (arith, h.0, remap_events-back events h.1)

  remap_boundary-back :
      (events : Option (List BoundaryEvent))
      → Undone (event_targets events)
      → remap_boundary g (remap_boundary f events) ≡ events
  unfolding remap_boundary
  remap_boundary-back none h = refl
  remap_boundary-back (some events) h = ap some (remap_events-back events h)

  remap_branches-back :
      (branches : List (String × StepId))
      → Undone (values branches)
      → remap_branches g (remap_branches f branches) ≡ branches
  unfolding remap_branches
  remap_branches-back [] h = refl
  remap_branches-back ((expr, t) ∷ rest) h = ground (arith, h.0, remap_branches-back rest h.1)

  remap_variant-back :
      (v : Variant) → Undone (variant_refs v) → remap_variant g (remap_variant f v) ≡ v
  unfolding remap_variant variant_refs
  remap_variant-back (service_task t) h =
      let (next, events) = All-append_split _ (optional_ids t.next_step) _ h in
      rw (remap_optional-back t.next_step next, remap_boundary-back t.boundary_events events)
  remap_variant-back (user_task t) h =
      let (next, events) = All-append_split _ (optional_ids t.next_step) _ h in
      rw (remap_optional-back t.next_step next, remap_boundary-back t.boundary_events events)
  remap_variant-back (wait t) h = rw (h.0, remap_boundary-back t.boundary_events h.1)
  remap_variant-back (transformation t) h = rw (h.0)
  remap_variant-back (join_gateway next) h = rw (h.0)
  remap_variant-back (decision branches) h = rw (remap_branches-back branches h)
  remap_variant-back (decision_table t) h = rw (h.0)
  remap_variant-back (parallel_gateway t) h = rw (h.0, remap_ids-back t.parallel_next_steps h.1)
  remap_variant-back end_step h = refl

-- The step neither is `id` nor names it.
abbrev pub IsUnnamed : StepId → Step → Type 0
IsUnnamed id step = ((step.id == id) ≡ false) × (contains (variant_refs step.variant) id ≡ false)

remap-back :
    (old_id new_id id : StepId)
    → (id == new_id) ≡ false
    → remap new_id old_id (remap old_id new_id id) ≡ id
unfolding remap
remap-back old_id new_id id h = ground (arith, ==_iff id old_id, ==_iff id new_id, ==_refl new_id)

Restores-remap :
    (old_id new_id : StepId) (ids : List StepId)
    → contains ids new_id ≡ false
    → Restores (λ id. remap new_id old_id (remap old_id new_id id)) ids
Restores-remap old_id new_id [] h = tt
Restores-remap old_id new_id (id ∷ ids) h =
    (remap-back old_id new_id id (ground arith), Restores-remap old_id new_id ids (ground arith))

remap_step-back :
    (old_id new_id : StepId) (step : Step)
    → IsUnnamed new_id step
    → remap_step new_id old_id (remap_step old_id new_id step) ≡ step
unfolding remap_step
remap_step-back old_id new_id step h =
    let inner =
      remap_variant-back (remap old_id new_id) (remap new_id old_id) step.variant
        (Restores-remap old_id new_id (variant_refs step.variant) h.1) in
    λ i. record step { id = own i; variant = inner i }
  where
    renamed : StepId
    renamed = if step.id == old_id then new_id else step.id

    own : (if renamed == new_id then old_id else renamed) ≡ step.id
    own = ground (arith, h.0, ==_iff step.id old_id, ==_iff step.id new_id, ==_refl new_id)

remap_steps-back :
    (old_id new_id : StepId) (steps : List Step)
    → All (IsUnnamed new_id) steps
    → map (remap_step new_id old_id) (map (remap_step old_id new_id) steps) ≡ steps
remap_steps-back old_id new_id [] h = refl
remap_steps-back old_id new_id (s ∷ steps) h =
    cc (remap_step-back old_id new_id s h.0, remap_steps-back old_id new_id steps h.1)

-- After a renaming to a new id no step has the old one.
has_id-remapped :
    (old_id new_id : StepId) (steps : List Step)
    → (old_id == new_id) ≡ false
    → has_id old_id (map (remap_step old_id new_id) steps) ≡ false
unfolding has_id remap_step
has_id-remapped old_id new_id [] h = refl
has_id-remapped old_id new_id (s ∷ steps) h = ground (
  arith,
  has_id-remapped old_id new_id steps h,
  ==_iff s.id old_id,
  ==_iff new_id old_id,
  ==_iff old_id new_id,
)

has_id-unnamed :
    (id : StepId) (steps : List Step) → All (IsUnnamed id) steps → has_id id steps ≡ false
unfolding has_id
has_id-unnamed id [] h = refl
has_id-unnamed id (s ∷ steps) h = ground (arith, has_id-unnamed id steps h.1)

-- Renaming a step to an id that no step has or names succeeds, and renaming it back restores the
-- definition.
pub rename_step_id-back :
    (def : WorkflowDefinition) (old_id new_id : StepId)
    → (old_id == new_id) ≡ false
    → All (IsUnnamed new_id) def.steps
    → (def' : WorkflowDefinition) × (rename_step_id def old_id new_id ≡ ok def')
      × (rename_step_id def' new_id old_id ≡ ok def)
unfolding rename_step_id
rename_step_id-back def old_id new_id apart unnamed =
    let def' = record def { steps = map (remap_step old_id new_id) def.steps } in
    let back = remap_steps-back old_id new_id def.steps unnamed in
    (
      def',
      rw (apart, has_id-unnamed new_id def.steps unnamed),
      ground (
        arith,
        ==_iff old_id new_id,
        ==_iff new_id old_id,
        has_id-remapped old_id new_id def.steps apart,
        back,
      ),
    )

pub has_id-ids :
    (id : StepId) (steps : List Step)
    → has_id id steps ≡ contains (map (λ (s : Step). s.id) steps) id
unfolding has_id
has_id-ids id [] = refl
has_id-ids id (s ∷ steps) = ground (arith, has_id-ids id steps)
