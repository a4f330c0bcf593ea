-- ===== src/Modeller/References/Rewriting.antt =====
-- `rewriteRefs` of workflow-modeller/src/panels/DeleteStepDialog.tsx against `remapStep` of
-- domain/rename.ts.
use rochallor_engine.Base.{
  String, false, Option, none, some, List, [], ◌∷◌, ◌≡◌, refl, map, arith, contains, values, All,
  ◌==◌, ==_iff, if◌then◌else◌, fun_ext, ap,
}
use mathlib.Core.List.{map-append}
use rochallor_engine.Modeller.Types.{
  StepId, Step, Variant, service_task, user_task, decision, decision_table, transformation, wait,
  parallel_gateway, join_gateway, end_step, BoundaryEvent, WorkflowDefinition,
}
use rochallor_engine.Modeller.Rename.{
  remap, remap_optional, remap_event, remap_boundary, remap_branches, remap_variant, remap_step,
}
use rochallor_engine.Modeller.Rename.Laws.{variant_refs, optional_ids}
use rochallor_engine.Modeller.Validate.Outgoing.{event_targets}
use rochallor_engine.Modeller.References.Laws.{find_references_iff}
use rochallor_engine.Modeller.References.{
  find_references, swap, swap_optional, swap_events, swap_branches, rewrite_variant, rewrite_refs,
}

-- `rewriteRefs` of the dialog and `remapStep` of domain/rename.ts.
module _ (old_id new_id : StepId) where
  swap_optional_lem :
      (next : Option StepId)
      → swap_optional old_id new_id next ≡ remap_optional (remap old_id new_id) next
  unfolding swap_optional swap remap_optional remap
  swap_optional_lem none = refl
  swap_optional_lem (some next) = refl

  swap_event_lem :
      (e : BoundaryEvent)
      → (if e.target_step_id == old_id then record e { target_step_id = new_id } else e)
        ≡ remap_event (remap old_id new_id) e
  unfolding remap_event remap
  swap_event_lem e = ground arith

  swap_events_lem :
      (events : Option (List BoundaryEvent))
      → swap_events old_id new_id events ≡ remap_boundary (remap old_id new_id) events
  unfolding swap_events remap_boundary
  swap_events_lem none = refl
  swap_events_lem (some events) = ap (λ f. some (map f events)) (fun_ext swap_event_lem)

  swap_branches_lem :
      (branches : List (String × StepId))
      → swap_branches old_id new_id branches ≡ remap_branches (remap old_id new_id) branches
  unfolding swap_branches remap_branches swap remap
  swap_branches_lem [] = refl
  swap_branches_lem ((expr, t) ∷ rest) = rw (swap_branches_lem rest)

  rewrite_variant_lem :
      (v : Variant) → rewrite_variant old_id new_id v ≡ remap_variant (remap old_id new_id) v
  unfolding rewrite_variant remap_variant swap remap
  rewrite_variant_lem (service_task t) =
      rw (swap_optional_lem t.next_step, swap_events_lem t.boundary_events)
  rewrite_variant_lem (user_task t) =
      rw (swap_optional_lem t.next_step, swap_events_lem t.boundary_events)
  rewrite_variant_lem (wait t) = rw (swap_events_lem t.boundary_events)
  rewrite_variant_lem (transformation t) = refl
  rewrite_variant_lem (join_gateway next) = refl
  rewrite_variant_lem (decision branches) = rw (swap_branches_lem branches)
  rewrite_variant_lem (decision_table t) = refl
  rewrite_variant_lem (parallel_gateway t) = refl
  rewrite_variant_lem end_step = refl

  -- The dialog rewrites the references of a step as a renaming does, and leaves the step's own id.
  pub rewrite_refs_lem :
      (step : Step)
      → rewrite_refs step old_id new_id ≡ record (remap_step old_id new_id step) { id = step.id }
  unfolding rewrite_refs remap_step
  rewrite_refs_lem step = ap (λ v. record step { variant = v }) (rewrite_variant_lem step.variant)

optional_refs-remap :
    (f : StepId → StepId) (next : Option StepId)
    → optional_ids (remap_optional f next) ≡ map f (optional_ids next)
unfolding remap_optional
optional_refs-remap f none = refl
optional_refs-remap f (some next) = refl

event_refs-remap :
    (f : StepId → StepId) (events : List BoundaryEvent)
    → event_targets (some (map (remap_event f) events)) ≡ map f (event_targets (some events))
unfolding remap_event
event_refs-remap f [] = refl
event_refs-remap f (e ∷ events) = rw (event_refs-remap f events)

boundary_refs-remap :
    (f : StepId → StepId) (events : Option (List BoundaryEvent))
    → event_targets (remap_boundary f events) ≡ map f (event_targets events)
unfolding remap_boundary
boundary_refs-remap f none = refl
boundary_refs-remap f (some events) = event_refs-remap f events

branch_refs-remap :
    (f : StepId → StepId) (branches : List (String × StepId))
    → values (remap_branches f branches) ≡ map f (values branches)
unfolding remap_branches
branch_refs-remap f [] = refl
branch_refs-remap f ((expr, t) ∷ rest) = rw (branch_refs-remap f rest)

variant_refs-remap :
    (f : StepId → StepId) (v : Variant) → variant_refs (remap_variant f v) ≡ map f (variant_refs v)
unfolding variant_refs remap_variant
variant_refs-remap f (service_task t) =
    simp (map-append, optional_refs-remap f t.next_step, boundary_refs-remap f t.boundary_events)
variant_refs-remap f (user_task t) =
    simp (map-append, optional_refs-remap f t.next_step, boundary_refs-remap f t.boundary_events)
variant_refs-remap f (wait t) = simp (boundary_refs-remap f t.boundary_events)
variant_refs-remap f (transformation t) = refl
variant_refs-remap f (join_gateway next) = refl
variant_refs-remap f (decision branches) = branch_refs-remap f branches
variant_refs-remap f (decision_table t) = refl
variant_refs-remap f (parallel_gateway t) = refl
variant_refs-remap f end_step = refl

contains-remapped :
    (old_id new_id : StepId) (ids : List StepId)
    → (old_id == new_id) ≡ false
    → contains (map (remap old_id new_id) ids) old_id ≡ false
unfolding remap
contains-remapped old_id new_id [] apart = refl
contains-remapped old_id new_id (id ∷ ids) apart =
    ground
      (arith, contains-remapped old_id new_id ids apart, ==_iff new_id old_id, ==_iff old_id new_id)

rewritten_unnamed :
    (old_id new_id : StepId) (steps : List Step)
    → (old_id == new_id) ≡ false
    → All
        (λ (s : Step). contains (variant_refs s.variant) old_id ≡ false)
        (map (λ s. rewrite_refs s old_id new_id) steps)
unfolding rewrite_refs
rewritten_unnamed old_id new_id [] apart = tt
rewritten_unnamed old_id new_id (s ∷ steps) apart = (
  rw
      (
        rewrite_variant_lem old_id new_id s.variant,
        variant_refs-remap (remap old_id new_id) s.variant,
      )
      (contains-remapped old_id new_id (variant_refs s.variant) apart),
  rewritten_unnamed old_id new_id steps apart,
)

-- Once every step is rewritten to another id, the dialog lists no reference any more.
pub find_references-rewrite_refs :
    (def : WorkflowDefinition) (old_id new_id : StepId)
    → (old_id == new_id) ≡ false
    → find_references
        (record def { steps = map (λ s. rewrite_refs s old_id new_id) def.steps })
        old_id
      ≡ []
find_references-rewrite_refs def old_id new_id apart =
    (find_references_iff (record def { steps = map (λ s. rewrite_refs s old_id new_id) def.steps })
        old_id).1
      (rewritten_unnamed old_id new_id def.steps apart)
