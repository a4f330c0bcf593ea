-- ===== src/Modeller/References/Laws.antt =====
-- The dialog that deletes a step (workflow-modeller/src/panels/DeleteStepDialog.tsx): what it lists,
-- and what its replacement leaves.
use rochallor_engine.Base.{
  ℕ, suc, String, false, Option, none, some, List, [], ◌∷◌, ◌++◌, ◌≡◌, ◌↔◌, arith, contains, values,
  flat_map_from, flat_map-eq-nil_iff, All, All-iff, append-eq-nil_iff, ◌==◌, if◌then◌else◌,
  contains-append, ◌<>◌, decimal,
}
use rochallor_engine.Modeller.Types.{
  StepId, Step, Variant, service_task, user_task, decision, decision_table, transformation, wait,
  parallel_gateway, join_gateway, end_step, BoundaryEvent, WorkflowDefinition,
}
use rochallor_engine.Modeller.Rename.Laws.{variant_refs, optional_ids}
use rochallor_engine.Modeller.Validate.Outgoing.{event_targets}
use rochallor_engine.Modeller.References.{
  next_step_hit, optional_hit, boundary_hits, branch_hits, parallel_hits, variant_hits,
  find_references,
}

next_step_hit_iff :
    (step_id next id : StepId) → (next_step_hit step_id next id ≡ []) ↔ ((next == id) ≡ false)
unfolding next_step_hit
next_step_hit_iff step_id next id = ground arith

boundary_hits_from :
    (step_id id : StepId) (i : ℕ) (events : List BoundaryEvent) (f : ℕ → String)
    → (flat_map_from i (λ i evt. if evt.target_step_id == id then f i ∷ [] else []) events ≡ [])
      ↔ (contains (event_targets (some events)) id ≡ false)
boundary_hits_from step_id id i [] f = ground arith
boundary_hits_from step_id id i (e ∷ events) f =
    ground (arith, boundary_hits_from step_id id (suc i) events f)

branch_hits_iff :
    (step_id : StepId) (branches : List (String × StepId)) (id : StepId)
    → (branch_hits step_id branches id ≡ []) ↔ (contains (values branches) id ≡ false)
unfolding branch_hits
branch_hits_iff step_id [] id = ground arith
branch_hits_iff step_id ((expr, t) ∷ rest) id = ground (arith, branch_hits_iff step_id rest id)

-- Hits and ids, one list behind another.
append_iff :
    (id : StepId) (hits more : List String) (refs rest : List StepId)
    → (hits ≡ []) ↔ (contains refs id ≡ false)
    → (more ≡ []) ↔ (contains rest id ≡ false)
    → (hits ++ more ≡ []) ↔ (contains (refs ++ rest) id ≡ false)
append_iff id hits more refs rest first second =
    ground (arith, append-eq-nil_iff hits more, contains-append refs rest id)

optional_hit_iff :
    (step_id : StepId) (next : Option StepId) (id : StepId)
    → (optional_hit step_id next id ≡ []) ↔ (contains (optional_ids next) id ≡ false)
unfolding optional_hit next_step_hit
optional_hit_iff step_id none id = ground arith
optional_hit_iff step_id (some next) id = ground arith

boundary_hits_iff :
    (step_id : StepId) (events : Option (List BoundaryEvent)) (id : StepId)
    → (boundary_hits step_id events id ≡ []) ↔ (contains (event_targets events) id ≡ false)
unfolding boundary_hits
boundary_hits_iff step_id none id = ground arith
boundary_hits_iff step_id (some events) id =
    boundary_hits_from step_id id 0 events
      (λ i. step_id <> ".boundaryEvents[" <> decimal i <> "].targetStepId")

parallel_hits_from :
    (id : StepId) (i : ℕ) (targets : List StepId) (f : ℕ → String)
    → (flat_map_from i (λ i t. if t == id then f i ∷ [] else []) targets ≡ [])
      ↔ (contains targets id ≡ false)
parallel_hits_from id i [] f = ground arith
parallel_hits_from id i (t ∷ targets) f = ground (arith, parallel_hits_from id (suc i) targets f)

parallel_hits_iff :
    (step_id : StepId) (targets : List StepId) (id : StepId)
    → (parallel_hits step_id targets id ≡ []) ↔ (contains targets id ≡ false)
unfolding parallel_hits
parallel_hits_iff step_id targets id =
    parallel_hits_from id 0 targets (λ i. step_id <> ".parallelNextSteps[" <> decimal i <> "]")

variant_hits_iff :
    (step_id : StepId) (v : Variant) (id : StepId)
    → (variant_hits step_id v id ≡ []) ↔ (contains (variant_refs v) id ≡ false)
unfolding variant_hits variant_refs
variant_hits_iff step_id (service_task t) id =
    append_iff id (optional_hit step_id t.next_step id) _ (optional_ids t.next_step) _
      (optional_hit_iff step_id t.next_step id) (boundary_hits_iff step_id t.boundary_events id)
variant_hits_iff step_id (user_task t) id =
    append_iff id (optional_hit step_id t.next_step id) _ (optional_ids t.next_step) _
      (optional_hit_iff step_id t.next_step id) (boundary_hits_iff step_id t.boundary_events id)
variant_hits_iff step_id (wait t) id =
    append_iff id (next_step_hit step_id t.next_step id) _ (t.next_step ∷ []) _
      (ground (arith, next_step_hit_iff step_id t.next_step id))
      (boundary_hits_iff step_id t.boundary_events id)
variant_hits_iff step_id (transformation t) id =
    ground (arith, next_step_hit_iff step_id t.next_step id)
variant_hits_iff step_id (join_gateway next) id = ground (arith, next_step_hit_iff step_id next id)
variant_hits_iff step_id (decision branches) id = branch_hits_iff step_id branches id
variant_hits_iff step_id (decision_table t) id =
    ground (arith, next_step_hit_iff step_id t.next_step id)
variant_hits_iff step_id (parallel_gateway t) id =
    let targets = parallel_hits_iff step_id t.parallel_next_steps id in
    ground (arith, targets, append-eq-nil_iff (parallel_hits step_id t.parallel_next_steps id))
variant_hits_iff step_id end_step id = ground arith

-- The dialog lists no reference exactly if no step of the definition names the id.
pub find_references_iff :
    (def : WorkflowDefinition) (id : StepId)
    → (find_references def id ≡ [])
      ↔ All (λ (s : Step). contains (variant_refs s.variant) id ≡ false) def.steps
unfolding find_references
find_references_iff def id =
    let each = flat_map-eq-nil_iff (λ (s : Step). variant_hits s.id s.variant id) def.steps in
    let unnamed = All-iff (λ (s : Step). variant_hits_iff s.id s.variant id) def.steps in
    (λ e. unnamed.0 (each.0 e), λ h. each.1 (unnamed.1 h))
