-- ===== src/Modeller/Validate/Laws.antt =====
-- What a definition is like on which `validate` (workflow-modeller/src/domain/validate.ts) reports
-- nothing.
use rochallor_engine.Base.{
  String, true, false, List, [], ◌∷◌, ◌++◌, ◌≡◌, refl, contains, arith, All, IsDistinct,
  append-eq-nil_iff, flat_map, flat_map-eq-nil_iff, nat_eq, length,
}
use rochallor_engine.Modeller.Types.{StepId, Step, WorkflowDefinition}
use rochallor_engine.Modeller.Graph.{index_steps}
use rochallor_engine.Modeller.Expression.Tree.{Parsed}
use rochallor_engine.Modeller.Validate.{check_step, validate}
use rochallor_engine.Modeller.Validate.Shape.{check_step_variant_shape}
use rochallor_engine.Modeller.Validate.Refs.{
  check_refs_resolve, check_boundary_events, check_parallel_join_target,
}
use rochallor_engine.Modeller.Validate.Cycle.{check_graph_cycle}
use rochallor_engine.Modeller.Validate.Reach.{check_reachability, check_nested_parallel}
use rochallor_engine.Modeller.Validate.Format.{
  check_id_format, check_name_required, check_steps_nonempty, check_step_ids_unique,
  check_step_ids_present, check_step_types_valid, check_next_workflow_consistency,
}
use rochallor_engine.Modeller.Validate.Format.Laws.{ids, check_step_ids_unique_iff}
use rochallor_engine.Modeller.Validate.Outgoing.{all_outgoing}
use rochallor_engine.Modeller.Validate.Refs.Laws.{outgoing-resolve}
use rochallor_engine.Modeller.Validate.Cycle.Trails.{Trail}
use rochallor_engine.Modeller.Validate.Cycle.Laws.{check_graph_cycle_iff}
use rochallor_engine.Modeller.Validate.Reach.Laws.{
  Reachable, EndReachable, IsFlat, check_reachability_iff, check_nested_parallel_iff,
}

module _ {ℓ} {A : Type ℓ} where
  front : (xs ys : List A) → xs ++ ys ≡ [] → xs ≡ []
  front xs ys e = ((append-eq-nil_iff xs ys).0 e).0

  back : (xs ys : List A) → xs ++ ys ≡ [] → ys ≡ []
  back xs ys e = ((append-eq-nil_iff xs ys).0 e).1

nonempty_list :
    (steps : List Step)
    → nat_eq (length steps) 0 ≡ false
    → (entry : Step) × (rest : List Step) × (steps ≡ entry ∷ rest)
nonempty_list [] e = cc
nonempty_list (entry ∷ rest) e = (entry, rest, refl)

some_step :
    (def : WorkflowDefinition)
    → check_steps_nonempty def ≡ []
    → (entry : Step) × (rest : List Step) × (def.steps ≡ entry ∷ rest)
unfolding check_steps_nonempty
some_step def e = nonempty_list def.steps (ground arith)

-- A graph that the engine can run: the ids of the steps are distinct, every edge leads to a step,
-- every step and an END step can be reached from the first one, no parallel gateway stands inside
-- the branches of another, and no walk comes back to where it started.
abbrev pub IsSound : WorkflowDefinition → Type 0
IsSound def =
    IsDistinct (ids def.steps)
    × All (λ s. All (λ t. contains (ids def.steps) t ≡ true) (all_outgoing s)) def.steps
    × ((entry : Step) × (rest : List Step) × (def.steps ≡ entry ∷ rest)
        × All (λ s. Reachable (index_steps def) entry.id s.id) def.steps
        × EndReachable (index_steps def) entry.id)
    × All (IsFlat (index_steps def)) def.steps
    × ((u : StepId) → ¬ Trail (index_steps def) u u)

module _ (parse : String → Parsed) where
  closed_step :
      (def : WorkflowDefinition) (step : Step)
      → check_step parse def step ≡ []
      → All (λ t. contains (ids def.steps) t ≡ true) (all_outgoing step)
  unfolding check_step
  closed_step def step e =
      let shape = check_step_variant_shape step in
      let refs = check_refs_resolve (index_steps def) step in
      let events = check_boundary_events (index_steps def) step in
      let three = front (shape ++ refs ++ events) _ e in
      let two = front (shape ++ refs) _ three in
      outgoing-resolve def step (front shape _ two) (back shape _ two)
        (back (shape ++ refs) _ three)

  closed_steps :
      (def : WorkflowDefinition) (steps : List Step)
      → All (λ s. check_step parse def s ≡ []) steps
      → All (λ s. All (λ t. contains (ids def.steps) t ≡ true) (all_outgoing s)) steps
  closed_steps def [] h = tt
  closed_steps def (s ∷ steps) h = (closed_step def s h.0, closed_steps def steps h.1)

  -- A definition on which `validate` reports nothing is sound, whatever the parser of the
  -- expressions does: its step ids are distinct, every edge leads to one of its steps, every step
  -- and some END step can be reached from the first step, no parallel gateway stands inside the
  -- branches of another short of their join, and the step graph has no cycle.
  pub validate-IsSound : (def : WorkflowDefinition) → validate parse def ≡ [] → IsSound def
  unfolding validate
  validate-IsSound def e =
      let index = index_steps def in
      let root = check_id_format def ++ check_name_required def in
      let nonempty = root ++ check_steps_nonempty def in
      let unique = nonempty ++ check_step_ids_unique def in
      let next =
        unique
        ++ check_step_ids_present def
        ++ check_step_types_valid def
        ++ check_next_workflow_consistency def in
      let steps = next ++ flat_map (check_step parse def) def.steps in
      let joins = steps ++ check_parallel_join_target index def in
      let reach = joins ++ check_reachability index def in
      let nested = reach ++ check_nested_parallel index def in
      let e₀ = front (nested ++ check_graph_cycle index def) _ e in
      let e₁ = front nested _ e₀ in
      let e₂ = front reach _ e₁ in
      let e₃ = front steps _ (front joins _ e₂) in
      let e₄ = front unique _ (
        front (unique ++ check_step_ids_present def) _ (
          front (unique ++ check_step_ids_present def ++ check_step_types_valid def) _
            (front next _ e₃))) in
      let e₅ = front nonempty _ e₄ in
      let each = (flat_map-eq-nil_iff (check_step parse def) def.steps).0 (back next _ e₃) in
      let (entry, rest, first) = some_step def (back root _ e₅) in
      let (reachable, ends) = (check_reachability_iff def entry rest first).0 (back joins _ e₂) in
      (
        (check_step_ids_unique_iff def).0 (back nonempty _ e₄),
        closed_steps def def.steps each,
        (entry, rest, first, reachable, ends),
        (check_nested_parallel_iff def).0 (back reach _ e₁),
        (check_graph_cycle_iff def).0 (back nested _ e₀),
      )
