-- ===== src/Modeller/Graph/Laws.antt =====
-- The edges that the canvas draws (workflow-modeller/src/domain/graph.ts) against those that the
-- validator walks (domain/validate.ts), and the index of the steps.
use rochallor_engine.Base.{
  ℕ, suc, String, Option, none, some, List, [], ◌∷◌, ◌++◌, ◌≡◌, refl, map, not, ◌||◌, is_empty,
  is_some, filter_by, flat_map_from, contains, lookup, insert, lookup-insert, arith,
}
use mathlib.Core.List.{map-append, append-nil}
use rochallor_engine.Modeller.Types.{
  StepId, Step, Variant, service_task, user_task, decision, decision_table, transformation, wait,
  parallel_gateway, join_gateway, end_step, BoundaryEvent, WorkflowDefinition, GraphEdge, boundary,
}
use rochallor_engine.Modeller.Graph.{
  make_edge, push_boundary_edges, optional_edge, branch_edges, parallel_edge, variant_edges,
  push_step_edges, index_from, index_steps,
}
use rochallor_engine.Modeller.Validate.Outgoing.{
  outgoing_targets, boundary_targets, all_outgoing, event_targets, present_optional,
}

abbrev pub ends : List GraphEdge → List StepId
ends = map (λ (e : GraphEdge). e.to)

abbrev pub non_empty : List StepId → List StepId
non_empty = filter_by (λ t. not (is_empty t))

non_empty-append : (xs ys : List StepId) → non_empty (xs ++ ys) ≡ non_empty xs ++ non_empty ys
non_empty-append [] ys = refl
non_empty-append (x ∷ xs) ys = ground (arith, non_empty-append xs ys)

ends_of_events :
    (id : StepId) (i : ℕ) (events : List BoundaryEvent)
    → ends (
        flat_map_from i (λ index evt. make_edge id evt.target_step_id (boundary index) ∷ []) events)
      ≡ event_targets (some events)
unfolding make_edge
ends_of_events id i [] = refl
ends_of_events id i (e ∷ events) = rw (ends_of_events id (suc i) events)

ends-push_boundary_edges :
    (id : StepId) (events : Option (List BoundaryEvent))
    → ends (push_boundary_edges id events) ≡ event_targets events
unfolding push_boundary_edges
ends-push_boundary_edges id none = refl
ends-push_boundary_edges id (some events) = ends_of_events id 0 events

ends-branch_edges :
    (id : StepId) (branches : List (String × StepId))
    → ends (branch_edges id branches) ≡ outgoing_targets (decision branches)
unfolding branch_edges outgoing_targets make_edge
ends-branch_edges id [] = refl
ends-branch_edges id ((expr, t) ∷ rest) = rw (ends-branch_edges id rest)

ends-parallel_edges :
    (id : StepId) (i : ℕ) (targets : List StepId)
    → ends (flat_map_from i (parallel_edge id) targets) ≡ targets
unfolding parallel_edge make_edge
ends-parallel_edges id i [] = refl
ends-parallel_edges id i (t ∷ targets) = rw (ends-parallel_edges id (suc i) targets)

ends-optional_edge :
    (id : StepId) (next : Option StepId)
    → non_empty (ends (optional_edge id next)) ≡ non_empty (present_optional next)
unfolding optional_edge make_edge
ends-optional_edge id none = refl
ends-optional_edge id (some next) = ground arith

-- The task variants: an optional edge, and the edges of the boundary events.
ends_of_task :
    (id : StepId) (next : Option StepId) (events : Option (List BoundaryEvent))
    → non_empty (ends (optional_edge id next ++ push_boundary_edges id events))
      ≡ non_empty (present_optional next ++ event_targets events)
ends_of_task id next events =
    simp
      (map-append, non_empty-append, ends-optional_edge id next, ends-push_boundary_edges id events)

ends-variant_edges :
    (id : StepId) (v : Variant)
    → non_empty (ends (variant_edges id v)) ≡ non_empty (outgoing_targets v ++ boundary_targets v)
unfolding variant_edges outgoing_targets boundary_targets
ends-variant_edges id (service_task t) = ends_of_task id t.next_step t.boundary_events
ends-variant_edges id (user_task t) = ends_of_task id t.next_step t.boundary_events
ends-variant_edges id (wait t) = rw (ends-push_boundary_edges id t.boundary_events)
ends-variant_edges id (decision branches) = simp (ends-branch_edges id branches, append-nil)
ends-variant_edges id (decision_table t) = ground arith
ends-variant_edges id (transformation t) = refl
ends-variant_edges id (parallel_gateway t) =
    simp (ends-parallel_edges id 0 t.parallel_next_steps, append-nil)
ends-variant_edges id (join_gateway next_step) = refl
ends-variant_edges id end_step = refl

-- The edges drawn out of a step lead to the targets that the validator follows, in the same order,
-- but for empty targets, which the validator does not visit.
pub push_step_edges-targets :
    (step : Step) → non_empty (ends (push_step_edges step)) ≡ non_empty (all_outgoing step)
unfolding push_step_edges all_outgoing
push_step_edges-targets step = ends-variant_edges step.id step.variant

index_from-keys :
    (index : List (StepId × Step)) (steps : List Step) (id : StepId)
    → is_some (lookup id (index_from index steps))
      ≡ is_some (lookup id index) || contains (map (λ (s : Step). s.id) steps) id
unfolding index_from
index_from-keys index [] id = ground arith
index_from-keys index (s ∷ steps) id =
    ground (arith, index_from-keys (insert s.id s index) steps id, lookup-insert s.id id s index)

-- An id is in the index exactly if a step has it.
pub index_steps-keys :
    (def : WorkflowDefinition) (id : StepId)
    → is_some (lookup id (index_steps def)) ≡ contains (map (λ (s : Step). s.id) def.steps) id
unfolding index_steps
index_steps-keys def id = index_from-keys [] def.steps id
