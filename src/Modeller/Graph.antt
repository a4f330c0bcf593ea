-- ===== src/Modeller/Graph.antt =====
-- workflow-modeller/src/domain/graph.ts: the nodes and edges that the canvas draws, and the index.
pub mod Laws
use rochallor_engine.Base.{
  ℕ, suc, String, Bool, true, false, Option, none, some, List, [], ◌∷◌, ◌++◌, map, if◌then◌else◌,
  not, is_empty, ◌<>◌, decimal, flat_map, flat_map_from, insert,
}
use rochallor_engine.Modeller.Types.{
  StepId, Step, Variant, service_task, user_task, decision, decision_table, transformation, wait,
  parallel_gateway, join_gateway, end_step, BoundaryEvent, WorkflowDefinition, EdgeVariant,
  sequential, conditional, parallel, join_target, join_out, boundary, GraphNode, GraphEdge,
  step_type,
}

-- Truthiness of an optional string: neither absent nor empty.
abbrev pub truthy : Option String → Bool
truthy none = false
truthy (some s) = not (is_empty s)

abbrev pub kind_name : EdgeVariant → String
kind_name sequential = "sequential"
kind_name (conditional _) = "conditional"
kind_name parallel = "parallel"
kind_name join_target = "join-target"
kind_name join_out = "join-out"
kind_name (boundary _) = "boundary"

discriminator : EdgeVariant → String
discriminator (conditional expression) = "conditional:" <> expression
discriminator (boundary index) = "boundary:" <> decimal index
discriminator variant = kind_name variant

abbrev key_suffix : Option String → String
key_suffix none = ""
key_suffix (some key) = ":" <> key

pub edge_id : StepId → StepId → EdgeVariant → Option String → String
unfolding discriminator
edge_id from to variant key = from <> "--" <> discriminator variant <> key_suffix key <> "-->" <> to

unfoldable pub to_nodes_from : ℕ → List Step → List GraphNode
to_nodes_from i [] = []
to_nodes_from i (step ∷ steps) =
    record {
      id = step.id;
      type = step_type step.variant;
      name = step.name;
      is_entry = elim i [ ℕ.zero ↦ true | ℕ.suc _ ↦ false ];
      step = step;
    }
    ∷ to_nodes_from (suc i) steps

unfoldable pub to_nodes : WorkflowDefinition → List GraphNode
unfolding to_nodes_from
to_nodes def = to_nodes_from 0 def.steps

unfoldable pub make_edge : StepId → StepId → EdgeVariant → GraphEdge
make_edge from to variant = record {
  id = edge_id from to variant none;
  from = from;
  to = to;
  variant = variant;
  source_handle = none;
}

unfoldable pub push_boundary_edges : StepId → Option (List BoundaryEvent) → List GraphEdge
unfolding make_edge
push_boundary_edges id none = []
push_boundary_edges id (some events) =
    flat_map_from 0 (λ index evt. make_edge id evt.target_step_id (boundary index) ∷ []) events

-- `if (nextStep) out.push(…)`.
unfoldable pub optional_edge : StepId → Option StepId → List GraphEdge
unfolding make_edge
optional_edge id none = []
optional_edge id (some next) = if is_empty next then [] else make_edge id next sequential ∷ []

unfoldable pub branch_edges : StepId → List (String × StepId) → List GraphEdge
unfolding make_edge
branch_edges id [] = []
branch_edges id ((expression, target) ∷ rest) =
    record (make_edge id target (conditional expression)) {
      source_handle = some ("branch:" <> expression);
    }
    ∷ branch_edges id rest

unfoldable pub parallel_edge : StepId → ℕ → StepId → List GraphEdge
unfolding make_edge
parallel_edge id i target =
    record (make_edge id target parallel) { source_handle = some ("parallel:" <> decimal i) } ∷ []

unfoldable pub variant_edges : StepId → Variant → List GraphEdge
unfolding make_edge push_boundary_edges optional_edge branch_edges parallel_edge
variant_edges id (service_task t) =
    optional_edge id t.next_step ++ push_boundary_edges id t.boundary_events
variant_edges id (user_task t) =
    optional_edge id t.next_step ++ push_boundary_edges id t.boundary_events
variant_edges id (wait t) =
    make_edge id t.next_step sequential ∷ push_boundary_edges id t.boundary_events
variant_edges id (decision branches) = branch_edges id branches
variant_edges id (decision_table t) = make_edge id t.next_step sequential ∷ []
variant_edges id (transformation t) = make_edge id t.next_step sequential ∷ []
variant_edges id (parallel_gateway t) = flat_map_from 0 (parallel_edge id) t.parallel_next_steps
variant_edges id (join_gateway next_step) = make_edge id next_step join_out ∷ []
variant_edges id end_step = []

unfoldable pub push_step_edges : Step → List GraphEdge
unfolding variant_edges
push_step_edges step = variant_edges step.id step.variant

unfoldable pub to_edges : WorkflowDefinition → List GraphEdge
unfolding push_step_edges
to_edges def = flat_map push_step_edges def.steps

-- The `Map` from an id to its step: the last step of an id stands in it.
unfoldable pub index_from : List (StepId × Step) → List Step → List (StepId × Step)
index_from index [] = index
index_from index (step ∷ steps) = index_from (insert step.id step index) steps

unfoldable pub index_steps : WorkflowDefinition → List (StepId × Step)
unfolding index_from
index_steps def = index_from [] def.steps
