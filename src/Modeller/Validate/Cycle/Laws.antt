-- ===== src/Modeller/Validate/Cycle/Laws.antt =====
-- `checkGraphCycle` of workflow-modeller/src/domain/validate.ts against the cycles of the step graph.
use rochallor_engine.Base.{
  some, List, [], ◌∷◌, ◌≡◌, ◌↔◌, ◌⊎◌, inl, inr, refl, arith, lookup, is_some, length, Bool-cases,
  sym, ◌∙◌,
}
use rochallor_engine.Modeller.Types.{StepId, WorkflowDefinition, Diagnostic}
use rochallor_engine.Modeller.Graph.{index_steps}
use rochallor_engine.Modeller.Graph.Laws.{index_steps-keys}
use rochallor_engine.Modeller.Validate.Cycle.{
  Search, search_all, all_white, find_cycle, first_pushed, check_graph_cycle,
}
use rochallor_engine.Modeller.Validate.Cycle.Trails.{Trail, Safe, Safe-acyclic, Safe-unknown}
use rochallor_engine.Modeller.Validate.Cycle.Colors.{all_white-whites, all_white-lookup}
use rochallor_engine.Modeller.Validate.Cycle.Descent.{IsDone, search_all-visits}
use rochallor_engine.Modeller.Validate.Cycle.Scan.{IsFound, IsFine}

-- The search over all steps, from all ids white.
start : WorkflowDefinition → Search
start def = record { color = all_white [] def.steps; on_cycle = [] }

start-IsFine : (def : WorkflowDefinition) → IsFine (index_steps def) (start def)
unfolding start
start-IsFine def = record {
  quiet = refl;
  blacks = λ u e. absurd (ground (arith, all_white-lookup [] def.steps u));
  colored = λ u e. ground (arith, index_steps-keys def u, all_white-lookup [] def.steps u);
}

search_from_start :
    (def : WorkflowDefinition)
    → IsFound
        (index_steps def)
        (search_all (index_steps def) (length def.steps) def.steps (start def))
      ⊎ IsDone
          (index_steps def)
          def.steps
          (start def)
          (search_all (index_steps def) (length def.steps) def.steps (start def))
unfolding start
search_from_start def =
    search_all-visits (index_steps def) (length def.steps) def.steps (start def) (start-IsFine def)
      (λ u e. absurd (ground (arith, all_white-lookup [] def.steps u)))
      (omega (arith, all_white-whites [] def.steps)) (λ u h. index_steps-keys def u ∙ h)

-- Every walk from every id ends once the search is done.
Safe-done :
    (def : WorkflowDefinition) (s : Search)
    → IsDone (index_steps def) def.steps (start def) s
    → (u : StepId) → Safe (index_steps def) u
Safe-done def s (clean, all_black) u = elim (Bool-cases (is_some (lookup u (index_steps def)))) [
  | inl known ↦ clean.fine.blacks u (all_black u (sym (index_steps-keys def u) ∙ known))
  | inr absent ↦ Safe-unknown (index_steps def) u absent
]

-- The search ends with no cycle in a graph that has none, or with an id that lies on one.
find_cycle-cases :
    (def : WorkflowDefinition)
    → ((find_cycle (index_steps def) def ≡ []) × ((u : StepId) → ¬ Trail (index_steps def) u u))
      ⊎ ((last : StepId) × (rest : List StepId) × (find_cycle (index_steps def) def ≡ last ∷ rest)
          × Trail (index_steps def) (first_pushed last rest) (first_pushed last rest))
unfolding find_cycle start
find_cycle-cases def = elim (search_from_start def) [
  | inl cycle ↦ inr cycle
  | inr done ↦ inl (
    done.0.fine.quiet,
    λ u trail. Safe-acyclic (index_steps def) u (Safe-done def _ done u) trail,
  )
]

-- `checkGraphCycle` pushes nothing exactly if the step graph, boundary events included, has no
-- cycle.
pub check_graph_cycle_iff :
    (def : WorkflowDefinition)
    → (check_graph_cycle (index_steps def) def ≡ [])
      ↔ ((u : StepId) → ¬ Trail (index_steps def) u u)
unfolding check_graph_cycle
check_graph_cycle_iff def = elim (find_cycle-cases def) [
  | inl (quiet, acyclic) ↦ (λ _. acyclic, λ _. rw (quiet, check_graph_cycle) refl)
  | inr (last, rest, e, cycle) ↦ (
    λ silent. cc (rw (e, check_graph_cycle) at silent),
    λ acyclic. absurd (acyclic (first_pushed last rest) cycle),
  )
]

-- What `checkGraphCycle` pushes is one diagnostic at most, and it names an id on a cycle.
pub check_graph_cycle-named :
    (def : WorkflowDefinition) (d : Diagnostic) (ds : List Diagnostic)
    → check_graph_cycle (index_steps def) def ≡ d ∷ ds
    → (u : StepId) × (d.node_id ≡ some u) × Trail (index_steps def) u u × (ds ≡ [])
unfolding check_graph_cycle
check_graph_cycle-named def d ds e = elim (find_cycle-cases def) [
  | inl (quiet, acyclic) ↦ cc (rw (quiet, check_graph_cycle) at e)
  | inr (last, rest, pushed, cycle) ↦
      let both = rw (pushed, check_graph_cycle) at e in (first_pushed last rest, cc, cycle, cc)
]
