-- ===== src/Modeller/Validate/Cycle.antt =====
-- `checkGraphCycle` of workflow-modeller/src/domain/validate.ts: a depth-first search with three
-- colours.
pub mod Trails
pub mod Colors
pub mod Scan
pub mod Descent
pub mod Laws
use rochallor_engine.Base.{
  ℕ, zero, suc, Option, none, some, List, [], ◌∷◌, ◌<>◌, insert, lookup, length,
}
use rochallor_engine.Modeller.Types.{
  StepId, Step, WorkflowDefinition, Diagnostic, warning, graph_cycle,
}
use rochallor_engine.Modeller.Validate.Diag.{plain}
use rochallor_engine.Modeller.Validate.Refs.{Index}
use rochallor_engine.Modeller.Validate.Outgoing.{all_outgoing}

pub data Color : Type 0 where
  white gray black : Color

pub record Search : Type 0 where
  pub color : List (StepId × Color)
  pub on_cycle : List StepId

unfoldable pub paint : StepId → Color → Search → Search
paint id c s = record s { color = insert id c s.color }

-- `onCycle.push(target)`; the last element pushed stands first.
unfoldable pub found : StepId → Search → Search
found target s = record s { on_cycle = target ∷ s.on_cycle }

-- The loop over the targets of `id`, with the recursive call of `dfs` as an argument.
unfoldable pub scan : (StepId → Search → Search) → StepId → List StepId → Search → Search
unfolding paint found
scan dfs id [] s = paint id black s
scan dfs id (target ∷ targets) s = elim (lookup target s.color) [
  | none ↦ scan dfs id targets s
  | some gray ↦ found target s
  | some white ↦ scan dfs id targets (dfs target s)
  | some black ↦ scan dfs id targets s
]

abbrev pub targets_of : Option Step → List StepId
targets_of none = []
targets_of (some step) = all_outgoing step

module _ (index : Index) where
  -- The recursion on fuel: every call paints a white step gray, so as many calls as there are
  -- steps are nested at most.
  unfoldable pub dfs : ℕ → StepId → Search → Search
  unfolding scan paint
  dfs zero id s = s
  dfs (suc fuel) id s = elim s.on_cycle [
    | _ ∷ _ ↦ s
    | [] ↦ scan (dfs fuel) id (targets_of (lookup id index)) (paint id gray s)
  ]

  -- The loop over the steps, which breaks off when a cycle is found.
  unfoldable pub search_all : ℕ → List Step → Search → Search
  unfolding dfs
  search_all fuel [] s = s
  search_all fuel (step ∷ steps) s = elim s.on_cycle [
    | _ ∷ _ ↦ s
    | [] ↦ elim (lookup step.id s.color) [
      | some white ↦ search_all fuel steps (dfs fuel step.id s)
      | _ ↦ search_all fuel steps s
    ]
  ]

unfoldable pub all_white : List (StepId × Color) → List Step → List (StepId × Color)
all_white color [] = color
all_white color (step ∷ steps) = all_white (insert step.id white color) steps

unfoldable pub find_cycle : Index → WorkflowDefinition → List StepId
unfolding search_all all_white
find_cycle index def =
    (search_all index (length def.steps) def.steps
      (record { color = all_white [] def.steps; on_cycle = [] })).on_cycle

-- `onCycle[0]`: the element that was pushed first.
abbrev pub first_pushed : StepId → List StepId → StepId
first_pushed node [] = node
first_pushed _ (node ∷ rest) = first_pushed node rest

unfoldable pub check_graph_cycle : Index → WorkflowDefinition → List Diagnostic
unfolding find_cycle
check_graph_cycle index def = elim (find_cycle index def) [
  | [] ↦ []
  | last ∷ rest ↦
      let node = first_pushed last rest in
      record (plain graph_cycle warning
        ("Cycle detected in step graph (involves \"" <> node <> "\").")) { node_id = some node }
      ∷ []
]
