-- ===== src/Modeller/Validate/Walk.antt =====
-- The worklist loop that `checkReachability` and `checkNestedParallel` of
-- workflow-modeller/src/domain/validate.ts share. They differ in the steps at which a walk stops,
-- in the edges that it follows and in what it reports at a step that it visits.
pub mod Laws
pub mod Ends
pub mod Reports
use rochallor_engine.Base.{
  ℕ, zero, suc, String, Bool, Option, none, some, List, [], ◌∷◌, ◌++◌, ◌||◌, if◌then◌else◌, ◌+◌,
  is_empty, contains, length, lookup,
}
use rochallor_engine.Modeller.Types.{StepId, Step, Diagnostic}
use rochallor_engine.Modeller.Validate.Refs.{Index}

-- `visited` is the set, the last visited first; `stack` has its top at the head.
pub record Walk : Type 0 where
  pub visited : List StepId
  pub stack : List StepId
  pub out : List Diagnostic

-- `for (const target of targets) if (!visited.has(target)) stack.push(target)`.
unfoldable pub push_targets : List StepId → List StepId → List StepId → List StepId
push_targets visited stack [] = stack
push_targets visited stack (target ∷ targets) =
    push_targets visited (if contains visited target then stack else target ∷ stack) targets

-- The edges out of the entries of the index that are still to be visited.
unfoldable pub open_edges : (Step → List StepId) → List StepId → Index → ℕ
open_edges targets visited [] = 0
open_edges targets visited ((id, step) ∷ rest) =
    (if contains visited id then 0 else length (targets step)) + open_edges targets visited rest

module _ (index : Index) (stop : StepId → Bool) (targets : Step → List StepId)
    (report : Step → List Diagnostic) where
  -- A step that is in the index and was not visited before.
  unfoldable pub expand : List StepId → List StepId → List Diagnostic → Step → Walk
  unfolding push_targets
  expand visited stack out step = record {
    visited = visited;
    stack = push_targets visited stack (targets step);
    out = out ++ report step;
  }

  -- The body of the loop, after `id` left the stack.
  unfoldable pub visit : List StepId → StepId → List StepId → List Diagnostic → Walk
  unfolding expand
  visit visited id stack out =
      if is_empty id || contains visited id || stop id
      then record { visited = visited; stack = stack; out = out }
      else elim (lookup id index) [
        | none ↦ record { visited = id ∷ visited; stack = stack; out = out }
        | some step ↦ expand (id ∷ visited) stack out step
      ]

  -- The loop on fuel; `enough` below is a bound on its rounds.
  unfoldable pub walk : ℕ → List StepId → List StepId → List Diagnostic → Walk
  unfolding visit
  walk zero visited stack out = record { visited = visited; stack = stack; out = out }
  walk (suc fuel) visited [] out = record { visited = visited; stack = []; out = out }
  walk (suc fuel) visited (id ∷ stack) out =
      let next = visit visited id stack out in walk fuel next.visited next.stack next.out

  -- Every round takes one id off the stack and opens at most the edges of a step not yet visited.
  unfoldable pub enough : List StepId → ℕ
  unfolding open_edges
  enough stack = length stack + open_edges targets [] index

  unfoldable pub walk_from : List StepId → Walk
  unfolding walk enough
  walk_from stack = walk (enough stack) [] stack []
