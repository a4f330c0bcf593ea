-- ===== src/Modeller/Validate/Cycle/Trails.antt =====
-- Walks in the step graph that `checkGraphCycle` of workflow-modeller/src/domain/validate.ts searches.
use rochallor_engine.Base.{true, false, ◌≡◌, ◌⊎◌, inl, inr, contains, lookup, is_some, arith}
use rochallor_engine.Modeller.Types.{StepId}
use rochallor_engine.Modeller.Validate.Refs.{Index}
use rochallor_engine.Modeller.Validate.Cycle.{targets_of}

module _ (index : Index) where
  abbrev pub Edge : StepId → StepId → Type 0
  Edge u v = contains (targets_of (lookup u index)) v ≡ true

  -- A walk along one edge at least.
  pub data Trail : StepId → StepId → Type 0 where
    one : {u v : StepId} → Edge u v → Trail u v
    link : {u v w : StepId} → Edge u v → Trail v w → Trail u w

  pub extend : {u v w : StepId} → Trail u v → Edge v w → Trail u w
  extend (one e) last = link e (one last)
  extend (link e rest) last = link e (extend rest last)

  abbrev pub Leads : StepId → StepId → Type 0
  Leads u v = (u ≡ v) ⊎ Trail u v

  pub Leads-extend : (u v w : StepId) → Leads u v → Edge v w → Trail u w
  Leads-extend u v w (inl same) e = one (rw same e)
  Leads-extend u v w (inr trail) e = extend trail e

  -- No walk from the id goes on for ever.
  pub data Safe : StepId → Type 0 where
    safe : {u : StepId} → ((v : StepId) → Edge u v → Safe v) → Safe u

  pub Safe-acyclic : (u : StepId) → Safe u → ¬ Trail u u
  Safe-acyclic u (safe next) (one e) = Safe-acyclic u (next u e) (one e)
  Safe-acyclic u (safe next) (link {v = v} e trail) = Safe-acyclic v (next v e) (extend trail e)

  pub Safe-unknown : (u : StepId) → is_some (lookup u index) ≡ false → Safe u
  Safe-unknown u h = safe (λ v e. absurd (ground arith))
