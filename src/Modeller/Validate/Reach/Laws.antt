-- ===== src/Modeller/Validate/Reach/Laws.antt =====
-- The walks of workflow-modeller/src/domain/validate.ts against reachability in the step graph.
use rochallor_engine.Base.{
  Bool, true, false, Option, none, some, List, [], ◌∷◌, ◌≡◌, ◌↔◌, refl, ◌==◌, contains, lookup,
  arith, All, All-iff, append-eq-nil_iff, flat_map, flat_map-eq-nil_iff, ◌≢◌, ◌⊎◌, inl, inr,
  contains_of_any, any_of_contains,
}
use rochallor_engine.Modeller.Types.{
  StepId, Step, Variant, end_step, parallel_gateway, ParallelGateway, WorkflowDefinition,
}
use rochallor_engine.Modeller.Graph.{index_steps}
use rochallor_engine.Modeller.Validate.Refs.{Index}
use rochallor_engine.Modeller.Validate.Outgoing.{outgoing_targets, all_outgoing}
use rochallor_engine.Modeller.Validate.Walk.Laws.{Reach, walk_from-visited_iff}
use rochallor_engine.Modeller.Validate.Walk.Reports.{walk_from-IsSilent_iff}
use rochallor_engine.Modeller.Validate.Reach.{
  reached, is_end, is_end_variant, check_reached, check_end_reached, check_reachability_from,
  reachability_of_steps, check_reachability, report_nested, as_stack, nested_walk, check_nested,
  check_nested_parallel,
}

-- A walk along the edges, boundary events included, leads from the entry to the step.
abbrev pub Reachable : Index → StepId → StepId → Type 0
Reachable index entry v = Reach index (λ _. false) all_outgoing (entry ∷ []) v

reached_iff :
    (index : Index) (entry v : StepId)
    → (contains (reached index entry) v ≡ true) ↔ Reachable index entry v
unfolding reached
reached_iff index entry v =
    walk_from-visited_iff index (λ _. false) all_outgoing (λ _. []) (entry ∷ []) v

check_reached_iff :
    (index : Index) (entry : StepId) (step : Step)
    → (check_reached (reached index entry) step ≡ []) ↔ Reachable index entry step.id
unfolding check_reached
check_reached_iff index entry step =
    let met = reached_iff index entry step.id in
    (λ e. met.0 (ground arith), λ r. ground (arith, met.1 r))

is_end_variant_lem : (v : Variant) → is_end_variant v ≡ true → v ≡ end_step
is_end_variant_lem v h = ground arith

-- An END step is reachable.
abbrev pub EndReachable : Index → StepId → Type 0
EndReachable index entry =
    (v : StepId) × (step : Step) × Reachable index entry v
    × (lookup v index ≡ some step)
    × (step.variant ≡ end_step)

is_end_found :
    (o : Option Step)
    → is_end o ≡ true
    → (step : Step) × (o ≡ some step) × (step.variant ≡ end_step)
is_end_found none e = cc
is_end_found (some step) e = (step, refl, is_end_variant_lem step.variant e)

check_end_reached_iff :
    (index : Index) (entry : StepId)
    → (check_end_reached index (reached index entry) ≡ []) ↔ EndReachable index entry
unfolding check_end_reached
check_end_reached_iff index entry =
    let p = λ (id : StepId). is_end (lookup id index) in
    (
      λ e.
          let (v, met, ends) = contains_of_any p (reached index entry) (ground arith) in
          let (step, found, variant) = is_end_found (lookup v index) ends in
          (v, step, (reached_iff index entry v).0 met, found, variant),
      λ (v, step, r, found, variant).
          let ends : is_end (lookup v index) ≡ true = rw (found, variant) refl in
          rw (any_of_contains p (reached index entry) v ((reached_iff index entry v).1 r) ends),
    )

check_reachability_from_iff :
    (index : Index) (entry : StepId) (steps : List Step)
    → (check_reachability_from index entry steps ≡ [])
      ↔ (All (λ s. Reachable index entry s.id) steps × EndReachable index entry)
unfolding check_reachability_from
check_reachability_from_iff index entry steps =
    let split =
      append-eq-nil_iff (flat_map (check_reached (reached index entry)) steps)
        (check_end_reached index (reached index entry)) in
    let each = flat_map-eq-nil_iff (check_reached (reached index entry)) steps in
    let met = All-iff (check_reached_iff index entry) steps in
    let ends = check_end_reached_iff index entry in
    (
      λ e. (met.0 (each.0 (split.0 e).0), ends.0 (split.0 e).1),
      λ h. split.1 (each.1 (met.1 h.0), ends.1 h.1),
    )

reachability_of_steps_iff :
    (index : Index) (steps : List Step) (entry : Step) (rest : List Step)
    → steps ≡ entry ∷ rest
    → (reachability_of_steps index steps ≡ [])
      ↔ (All (λ s. Reachable index entry.id s.id) steps × EndReachable index entry.id)
unfolding reachability_of_steps
reachability_of_steps_iff index steps entry rest e =
    rw (e, reachability_of_steps) (check_reachability_from_iff index entry.id (entry ∷ rest))

-- For a definition whose first step is `entry`, `checkReachability` pushes nothing exactly if every
-- step is reachable from the entry step and some END step is.
pub check_reachability_iff :
    (def : WorkflowDefinition) (entry : Step) (rest : List Step)
    → def.steps ≡ entry ∷ rest
    → (check_reachability (index_steps def) def ≡ []) ↔ (
        All (λ s. Reachable (index_steps def) entry.id s.id) def.steps
        × EndReachable (index_steps def) entry.id)
unfolding check_reachability
check_reachability_iff def entry rest e =
    reachability_of_steps_iff (index_steps def) def.steps entry rest e

-- The step of an id is a PARALLEL_GATEWAY.
abbrev pub IsGateway : Index → StepId → Type 0
IsGateway index v =
    (step : Step) × (t : ParallelGateway) × (lookup v index ≡ some step)
    × (step.variant ≡ parallel_gateway t)

-- A walk from a branch of the gateway, which passes no join and no boundary event.
abbrev pub Inside : Index → ParallelGateway → StepId → Type 0
Inside index t v =
    Reach index (λ id. id == t.join_step) (λ step. outgoing_targets step.variant)
      (as_stack t.parallel_next_steps) v

report_nested_gateway :
    (outer : StepId) (step : Step) (t : ParallelGateway)
    → step.variant ≡ parallel_gateway t
    → report_nested outer step ≢ []
unfolding report_nested
report_nested_gateway outer step t e = ground arith

abbrev is_gateway : Variant → Bool
is_gateway (parallel_gateway _) = true
is_gateway _ = false

gateway-cases :
    (v : Variant) → ((t : ParallelGateway) × (v ≡ parallel_gateway t)) ⊎ (is_gateway v ≡ false)
gateway-cases (parallel_gateway t) = inl (t, refl)
gateway-cases v = inr refl

report_nested_other :
    (outer : StepId) (step : Step) → is_gateway step.variant ≡ false → report_nested outer step ≡ []
unfolding report_nested
report_nested_other outer step h = ground arith

-- No gateway stands inside the branches of `step`, if it is a gateway itself.
abbrev pub IsFlat : Index → Step → Type 0
IsFlat index step =
    (t : ParallelGateway)
    → step.variant ≡ parallel_gateway t
    → (v : StepId) → Inside index t v
    → ¬ IsGateway index v

nested_walk_iff :
    (index : Index) (outer : StepId) (t : ParallelGateway)
    → ((nested_walk index outer t).out ≡ [])
      ↔ ((v : StepId) → Inside index t v → ¬ IsGateway index v)
unfolding nested_walk
nested_walk_iff index outer t =
    let silent =
      walk_from-IsSilent_iff index (report_nested outer) (λ id. id == t.join_step)
        (λ step. outgoing_targets step.variant) (as_stack t.parallel_next_steps) in
    (
      λ e v r (step, t', found, variant).
          report_nested_gateway outer step t' variant (silent.0 e v r step found),
      λ flat. silent.1 (λ v r step found. elim (gateway-cases step.variant) [
        | inl (t', variant) ↦ absurd (flat v r (step, t', found, variant))
        | inr other ↦ report_nested_other outer step other
      ]),
    )

check_nested_iff :
    (index : Index) (step : Step) → (check_nested index step ≡ []) ↔ IsFlat index step
unfolding check_nested
check_nested_iff index step = elim (gateway-cases step.variant) [
  | inl (t, variant) ↦
      let met = nested_walk_iff index step.id t in
      (
        λ e t' variant'.
            let same : t' ≡ t = cc in
            let quiet : (nested_walk index step.id t).out ≡ [] = ground arith in
            rw same (met.0 quiet),
        λ flat. ground (arith, met.1 (flat t variant)),
      )
  | inr other ↦ (λ e t' variant'. let bad : ⊥ = ground arith in absurd bad, λ flat. ground arith)
]

-- `checkNestedParallel` pushes nothing exactly if no walk inside the branches of a
-- PARALLEL_GATEWAY, short of its join, meets a PARALLEL_GATEWAY.
pub check_nested_parallel_iff :
    (def : WorkflowDefinition)
    → (check_nested_parallel (index_steps def) def ≡ []) ↔ All (IsFlat (index_steps def)) def.steps
unfolding check_nested_parallel
check_nested_parallel_iff def =
    let index = index_steps def in
    let each = flat_map-eq-nil_iff (check_nested index) def.steps in
    let flat = All-iff (check_nested_iff index) def.steps in
    (λ e. flat.0 (each.0 e), λ h. each.1 (flat.1 h))
