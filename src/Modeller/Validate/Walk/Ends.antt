-- ===== src/Modeller/Validate/Walk/Ends.antt =====
-- The worklist loop of workflow-modeller/src/domain/validate.ts ends within its fuel.
use rochallor_engine.Base.{
  ℕ, zero, suc, ◌+◌, ◌≤◌, Bool, false, some, List, [], ◌∷◌, ◌≡◌, inl, inr, refl, ◌||◌, is_empty,
  contains, length, lookup, arith, ==_iff, ==_refl, ◌==◌, Bool-cases, Option-cases,
}
use rochallor_engine.Modeller.Types.{StepId, Step, Diagnostic}
use rochallor_engine.Modeller.Validate.Refs.{Index}
use rochallor_engine.Modeller.Validate.Walk.{
  push_targets, expand, visit, walk, open_edges, enough, walk_from,
}

length-push_targets :
    (visited stack targets : List StepId)
    → length (push_targets visited stack targets) ≤ length stack + length targets
unfolding push_targets
length-push_targets visited stack [] = omega arith
length-push_targets visited stack (t ∷ ts) =
    ground (arith, length-push_targets visited stack ts, length-push_targets visited (t ∷ stack) ts)

module _ (targets : Step → List StepId) where
  open_edges-le :
      (visited : List StepId) (id : StepId) (index : Index)
      → open_edges targets (id ∷ visited) index ≤ open_edges targets visited index
  unfolding open_edges
  open_edges-le visited id [] = omega arith
  open_edges-le visited id ((k, step) ∷ rest) = ground (arith, open_edges-le visited id rest)

  -- A visited step gives up the edges that it may push.
  open_edges-visit :
      (visited : List StepId) (id : StepId) (step : Step) (index : Index)
      → contains visited id ≡ false
      → lookup id index ≡ some step
      → open_edges targets (id ∷ visited) index + length (targets step)
        ≤ open_edges targets visited index
  unfolding open_edges
  open_edges-visit visited id step [] new found = cc
  open_edges-visit visited id step ((k, s) ∷ rest) new found = elim (Bool-cases (k == id)) [
    | inl same ↦
        let e : k ≡ id = (==_iff k id).0 same in
        let here : s ≡ step = ground arith in
        rw (e, here) (ground (arith, ==_refl id, open_edges-le visited id rest))
    | inr other ↦
        ground (arith, ==_iff id k, ==_iff k id, open_edges-visit visited id step rest new)
  ]

  module _ (index : Index) (stop : StepId → Bool) (report : Step → List Diagnostic) where
    abbrev work : List StepId → List StepId → ℕ
    work visited stack = length stack + open_edges targets visited index

    visit_falls :
        (visited : List StepId) (id : StepId) (stack : List StepId) (out : List Diagnostic)
        → let next = visit index stop targets report visited id stack out in
          work next.visited next.stack ≤ work visited stack
    unfolding visit expand
    visit_falls visited id stack out =
        elim (Bool-cases (is_empty id || contains visited id || stop id)) [
          | inl skipped ↦ rw skipped (omega arith)
          | inr fresh ↦ elim (Option-cases (lookup id index)) [
            | inl absent ↦ rw (fresh, absent, visit) (omega (arith, open_edges-le visited id index))
            | inr (step, found) ↦
                rw (fresh, found, visit)
                  (omega (
                    arith,
                    length-push_targets (id ∷ visited) stack (targets step),
                    open_edges-visit visited id step index (ground arith) found,
                  ))
          ]
        ]

    pub walk_ends :
        (fuel : ℕ) (visited stack : List StepId) (out : List Diagnostic)
        → work visited stack ≤ fuel
        → (walk index stop targets report fuel visited stack out).stack ≡ []
    unfolding walk
    walk_ends zero visited [] out h = refl
    walk_ends zero visited (id ∷ stack) out h = absurd (omega arith)
    walk_ends (suc fuel) visited [] out h = refl
    walk_ends (suc fuel) visited (id ∷ stack) out h =
        let next = visit index stop targets report visited id stack out in
        walk_ends fuel next.visited next.stack next.out
          (omega (arith, visit_falls visited id stack out))

    -- The loop ends by its own test: its fuel is enough.
    pub walk_from_ends :
        (stack : List StepId) → (walk_from index stop targets report stack).stack ≡ []
    unfolding walk_from enough
    walk_from_ends stack =
        walk_ends (length stack + open_edges targets [] index) [] stack [] (omega arith)
