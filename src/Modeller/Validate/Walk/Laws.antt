-- ===== src/Modeller/Validate/Walk/Laws.antt =====
-- What the worklist loop of workflow-modeller/src/domain/validate.ts visits.
use rochallor_engine.Base.{
  ℕ, zero, suc, Bool, true, false, some, List, [], ◌∷◌, ◌≡◌, ◌↔◌, ◌⊎◌, inl, inr, ◌||◌, ◌&&◌, not,
  is_empty, contains, lookup, arith, ==_iff, ==_refl, ◌==◌, Bool-cases, Option-cases,
}
use rochallor_engine.Modeller.Types.{StepId, Step, Diagnostic}
use rochallor_engine.Modeller.Validate.Refs.{Index}
use rochallor_engine.Modeller.Validate.Walk.Ends.{walk_from_ends}
use rochallor_engine.Modeller.Validate.Walk.{push_targets, expand, visit, walk, enough, walk_from}

-- `push_targets` adds the targets that were not visited.
pub contains-push_targets :
    (visited stack targets : List StepId) (v : StepId)
    → contains (push_targets visited stack targets) v
      ≡ contains stack v || contains targets v && not (contains visited v)
unfolding push_targets
contains-push_targets visited stack [] v = ground arith
contains-push_targets visited stack (t ∷ ts) v = ground (
  arith,
  ==_iff t v,
  contains-push_targets visited stack ts v,
  contains-push_targets visited (t ∷ stack) ts v,
)

module _ (index : Index) (stop : StepId → Bool) (targets : Step → List StepId) where
  -- An id at which the walk does not turn back.
  abbrev pub IsLive : StepId → Type 0
  IsLive id = is_empty id || stop id ≡ false

  -- The ids that a walk along the edges meets, from the ids of `starts`.
  pub data Reach (starts : List StepId) : StepId → Type 0 where
    start : {v : StepId} → contains starts v ≡ true → IsLive v → Reach starts v
    next :
        {u v : StepId} {step : Step}
        → Reach starts u
        → lookup u index ≡ some step
        → contains (targets step) v ≡ true
        → IsLive v
        → Reach starts v

  abbrev Pending : List StepId → List StepId → StepId → Type 0
  Pending visited stack v = contains visited v || contains stack v ≡ true

  pub record Inv (starts visited stack : List StepId) : Type 0 where
    pub visited_sound : (v : StepId) → contains visited v ≡ true → Reach starts v
    pub stack_sound : (v : StepId) → contains stack v ≡ true → IsLive v → Reach starts v
    pub started : (v : StepId) → contains starts v ≡ true → IsLive v → Pending visited stack v
    pub closed :
        (u : StepId) (step : Step) (v : StepId)
        → contains visited u ≡ true
        → lookup u index ≡ some step
        → contains (targets step) v ≡ true
        → IsLive v
        → Pending visited stack v

  Inv-init : (starts : List StepId) → Inv starts [] starts
  Inv-init starts = record {
    visited_sound = λ v h. cc;
    stack_sound = λ v h live. start h live;
    started = λ v h live. h;
    closed = λ u step v h. cc;
  }

  -- What is pending stays so when the top is skipped.
  Pending-skip :
      (visited : List StepId) (id : StepId) (stack : List StepId) (v : StepId)
      → is_empty id || contains visited id || stop id ≡ true
      → IsLive v
      → Pending visited (id ∷ stack) v
      → Pending visited stack v
  Pending-skip visited id stack v skipped live h = elim (Bool-cases (id == v)) [
    | inl same ↦ let e = (==_iff id v).0 same in let hit = rw e at skipped in ground arith
    | inr other ↦ ground arith
  ]

  -- The top is skipped: it was visited, or the walk turns back at it.
  Inv-skip :
      (starts visited : List StepId) (id : StepId) (stack : List StepId)
      → is_empty id || contains visited id || stop id ≡ true
      → Inv starts visited (id ∷ stack)
      → Inv starts visited stack
  Inv-skip starts visited id stack skipped inv = record {
    visited_sound = inv.visited_sound;
    stack_sound = λ v h live. inv.stack_sound v (ground arith) live;
    started = λ v h live. Pending-skip visited id stack v skipped live (inv.started v h live);
    closed = λ u step v hu found hv live.
        Pending-skip visited id stack v skipped live (inv.closed u step v hu found hv live);
  }

  -- The top is visited; `more` is what its step adds to the stack.
  Inv-visit :
      (starts visited : List StepId) (id : StepId) (stack stack' : List StepId)
      → is_empty id || contains visited id || stop id ≡ false
      → ((v : StepId) → contains stack v ≡ true → contains stack' v ≡ true)
      → ((v : StepId)
          → contains stack' v ≡ true
          → IsLive v
          → (contains stack v ≡ true)
            ⊎ ((step : Step) × (lookup id index ≡ some step) × (contains (targets step) v ≡ true)))
      → ((step : Step) (v : StepId)
          → lookup id index ≡ some step
          → contains (targets step) v ≡ true
          → contains (id ∷ visited) v || contains stack' v ≡ true)
      → Inv starts visited (id ∷ stack)
      → Inv starts (id ∷ visited) stack'
  Inv-visit starts visited id stack stack' fresh grows only covers inv =
      let top = inv.stack_sound id (ground (arith, ==_refl id)) (ground arith) in
      record {
        visited_sound = λ v h. elim (Bool-cases (id == v)) [
          | inl same ↦ rw (← (==_iff id v).0 same) top
          | inr other ↦ inv.visited_sound v (ground arith)
        ];
        stack_sound = λ v h live. elim (only v h live) [
          | inl old ↦ inv.stack_sound v (ground arith) live
          | inr (step, found, hv) ↦ next top found hv live
        ];
        started = λ v h live. ground (arith, inv.started v h live, grows v);
        closed = λ u step v hu found hv live. elim (Bool-cases (id == u)) [
          | inl same ↦ covers step v (rw (← (==_iff id u).0 same) at found) hv
          | inr other ↦ ground (arith, inv.closed u step v (ground arith) found hv live, grows v)
        ];
      }

  pushed_from :
      (visited stack : List StepId) (id : StepId) (step : Step) (v : StepId)
      → lookup id index ≡ some step
      → contains (push_targets visited stack (targets step)) v ≡ true
      → (contains stack v ≡ true)
        ⊎ ((step : Step) × (lookup id index ≡ some step) × (contains (targets step) v ≡ true))
  pushed_from visited stack id step v found h = elim (Bool-cases (contains stack v)) [
    | inl old ↦ inl old
    | inr other ↦
        inr (step, found, ground (arith, contains-push_targets visited stack (targets step) v))
  ]

  covered :
      (visited stack : List StepId) (id : StepId) (step step' : Step) (v : StepId)
      → lookup id index ≡ some step
      → lookup id index ≡ some step'
      → contains (targets step') v ≡ true
      → contains visited v || contains (push_targets visited stack (targets step)) v ≡ true
  covered visited stack id step step' v found found' hv =
      let same : step' ≡ step = cc in
      let hit = rw same at hv in
      ground (arith, contains-push_targets visited stack (targets step) v)

  module _ (report : Step → List Diagnostic) where
    visit-Inv :
        (starts visited : List StepId) (id : StepId) (stack : List StepId) (out : List Diagnostic)
        → Inv starts visited (id ∷ stack)
        → let next = visit index stop targets report visited id stack out in
          Inv starts next.visited next.stack
    unfolding visit expand
    visit-Inv starts visited id stack out inv =
        elim (Bool-cases (is_empty id || contains visited id || stop id)) [
          | inl skipped ↦ rw skipped (Inv-skip starts visited id stack skipped inv)
          | inr fresh ↦ elim (Option-cases (lookup id index)) [
            | inl absent ↦
                rw (fresh, absent, visit)
                  (Inv-visit starts visited id stack stack fresh (λ v h. h) (λ v h live. inl h)
                    (λ step v found hv. cc (found, absent)) inv)
            | inr (step, found) ↦
                rw (fresh, found, visit)
                  (Inv-visit starts visited id stack
                    (push_targets (id ∷ visited) stack (targets step)) fresh
                    (λ v h.
                      ground (arith, contains-push_targets (id ∷ visited) stack (targets step) v))
                    (λ v h live. pushed_from (id ∷ visited) stack id step v found h)
                    (λ step' v found' hv.
                      covered (id ∷ visited) stack id step step' v found found' hv)
                    inv)
          ]
        ]

    walk-Inv :
        (starts : List StepId) (fuel : ℕ) (visited stack : List StepId) (out : List Diagnostic)
        → Inv starts visited stack
        → let last = walk index stop targets report fuel visited stack out in
          Inv starts last.visited last.stack
    unfolding walk
    walk-Inv starts zero visited stack out inv = inv
    walk-Inv starts (suc fuel) visited [] out inv = inv
    walk-Inv starts (suc fuel) visited (id ∷ stack) out inv =
        let next = visit index stop targets report visited id stack out in
        walk-Inv starts fuel next.visited next.stack next.out
          (visit-Inv starts visited id stack out inv)

    -- With an empty stack the visited ids are closed under the edges.
    Reach→visited :
        {starts visited : List StepId}
        → Inv starts visited []
        → {v : StepId} → Reach starts v
        → contains visited v ≡ true
    Reach→visited inv (start {v} h live) = ground (arith, inv.started v h live)
    Reach→visited inv (next {u} {v} {step} r found hv live) =
        ground (arith, inv.closed u step v (Reach→visited inv r) found hv live)

    -- The ids visited are those that a walk meets.
    pub walk_from-visited_iff :
        (starts : List StepId) (v : StepId)
        → (contains (walk_from index stop targets report starts).visited v ≡ true) ↔ Reach starts v
    unfolding walk_from
    walk_from-visited_iff starts v =
        let inv =
          walk-Inv starts (enough index stop targets report starts) [] starts []
            (Inv-init starts) in
        (
          inv.visited_sound v,
          Reach→visited (rw (walk_from_ends targets index stop report starts, walk_from) at inv),
        )

    -- The loop ends with an empty stack, so that its fuel was enough, and has then visited exactly
    -- the ids that a walk along the edges meets from the ids it started with.
    pub walk_from_lem :
        (starts : List StepId) (v : StepId)
        → ((walk_from index stop targets report starts).stack ≡ [])
          × ((contains (walk_from index stop targets report starts).visited v ≡ true)
              ↔ Reach starts v)
    walk_from_lem starts v =
        (walk_from_ends targets index stop report starts, walk_from-visited_iff starts v)
