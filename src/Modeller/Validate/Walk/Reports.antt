-- ===== src/Modeller/Validate/Walk/Reports.antt =====
-- What the worklist loop of workflow-modeller/src/domain/validate.ts reports.
use rochallor_engine.Base.{
  ℕ, zero, suc, Bool, true, none, some, List, [], ◌∷◌, ◌++◌, ◌≡◌, ◌↔◌, inl, inr, refl, ◌||◌,
  is_empty, contains, lookup, arith, ==_iff, ==_refl, ◌==◌, Bool-cases, Option-cases,
  append-eq-nil_iff,
}
use mathlib.Core.List.{append-nil}
use rochallor_engine.Modeller.Types.{StepId, Step, Diagnostic}
use rochallor_engine.Modeller.Validate.Refs.{Index}
use rochallor_engine.Modeller.Validate.Walk.{expand, visit, walk, enough, walk_from}
use rochallor_engine.Modeller.Validate.Walk.Laws.{Reach, walk_from-visited_iff}

module _ (index : Index) (report : Step → List Diagnostic) where
  -- Nothing is reported at the step of an id.
  abbrev pub IsSilent : StepId → Type 0
  IsSilent v = (step : Step) → lookup v index ≡ some step → report step ≡ []

  abbrev IsQuiet : List StepId → List Diagnostic → Type 0
  IsQuiet visited out = (out ≡ []) ↔ ((v : StepId) → contains visited v ≡ true → IsSilent v)

  IsQuiet-cons :
      (visited : List StepId) (out more : List Diagnostic) (id : StepId)
      → (more ≡ []) ↔ IsSilent id
      → IsQuiet visited out
      → IsQuiet (id ∷ visited) (out ++ more)
  IsQuiet-cons visited out more id here quiet =
      let split = append-eq-nil_iff out more in
      (
        λ e v h. elim (Bool-cases (id == v)) [
          | inl same ↦ rw (← (==_iff id v).0 same) (here.0 (split.0 e).1)
          | inr other ↦ quiet.0 (split.0 e).0 v (ground arith)
        ],
        λ all.
            split.1
              (quiet.1 (λ v h. all v (ground arith)), here.1 (all id (ground (arith, ==_refl id)))),
      )

  IsSilent-found :
      (id : StepId) (step : Step) → lookup id index ≡ some step → (report step ≡ []) ↔ IsSilent id
  IsSilent-found id step found =
      (λ e step' found'. let same : step' ≡ step = cc in rw same e, λ all. all step found)

  IsSilent-absent : (id : StepId) → lookup id index ≡ none → IsSilent id
  IsSilent-absent id absent step found = cc

  module _ (stop : StepId → Bool) (targets : Step → List StepId) where
    visit-IsQuiet :
        (visited : List StepId) (id : StepId) (stack : List StepId) (out : List Diagnostic)
        → IsQuiet visited out
        → let next = visit index stop targets report visited id stack out in
          IsQuiet next.visited next.out
    unfolding visit expand
    visit-IsQuiet visited id stack out quiet =
        elim (Bool-cases (is_empty id || contains visited id || stop id)) [
          | inl skipped ↦ rw skipped quiet
          | inr fresh ↦ elim (Option-cases (lookup id index)) [
            | inl absent ↦
                rw (fresh, absent, visit)
                  (rw append-nil at (
                    IsQuiet-cons visited out [] id (λ _. IsSilent-absent id absent, λ _. refl)
                      quiet))
            | inr (step, found) ↦
                rw (fresh, found, visit)
                  (IsQuiet-cons visited out (report step) id (IsSilent-found id step found) quiet)
          ]
        ]

    walk-IsQuiet :
        (fuel : ℕ) (visited stack : List StepId) (out : List Diagnostic)
        → IsQuiet visited out
        → let last = walk index stop targets report fuel visited stack out in
          IsQuiet last.visited last.out
    unfolding walk
    walk-IsQuiet zero visited stack out quiet = quiet
    walk-IsQuiet (suc fuel) visited [] out quiet = quiet
    walk-IsQuiet (suc fuel) visited (id ∷ stack) out quiet =
        let next = visit index stop targets report visited id stack out in
        walk-IsQuiet fuel next.visited next.stack next.out
          (visit-IsQuiet visited id stack out quiet)

    -- The walk reports nothing exactly if it meets no step at which there is something to report.
    pub walk_from-IsSilent_iff :
        (starts : List StepId)
        → ((walk_from index stop targets report starts).out ≡ [])
          ↔ ((v : StepId) → Reach index stop targets starts v → IsSilent v)
    unfolding walk_from
    walk_from-IsSilent_iff starts =
        let quiet =
          walk-IsQuiet (enough index stop targets report starts) [] starts []
            (λ _ v h. cc, λ _. refl) in
        let met = λ (v : StepId). walk_from-visited_iff index stop targets report starts v in
        (
          λ e v r. quiet.0 e v (unfold walk_from in (met v).1 r),
          λ all. quiet.1 (λ v h. all v (unfold walk_from in (met v).0 h)),
        )
