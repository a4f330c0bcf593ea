-- ===== src/Modeller/Validate/Format/Laws.antt =====
-- When `checkStepIdsUnique` of workflow-modeller/src/domain/validate.ts is silent.
use rochallor_engine.Base.{
  false, List, [], ◌∷◌, ◌≡◌, ◌↔◌, refl, map, contains, IsDistinct, arith, ◌==◌, ==_iff, Bool-cases,
  inl, inr,
}
use rochallor_engine.Modeller.Types.{StepId, Step, WorkflowDefinition}
use rochallor_engine.Modeller.Validate.Format.{repeated_ids, check_step_ids_unique}

abbrev pub ids : List Step → List StepId
ids = map (λ (s : Step). s.id)

abbrev IsUnseen : List StepId → List StepId → Type 0
IsUnseen seen [] = Unit
IsUnseen seen (id ∷ ids) = (contains seen id ≡ false) × IsUnseen seen ids

IsUnseen-cons :
    (seen : List StepId) (id : StepId) (rest : List StepId)
    → IsUnseen (id ∷ seen) rest ↔ (IsUnseen seen rest × (contains rest id ≡ false))
IsUnseen-cons seen id [] = (λ _. (tt, refl), λ _. tt)
IsUnseen-cons seen id (x ∷ rest) =
    let ih = IsUnseen-cons seen id rest in
    (
      λ h.
          let later = ih.0 h.1 in
          ((ground arith, later.0), ground (arith, ==_iff id x, ==_iff x id)),
      λ h.
          let apart : (id == x) ≡ false = ground (arith, ==_iff id x, ==_iff x id) in
          (ground arith, ih.1 (h.0.1, ground arith)),
    )

IsUnseen-nil : (xs : List StepId) → IsUnseen [] xs
IsUnseen-nil [] = tt
IsUnseen-nil (x ∷ xs) = (refl, IsUnseen-nil xs)

repeated_ids_iff :
    (seen : List StepId) (steps : List Step)
    → (repeated_ids seen steps ≡ []) ↔ (IsUnseen seen (ids steps) × IsDistinct (ids steps))
unfolding repeated_ids
repeated_ids_iff seen [] = (λ _. (tt, tt), λ _. refl)
repeated_ids_iff seen (s ∷ steps) =
    let ih = repeated_ids_iff (s.id ∷ seen) steps in
    let split = IsUnseen-cons seen s.id (ids steps) in
    elim (Bool-cases (contains seen s.id)) [
      | inl twice ↦ (λ e. cc (rw twice at e), λ h. let bad : ⊥ = ground arith in absurd bad)
      | inr first ↦ (
        λ e.
            let h = ih.0 (rw first at e) in
            let parts = split.0 h.0 in ((first, parts.0), (parts.1, h.1)),
        λ h. rw first (ih.1 (split.1 (h.0.1, h.1.0), h.1.1)),
      )
    ]

-- No duplicate is reported exactly if the ids of the steps are distinct.
pub check_step_ids_unique_iff :
    (def : WorkflowDefinition) → (check_step_ids_unique def ≡ []) ↔ IsDistinct (ids def.steps)
unfolding check_step_ids_unique
check_step_ids_unique_iff def =
    let iff = repeated_ids_iff [] def.steps in
    (λ e. (iff.0 e).1, λ h. iff.1 (IsUnseen-nil (ids def.steps), h))
