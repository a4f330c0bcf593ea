-- ===== src/Modeller/Store/Editing/Renaming.antt =====
-- `renameStepId` of workflow-modeller/src/store/workflowStore.ts leaves no dangling edge.
use mathlib.Core.Path.{subst}
use mathlib.Core.List.{map-append}
use rochallor_engine.Base.{
  true, false, List, [], ◌∷◌, ◌≡◌, refl, sym, ◌∙◌, arith, map, contains, flat_map, IsDistinct, ◌==◌,
  ==_iff, is_empty, Bool-cases, inl, inr,
}
use rochallor_engine.Modeller.Types.{StepId, Step, WorkflowDefinition}
use rochallor_engine.Modeller.Rename.{ok, remap, remap_step, has_id, rename_step_id}
use rochallor_engine.Modeller.Rename.Laws.{has_id-ids}
use rochallor_engine.Modeller.Rename.Edges.{is_empty-remap, all_outgoing-remap_step}
use rochallor_engine.Modeller.Validate.Outgoing.{all_outgoing}
use rochallor_engine.Modeller.Store.State.{WorkflowState}
use rochallor_engine.Modeller.Store.Scrub.Laws.{ids}
use rochallor_engine.Modeller.Store.Actions.{rename_step}
use rochallor_engine.Modeller.Store.Editing.{Links, IsLinked}
use rochallor_engine.Modeller.Store.Editing.Links.{contains-map, contains-map_back}

ids-remap_step :
    (old_id new_id : StepId) (steps : List Step)
    → ids (map (remap_step old_id new_id) steps) ≡ map (remap old_id new_id) (ids steps)
unfolding remap_step remap
ids-remap_step old_id new_id [] = refl
ids-remap_step old_id new_id (s ∷ steps) = rw (ids-remap_step old_id new_id steps)

targets-remap_step :
    (old_id new_id : StepId) (steps : List Step)
    → is_empty old_id ≡ false
    → is_empty new_id ≡ false
    → flat_map all_outgoing (map (remap_step old_id new_id) steps)
      ≡ map (remap old_id new_id) (flat_map all_outgoing steps)
targets-remap_step old_id new_id [] old_text new_text = refl
targets-remap_step old_id new_id (s ∷ steps) old_text new_text = simp (
  all_outgoing-remap_step old_id new_id old_text new_text s,
  targets-remap_step old_id new_id steps old_text new_text,
  map-append,
)

-- A renaming maps two ids to one only if one of them is the new id.
contains-remapped_other :
    (old_id new_id id : StepId) (rest : List StepId)
    → contains rest new_id ≡ false
    → (id == new_id) ≡ false
    → contains rest id ≡ false
    → contains (map (remap old_id new_id) rest) (remap old_id new_id id) ≡ false
unfolding remap
contains-remapped_other old_id new_id id [] fresh apart unseen = refl
contains-remapped_other old_id new_id id (x ∷ rest) fresh apart unseen = ground (
  arith,
  contains-remapped_other old_id new_id id rest,
  ==_iff x id,
  ==_iff x new_id,
  ==_iff x old_id,
  ==_iff id old_id,
  ==_iff id new_id,
  ==_iff new_id id,
  ==_iff new_id x,
)

IsDistinct-remap :
    (old_id new_id : StepId) (xs : List StepId)
    → contains xs new_id ≡ false
    → IsDistinct xs
    → IsDistinct (map (remap old_id new_id) xs)
IsDistinct-remap old_id new_id [] fresh h = tt
IsDistinct-remap old_id new_id (x ∷ xs) fresh h = (
  contains-remapped_other old_id new_id x xs (ground arith) (ground arith) h.0,
  IsDistinct-remap old_id new_id xs (ground arith) h.1,
)

Links-map :
    (f : StepId → StepId) (xs targets : List StepId)
    → ((t : StepId) → is_empty t ≡ true → is_empty (f t) ≡ true)
    → Links xs targets
    → Links (map f xs) (map f targets)
Links-map f xs targets blanks links t h =
    let (u, listed, e) = contains-map_back f targets t h in
    rw⁻¹ e (ground (arith, links u, blanks u, contains-map f xs u))

remapped-IsLinked :
    (old_id new_id : StepId) (def : WorkflowDefinition)
    → is_empty old_id ≡ false
    → is_empty new_id ≡ false
    → contains (ids def.steps) new_id ≡ false
    → IsLinked def
    → IsLinked (record def { steps = map (remap_step old_id new_id) def.steps })
remapped-IsLinked old_id new_id def old_text new_text fresh (distinct, links) =
    let blanks = λ (t : StepId) (h : is_empty t ≡ true).
      is_empty-remap old_id new_id old_text new_text t ∙ h in
    (
      rw (ids-remap_step old_id new_id def.steps)
          (IsDistinct-remap old_id new_id (ids def.steps) fresh distinct),
      rw
          (
            ids-remap_step old_id new_id def.steps,
            targets-remap_step old_id new_id def.steps old_text new_text,
          )
          (Links-map (remap old_id new_id) (ids def.steps) (flat_map all_outgoing def.steps) blanks
            links),
    )

pub rename_step-IsLinked :
    (old_id new_id : StepId) (s s' : WorkflowState)
    → is_empty old_id ≡ false
    → is_empty new_id ≡ false
    → rename_step old_id new_id s ≡ ok s'
    → IsLinked s.definition
    → IsLinked s'.definition
unfolding rename_step rename_step_id
rename_step-IsLinked old_id new_id s s' old_text new_text e linked =
    elim (Bool-cases (old_id == new_id)) [
      | inl same ↦
          let kept : record s { definition = s.definition; dirty = true } ≡ s' =
            cc (rw (same, rename_step) at e) in
          subst (λ u. IsLinked u.definition) kept linked
      | inr apart ↦ elim (Bool-cases (has_id new_id s.definition.steps)) [
        | inl taken ↦ cc (rw (apart, taken, rename_step) at e)
        | inr free ↦
            let def = record (s.definition) {
              steps = map (remap_step old_id new_id) s.definition.steps;
            } in
            let done : record s { definition = def; dirty = true } ≡ s' =
              cc (rw (apart, free, rename_step) at e) in
            subst (λ u. IsLinked u.definition) done
              (remapped-IsLinked old_id new_id s.definition old_text new_text
                (sym (has_id-ids new_id s.definition.steps) ∙ free) linked)
      ]
    ]
