-- ===== src/Modeller/Store/Editing/Laws.antt =====
-- No edit of workflow-modeller/src/store/workflowStore.ts leaves a dangling edge.
use mathlib.Core.Path.{subst}
use mathlib.Core.List.{map-append}
use rochallor_engine.Base.{
  true, false, List, [], ◌∷◌, ◌≡◌, refl, arith, not, map, contains, contains-append, flat_map,
  filter_by, ◌==◌, ==_iff, is_empty, Bool-cases, inl, inr,
}
use rochallor_engine.Modeller.Types.{StepId, Step}
use rochallor_engine.Modeller.Rename.{ok, remap}
use rochallor_engine.Modeller.Validate.Outgoing.{all_outgoing}
use rochallor_engine.Modeller.Store.State.{WorkflowState}
use rochallor_engine.Modeller.Store.Scrub.Laws.{ids}
use rochallor_engine.Modeller.References.Dialog.{replace_and_delete}
use rochallor_engine.Modeller.References.Dialog.Laws.{replace_and_delete-redirects}
use rochallor_engine.Modeller.Store.Editing.{
  Edit, added, deleted, renamed, replaced, Edits, untouched, edited, Links, IsLinked,
}
use rochallor_engine.Modeller.Store.Editing.Deleting.{add_step-IsLinked, delete_step-IsLinked}
use rochallor_engine.Modeller.Store.Editing.Renaming.{rename_step-IsLinked}
use rochallor_engine.Modeller.Store.Editing.Links.{
  contains-map_back, contains-filter_by, IsDistinct-filter_by,
}

targets-kept :
    (id t : StepId) (steps : List Step)
    → contains (flat_map all_outgoing (filter_by (λ (s : Step). not (s.id == id)) steps)) t ≡ true
    → contains (flat_map all_outgoing steps) t ≡ true
targets-kept id t [] h = cc
targets-kept id t (s ∷ steps) h = elim (Bool-cases (s.id == id)) [
  | inl dropped ↦ ground (
    arith,
    targets-kept id t steps (rw dropped at h),
    contains-append (all_outgoing s) (flat_map all_outgoing steps) t,
  )
  | inr kept ↦
      let rest = filter_by (λ (s : Step). not (s.id == id)) steps in
      ground (
        arith,
        rw kept at h,
        targets-kept id t steps,
        contains-append (all_outgoing s) (flat_map all_outgoing rest) t,
        contains-append (all_outgoing s) (flat_map all_outgoing steps) t,
      )
]

targets-redirected :
    (f : StepId → StepId) (steps kept : List Step)
    → map all_outgoing steps ≡ map (λ t. map f (all_outgoing t)) kept
    → flat_map all_outgoing steps ≡ map f (flat_map all_outgoing kept)
targets-redirected f [] [] e = refl
targets-redirected f [] (k ∷ kept) e = cc
targets-redirected f (s ∷ steps) [] e = cc
targets-redirected f (s ∷ steps) (k ∷ kept) e =
    let here : all_outgoing s ≡ map f (all_outgoing k) = cc in
    let rest : map all_outgoing steps ≡ map (λ t. map f (all_outgoing t)) kept = cc in
    simp (here, targets-redirected f steps kept rest, map-append)

-- The targets behind a redirection are empty or among the ids that are left.
redirected-Links :
    (id replacement : StepId) (xs targets : List StepId)
    → is_empty id ≡ false
    → (id == replacement) ≡ false
    → contains xs replacement ≡ true
    → Links xs targets
    → Links (filter_by (λ i. not (i == id)) xs) (map (remap id replacement) targets)
unfolding remap
redirected-Links id replacement xs targets text apart listed links t h =
    let (u, before, e) = contains-map_back (remap id replacement) targets t h in
    rw⁻¹ e (
      rw (contains-filter_by (λ i. not (i == id)) xs (remap id replacement u))
        (ground (arith, links u, ==_iff u id, ==_iff replacement id, ==_iff id replacement)))

replace_and_delete-IsLinked :
    (id replacement : StepId) (s s' : WorkflowState)
    → is_empty id ≡ false
    → is_empty replacement ≡ false
    → (id == replacement) ≡ false
    → contains (ids s.definition.steps) replacement ≡ true
    → replace_and_delete id replacement s ≡ ok s'
    → IsLinked s.definition
    → IsLinked s'.definition
replace_and_delete-IsLinked id replacement s s' text new_text apart listed e (distinct, links) =
    let steps = s.definition.steps in
    let kept = filter_by (λ (t : Step). not (t.id == id)) steps in
    let (s₁, e₁, all_ids, labels, redirected) =
      replace_and_delete-redirects id replacement s text new_text apart in
    let same : s₁ ≡ s' = cc in
    subst (λ u. IsLinked u.definition) same
      (
        rw all_ids (IsDistinct-filter_by (λ i. not (i == id)) (ids steps) distinct),
        rw (all_ids, targets-redirected (remap id replacement) s₁.definition.steps kept redirected)
            (redirected-Links id replacement (ids steps) (flat_map all_outgoing kept) text apart
              listed (λ t h. links t (targets-kept id t steps h))),
      )

Edit-IsLinked : (s s' : WorkflowState) → Edit s s' → IsLinked s.definition → IsLinked s'.definition
Edit-IsLinked s s' (added template) h = add_step-IsLinked template s h
Edit-IsLinked s s' (deleted id replacement text e) h =
    delete_step-IsLinked id replacement s s' text e h
Edit-IsLinked s s' (renamed old_id new_id old_text new_text e) h =
    rename_step-IsLinked old_id new_id s s' old_text new_text e h
Edit-IsLinked s s' (replaced id replacement text new_text apart listed e) h =
    replace_and_delete-IsLinked id replacement s s' text new_text apart listed e h

-- However steps are added, deleted, renamed and replaced, from a definition whose ids are distinct
-- and whose edges lead to its steps: the ids stay distinct, and every edge leads to a step or has
-- no target yet.
pub Edits-IsLinked :
    (s s' : WorkflowState) → Edits s s' → IsLinked s.definition → IsLinked s'.definition
Edits-IsLinked s s' untouched h = h
Edits-IsLinked s s' (edited {t} before edit) h =
    Edit-IsLinked t s' edit (Edits-IsLinked s t before h)
