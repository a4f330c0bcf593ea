-- ===== src/Modeller/Store/NewStep/Laws.antt =====
-- `uniqueStepId` of workflow-modeller/src/store/workflowStore.ts finds an id that is free.
use rochallor_engine.Base.{
  ℕ, zero, suc, ◌+◌, ◌≤◌, ◌<◌, true, false, List, [], ◌∷◌, ◌≡◌, not, contains, length, length-map,
  filter_by, decimal, arith, ◌==◌, ==_iff, Bool-cases, inl, inr,
}
use text.Mathlib.TextLemmas.{append_cancel_left}
use rochallor_engine.Base.Text.Decimal.{decimal-injective}
use rochallor_engine.Modeller.Types.{StepId, Step, WorkflowDefinition}
use rochallor_engine.Modeller.Store.NewStep.{numbered, first_free, step_ids, unique_step_id}

numbered-injective : (p : StepId) (i j : ℕ) → numbered p i ≡ numbered p j → i ≡ j
numbered-injective p i j e =
    decimal-injective i j
      (append_cancel_left "-" (decimal i) (decimal j) (append_cancel_left p _ _ e))

abbrev without : StepId → List StepId → List StepId
without x = filter_by (λ y. not (y == x))

length-without-le : (x : StepId) (xs : List StepId) → length (without x xs) ≤ length xs
length-without-le x [] = omega arith
length-without-le x (y ∷ xs) = ground (arith, length-without-le x xs)

length-without :
    (x : StepId) (xs : List StepId) → contains xs x ≡ true → suc (length (without x xs)) ≤ length xs
length-without x [] h = cc
length-without x (y ∷ xs) h = ground (arith, length-without x xs, length-without-le x xs)

contains-without :
    (x z : StepId) (xs : List StepId)
    → (z == x) ≡ false
    → contains xs z ≡ true
    → contains (without x xs) z ≡ true
contains-without x z [] apart h = cc
contains-without x z (y ∷ xs) apart h =
    ground (arith, contains-without x z xs, ==_iff y z, ==_iff y x, ==_iff z x)

-- A list that holds the candidates i, …, i + n is longer than n.
candidates-le :
    (p : StepId) (i n : ℕ) (xs : List StepId)
    → ((k : ℕ) → k ≤ n → contains xs (numbered p (i + k)) ≡ true)
    → n < length xs
candidates-le p i zero xs all =
    omega (arith, length-without (numbered p (i + 0)) xs (all 0 (omega arith)))
candidates-le p i (suc n) xs all =
    let last = numbered p (i + suc n) in
    let fewer =
      candidates-le p i n (without last xs) (λ k le.
        contains-without last (numbered p (i + k)) xs (other k le) (all k (omega arith))) in
    omega (arith, length-without last xs (all (suc n) (omega arith)))
  where
    other : (k : ℕ) → k ≤ n → (numbered p (i + k) == numbered p (i + suc n)) ≡ false
    other k le = elim (Bool-cases (numbered p (i + k) == numbered p (i + suc n))) [
      | inl same ↦
          let e = numbered-injective p (i + k) (i + suc n) ((==_iff _ _).0 same) in
          absurd (omega arith)
      | inr apart ↦ apart
    ]

-- If the loop ends at an id that is taken, all candidates are taken.
first_free-taken :
    (existing : List StepId) (p : StepId) (fuel i k : ℕ)
    → contains existing (first_free existing p fuel i) ≡ true
    → k ≤ fuel
    → contains existing (numbered p (i + k)) ≡ true
unfolding first_free
first_free-taken existing p zero i k h le = let e : i + k ≡ i = omega arith in rw e h
first_free-taken existing p (suc fuel) i zero h le =
    let e : i + 0 ≡ i = omega arith in rw e (ground arith)
first_free-taken existing p (suc fuel) i (suc k) h le =
    let e : i + suc k ≡ suc i + k = omega arith in
    rw e (first_free-taken existing p fuel (suc i) k (ground arith) (omega arith))

first_free-fresh :
    (existing : List StepId) (p : StepId) (i : ℕ)
    → contains existing (first_free existing p (length existing) i) ≡ false
first_free-fresh existing p i =
    elim (Bool-cases (contains existing (first_free existing p (length existing) i))) [
      | inl taken ↦ absurd (
          omega (
            arith,
            candidates-le p i (length existing) existing
                (λ k le. first_free-taken existing p (length existing) i k taken le),
          ))
      | inr fresh ↦ fresh
    ]

-- No step of the definition has the id that `uniqueStepId` returns.
pub unique_step_id-fresh :
    (def : WorkflowDefinition) (preferred : StepId)
    → contains (step_ids def.steps) (unique_step_id def preferred) ≡ false
unfolding unique_step_id
unique_step_id-fresh def preferred = ground (
  arith,
  first_free-fresh (step_ids def.steps) preferred 2,
  length-map (λ (s : Step). s.id) def.steps,
)
