-- ===== src/Modeller/Validate/Cycle/Colors.antt =====
-- The colours of `checkGraphCycle` of workflow-modeller/src/domain/validate.ts.
use rochallor_engine.Base.{
  ℕ, suc, ◌+◌, ◌≤◌, some, List, [], ◌∷◌, ◌≡◌, refl, arith, lookup, insert, lookup-insert, contains,
  ◌==◌, if◌then◌else◌, length, Bool-cases, inl, inr, map,
}
use rochallor_engine.Modeller.Types.{StepId, Step}
use rochallor_engine.Modeller.Validate.Cycle.{Color, white, gray, black, all_white}

abbrev count_white : Color → ℕ
count_white white = 1
count_white _ = 0

-- The number of white entries.
abbrev pub whites : List (StepId × Color) → ℕ
whites [] = 0
whites ((_, c) ∷ rest) = count_white c + whites rest

pub whites-gray :
    (id : StepId) (m : List (StepId × Color))
    → lookup id m ≡ some white
    → suc (whites (insert id gray m)) ≡ whites m
whites-gray id [] h = cc
whites-gray id ((k, c) ∷ rest) h = elim (Bool-cases (k == id)) [
  | inl same ↦ ground arith
  | inr other ↦ ground (arith, whites-gray id rest)
]

pub whites-black : (id : StepId) (m : List (StepId × Color)) → whites (insert id black m) ≤ whites m
whites-black id [] = omega arith
whites-black id ((k, c) ∷ rest) = ground (arith, whites-black id rest)

pub whites-insert_white :
    (id : StepId) (m : List (StepId × Color)) → whites (insert id white m) ≤ suc (whites m)
whites-insert_white id [] = omega arith
whites-insert_white id ((k, c) ∷ rest) = ground (arith, whites-insert_white id rest)

pub all_white-whites :
    (m : List (StepId × Color)) (steps : List Step)
    → whites (all_white m steps) ≤ whites m + length steps
unfolding all_white
all_white-whites m [] = omega arith
all_white-whites m (s ∷ steps) =
    omega (arith, all_white-whites (insert s.id white m) steps, whites-insert_white s.id m)

-- At the start the ids of the steps are white, and no other.
pub all_white-lookup :
    (m : List (StepId × Color)) (steps : List Step) (id : StepId)
    → lookup id (all_white m steps)
      ≡ (if contains (map (λ (s : Step). s.id) steps) id then some white else lookup id m)
unfolding all_white
all_white-lookup m [] id = refl
all_white-lookup m (s ∷ steps) id =
    ground (arith, all_white-lookup (insert s.id white m) steps id, lookup-insert s.id id white m)
