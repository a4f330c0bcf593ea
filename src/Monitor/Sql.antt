-- ===== src/Monitor/Sql.antt =====
-- The way the queries of workflow-monitor-bff/src are built: conditions with numbered
-- placeholders, and the list of their values.
--
-- A condition is a value of a type `C`, which stands for its SQL text, with its placeholders.
pub mod Laws
use rochallor_engine.Base.{
  String, take, false, ℕ, zero, suc, ◌+◌, Bool, true, Option, none, some, List, [], ◌∷◌, ◌++◌, ◌&&◌,
  all, length, get_elem?, ◌≡◌, refl, arith, ap, ◌∙◌,
}

pub record Built (C V : Type 0) : Type 0 where
  pub conditions : List C
  pub values : List V

abbrev pub nothing_built : {C V : Type 0} → Built C V
nothing_built = record { conditions = []; values = [] }

module _ {C V : Type 0} where
  -- `addCondition`: `$n` counts the values with the new one.
  unfoldable pub add_condition : (ℕ → C) → V → Built C V → Built C V
  add_condition condition value b = record {
    conditions = b.conditions ++ condition (suc (length b.values)) ∷ [];
    values = b.values ++ value ∷ [];
  }

  -- Two values pushed, and one condition that names both.
  unfoldable pub add_pair : (ℕ → ℕ → C) → V → V → Built C V → Built C V
  add_pair condition first second b = record {
    conditions =
        b.conditions ++ condition (suc (length b.values)) (suc (suc (length b.values))) ∷ [];
    values = b.values ++ (first ∷ second ∷ []);
  }

  -- A condition without placeholders.
  unfoldable pub add_fixed : C → Built C V → Built C V
  add_fixed condition b = record b { conditions = b.conditions ++ condition ∷ [] }

-- `$n`: the values count from 1.
unfoldable pub placeholder : {V : Type 0} → List V → ℕ → Option V
placeholder values zero = none
placeholder values (suc n) = get_elem? values n

-- The values of a statement whose parameters are texts but for its limit.
pub data Value : Type 0 where
  text : String → Value
  number : ℕ → Value

-- A condition on the text of a placeholder.
abbrev pub on_text : Option Value → (String → Bool) → Bool
on_text (some (text s)) p = p s
on_text _ p = false

-- `LIMIT`.
abbrev pub limited : {A : Type 0} → Option Value → List A → List A
limited (some (number n)) rows = take n rows
limited _ rows = rows
