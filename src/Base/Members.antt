-- ===== src/Base/Members.antt =====
-- Membership tests on lists of strings, and predicates on all members.
use Prim.Native.String.{String}
use mathlib.Core.Path.{◌≡◌}
use mathlib.Core.Logic.{◌↔◌, inl, inr}
use mathlib.Core.Bool.{Bool, true, false}
use mathlib.Core.List.{List, [], ◌∷◌}
use native.Mathlib.Omega.{arith}
use rochallor_engine.Base.Tests.{Bool-cases}
use rochallor_engine.Base.Lists.{any, All}
use rochallor_engine.Base.Text.{◌==◌, ==_iff, ==_refl, contains}

pub contains_of_any :
    (p : String → Bool) (xs : List String)
    → any p xs ≡ true
    → (x : String) × (contains xs x ≡ true) × (p x ≡ true)
contains_of_any p [] h = cc
contains_of_any p (x ∷ xs) h = elim (Bool-cases (p x)) [
  | inl here ↦ (x, ground (arith, ==_refl x), here)
  | inr other ↦
      let (y, listed, holds) = contains_of_any p xs (ground arith) in (y, ground arith, holds)
]

pub any_of_contains :
    (p : String → Bool) (xs : List String) (x : String)
    → contains xs x ≡ true
    → p x ≡ true
    → any p xs ≡ true
any_of_contains p [] x h holds = cc
any_of_contains p (y ∷ xs) x h holds = elim (Bool-cases (y == x)) [
  | inl same ↦ rw ((==_iff y x).0 same, holds)
  | inr other ↦ ground (arith, any_of_contains p xs x)
]

-- One `iff` for each member gives one for all.
pub All-iff {ℓ κ μ} :
    {A : Type ℓ} {P : A → Type κ} {Q : A → Type μ}
    → ((x : A) → P x ↔ Q x)
    → (xs : List A) → All P xs ↔ All Q xs
All-iff each [] = (λ _. tt, λ _. tt)
All-iff each (x ∷ xs) =
    let rest = All-iff each xs in
    (λ h. ((each x).0 h.0, rest.0 h.1), λ h. ((each x).1 h.0, rest.1 h.1))

-- No string stands in the list twice.
abbrev pub IsDistinct : List String → Type 0
IsDistinct [] = Unit
IsDistinct (x ∷ xs) = (contains xs x ≡ false) × IsDistinct xs
