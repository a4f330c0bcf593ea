-- ===== src/Base/Text/Decimal.antt =====
-- The decimal notation determines the number.
use Prim.Native.Nat.{ℕ, zero, suc, ◌+◌, ◌-◌, ◌*◌, ◌/◌, ◌%◌, ◌<◌}
use Prim.Native.Char.{code}
use Prim.Native.String.{String}
use mathlib.Core.Path.{◌≡◌, refl, sym, ap, ◌∙◌}
use mathlib.Core.Logic.{inl, inr}
use native.Mathlib.Omega.{arith}
use rochallor_engine.Base.Tests.{ltb, Bool-cases}
use rochallor_engine.Base.Text.{digit, decimal_loop, decimal}

-- The number that a text of digits denotes, behind the digits read so far.
value_from : ℕ → String → ℕ
value_from acc String.[] = acc
value_from acc (String.◌∷◌ c s) = value_from (acc * 10 + (code c - 48)) s

code-digit : (d : ℕ) → d < 10 → code (digit d) ≡ 48 + d
unfolding digit
code-digit zero h = refl
code-digit (suc zero) h = refl
code-digit (suc (suc zero)) h = refl
code-digit (suc (suc (suc zero))) h = refl
code-digit (suc (suc (suc (suc zero)))) h = refl
code-digit (suc (suc (suc (suc (suc zero))))) h = refl
code-digit (suc (suc (suc (suc (suc (suc zero)))))) h = refl
code-digit (suc (suc (suc (suc (suc (suc (suc zero))))))) h = refl
code-digit (suc (suc (suc (suc (suc (suc (suc (suc zero)))))))) h = refl
code-digit (suc (suc (suc (suc (suc (suc (suc (suc (suc zero))))))))) h = refl
code-digit (suc (suc (suc (suc (suc (suc (suc (suc (suc (suc d)))))))))) h = absurd (omega arith)

value_from-digit :
    (acc d : ℕ) (tail : String)
    → d < 10
    → value_from acc (String.◌∷◌ (digit d) tail) ≡ value_from (acc * 10 + d) tail
unfolding value_from
value_from-digit acc d tail h =
    ap (λ k. value_from (acc * 10 + k) tail) (omega (arith, code-digit d h))

value_from-decimal_loop :
    (fuel n : ℕ) (tail : String)
    → n < fuel
    → value_from 0 (decimal_loop fuel n tail) ≡ value_from n tail
unfolding decimal_loop
value_from-decimal_loop zero n tail h = elim h [ ]
value_from-decimal_loop (suc fuel) n tail h = elim (Bool-cases (ltb n 10)) [
  | inl small ↦
      rw small
        (value_from-digit 0 n tail (ground arith) ∙ ap (λ k. value_from k tail) (omega arith))
  | inr large ↦
      let big : 9 < n = ground arith in
      rw large (
        value_from-decimal_loop fuel (n / 10) (String.◌∷◌ (digit (n % 10)) tail) (omega arith)
        ∙ value_from-digit (n / 10) (n % 10) tail (omega arith)
        ∙ ap (λ k. value_from k tail) (omega arith))
]

value_from-decimal : (n : ℕ) → value_from 0 (decimal n) ≡ n
unfolding decimal value_from
value_from-decimal n = value_from-decimal_loop (suc n) n "" (omega arith)

pub decimal-injective : (m n : ℕ) → decimal m ≡ decimal n → m ≡ n
decimal-injective m n e = sym (value_from-decimal m) ∙ ap (value_from 0) e ∙ value_from-decimal n
