-- ===== src/Monitor/Sql/Laws.antt =====
-- What built conditions mean: the placeholders name the values that were pushed for them.
use rochallor_engine.Base.{
  ℕ, suc, Bool, true, some, List, [], ◌∷◌, ◌++◌, ◌&&◌, all, length, get_elem?, ◌≡◌, refl, arith, ap,
  ◌∙◌, length-append,
}
use mathlib.Core.List.{append_assoc}
use rochallor_engine.Monitor.Sql.{
  Built, nothing_built, add_condition, add_pair, add_fixed, placeholder,
}

pub get_elem?-append {ℓ} :
    {A : Type ℓ} (xs : List A) (v : A) (ys : List A) → get_elem? (xs ++ v ∷ ys) (length xs) ≡ some v
get_elem?-append [] v ys = refl
get_elem?-append (x ∷ xs) v ys = get_elem?-append xs v ys

pub placeholder-last :
    {V : Type 0} (xs : List V) (v : V) (ys : List V)
    → placeholder (xs ++ v ∷ ys) (suc (length xs)) ≡ some v
unfolding placeholder
placeholder-last xs v ys = get_elem?-append xs v ys

pub placeholder-next :
    {V : Type 0} (xs : List V) (u v : V) (ys : List V)
    → placeholder (xs ++ u ∷ v ∷ ys) (suc (suc (length xs))) ≡ some v
unfolding placeholder
placeholder-next [] u v ys = refl
placeholder-next (x ∷ xs) u v ys = placeholder-next xs u v ys

-- The number of the last value is the number of values.
pub placeholder-length :
    {V : Type 0} (xs : List V) (v : V) → placeholder (xs ++ v ∷ []) (length (xs ++ v ∷ [])) ≡ some v
placeholder-length xs v =
    ap (placeholder (xs ++ v ∷ [])) (length-append xs (v ∷ []) ∙ omega arith)
    ∙ placeholder-last xs v []

all-append {ℓ} :
    {A : Type ℓ} (p : A → Bool) (xs ys : List A) → all p (xs ++ ys) ≡ (all p xs && all p ys)
all-append p [] ys = refl
all-append p (x ∷ xs) ys = ground (arith, all-append p xs ys)

-- `holds values condition` is the truth of a condition under the values of a statement. The
-- conditions built so far mean `meaning`, whatever values are pushed behind theirs.
module _ {C V : Type 0} (holds : List V → C → Bool) where
  abbrev pub Means : Built C V → Bool → Type 0
  Means b meaning = (more : List V) → all (holds (b.values ++ more)) b.conditions ≡ meaning

  pub Means-nothing : Means nothing_built true
  Means-nothing more = refl

  pub Means-condition :
      (b : Built C V) (meaning here : Bool) (condition : ℕ → C) (v : V)
      → Means b meaning
      → ((xs more : List V) → holds (xs ++ v ∷ more) (condition (suc (length xs))) ≡ here)
      → Means (add_condition condition v b) (meaning && here)
  unfolding add_condition
  Means-condition b meaning here condition v old new more =
      rw (append_assoc b.values (v ∷ []) more, all-append, old (v ∷ more), new b.values more)
        (ground arith)

  pub Means-pair :
      (b : Built C V) (meaning here : Bool) (condition : ℕ → ℕ → C) (u v : V)
      → Means b meaning
      → ((xs more : List V)
          → holds (xs ++ u ∷ v ∷ more) (condition (suc (length xs)) (suc (suc (length xs)))) ≡ here)
      → Means (add_pair condition u v b) (meaning && here)
  unfolding add_pair
  Means-pair b meaning here condition u v old new more =
      rw
        (append_assoc b.values (u ∷ v ∷ []) more, all-append, old (u ∷ v ∷ more), new b.values more)
        (ground arith)

  pub Means-fixed :
      (b : Built C V) (meaning here : Bool) (condition : C)
      → Means b meaning
      → ((values : List V) → holds values condition ≡ here)
      → Means (add_fixed condition b) (meaning && here)
  unfolding add_fixed
  Means-fixed b meaning here condition old new more =
      rw (all-append, old more, new (b.values ++ more)) (ground arith)
