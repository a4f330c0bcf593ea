-- ===== src/Base/Maps.antt =====
-- Objects with string keys and `Map`s, as association lists in the order of insertion.
use Prim.Native.String.{String}
use mathlib.Core.Path.{◌≡◌, refl}
use mathlib.Core.Option.{Option, none, some}
use mathlib.Core.List.{List, [], ◌∷◌}
use native.Mathlib.Omega.{arith}
use rochallor_engine.Base.Tests.{if◌then◌else◌, is_some}
use rochallor_engine.Base.Text.{◌==◌, ==_iff, contains}

module _ {ℓ} {V : Type ℓ} where
  -- `map.get(key)`.
  abbrev pub lookup : String → List (String × V) → Option V
  lookup key [] = none
  lookup key ((own, value) ∷ rest) = if own == key then some value else lookup key rest

  -- `map.set(key, value)`: a key that is there keeps its place.
  abbrev pub insert : String → V → List (String × V) → List (String × V)
  insert key value [] = (key, value) ∷ []
  insert key value ((own, old) ∷ rest) =
      if own == key then (own, value) ∷ rest else (own, old) ∷ insert key value rest

  -- `map.delete(key)`.
  abbrev pub erase : String → List (String × V) → List (String × V)
  erase key [] = []
  erase key ((own, old) ∷ rest) = if own == key then rest else (own, old) ∷ erase key rest

  abbrev pub keys : List (String × V) → List String
  keys [] = []
  keys ((own, _) ∷ rest) = own ∷ keys rest

  abbrev pub values : List (String × V) → List V
  values [] = []
  values ((_, value) ∷ rest) = value ∷ values rest

  pub lookup-insert :
      (key other : String) (value : V) (entries : List (String × V))
      → lookup other (insert key value entries)
        ≡ (if key == other then some value else lookup other entries)
  lookup-insert key other value [] = refl
  lookup-insert key other value ((own, old) ∷ rest) = ground (
    arith,
    lookup-insert key other value rest,
    ==_iff own key,
    ==_iff own other,
    ==_iff key other,
  )

  pub contains-keys :
      (key : String) (entries : List (String × V))
      → contains (keys entries) key ≡ is_some (lookup key entries)
  contains-keys key [] = refl
  contains-keys key ((own, value) ∷ rest) = ground (arith, contains-keys key rest)
