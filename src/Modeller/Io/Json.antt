-- ===== src/Modeller/Io/Json.antt =====
-- Reading and building the JSON values that the program handles as objects.
use rochallor_engine.Base.{ℕ, suc, String, List, [], ◌∷◌, decimal}
use rochallor_engine.Modeller.Types.{Json, Items, Fields, arr, obj, nil, cons, end, field}

abbrev pub of_fields : Fields → List (String × Json)
of_fields end = []
of_fields (field k v rest) = (k, v) ∷ of_fields rest

abbrev pub to_fields : List (String × Json) → Fields
to_fields [] = end
to_fields ((k, v) ∷ rest) = field k v (to_fields rest)

-- The entries of an array, whose keys are its indices.
abbrev pub of_items : ℕ → Items → List (String × Json)
of_items i nil = []
of_items i (cons v rest) = (decimal i, v) ∷ of_items (suc i) rest

-- `Object.entries(x)` behind `x && typeof x === 'object'`, and what `{...x}` copies. (A string,
-- whose characters a spread would copy, is no value that the editor writes there.)
abbrev pub entries : Json → List (String × Json)
entries (obj fs) = of_fields fs
entries (arr xs) = of_items 0 xs
entries _ = []
