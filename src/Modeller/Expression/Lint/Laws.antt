-- ===== src/Modeller/Expression/Lint/Laws.antt =====
-- When the lint of a decision expression (workflow-modeller/src/domain/expression/lint.ts) is silent.
use rochallor_engine.Base.{
  Char, if◌then◌else◌, ◌∙◌, String, code, nat_eq, true, false, List, [], ◌∷◌, ◌++◌, ◌≡◌, ◌↔◌, ◌⊎◌,
  refl, ap, arith, All, All-append, All-append_split, All-iff, contains, length, ltb, join,
  Bool-cases, inl, inr,
}
use rochallor_engine.Modeller.Types.{Diagnostic}
use rochallor_engine.Modeller.Expression.Tree.{
  Expr, literal, identifier, unary_not, binary, membership, call, Args, no_args, arg, BinaryOp,
  op_eq, op_ne, op_gt, op_ge, op_lt, op_le, op_add, op_sub, op_mul, op_div, op_and, op_or,
  int_literal, float_literal, string_literal, bool_literal, Parsed, tree, syntax_error, other_error,
  parse_expression, collect_identifiers, collect_args, boolean_op, top_level_likely_boolean,
}
use rochallor_engine.Modeller.Expression.Lint.{
  LintContext, root_of, unknown_idents, lint_tree, lint_decision_expression,
}

-- `root` is what stands in front of the first dot of a name.
pub data HasRoot : String → String → Type 0 where
  at_end : HasRoot "" ""
  at_dot : (c : Char) (s : String) → nat_eq (code c) b'.' ≡ true → HasRoot "" (String.◌∷◌ c s)
  before :
      (c : Char) (root s : String)
      → nat_eq (code c) b'.' ≡ false
      → HasRoot root s
      → HasRoot (String.◌∷◌ c root) (String.◌∷◌ c s)

-- The root of the name is a known variable.
abbrev pub IsKnownName : List String → String → Type 0
IsKnownName known name = (v : String) × (contains known v ≡ true) × HasRoot v name

-- `P` holds of each dotted name of an expression.
mutual
  pub AllNames : (String → Type 0) → Expr → Type 0
  AllNames P (literal _) = Unit
  AllNames P (identifier path) = P (join "." path)
  AllNames P (unary_not a) = AllNames P a
  AllNames P (binary op lhs rhs) = AllNames P lhs × AllNames P rhs
  AllNames P (membership needle haystack) = AllNames P needle × AllNames P haystack
  AllNames P (call fn args) = AllArgs P args

  pub AllArgs : (String → Type 0) → Args → Type 0
  AllArgs P no_args = Unit
  AllArgs P (arg a rest) = AllNames P a × AllArgs P rest

-- A comparison or a connective.
abbrev pub IsTest : BinaryOp → Type 0
IsTest op_eq = Unit
IsTest op_ne = Unit
IsTest op_gt = Unit
IsTest op_ge = Unit
IsTest op_lt = Unit
IsTest op_le = Unit
IsTest op_add = ⊥
IsTest op_sub = ⊥
IsTest op_mul = ⊥
IsTest op_div = ⊥
IsTest op_and = Unit
IsTest op_or = Unit

-- At its top an expression is no arithmetic, and no literal but a Boolean one.
abbrev pub LooksBoolean : Expr → Type 0
LooksBoolean (literal (int_literal _)) = ⊥
LooksBoolean (literal (float_literal _)) = ⊥
LooksBoolean (literal (string_literal _)) = ⊥
LooksBoolean (literal (bool_literal _)) = Unit
LooksBoolean (identifier _) = Unit
LooksBoolean (unary_not _) = Unit
LooksBoolean (binary op _ _) = IsTest op
LooksBoolean (membership _ _) = Unit
LooksBoolean (call _ _) = Unit

-- The parser accepts, the tree looks Boolean and, if variables are known, names only those.
abbrev pub IsClean : List String → Parsed → Type 0
IsClean known (tree ast) = LooksBoolean ast × ((known ≡ []) ⊎ AllNames (IsKnownName known) ast)
IsClean known (syntax_error _ _) = ⊥
IsClean known (other_error _) = ⊥

root_of-HasRoot : (name : String) → HasRoot (root_of name) name
unfolding root_of
root_of-HasRoot String.[] = at_end
root_of-HasRoot (String.◌∷◌ c s) = elim (Bool-cases (nat_eq (code c) b'.')) [
  | inl dot ↦ rw dot (at_dot c s dot)
  | inr other ↦ rw other (before c (root_of s) s other (root_of-HasRoot s))
]

root_of_unique : {root name : String} → HasRoot root name → root_of name ≡ root
unfolding root_of
root_of_unique at_end = refl
root_of_unique (at_dot c s dot) = rw dot refl
root_of_unique (before c root s other h) = rw other (ap (String.◌∷◌ c) (root_of_unique h))

known_iff :
    (known : List String) (name : String)
    → (contains known (root_of name) ≡ true) ↔ IsKnownName known name
known_iff known name = (
  λ h. (root_of name, h, root_of-HasRoot name),
  λ h. ap (contains known) (root_of_unique h.2) ∙ h.1,
)

both_iff :
    (P : String → Type 0) (xs ys : List String) {A B : Type 0}
    → All P xs ↔ A
    → All P ys ↔ B
    → All P (xs ++ ys) ↔ (A × B)
both_iff P xs ys left right = (
  λ h. let parts = All-append_split P xs ys h in (left.0 parts.0, right.0 parts.1),
  λ h. All-append P xs ys (left.1 h.0) (right.1 h.1),
)

-- What holds of the identifiers collected holds of the names of the expression.
mutual
  unfolding collect_identifiers AllNames

  collect_identifiers_iff :
      (P : String → Type 0) (ast : Expr) → All P (collect_identifiers ast) ↔ AllNames P ast
  collect_identifiers_iff P (literal _) = (λ h. tt, λ h. tt)
  collect_identifiers_iff P (identifier path) = (λ h. h.0, λ h. (h, tt))
  collect_identifiers_iff P (unary_not a) = collect_identifiers_iff P a
  collect_identifiers_iff P (binary op lhs rhs) =
      both_iff P (collect_identifiers lhs) (collect_identifiers rhs) (collect_identifiers_iff P lhs)
        (collect_identifiers_iff P rhs)
  collect_identifiers_iff P (membership needle haystack) =
      both_iff P (collect_identifiers needle) (collect_identifiers haystack)
        (collect_identifiers_iff P needle) (collect_identifiers_iff P haystack)
  collect_identifiers_iff P (call fn args) = collect_args_iff P args

  collect_args_iff :
      (P : String → Type 0) (args : Args) → All P (collect_args args) ↔ AllArgs P args
  collect_args_iff P no_args = (λ h. tt, λ h. tt)
  collect_args_iff P (arg a rest) =
      both_iff P (collect_identifiers a) (collect_args rest) (collect_identifiers_iff P a)
        (collect_args_iff P rest)

top_level_likely_boolean_iff :
    (ast : Expr) → (top_level_likely_boolean ast ≡ true) ↔ LooksBoolean ast
unfolding top_level_likely_boolean boolean_op
top_level_likely_boolean_iff (literal (int_literal _)) = (λ e. cc, λ h. absurd h)
top_level_likely_boolean_iff (literal (float_literal _)) = (λ e. cc, λ h. absurd h)
top_level_likely_boolean_iff (literal (string_literal _)) = (λ e. cc, λ h. absurd h)
top_level_likely_boolean_iff (literal (bool_literal _)) = (λ e. tt, λ h. refl)
top_level_likely_boolean_iff (identifier _) = (λ e. tt, λ h. refl)
top_level_likely_boolean_iff (unary_not _) = (λ e. tt, λ h. refl)
top_level_likely_boolean_iff (membership _ _) = (λ e. tt, λ h. refl)
top_level_likely_boolean_iff (call _ _) = (λ e. tt, λ h. refl)
top_level_likely_boolean_iff (binary op_eq _ _) = (λ e. tt, λ h. refl)
top_level_likely_boolean_iff (binary op_ne _ _) = (λ e. tt, λ h. refl)
top_level_likely_boolean_iff (binary op_gt _ _) = (λ e. tt, λ h. refl)
top_level_likely_boolean_iff (binary op_ge _ _) = (λ e. tt, λ h. refl)
top_level_likely_boolean_iff (binary op_lt _ _) = (λ e. tt, λ h. refl)
top_level_likely_boolean_iff (binary op_le _ _) = (λ e. tt, λ h. refl)
top_level_likely_boolean_iff (binary op_add _ _) = (λ e. cc, λ h. absurd h)
top_level_likely_boolean_iff (binary op_sub _ _) = (λ e. cc, λ h. absurd h)
top_level_likely_boolean_iff (binary op_mul _ _) = (λ e. cc, λ h. absurd h)
top_level_likely_boolean_iff (binary op_div _ _) = (λ e. cc, λ h. absurd h)
top_level_likely_boolean_iff (binary op_and _ _) = (λ e. tt, λ h. refl)
top_level_likely_boolean_iff (binary op_or _ _) = (λ e. tt, λ h. refl)

unknown_idents_iff :
    (known : List String) (ctx : LintContext) (paths : List String)
    → (unknown_idents known ctx [] paths ≡ [])
      ↔ All (λ name. contains known (root_of name) ≡ true) paths
unfolding unknown_idents
unknown_idents_iff known ctx [] = (λ _. tt, λ _. refl)
unknown_idents_iff known ctx (path ∷ paths) =
    let ih = unknown_idents_iff known ctx paths in
    elim (Bool-cases (contains known (root_of path))) [
      | inl listed ↦ (λ e. (listed, ih.0 (rw listed at e)), λ h. rw listed (ih.1 h.1))
      | inr missing ↦
          (λ e. cc (rw missing at e), λ h. let bad : true ≡ false = cc (h.0, missing) in cc)
    ]

names_iff :
    (known : List String) (ctx : LintContext) (ast : Expr)
    → (unknown_idents known ctx [] (collect_identifiers ast) ≡ [])
      ↔ AllNames (IsKnownName known) ast
names_iff known ctx ast =
    let idents = unknown_idents_iff known ctx (collect_identifiers ast) in
    let roots = All-iff (known_iff known) (collect_identifiers ast) in
    let names = collect_identifiers_iff (IsKnownName known) ast in
    (λ e. names.0 (roots.0 (idents.0 e)), λ h. idents.1 (roots.1 (names.1 h)))

if_known :
    (known : List String) {reports : List Diagnostic} {N : Type 0}
    → (reports ≡ []) ↔ N
    → ((if ltb 0 (length known) then reports else []) ≡ []) ↔ ((known ≡ []) ⊎ N)
if_known [] f = (λ e. inl refl, λ h. refl)
if_known (v ∷ vs) f =
    let listed : ltb 0 (length (v ∷ vs)) ≡ true = ground arith in
    rw listed (λ e. inr (f.0 e), λ h. elim h [ inl none_known ↦ cc | inr names ↦ f.1 names ])

lint_tree_iff :
    (known : List String) (ctx : LintContext) (ast : Expr)
    → (lint_tree known ctx ast ≡ []) ↔ IsClean known (tree ast)
unfolding lint_tree
lint_tree_iff known ctx ast =
    let boolean = top_level_likely_boolean_iff ast in
    elim (Bool-cases (top_level_likely_boolean ast)) [
      | inr other ↦
          rw (lint_tree, other)
            (λ e. cc, λ h. let bad : true ≡ false = cc (boolean.1 h.0, other) in cc)
      | inl likely ↦
          let named = if_known known (names_iff known ctx ast) in
          rw (lint_tree, likely) (λ e. (boolean.0 likely, named.0 e), λ h. named.1 h.1)
    ]

parsed_iff :
    (parse : String → Parsed) (source : String) (known : List String) (ctx : LintContext)
    (parsed : Parsed)
    → parse source ≡ parsed
    → (lint_decision_expression parse source known ctx ≡ []) ↔ IsClean known parsed
unfolding lint_decision_expression parse_expression
parsed_iff parse source known ctx (tree ast) e =
    rw (lint_decision_expression, e) (lint_tree_iff known ctx ast)
parsed_iff parse source known ctx (syntax_error message location) e =
    rw (lint_decision_expression, e) (λ report. cc, λ h. absurd h)
parsed_iff parse source known ctx (other_error message) e =
    rw (lint_decision_expression, e) (λ report. cc, λ h. absurd h)

-- The lint is silent exactly if the parser accepts the expression, the expression looks Boolean at
-- its top and, if any variables are known, the part before the first dot of each of its names is a
-- known one.
pub lint_decision_expression_iff :
    (parse : String → Parsed) (source : String) (known : List String) (ctx : LintContext)
    → (lint_decision_expression parse source known ctx ≡ []) ↔ IsClean known (parse source)
lint_decision_expression_iff parse source known ctx =
    parsed_iff parse source known ctx (parse source) refl
