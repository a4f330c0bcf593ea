-- ===== src/Modeller/Expression/Tree.antt =====
-- workflow-modeller/src/domain/expression/parser.ts.
use rochallor_engine.Base.{
  ℕ, String, Bool, true, false, ◌&&◌, Option, none, some, List, [], ◌∷◌, ◌++◌, if◌then◌else◌, code,
  nat_eq, ltb, trim, utf16_length, join,
}

-- A numeric literal is kept as its text.
pub data Literal : Type 0 where
  int_literal float_literal string_literal : String → Literal
  bool_literal : Bool → Literal

pub data BinaryOp : Type 0 where
  op_eq op_ne op_gt op_ge op_lt op_le op_add op_sub op_mul op_div op_and op_or : BinaryOp

pub data Fn : Type 0 where
  fn_contains fn_len : Fn

mutual
  pub data Expr : Type 0 where
    literal : Literal → Expr
    identifier : List String → Expr
    unary_not : Expr → Expr
    binary : BinaryOp → Expr → Expr → Expr
    membership : Expr → Expr → Expr
    call : Fn → Args → Expr

  pub data Args : Type 0 where
    no_args : Args
    arg : Expr → Args → Args

pub record Location : Type 0 where
  pub line : ℕ
  pub column : ℕ
  pub offset : ℕ

-- What the generated parser does: it returns a tree, throws its own `SyntaxError`, or throws
-- something else, with the message that `message ?? String(e)` reads.
pub data Parsed : Type 0 where
  tree : Expr → Parsed
  syntax_error : String → Option Location → Parsed
  other_error : String → Parsed

pub data ParseResult : Type 0 where
  parse_ok : Expr → ParseResult
  parse_err : String → Option Location → ParseResult

unfoldable pub parse_expression : (String → Parsed) → String → ParseResult
parse_expression parse source = elim (parse source) [
  | tree ast ↦ parse_ok ast
  | syntax_error message location ↦ parse_err message location
  | other_error message ↦ parse_err message none
]

-- `s.startsWith('${')`, and what follows it.
unfoldable pub after_open : String → Option String
after_open (String.◌∷◌ c (String.◌∷◌ d s)) =
    if nat_eq (code c) b'$' && nat_eq (code d) b'{' then some s else none
after_open _ = none

-- `s.endsWith('}')`, and what stands before it.
unfoldable pub before_close : String → Option String
before_close String.[] = none
before_close (String.◌∷◌ c String.[]) = if nat_eq (code c) b'}' then some "" else none
before_close (String.◌∷◌ c s) = elim (before_close s) [
  | none ↦ none
  | some inner ↦ some (String.◌∷◌ c inner)
]

unfoldable pub unwrap_transformation_expression : String → Option String
unfolding after_open before_close trim utf16_length
unwrap_transformation_expression source =
    let trimmed = trim source in
    if ltb (utf16_length trimmed) 3
    then none
    else elim (after_open trimmed) [ none ↦ none | some rest ↦ before_close rest ]

unfoldable mutual
  pub collect_identifiers : Expr → List String
  collect_identifiers (literal _) = []
  collect_identifiers (identifier path) = join "." path ∷ []
  collect_identifiers (unary_not a) = collect_identifiers a
  collect_identifiers (binary op lhs rhs) = collect_identifiers lhs ++ collect_identifiers rhs
  collect_identifiers (membership needle haystack) =
      collect_identifiers needle ++ collect_identifiers haystack
  collect_identifiers (call fn args) = collect_args args

  pub collect_args : Args → List String
  collect_args no_args = []
  collect_args (arg a rest) = collect_identifiers a ++ collect_args rest

unfoldable pub boolean_op : BinaryOp → Bool
boolean_op op_add = false
boolean_op op_sub = false
boolean_op op_mul = false
boolean_op op_div = false
boolean_op _ = true

unfoldable pub top_level_likely_boolean : Expr → Bool
unfolding boolean_op
top_level_likely_boolean (literal (bool_literal _)) = true
top_level_likely_boolean (literal _) = false
top_level_likely_boolean (binary op _ _) = boolean_op op
top_level_likely_boolean _ = true
