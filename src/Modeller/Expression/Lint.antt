-- ===== src/Modeller/Expression/Lint.antt =====
-- workflow-modeller/src/domain/expression/lint.ts.
pub mod Laws
use rochallor_engine.Base.{
  String, Option, none, some, List, [], ◌∷◌, ◌++◌, ◌||◌, if◌then◌else◌, code, nat_eq, ◌<>◌,
  contains, ltb, length,
}
use rochallor_engine.Modeller.Types.{
  StepId, Diagnostic, DiagnosticCode, decision_expr_syntax, decision_expr_non_boolean,
  decision_expr_unknown_ident, transformation_expr_syntax, Severity, error, warning,
}
use rochallor_engine.Modeller.Expression.Tree.{
  Parsed, parse_ok, parse_err, parse_expression, unwrap_transformation_expression,
  collect_identifiers, top_level_likely_boolean, Expr,
}

pub record LintContext : Type 0 where
  pub node_id : Option StepId
  pub field : Option String
  pub branch_key : Option String

unfoldable pub lint_diagnostic : DiagnosticCode → Severity → String → LintContext → Diagnostic
lint_diagnostic code severity message ctx = record {
  code = code;
  severity = severity;
  message = message;
  node_id = ctx.node_id;
  field = ctx.field;
  branch_key = ctx.branch_key;
  boundary_index = none;
  rule_index = none;
  cell_column = none;
}

-- `path.split('.', 1)[0]`.
unfoldable pub root_of : String → String
root_of String.[] = ""
root_of (String.◌∷◌ c s) = if nat_eq (code c) b'.' then "" else String.◌∷◌ c (root_of s)

-- The loop over the identifiers; `seen` holds the roots reported so far.
unfoldable pub unknown_idents :
    List String → LintContext → List String → List String → List Diagnostic
unfolding lint_diagnostic root_of
unknown_idents known ctx seen [] = []
unknown_idents known ctx seen (path ∷ paths) =
    let skip = unknown_idents known ctx seen paths in
    let report = unknown_idents known ctx (root_of path ∷ seen) paths in
    if contains known (root_of path) || contains seen (root_of path)
    then skip
    else lint_diagnostic decision_expr_unknown_ident warning
        ("Identifier \"" <> root_of path <> "\" is not produced by any TRANSFORMATION step.") ctx
      ∷ report

unfoldable pub lint_tree : List String → LintContext → Expr → List Diagnostic
unfolding unknown_idents top_level_likely_boolean
lint_tree known ctx ast =
    (if top_level_likely_boolean ast
      then []
      else lint_diagnostic decision_expr_non_boolean error
          "Decision expression must resolve to a boolean." ctx
        ∷ [])
    ++ (if ltb 0 (length known) then unknown_idents known ctx [] (collect_identifiers ast) else [])

module _ (parse : String → Parsed) where
  unfoldable pub lint_decision_expression : String → List String → LintContext → List Diagnostic
  unfolding lint_tree parse_expression
  lint_decision_expression source known ctx = elim (parse_expression parse source) [
    | parse_err message _ ↦
        lint_diagnostic decision_expr_syntax error ("Parse error: " <> message) ctx ∷ []
    | parse_ok ast ↦ lint_tree known ctx ast
  ]

  unfoldable pub lint_transformation_expression : String → LintContext → List Diagnostic
  unfolding lint_diagnostic parse_expression unwrap_transformation_expression
  lint_transformation_expression source ctx = elim (unwrap_transformation_expression source) [
    | none ↦ []
    | some inner ↦ elim (parse_expression parse inner) [
      | parse_err message _ ↦
          lint_diagnostic transformation_expr_syntax error ("Parse error: " <> message) ctx ∷ []
      | parse_ok _ ↦ []
    ]
  ]
