-- ===== src/Modeller/Validate/Expressions.antt =====
-- The checks of workflow-modeller/src/domain/validate.ts on the expressions of a step.
use rochallor_engine.Base.{
  ℕ, String, Option, none, some, List, [], ◌∷◌, ◌++◌, ◌||◌, if◌then◌else◌, is_empty, is_blank,
  contains, flat_map, flat_map_from, map, keys,
}
use rochallor_engine.Modeller.Types.{
  StepId, Step, Variant, decision, decision_table, transformation, Rule, WorkflowDefinition,
  Diagnostic, DiagnosticCode, Json, str, decision_expr_syntax, decision_expr_non_boolean,
  decision_expr_unknown_ident, dt_cell_expr_syntax, dt_cell_expr_non_boolean,
  dt_cell_expr_unknown_ident, transformation_expr_syntax, dt_output_expr_syntax,
}
use rochallor_engine.Modeller.Expression.Tree.{Parsed}
use rochallor_engine.Modeller.Expression.Lint.{
  LintContext, lint_decision_expression, lint_transformation_expression,
}

-- `vars.add(key)`.
unfoldable pub add_var : List String → String → List String
add_var vars key = if contains vars key then vars else vars ++ key ∷ []

unfoldable pub add_vars : List String → List String → List String
unfolding add_var
add_vars vars [] = vars
add_vars vars (key ∷ keys) = add_vars (add_var vars key) keys

unfoldable pub step_vars : List String → Variant → List String
unfolding add_vars
step_vars vars (transformation t) = add_vars vars (keys t.transformations)
step_vars vars _ = vars

unfoldable pub known_from : List String → List Step → List String
unfolding step_vars
known_from vars [] = vars
known_from vars (step ∷ steps) = known_from (step_vars vars step.variant) steps

unfoldable pub collect_known_variables : WorkflowDefinition → List String
unfolding known_from
collect_known_variables def = known_from [] def.steps

unfoldable pub remap_cell_code : DiagnosticCode → DiagnosticCode
remap_cell_code decision_expr_syntax = dt_cell_expr_syntax
remap_cell_code decision_expr_non_boolean = dt_cell_expr_non_boolean
remap_cell_code decision_expr_unknown_ident = dt_cell_expr_unknown_ident
remap_cell_code code = code

unfoldable pub remap_output_code : DiagnosticCode → DiagnosticCode
remap_output_code transformation_expr_syntax = dt_output_expr_syntax
remap_output_code code = code

abbrev context : StepId → String → Option String → LintContext
context id field key = record { node_id = some id; field = some field; branch_key = key }

module _ (parse : String → Parsed) where
  unfoldable pub check_branches : StepId → List String → List (String × StepId) → List Diagnostic
  check_branches id known branches =
      flat_map
        (λ expr.
          lint_decision_expression parse expr known (context id "conditionalNextSteps" (some expr)))
        (keys branches)

  -- An entry of a TRANSFORMATION, or of the outputs of a rule; only strings are expressions.
  unfoldable pub check_entry : StepId → String → String × Json → List Diagnostic
  check_entry id field (key, str value) =
      lint_transformation_expression parse value (context id field (some key))
  check_entry id field (key, _) = []

  unfoldable pub check_cell : StepId → List String → ℕ → String × String → List Diagnostic
  unfolding remap_cell_code
  check_cell id known i (column, expr) =
      if is_empty expr || is_blank expr
      then []
      else map
          (λ (d : Diagnostic). record d {
            code = remap_cell_code d.code;
            rule_index = some i;
            cell_column = some column;
          })
          (lint_decision_expression parse expr known (context id "decisionTable.rules" none))

  unfoldable pub check_output : StepId → ℕ → String × Json → List Diagnostic
  unfolding check_entry remap_output_code
  check_output id i entry =
      map (λ (d : Diagnostic). record d { code = remap_output_code d.code; rule_index = some i })
        (check_entry id "decisionTable.rules" entry)

  unfoldable pub check_rule : StepId → List String → ℕ → Rule → List Diagnostic
  unfolding check_cell check_output
  check_rule id known i rule =
      flat_map (check_cell id known i) rule.when ++ flat_map (check_output id i) rule.outputs

  unfoldable pub check_variant_expressions : WorkflowDefinition → StepId → Variant → List Diagnostic
  unfolding check_branches check_entry check_rule
  check_variant_expressions def id (decision branches) =
      check_branches id (collect_known_variables def) branches
  check_variant_expressions def id (transformation t) =
      flat_map (check_entry id "transformations") t.transformations
  check_variant_expressions def id (decision_table t) =
      flat_map_from 0 (check_rule id (collect_known_variables def)) t.decision_table.rules
  check_variant_expressions def id _ = []

  unfoldable pub check_expressions : WorkflowDefinition → Step → List Diagnostic
  unfolding check_variant_expressions
  check_expressions def step = check_variant_expressions def step.id step.variant
