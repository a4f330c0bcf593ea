-- ===== src/Modeller/Expression.antt =====
-- workflow-modeller/src/domain/expression: the syntax tree of parser.ts and the linter of lint.ts.
-- The parser that peggy generates (parser.generated.ts) is the argument `parse`.
pub mod Tree
pub mod Lint
