-- ===== src/Modeller/Io/Import.antt =====
-- workflow-modeller/src/io/import.ts. `JSON.parse` and the schema of zod are the argument `parse`.
use rochallor_engine.Base.{String, List, [], ◌∷◌, map, if◌then◌else◌, ◌<>◌, is_empty, join}
use rochallor_engine.Modeller.Types.{WorkflowDefinition}
use rochallor_engine.Modeller.Validate.Unknown.{collect_unknown_field_warnings}

-- An issue of zod: the parts of its path, and its message.
pub record Issue : Type 0 where
  pub path : List String
  pub message : String

-- What the parser and the schema make of a text.
pub data Decoded : Type 0 where
  bad_json : String → Decoded
  bad_shape : List Issue → Decoded
  decoded : WorkflowDefinition → Decoded

pub data ImportResult : Type 0 where
  imported : WorkflowDefinition → List String → ImportResult
  refused : List String → ImportResult

-- `x || y` on strings.
abbrev or_text : String → String → String
or_text x y = if is_empty x then y else x

issue_text : Issue → String
issue_text i = or_text (join "." i.path) "<root>" <> ": " <> i.message

module _ (parse : String → Decoded) where
  unfoldable pub import_json : String → ImportResult
  unfolding issue_text
  import_json text = elim (parse text) [
    | bad_json message ↦ refused (("Invalid JSON: " <> message) ∷ [])
    | bad_shape issues ↦ refused (map issue_text issues)
    | decoded def ↦ imported def (collect_unknown_field_warnings def)
  ]
