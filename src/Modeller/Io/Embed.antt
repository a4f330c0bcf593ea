-- ===== src/Modeller/Io/Embed.antt =====
-- The layout inside a definition's metadata: `embedLayout` of workflow-modeller/src/io/export.ts
-- and `extractEmbeddedModeller` of store/workflowStore.ts.
pub mod Laws
use rochallor_engine.Base.{
  String, Bool, Option, none, some, List, [], ◌∷◌, ◌++◌, if◌then◌else◌, flat_map, lookup, insert,
  ltb, length,
}
use rochallor_engine.Modeller.Types.{StepId, WorkflowDefinition, Json, Fields, num, obj, end, field}
use rochallor_engine.Modeller.Store.State.{Position, Layout, EdgeHandles}
use rochallor_engine.Modeller.Io.Json.{of_fields, to_fields, entries}

abbrev pub position_json : Position → Json
position_json p = obj (field "x" (num p.x) (field "y" (num p.y) end))

abbrev pub layout_fields : Layout → Fields
layout_fields [] = end
layout_fields ((id, p) ∷ rest) = field id (position_json p) (layout_fields rest)

-- `x ?? {}` as an object.
abbrev pub or_empty : Option Json → List (String × Json)
or_empty none = []
or_empty (some x) = entries x

abbrev pub metadata_of : WorkflowDefinition → List (String × Json)
metadata_of def = elim def.metadata [ none ↦ [] | some m ↦ m ]

-- `wmData`
unfoldable pub modeller_data :
    List (String × Json) → Layout → Option EdgeHandles → List (String × Json)
modeller_data wm layout none = insert "layout" (obj (layout_fields layout)) wm
modeller_data wm layout (some handles) =
    if ltb 0 (length handles)
    then insert "edgeHandles" (obj (to_fields handles))
        (insert "layout" (obj (layout_fields layout)) wm)
    else insert "layout" (obj (layout_fields layout)) wm

unfoldable pub embed_layout : WorkflowDefinition → Layout → Option EdgeHandles → WorkflowDefinition
unfolding modeller_data
embed_layout def layout handles = record def {
  metadata = some (
      insert "workflowModeller"
        (obj (
          to_fields (
            modeller_data (or_empty (lookup "workflowModeller" (metadata_of def))) layout handles)))
        (metadata_of def));
}

-- A position with two numbers; anything else is passed over.
abbrev pub as_position : StepId → Option Json → Option Json → Layout
as_position id (some (num x)) (some (num y)) = (id, record { x = x; y = y }) ∷ []
as_position id _ _ = []

abbrev pub object_fields : Option Json → List (String × Json)
object_fields (some (obj fs)) = of_fields fs
object_fields _ = []

unfoldable pub read_position : StepId × Json → Layout
read_position (id, pos) =
    as_position id (lookup "x" (object_fields (some pos))) (lookup "y" (object_fields (some pos)))

-- What stands under `workflowModeller`.
unfoldable pub embedded : WorkflowDefinition → List (String × Json)
embedded def = object_fields (lookup "workflowModeller" (metadata_of def))

unfoldable pub extract_layout : WorkflowDefinition → Layout
unfolding read_position embedded
extract_layout def = flat_map read_position (or_empty (lookup "layout" (embedded def)))

unfoldable pub extract_handles : WorkflowDefinition → EdgeHandles
unfolding embedded
extract_handles def = or_empty (lookup "edgeHandles" (embedded def))

-- `ExportOptions`, with `pretty` for a `pretty` that is not `false`.
pub record ExportOptions : Type 0 where
  pub include_layout : Bool
  pub layout : Option Layout
  pub edge_handles : Option EdgeHandles
  pub pretty : Bool

-- The definition that `exportJson` prints.
unfoldable pub exported : WorkflowDefinition → ExportOptions → WorkflowDefinition
unfolding embed_layout
exported def opts = elim opts.layout [
  | none ↦ def
  | some layout ↦ if opts.include_layout then embed_layout def layout opts.edge_handles else def
]

-- `stringify` is `JSON.stringify` with the indentation of two, or without.
unfoldable pub export_json :
    (Bool → WorkflowDefinition → String) → WorkflowDefinition → ExportOptions → String
unfolding exported
export_json stringify def opts = stringify opts.pretty (exported def opts)
