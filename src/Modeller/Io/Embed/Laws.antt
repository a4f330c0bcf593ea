-- ===== src/Modeller/Io/Embed/Laws.antt =====
-- The layout that an export embeds (workflow-modeller/src/io/export.ts) is the one that an import
-- reads (`extractEmbeddedModeller` of store/workflowStore.ts).
use rochallor_engine.Base.{
  String, true, Option, none, some, List, [], ◌∷◌, ◌≡◌, ◌≢◌, refl, arith, flat_map, lookup, insert,
  lookup-insert, length, ltb, if◌then◌else◌,
}
use rochallor_engine.Modeller.Types.{WorkflowDefinition, Json, obj}
use rochallor_engine.Modeller.Store.State.{Layout, EdgeHandles}
use rochallor_engine.Modeller.Io.Json.{of_fields, to_fields}
use rochallor_engine.Modeller.Io.Embed.{
  layout_fields, modeller_data, embed_layout, read_position, embedded, extract_layout,
  extract_handles, or_empty, metadata_of,
}

of_fields-to_fields : (m : List (String × Json)) → of_fields (to_fields m) ≡ m
of_fields-to_fields [] = refl
of_fields-to_fields ((k, v) ∷ m) = rw (of_fields-to_fields m)

read_positions :
    (layout : Layout) → flat_map read_position (of_fields (layout_fields layout)) ≡ layout
unfolding read_position
read_positions [] = refl
read_positions ((id, p) ∷ rest) = rw (read_positions rest)

-- What stood under `workflowModeller` before the export.
abbrev old_data : WorkflowDefinition → List (String × Json)
old_data def = or_empty (lookup "workflowModeller" (metadata_of def))

embedded-embed_layout :
    (def : WorkflowDefinition) (layout : Layout) (handles : Option EdgeHandles)
    → embedded (embed_layout def layout handles) ≡ modeller_data (old_data def) layout handles
unfolding embedded embed_layout
embedded-embed_layout def layout handles =
    rw
      (lookup-insert "workflowModeller" "workflowModeller"
        (obj (to_fields (modeller_data (old_data def) layout handles))) (metadata_of def))
      (of_fields-to_fields (modeller_data (old_data def) layout handles))

modeller_data-layout :
    (wm : List (String × Json)) (layout : Layout) (handles : Option EdgeHandles)
    → lookup "layout" (modeller_data wm layout handles) ≡ some (obj (layout_fields layout))
unfolding modeller_data
modeller_data-layout wm layout none =
    lookup-insert "layout" "layout" (obj (layout_fields layout)) wm
modeller_data-layout wm layout (some handles) = ground (
  arith,
  lookup-insert "layout" "layout" (obj (layout_fields layout)) wm,
  lookup-insert "edgeHandles" "layout" (obj (to_fields handles))
      (insert "layout" (obj (layout_fields layout)) wm),
)

-- The layout that an import reads from an exported definition is the one that was exported,
-- whatever the metadata held before.
pub extract_layout-embed_layout :
    (def : WorkflowDefinition) (layout : Layout) (handles : Option EdgeHandles)
    → extract_layout (embed_layout def layout handles) ≡ layout
unfolding extract_layout
extract_layout-embed_layout def layout handles =
    rw
      (embedded-embed_layout def layout handles, modeller_data-layout (old_data def) layout handles)
      (read_positions layout)

-- The edge handles are read as they were exported if there are any.
pub extract_handles-embed_layout :
    (def : WorkflowDefinition) (layout : Layout) (handles : EdgeHandles)
    → handles ≢ []
    → extract_handles (embed_layout def layout (some handles)) ≡ handles
unfolding extract_handles modeller_data
extract_handles-embed_layout def layout [] some_handles = absurd (some_handles refl)
extract_handles-embed_layout def layout (h ∷ handles) some_handles =
    rw (embedded-embed_layout def layout (some (h ∷ handles)))
      (handles_read (insert "layout" (obj (layout_fields layout)) (old_data def)))
  where
    handles_read :
        (wm : List (String × Json))
        → or_empty (
            lookup "edgeHandles" (
              if ltb 0 (length (h ∷ handles))
              then insert "edgeHandles" (obj (to_fields (h ∷ handles))) wm
              else wm))
          ≡ h ∷ handles
    handles_read wm =
        let some_listed : ltb 0 (length (h ∷ handles)) ≡ true = ground arith in
        rw
          (
            some_listed,
            lookup-insert "edgeHandles" "edgeHandles" (obj (to_fields (h ∷ handles))) wm,
          )
          (of_fields-to_fields (h ∷ handles))
