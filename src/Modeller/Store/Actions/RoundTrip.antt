-- ===== src/Modeller/Store/Actions/RoundTrip.antt =====
-- What the actions of workflow-modeller/src/store/workflowStore.ts write (an export, a
-- draft) and read again.
use rochallor_engine.Base.{none, ℕ, String, Bool, true, false, Option, some, [], ◌≡◌, ◌≢◌, refl}
use rochallor_engine.Modeller.Types.{WorkflowDefinition}
use rochallor_engine.Modeller.Io.Embed.{embed_layout, exported, export_json}
use rochallor_engine.Modeller.Io.Embed.Laws.{
  extract_layout-embed_layout, extract_handles-embed_layout,
}
use rochallor_engine.Modeller.Io.Drafts.{Draft, Browser, saved, save_draft, get_draft}
use rochallor_engine.Modeller.Io.Drafts.Laws.{IsLawful, get_draft-found, save_draft-content}
use rochallor_engine.Modeller.Io.Import.{Decoded, decoded, import_json}
use rochallor_engine.Modeller.Store.State.{WorkflowState}
use rochallor_engine.Modeller.Store.Actions.{
  export_to_json, import_from_json, load_draft, draft_input,
}

-- If the parser reads the exported definition back from its text, and there are edge handles: the
-- state that imports what another state exported with its layout has that state's layout, its edge
-- handles, its steps, and nothing unsaved.
pub import_from_json-export_to_json :
    (parse : String → Decoded) (stringify : Bool → WorkflowDefinition → String)
    (name : Option String) (s t : WorkflowState)
    → parse (stringify true (embed_layout s.definition s.layout (some s.edge_handles)))
      ≡ decoded (embed_layout s.definition s.layout (some s.edge_handles))
    → s.edge_handles ≢ []
    → ((import_from_json parse (export_to_json stringify true s) name t).0.layout ≡ s.layout)
      × ((import_from_json parse (export_to_json stringify true s) name t).0.edge_handles
          ≡ s.edge_handles)
      × ((import_from_json parse (export_to_json stringify true s) name t).0.definition.steps
          ≡ s.definition.steps)
      × ((import_from_json parse (export_to_json stringify true s) name t).0.dirty ≡ false)
unfolding import_from_json import_json export_to_json export_json exported embed_layout
import_from_json-export_to_json parse stringify name s t back handles =
    let def = embed_layout s.definition s.layout (some s.edge_handles) in
    (
      rw (import_from_json, back)
          (extract_layout-embed_layout s.definition s.layout (some s.edge_handles)),
      rw (import_from_json, back)
          (extract_handles-embed_layout s.definition s.layout s.edge_handles handles),
      rw (import_from_json, back) refl,
      rw (import_from_json, back) refl,
    )

-- A state that was saved as a draft, under an id that no draft had, and that another state loads:
-- the draft is found, and the definition, the layout and the edge handles are those that were saved.
pub load_draft-save_draft :
    (b : Browser) (lawful : IsLawful b) (id name : String) (now : ℕ) (s t : WorkflowState)
    (storage storage' : b.Storage) (d : Draft)
    → save_draft b id now (draft_input name s) storage ≡ (storage', saved d)
    → get_draft b storage id ≡ none
    → ((load_draft (get_draft b storage' id) t).1 ≡ true)
      × ((load_draft (get_draft b storage' id) t).0.definition ≡ s.definition)
      × ((load_draft (get_draft b storage' id) t).0.layout ≡ s.layout)
      × ((load_draft (get_draft b storage' id) t).0.edge_handles ≡ s.edge_handles)
unfolding load_draft draft_input
load_draft-save_draft b lawful id name now s t storage storage' d e absent =
    let kept = get_draft-found b lawful id now (draft_input name s) storage storage' d e absent in
    let (definition, layout, handles) =
      save_draft-content b lawful id now (draft_input name s) storage storage' d e in
    rw kept (refl, definition, layout, handles)
