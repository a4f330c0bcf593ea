-- ===== src/Modeller/Tests/Saving.antt =====
-- The theorems about drafts and the embedded layout (workflow-modeller/src/io) at a storage that
-- holds the list of the drafts itself.
use rochallor_engine.Base.{
  ◌≤◌, String, Bool, true, false, Option, none, some, List, [], ◌∷◌, ◌≡◌, refl, map, trim, length,
  arith,
}
use rochallor_engine.Modeller.Types.{str, WorkflowDefinition}
use rochallor_engine.Modeller.Samples.{order_flow, order_layout}
use rochallor_engine.Modeller.Io.Embed.{embed_layout}
use rochallor_engine.Modeller.Io.Import.{Decoded, decoded}
use rochallor_engine.Modeller.Store.State.{WorkflowState, initial_state}
use rochallor_engine.Modeller.Store.Actions.{
  export_to_json, import_from_json, load_draft, draft_input,
}
use rochallor_engine.Modeller.Store.Actions.RoundTrip.{
  import_from_json-export_to_json, load_draft-save_draft,
}
use rochallor_engine.Modeller.Io.Drafts.{
  Draft, DraftInput, array, a_draft, Browser, saved, drafts_limit, read_raw, save_draft, get_draft,
}
use rochallor_engine.Modeller.Io.Drafts.Laws.{IsLawful}

-- A browser whose texts are the lists of drafts that they stand for.
abbrev memory : Browser
memory = record {
  Storage = Option (List Draft);
  JsonText = List Draft;
  get_item = λ s. s;
  set_item = λ s t. some (some t);
  lacks_text = λ t. false;
  parse = λ t. array (map a_draft t);
  stringify = λ ds. ds;
}

memory-IsLawful : IsLawful memory
memory-IsLawful = record {
  get-set = λ s s' t e. cc;
  parse-stringify = λ ds. refl;
  stringify-text = λ ds. refl;
}

abbrev input : DraftInput
input = record { name = "first"; definition = order_flow; layout = order_layout; edge_handles = [] }

abbrev draft : Draft
draft = record {
  id = "d1";
  name = "first";
  saved_at = 1000;
  definition = order_flow;
  layout = order_layout;
  edge_handles = [];
}

memory-room : length (read_raw memory none) ≤ drafts_limit
unfolding read_raw
memory-room = omega arith

saved_first : save_draft memory "d1" 1000 input none ≡ (some (draft ∷ []), saved draft)
unfolding save_draft trim
saved_first = refl

abbrev undrawn : WorkflowState
undrawn = record initial_state { definition = order_flow; layout = order_layout }

saved_state :
    save_draft memory "d1" 1000 (draft_input "first" undrawn) none
    ≡ (some (draft ∷ []), saved draft)
unfolding save_draft trim draft_input
saved_state = refl

not_there : get_draft memory none "d1" ≡ none
unfolding get_draft
not_there = refl

abbrev drawn : WorkflowState
drawn = record initial_state {
  definition = order_flow;
  layout = order_layout;
  edge_handles = ("e", str "top") ∷ [];
}

-- A parser and a printer that know the one definition.
abbrev read_drawn : String → Decoded
read_drawn text = decoded (embed_layout order_flow order_layout (some (("e", str "top") ∷ [])))

abbrev print_drawn : Bool → WorkflowDefinition → String
print_drawn pretty def = "{}"

import_from_json-export_to_json_example :
    ((import_from_json read_drawn
        (export_to_json print_drawn true drawn)
        none
        initial_state).0.layout
      ≡ order_layout)
    × ((import_from_json read_drawn
          (export_to_json print_drawn true drawn)
          none
          initial_state).0.edge_handles
        ≡ ("e", str "top") ∷ [])
    × ((import_from_json read_drawn
          (export_to_json print_drawn true drawn)
          none
          initial_state).0.definition.steps
        ≡ order_flow.steps)
    × ((import_from_json read_drawn
          (export_to_json print_drawn true drawn)
          none
          initial_state).0.dirty
        ≡ false)
import_from_json-export_to_json_example =
    import_from_json-export_to_json read_drawn print_drawn none drawn initial_state refl (λ e. cc)

load_draft-save_draft_example :
    ((load_draft (get_draft memory (some (draft ∷ [])) "d1") initial_state).1 ≡ true)
    × ((load_draft (get_draft memory (some (draft ∷ [])) "d1") initial_state).0.definition
        ≡ order_flow)
    × ((load_draft (get_draft memory (some (draft ∷ [])) "d1") initial_state).0.layout
        ≡ order_layout)
    × ((load_draft (get_draft memory (some (draft ∷ [])) "d1") initial_state).0.edge_handles ≡ [])
load_draft-save_draft_example =
    load_draft-save_draft memory memory-IsLawful "d1" "first" 1000 undrawn initial_state none
      (some (draft ∷ [])) draft saved_state not_there
