-- ===== src/Modeller/Io/Drafts.antt =====
-- workflow-modeller/src/io/drafts.ts: named drafts in `localStorage`, ten at most.
pub mod Laws
use rochallor_engine.Base.{
  ℕ, String, Bool, true, false, Option, none, some, List, [], ◌∷◌, ◌++◌, map, not, if◌then◌else◌,
  ◌==◌, leb, is_empty, trim, length, filter_by,
}
use rochallor_engine.Modeller.Types.{WorkflowDefinition}
use rochallor_engine.Modeller.Store.State.{Layout, EdgeHandles}

abbrev pub drafts_limit : ℕ
drafts_limit = 10

pub record Draft : Type 0 where
  pub id : String
  pub name : String
  pub saved_at : ℕ
  pub definition : WorkflowDefinition
  pub layout : Layout
  pub edge_handles : EdgeHandles

pub record DraftSummary : Type 0 where
  pub id : String
  pub name : String
  pub saved_at : ℕ
  pub step_count : ℕ

pub data Reason : Type 0 where
  cap_reached name_required storage_failed : Reason

pub data SaveDraftResult : Type 0 where
  saved : Draft → SaveDraftResult
  not_saved : Reason → SaveDraftResult

-- An element of the stored array: a value of a draft's shape, or another.
pub data Entry : Type 0 where
  a_draft : Draft → Entry
  junk : Entry

-- What `JSON.parse` makes of the stored text: it throws, or returns another value than an array.
pub data Stored : Type 0 where
  throws not_array : Stored
  array : List Entry → Stored

-- `localStorage` under the key of the drafts, and the JSON functions on the texts that it keeps. A
-- read that throws, and a key that is missing, are `none`; a write that throws (no quota) leaves no
-- state.
pub record Browser : Type 1 where
  pub Storage : Type 0
  pub JsonText : Type 0
  pub get_item : Storage → Option JsonText
  pub set_item : Storage → JsonText → Option Storage
  pub lacks_text : JsonText → Bool
  pub parse : JsonText → Stored
  pub stringify : List Draft → JsonText

-- `isDraft` on an element of the array.
abbrev keep_draft : Entry → List Draft
keep_draft (a_draft d) = d ∷ []
keep_draft junk = []

unfoldable pub drafts_in : List Entry → List Draft
drafts_in [] = []
drafts_in (e ∷ es) = keep_draft e ++ drafts_in es

unfoldable pub array_drafts : Stored → List Draft
unfolding drafts_in
array_drafts throws = []
array_drafts not_array = []
array_drafts (array es) = drafts_in es

unfoldable pub to_summary : Draft → DraftSummary
to_summary d = record {
  id = d.id;
  name = d.name;
  saved_at = d.saved_at;
  step_count = length d.definition.steps;
}

unfoldable pub find_draft : String → List Draft → Option Draft
find_draft id [] = none
find_draft id (d ∷ ds) = if d.id == id then some d else find_draft id ds

pub record DraftInput : Type 0 where
  pub name : String
  pub definition : WorkflowDefinition
  pub layout : Layout
  pub edge_handles : EdgeHandles

module _ (b : Browser) where
  open b use {Storage, get_item, set_item, lacks_text, parse, stringify}

  unfoldable pub read_raw : Storage → List Draft
  unfolding array_drafts
  read_raw s = elim (get_item s) [
    | none ↦ []
    | some raw ↦ if lacks_text raw then [] else array_drafts (parse raw)
  ]

  -- The new state, and whether the write went through.
  unfoldable pub write_raw : Storage → List Draft → Storage × Bool
  write_raw s drafts = elim (set_item s (stringify drafts)) [
    | none ↦ (s, false)
    | some s' ↦ (s', true)
  ]

  unfoldable pub list_drafts : Storage → List DraftSummary
  unfolding read_raw to_summary
  list_drafts s = map to_summary (read_raw s)

  unfoldable pub get_draft : Storage → String → Option Draft
  unfolding read_raw find_draft
  get_draft s id = find_draft id (read_raw s)

  -- The draft that is built when the name and the cap allow it, and its write.
  unfoldable pub store_draft : Storage → Draft → Storage × SaveDraftResult
  unfolding write_raw read_raw
  store_draft s draft =
      let (s', done) = write_raw s (read_raw s ++ draft ∷ []) in
      (s', if done then saved draft else not_saved storage_failed)

  -- `new_id` is the id that `newId()` draws, and `now` the time of `Date.now()`.
  unfoldable pub save_draft : String → ℕ → DraftInput → Storage → Storage × SaveDraftResult
  unfolding store_draft read_raw
  save_draft new_id now input s =
      if is_empty (trim input.name)
      then (s, not_saved name_required)
      else if leb drafts_limit (length (read_raw s))
      then (s, not_saved cap_reached)
      else store_draft s (record {
        id = new_id;
        name = trim input.name;
        saved_at = now;
        definition = input.definition;
        layout = input.layout;
        edge_handles = input.edge_handles;
      })

  unfoldable pub delete_draft : String → Storage → Storage
  unfolding write_raw read_raw
  delete_draft id s = (write_raw s (filter_by (λ (d : Draft). not (d.id == id)) (read_raw s))).0
