-- ===== src/Monitor/Instances/Cursor.antt =====
-- The cursors of the list of process instances, in workflow-monitor-bff/src/modules/
-- process-instances/process-instance.queries.ts.
pub mod Laws
use Prim.Native.String
use rochallor_engine.Base.{
  ℕ, String, Bool, true, false, Option, none, some, List, [], ◌∷◌, ◌&&◌, ◌||◌, not, if◌then◌else◌,
  ltb, leb, nat_eq, is_empty, ◌==◌, code, is_some,
}
use rochallor_engine.Monitor.Request.{
  QueryValue, Checked, ok, bad_request, Platform, equals, date_parse,
}
use rochallor_engine.Monitor.Instances.{InstanceItem, InstanceFilters, status_values}

-- The order of `sort()`, by character codes.
text_le : String → String → Bool
text_le String.[] t = true
text_le (String.◌∷◌ c s) String.[] = false
text_le (String.◌∷◌ c s) (String.◌∷◌ d t) =
    ltb (code c) (code d) || nat_eq (code c) (code d) && text_le s t

insert_text : String → List String → List String
unfolding text_le
insert_text s [] = s ∷ []
insert_text s (t ∷ sorted) = if text_le s t then s ∷ t ∷ sorted else t ∷ insert_text s sorted

unfoldable pub sort_texts : List String → List String
unfolding insert_text
sort_texts [] = []
sort_texts (s ∷ rest) = insert_text s (sort_texts rest)

-- The object that is digested, with `null` for what is missing.
pub record Fingerprinted : Type 0 where
  pub definition_id : Option String
  pub definition_version : Option QueryValue
  pub current_step_id : Option QueryValue
  pub step_started_before : Option QueryValue
  pub statuses : List String
  pub business_key : Option String
  pub from : Option String
  pub to : Option String

-- A parsed cursor, `Partial<ProcessInstanceCursor>`: a field of another type is `none`.
pub record InstanceCursor : Type 0 where
  pub v : Option ℕ
  pub started_at : Option String
  pub id : Option String
  pub filters : Option String

module _ {T : Type 0} (platform : Platform T InstanceCursor Fingerprinted) where
  unfoldable pub filter_fingerprint : InstanceFilters → String
  filter_fingerprint filters = platform.digest (record {
    definition_id = filters.definition_id;
    definition_version = filters.definition_version;
    current_step_id = filters.current_step_id;
    step_started_before = filters.step_started_before;
    statuses = sort_texts (status_values filters.status);
    business_key = filters.business_key;
    from = filters.from;
    to = filters.to;
  })

  unfoldable pub encode_cursor : InstanceFilters → InstanceItem → T
  unfolding filter_fingerprint
  encode_cursor filters item = platform.encode (record {
    v = some 1;
    started_at = some (platform.to_iso_string item.started_at);
    id = some item.id;
    filters = some (filter_fingerprint filters);
  })

  -- The checked fields of a cursor, if all tests pass.
  unfoldable pub checked_cursor : InstanceFilters → InstanceCursor → Option (String × String)
  unfolding filter_fingerprint
  checked_cursor filters cursor = elim cursor.started_at [
    | none ↦ none
    | some started_at ↦ elim cursor.id [
      | none ↦ none
      | some id ↦
          if elim cursor.v [ none ↦ false | some v ↦ nat_eq v 1 ]
            && is_some (date_parse platform started_at)
            && not (is_empty id)
            && equals cursor.filters (filter_fingerprint filters)
          then some (started_at, id)
          else none
    ]
  ]

  -- `platform.decode` fails where a text is not the canonical base64url form of a JSON object.
  unfoldable pub decode_cursor : InstanceFilters → T → Checked (String × String)
  unfolding checked_cursor
  decode_cursor filters value = elim (platform.decode value) [
    | none ↦ bad_request "Invalid cursor"
    | some cursor ↦ elim (checked_cursor filters cursor) [
      | none ↦ bad_request "Invalid cursor"
      | some fields ↦ ok fields
    ]
  ]
