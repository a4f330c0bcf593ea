-- ===== src/Monitor/Tests/Counts.antt =====
-- The theorems about the overview at two definitions.
use rochallor_engine.Base.{
  String, true, none, some, [], ◌∷◌, ◌≡◌, refl, All, any, ltb, length, filter_by, if◌then◌else◌,
  ◌==◌, ◌&&◌,
}
use rochallor_engine.Monitor.Request.{Platform, ok, bad_request}
use rochallor_engine.Monitor.Samples.{platform_of, platform_of-IsPlatform, id_before, first_code}
use rochallor_engine.Monitor.Instances.{InstanceRow}
use rochallor_engine.Monitor.Overview.{
  OverviewCursor, Scope, all_definitions, searched, steps_of, OverviewTables,
  decode_overview_cursor, encode_overview_cursor, behind_key, is_searched, same_key, key_of,
  select_definitions,
}
use rochallor_engine.Monitor.Overview.Laws.{
  key_in, IsCounted, decode_overview_cursor-encode_overview_cursor, select_definitions-counts,
}
use rochallor_engine.Monitor.Overview.Complete.{select_definitions_complete}

abbrev in_state : String → String → String → InstanceRow
in_state id definition_id status = record {
  id = id;
  definition_id = definition_id;
  definition_version = 1;
  status = status;
  current_step_ids = [];
  started_at = 1000;
  completed_at = none;
  failure_reason = none;
  business_key = none;
}

abbrev overview_tables : OverviewTables
overview_tables = record {
  workflow_instance =
      in_state "i1" "b" "ACTIVE"
      ∷ in_state "i2" "a" "FAILED"
      ∷ in_state "i3" "b" "ACTIVE"
      ∷ in_state "i4" "b" "WAITING"
      ∷ [];
  workflow_definition = record { id = "b"; version = 1; name = "Loan" } ∷ [];
  latest_execution = λ instance step. none;
  id_before = id_before;
  found_in = λ a b. a == b;
  transaction_timestamp = 9000;
}

abbrev scope_name : Scope → String
scope_name all_definitions = "definitions"
scope_name (searched workflow) = workflow
scope_name (steps_of id version age) = id

abbrev overview_platform : Platform OverviewCursor OverviewCursor Scope
overview_platform = platform_of scope_name

decode_overview_cursor-encode_overview_cursor_example :
    decode_overview_cursor overview_platform
      (some (encode_overview_cursor overview_platform all_definitions "b" 1))
      (searched "Loan")
    ≡ (if scope_name all_definitions == scope_name (searched "Loan")
        then ok ("b", 1)
        else bad_request "Invalid Overview cursor")
decode_overview_cursor-encode_overview_cursor_example =
    decode_overview_cursor-encode_overview_cursor overview_platform
      (platform_of-IsPlatform OverviewCursor scope_name) all_definitions (searched "Loan") "b" 1
      refl refl

-- Behind the first definition there is the second.
behind_first :
    select_definitions overview_tables ("a", 1) 5 ""
    ≡ record {
      definition_id = "b";
      definition_version = 1;
      name = "Loan";
      active = 2;
      waiting = 1;
      failed = 0;
    }
      ∷ []
unfolding select_definitions first_code
behind_first = refl

select_definitions-counts_example :
    All (IsCounted overview_tables ("a", 1) "") (select_definitions overview_tables ("a", 1) 5 "")
select_definitions-counts_example = select_definitions-counts overview_tables ("a", 1) 5 ""

fewer_than_five : ltb (length (select_definitions overview_tables ("a", 1) 5 "")) 5 ≡ true
unfolding select_definitions first_code
fewer_than_five = refl

select_definitions_complete_example :
    All
      (λ row.
        any
          (λ item. same_key (key_of row) (key_in item))
          (select_definitions overview_tables ("a", 1) 5 "")
        ≡ true)
      (filter_by
        (λ row.
          behind_key overview_tables ("a", 1) (key_of row)
          && is_searched overview_tables "" (key_of row))
        overview_tables.workflow_instance)
select_definitions_complete_example =
    select_definitions_complete overview_tables ("a", 1) 5 "" fewer_than_five
