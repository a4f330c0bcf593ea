-- ===== src/Monitor/Incidents/Laws.antt =====
-- What the incident queries answer.
use rochallor_engine.Base.{
  ℕ, suc, ◌*◌, ◌/◌, ◌%◌, String, Bool, false, Option, none, some, List, [], ◌∷◌, ◌++◌, ◌≡◌, refl,
  ◌∙◌, ap, fun_ext, arith, All, all, filter_by, take, map, length, is_empty, ◌==◌, ==_refl,
}
use rochallor_engine.Monitor.Request.{ok, Platform, IsPlatform, page_size}
use rochallor_engine.Monitor.Sql.{number, limited}
use rochallor_engine.Monitor.Sql.Laws.{placeholder-length}
use rochallor_engine.Monitor.Paging.{slice_page, read_all, key_before}
use rochallor_engine.Monitor.Paging.Keyset.{
  map-take, filter_by-and, All-filter_by, All-both, IsOrder, behind_row, IsNewestFirst,
  IsNewestFirst-filter_by, read_all-rows,
}
use rochallor_engine.Monitor.Incidents.{
  IncidentRow, IncidentItem, map_list_item, IncidentFilters, IncidentQuery, IncidentCursor,
  Incidents, holds, select_incidents, build_incidents, push_limit, validate_incident_filters,
  encode_incident_cursor, requested_incident_cursor, list_incidents, IncidentDetail, detail_of,
  incident_detail,
}
use rochallor_engine.Monitor.Incidents.Where.{is_incident, is_behind, build_incidents-Means}

abbrev pub IsWhole : IncidentRow → Type 0
IsWhole row = row.ended_at % 1000 ≡ 0

abbrev pub IsNamed : IncidentRow → Type 0
IsNamed row = is_empty row.id ≡ false

whole_millis : (row : IncidentRow) → IsWhole row → row.ended_at / 1000 * 1000 ≡ row.ended_at
whole_millis row h = omega arith

module _ (timestamptz : String → ℕ) (db : Incidents) (filters : IncidentFilters) where
  abbrev pub asked : List IncidentRow
  asked = filter_by (λ row. is_incident timestamptz db row filters) db.joined

  select-build :
      (limit : ℕ) (cursor : Option (String × String))
      → select_incidents timestamptz db (push_limit limit (build_incidents filters cursor))
        ≡ take (suc limit) (filter_by (λ row. is_behind timestamptz db row cursor) asked)
  unfolding select_incidents push_limit
  select-build limit cursor =
      let b = build_incidents filters cursor in
      ap
        (λ n. limited n (
          filter_by
            (λ row.
              all (holds timestamptz db row (b.values ++ number (suc limit) ∷ [])) b.conditions)
            db.joined))
        (placeholder-length b.values (number (suc limit)))
      ∙ ap (take (suc limit)) (
          ap (λ p. filter_by p db.joined)
            (fun_ext λ row.
              build_incidents-Means timestamptz db row filters cursor (number (suc limit) ∷ []))
          ∙ filter_by-and (λ row. is_incident timestamptz db row filters)
              (λ row. is_behind timestamptz db row cursor) db.joined)

  all_behind :
      (xs : List IncidentRow) → filter_by (λ row. is_behind timestamptz db row none) xs ≡ xs
  unfolding is_behind
  all_behind [] = refl
  all_behind (x ∷ xs) = ap (λ ys. x ∷ ys) (all_behind xs)

module _ {T : Type 0} (platform : Platform T IncidentCursor IncidentFilters)
    (laws : IsPlatform platform) (db : Incidents) (filters : IncidentFilters) where
  abbrev rows : List IncidentRow
  rows = asked platform.timestamptz db filters

  abbrev cursor_fields : IncidentRow → String × String
  cursor_fields row = (platform.to_iso_string (row.ended_at / 1000), row.id)

  abbrev later_than : IncidentRow → IncidentRow → Bool
  later_than = behind_row db.id_before (λ row. row.ended_at) (λ row. row.id)

  requested-encode :
      (u : IncidentRow)
      → IsNamed u
      → requested_incident_cursor platform filters
          (some (encode_incident_cursor platform filters (map_list_item u)))
        ≡ ok (some (cursor_fields u))
  unfolding requested_incident_cursor encode_incident_cursor map_list_item
  requested-encode u name = ground (
    arith,
    laws.decoded (record {
      v = some 1;
      occurred_at = some (platform.to_iso_string (u.ended_at / 1000));
      id = some u.id;
      filters = some (platform.digest filters);
    }),
    laws.iso_utc (u.ended_at / 1000),
    ==_refl (platform.digest filters),
    name,
  )

  behind-later_than :
      (u : IncidentRow)
      → IsWhole u
      → filter_by (λ row. is_behind platform.timestamptz db row (some (cursor_fields u))) rows
        ≡ filter_by (later_than u) rows
  unfolding is_behind
  behind-later_than u exact =
      ap (λ (t : ℕ). filter_by (λ row. key_before db.id_before row.ended_at row.id t u.id) rows)
        (laws.iso_instant (u.ended_at / 1000) ∙ whole_millis u exact)

  no_cursor : requested_incident_cursor platform filters none ≡ ok none
  unfolding requested_incident_cursor
  no_cursor = refl

  module _ (order : IsOrder db.id_before)
      (sorted : IsNewestFirst db.id_before (λ row. row.ended_at) (λ row. row.id) db.joined)
      (whole : All IsWhole db.joined) (named : All IsNamed db.joined) (size : Option String) (n : ℕ)
      (valid : validate_incident_filters platform filters ≡ ok tt)
      (sized : page_size platform size ≡ ok (suc n)) where
    abbrev request : Option T → IncidentQuery T
    request cursor = record { filters = filters; cursor = cursor; page_size = size }

    page-eq :
        (cursor : Option T) (read : Option (String × String)) (later : List IncidentRow)
        → requested_incident_cursor platform filters cursor ≡ ok read
        → filter_by (λ row. is_behind platform.timestamptz db row read) rows ≡ later
        → list_incidents platform db (request cursor)
          ≡ ok (
              slice_page
                (suc n)
                (encode_incident_cursor platform filters)
                (take (suc (suc n)) (map map_list_item later)))
    unfolding list_incidents
    page-eq cursor read later e selected =
        rw (valid, sized, e)
          (ap (λ rs. ok (slice_page (suc n) (encode_incident_cursor platform filters) rs))
            (ap (map map_list_item) (
                select-build platform.timestamptz db filters (suc n) read
                ∙ ap (take (suc (suc n))) selected)
              ∙ map-take map_list_item (suc (suc n)) later))

    -- If the stored times are whole milliseconds, a reader who follows the cursors of accepted
    -- filters gets each incident that the filters ask for exactly once, the last one first, and
    -- reaches the last page after no more pages than there are incidents, and one.
    pub read_all-list_incidents :
        read_all
          (λ cursor. list_incidents platform db (request cursor))
          (suc (length (map map_list_item rows)))
          none
        ≡ some (map map_list_item rows)
    read_all-list_incidents =
        read_all-rows db.id_before (λ row. row.ended_at) (λ row. row.id) order
          (λ u. IsWhole u × IsNamed u) map_list_item (encode_incident_cursor platform filters)
          (λ cursor. list_incidents platform db (request cursor)) n rows
          (λ u known.
            page-eq _ (some (cursor_fields u)) _ (requested-encode u known.1)
              (behind-later_than u known.0))
          (IsNewestFirst-filter_by db.id_before (λ row. row.ended_at) (λ row. row.id) _ db.joined
            sorted)
          (All-filter_by (λ u. IsWhole u × IsNamed u) _ db.joined
            (All-both IsWhole IsNamed db.joined whole named))
          (page-eq none none rows no_cursor (all_behind platform.timestamptz db filters rows))

abbrev pub no_filters : IncidentFilters
no_filters = record { definition_id = none; job_type = none; from = none; to = none }

abbrev pub item_of : Option IncidentDetail → Option IncidentItem
item_of none = none
item_of (some detail) = some detail.item

abbrev pub first_item : List IncidentRow → Option IncidentItem
first_item [] = none
first_item (row ∷ others) = some (map_list_item row)

item_of-detail_of : (rows : List IncidentRow) → item_of (detail_of rows) ≡ first_item rows
unfolding detail_of
item_of-detail_of [] = refl
item_of-detail_of (row ∷ others) = refl

-- An incident has a detail exactly if the list without filters has an item with its id, and the
-- detail shows the first such item.
pub incident_detail-asked :
    (timestamptz : String → ℕ) (db : Incidents) (id : String)
    → item_of (incident_detail db id)
      ≡ first_item (filter_by (λ row. row.id == id) (asked timestamptz db no_filters))
unfolding incident_detail is_incident
incident_detail-asked timestamptz db id =
    item_of-detail_of _
    ∙ ap first_item (
        ap (λ p. filter_by p db.joined) (fun_ext λ row. ground arith)
        ∙ filter_by-and (λ row. is_incident timestamptz db row no_filters) (λ row. row.id == id)
            db.joined)
