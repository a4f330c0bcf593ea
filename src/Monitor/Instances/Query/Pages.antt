-- ===== src/Monitor/Instances/Query/Pages.antt =====
-- The pages of the list of process instances.
use mathlib.Core.Path.{subst}
use rochallor_engine.Base.{
  ℕ, suc, ◌*◌, ◌/◌, ◌%◌, ◌≤◌, String, true, false, Option, none, some, List, [], ◌∷◌, ◌++◌, ◌≡◌,
  refl, sym, ◌∙◌, ap, fun_ext, arith, All, all, filter_by, take, map, length, is_empty, ==_refl,
}
use rochallor_engine.Monitor.Request.{ok, Platform, IsPlatform, page_size}
use rochallor_engine.Monitor.Sql.Laws.{placeholder-length}
use rochallor_engine.Monitor.Paging.{slice_page, read_all, key_before}
use rochallor_engine.Monitor.Instances.{
  InstanceRow, instance_item, InstanceFilters, validate_filters,
}
use rochallor_engine.Monitor.Instances.Cursor.{
  Fingerprinted, InstanceCursor, filter_fingerprint, encode_cursor,
}
use rochallor_engine.Monitor.Instances.Cursor.Laws.{decode_cursor-encode_cursor}
use rochallor_engine.Monitor.Instances.Query.{
  number, limited, Database, holds, select, build, push_limit, InstanceQuery, requested_cursor,
  list_page, list_instances,
}
use rochallor_engine.Monitor.Instances.Query.Where.{matches, behind, build-Means}
use rochallor_engine.Monitor.Paging.Keyset.{
  map-take, filter_by-and, All-filter_by, All-take, All-filtered, All-both, IsOrder, behind_row,
  IsNewestFirst, IsNewestFirst-filter_by, read_all-rows,
}

module _ (timestamptz : String → ℕ) (db : Database) (filters : InstanceFilters) where
  -- The rows that the filters ask for.
  abbrev pub wanted : List InstanceRow
  wanted = filter_by (λ row. matches timestamptz db row filters) db.instances

  -- The statement selects the first rows that match the filters and stand behind the cursor.
  pub select-build :
      (limit : ℕ) (cursor : Option (String × String))
      → select timestamptz db (push_limit limit (build filters cursor))
        ≡ take (suc limit) (filter_by (λ row. behind timestamptz db row cursor) wanted)
  unfolding select push_limit
  select-build limit cursor =
      let b = build filters cursor in
      ap
        (λ n. limited n (
          filter_by
            (λ row.
              all (holds timestamptz db row (b.values ++ number (suc limit) ∷ [])) b.conditions)
            db.instances))
        (placeholder-length b.values (number (suc limit)))
      ∙ ap (take (suc limit)) (
          ap (λ p. filter_by p db.instances)
            (fun_ext λ row. build-Means timestamptz db row filters cursor (number (suc limit) ∷ []))
          ∙ filter_by-and (λ row. matches timestamptz db row filters)
              (λ row. behind timestamptz db row cursor) db.instances)

no_cursor :
    {T : Type 0} (platform : Platform T InstanceCursor Fingerprinted) (db : Database)
    (filters : InstanceFilters)
    → requested_cursor platform db filters none ≡ ok none
unfolding requested_cursor
no_cursor platform db filters = refl

-- A stored time that is a whole number of milliseconds.
abbrev pub IsWhole : InstanceRow → Type 0
IsWhole row = row.started_at % 1000 ≡ 0

whole_millis : (row : InstanceRow) → IsWhole row → row.started_at / 1000 * 1000 ≡ row.started_at
whole_millis row h = omega arith

abbrev pub IsNamed : InstanceRow → Type 0
IsNamed row = is_empty row.id ≡ false

-- The cursor that a page with this last row hands out.
abbrev pub cursor_of :
    {T : Type 0} → Platform T InstanceCursor Fingerprinted → InstanceRow → String × String
cursor_of platform row = (platform.to_iso_string (row.started_at / 1000), row.id)

module _ {T : Type 0} (platform : Platform T InstanceCursor Fingerprinted)
    (laws : IsPlatform platform) (db : Database) (filters : InstanceFilters) where
  abbrev ts : String → ℕ
  ts = platform.timestamptz

  abbrev rows : List InstanceRow
  rows = wanted ts db filters

  behind-cursor_of :
      (last row : InstanceRow)
      → behind ts db row (some (cursor_of platform last))
        ≡ key_before db.id_before row.started_at row.id (last.started_at / 1000 * 1000) last.id
  unfolding behind
  behind-cursor_of last row =
      ap (λ t. key_before db.id_before row.started_at row.id t last.id) (laws.iso_instant _)

  behind-le :
      (last row : InstanceRow)
      → behind ts db row (some (cursor_of platform last)) ≡ true
      → row.started_at ≤ last.started_at / 1000 * 1000
  unfolding key_before
  behind-le last row h = ground (arith, behind-cursor_of last row)

  -- Behind a page whose last row is `last`, no row is listed that started later than the
  -- millisecond of `last` began: the microseconds that a cursor drops are lost.
  pub select-bounded :
      (last : InstanceRow) (limit : ℕ)
      → All
          (λ row. row.started_at ≤ last.started_at / 1000 * 1000)
          (select ts db (push_limit limit (build filters (some (cursor_of platform last)))))
  select-bounded last limit =
      let P = λ (row : InstanceRow). row.started_at ≤ last.started_at / 1000 * 1000 in
      subst (All P) (sym (select-build ts db filters limit (some (cursor_of platform last))))
        (All-take P (suc limit) _ (All-filtered P _ (behind-le last) rows))

  module _ (order : IsOrder db.id_before)
      (sorted : IsNewestFirst db.id_before (λ row. row.started_at) (λ row. row.id) db.instances)
      (whole : All IsWhole db.instances) (named : All IsNamed db.instances) (size : Option String)
      (n : ℕ) (valid : validate_filters platform filters ≡ ok tt)
      (sized : page_size platform size ≡ ok (suc n)) where
    -- The request of a page.
    abbrev request : Option T → InstanceQuery T
    request cursor = record { filters = filters; cursor = cursor; page_size = size }

    list_instances-eq :
        (cursor : Option T) (read : Option (String × String)) (later : List InstanceRow)
        → requested_cursor platform db filters cursor ≡ ok read
        → filter_by (λ row. behind ts db row read) rows ≡ later
        → list_instances platform db (request cursor)
          ≡ ok (
              slice_page
                (suc n)
                (encode_cursor platform filters)
                (take (suc (suc n)) (map instance_item later)))
    unfolding list_instances list_page
    list_instances-eq cursor read later e behind_it =
        rw (valid, sized, e)
          (ap (λ rs. ok (slice_page (suc n) (encode_cursor platform filters) rs))
            (ap (map instance_item)
                (select-build ts db filters (suc n) read ∙ ap (take (suc (suc n))) behind_it)
              ∙ map-take instance_item (suc (suc n)) later))

    requested_cursor-encode :
        (u : InstanceRow)
        → IsNamed u
        → requested_cursor platform db filters
            (some (encode_cursor platform filters (instance_item u)))
          ≡ ok (some (cursor_of platform u))
    unfolding requested_cursor instance_item
    requested_cursor-encode u name =
        rw
          (
            decode_cursor-encode_cursor platform laws filters filters (instance_item u) name,
            ==_refl (filter_fingerprint platform filters),
          )
          refl

    all_behind : (xs : List InstanceRow) → filter_by (λ row. behind ts db row none) xs ≡ xs
    unfolding behind
    all_behind [] = refl
    all_behind (x ∷ xs) = ap (λ ys. x ∷ ys) (all_behind xs)

    next_page :
        (u : InstanceRow)
        → IsWhole u × IsNamed u
        → list_instances platform db
            (request (some (encode_cursor platform filters (instance_item u))))
          ≡ ok (
              slice_page (suc n) (encode_cursor platform filters) (
                take (suc (suc n)) (
                  map instance_item (
                    filter_by
                      (behind_row db.id_before (λ row. row.started_at) (λ row. row.id) u)
                      rows))))
    next_page u (exact, name) =
        list_instances-eq _ (some (cursor_of platform u)) _ (requested_cursor-encode u name) (
          ap (λ p. filter_by p rows)
            (fun_ext λ row.
              behind-cursor_of u row
              ∙ ap (λ t. key_before db.id_before row.started_at row.id t u.id)
                  (whole_millis u exact)))

    -- If the stored times are whole milliseconds, a reader who follows the cursors of accepted
    -- filters gets each instance that the filters ask for exactly once, newest first, and reaches
    -- the last page after no more pages than there are instances, and one.
    pub read_all-list_instances :
        read_all
          (λ cursor. list_instances platform db (request cursor))
          (suc (length (map instance_item rows)))
          none
        ≡ some (map instance_item rows)
    read_all-list_instances =
        read_all-rows db.id_before (λ row. row.started_at) (λ row. row.id) order
          (λ u. IsWhole u × IsNamed u) instance_item (encode_cursor platform filters)
          (λ cursor. list_instances platform db (request cursor)) n rows next_page
          (IsNewestFirst-filter_by db.id_before (λ row. row.started_at) (λ row. row.id) _
            db.instances sorted)
          (All-filter_by (λ u. IsWhole u × IsNamed u) _ db.instances
            (All-both IsWhole IsNamed db.instances whole named))
          (list_instances-eq none none rows (no_cursor platform db filters) (all_behind rows))
