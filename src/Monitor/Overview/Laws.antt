-- ===== src/Monitor/Overview/Laws.antt =====
-- The counts of the overview and its cursors.
use mathlib.Core.Path.{subst, sym}
use rochallor_engine.Base.{
  suc, any, ◌⊎◌, ◌<◌, ◌&&◌, ==_refl, nat_eq, Option, none, All-weaken, All-map, elim_if, ℕ, String,
  Bool, true, false, some, List, [], ◌∷◌, ◌≡◌, refl, ◌∙◌, ap, arith, All, Bool-cases, inl, inr,
  if◌then◌else◌, ltb, ◌==◌, ==_iff, is_empty, filter_by,
}
use rochallor_engine.Monitor.Request.{ok, bad_request, Platform, IsPlatform}
use rochallor_engine.Monitor.Context.{first_of}
use rochallor_engine.Monitor.Instances.{InstanceRow}
use rochallor_engine.Monitor.Paging.Keyset.{All-take, All-filter_by, All-filtered, All-both}
use rochallor_engine.Monitor.Overview.{
  OverviewCursor, Scope, max_integer, checked_overview_cursor, decode_overview_cursor,
  encode_overview_cursor, DefinitionCount, OverviewTables, NamedDefinition, name_or, name_found,
  find_named, same_key, key_of, pair_before, behind_key, add_key, group_keys, count_with, count_row,
  is_searched, select_definitions,
}

module _ {T : Type 0} (platform : Platform T OverviewCursor Scope)
    (laws : IsPlatform platform) where
  -- The cursor of a page is read back in its own scope, and refused where the text of the scope is
  -- another.
  pub decode_overview_cursor-encode_overview_cursor :
      (scope other : Scope) (id : String) (version : ℕ)
      → is_empty id ≡ false
      → ltb max_integer version ≡ false
      → decode_overview_cursor platform
          (some (encode_overview_cursor platform scope id version))
          other
        ≡ (if platform.digest scope == platform.digest other
            then ok (id, version)
            else bad_request "Invalid Overview cursor")
  unfolding decode_overview_cursor checked_overview_cursor encode_overview_cursor
  decode_overview_cursor-encode_overview_cursor scope other id version named small = ground (
    arith,
    laws.decoded (record {
      v = some 1;
      scope = some (platform.digest scope);
      id = some id;
      version = some version;
    }),
    named,
    small,
  )

pub same_key-eq : (a b : String × ℕ) → same_key a b ≡ true → a ≡ b
same_key-eq a b h =
    let first : (a.0 == b.0) ≡ true = ground arith in
    let second : a.1 ≡ b.1 = ground arith in
    let texts : a.0 ≡ b.0 = (==_iff a.0 b.0).0 first in
    ap (λ s. (s, a.1)) texts ∙ ap (λ n. (b.0, n)) second

abbrev pub key_in : DefinitionCount → String × ℕ
key_in item = (item.definition_id, item.definition_version)

-- `n` of the rows are of the definition and have the status.
pub data IsTally (id : String) (version : ℕ) (status : String) : List InstanceRow → ℕ → Type 0 where
  no_row : IsTally id version status [] 0
  counted_row :
      (row : InstanceRow) {rows : List InstanceRow} {n : ℕ}
      → row.definition_id ≡ id
      → row.definition_version ≡ version
      → row.status ≡ status
      → IsTally id version status rows n
      → IsTally id version status (row ∷ rows) (suc n)
  other_row :
      (row : InstanceRow) {rows : List InstanceRow} {n : ℕ}
      → ¬ ((row.definition_id ≡ id) × (row.definition_version ≡ version) × (row.status ≡ status))
      → IsTally id version status rows n
      → IsTally id version status (row ∷ rows) n

-- The first page has no cursor.
abbrev pub IsBehind : OverviewTables → String × ℕ → String → ℕ → Type 0
IsBehind db after id version =
    (is_empty after.0 ≡ true)
    ⊎ ((db.id_before after.0 id ≡ true) ⊎ ((after.0 ≡ id) × (after.1 < version)))

abbrev pub IsFound : OverviewTables → String → String → String → Type 0
IsFound db workflow id name =
    (is_empty workflow ≡ true)
    ⊎ ((db.found_in id workflow ≡ true) ⊎ (db.found_in name workflow ≡ true))

abbrev pub IsNamed : List NamedDefinition → String → ℕ → String → Type 0
IsNamed ds id version name =
    (name ≡ id) ⊎ (any (λ d. d.id == id && nat_eq d.version version && d.name == name) ds ≡ true)

-- What a listed definition says.
pub record IsCounted (db : OverviewTables) (after : String × ℕ) (workflow : String)
    (item : DefinitionCount) : Type 0 where
  pub behind : IsBehind db after item.definition_id item.definition_version
  pub searched_for : IsFound db workflow item.definition_id item.name
  pub named : IsNamed db.workflow_definition item.definition_id item.definition_version item.name
  pub active :
      IsTally item.definition_id item.definition_version "ACTIVE" db.workflow_instance item.active
  pub waiting :
      IsTally item.definition_id item.definition_version "WAITING" db.workflow_instance item.waiting
  pub failed :
      IsTally item.definition_id item.definition_version "FAILED" db.workflow_instance item.failed

module _ (db : OverviewTables) where
  All-add_key :
      (P : String × ℕ → Type 0) (key : String × ℕ) (keys : List (String × ℕ))
      → P key
      → All P keys
      → All P (add_key db key keys)
  unfolding add_key
  All-add_key P key [] h ks = (h, tt)
  All-add_key P key (k ∷ keys) h ks =
      elim_if (All P) (same_key key k) ks
        (elim_if (All P) (pair_before db key k) (h, ks) (ks.0, All-add_key P key keys h ks.1))

  All-group_keys :
      (P : String × ℕ → Type 0) (rows : List InstanceRow)
      → All (λ row. P (key_of row)) rows
      → All P (group_keys db rows)
  unfolding group_keys
  All-group_keys P [] h = tt
  All-group_keys P (row ∷ rows) h =
      All-add_key P (key_of row) (group_keys db rows) h.0 (All-group_keys P rows h.1)

  -- The rows that the cursor hides belong to none of the groups that it shows.
  count_with-behind :
      (after key : String × ℕ) (status : String) (rows : List InstanceRow)
      → behind_key db after key ≡ true
      → count_with db key status (filter_by (λ row. behind_key db after (key_of row)) rows)
        ≡ count_with db key status rows
  unfolding count_with
  count_with-behind after key status [] shown = refl
  count_with-behind after key status (row ∷ rows) shown =
      let rest = count_with-behind after key status rows shown in
      elim (Bool-cases (same_key (key_of row) key)) [
        | inl same ↦
            let kept : behind_key db after (key_of row) ≡ true =
              ap (behind_key db after) (same_key-eq (key_of row) key same) ∙ shown in
            ground (arith, rest, kept)
        | inr other ↦ ground (arith, rest, other)
      ]

  count_row-behind :
      (after key : String × ℕ) (rows : List InstanceRow)
      → behind_key db after key ≡ true
      → count_row db (filter_by (λ row. behind_key db after (key_of row)) rows) key
        ≡ count_row db rows key
  unfolding count_row
  count_row-behind after key rows shown =
      rw
        (
          count_with-behind after key "ACTIVE" rows shown,
          count_with-behind after key "WAITING" rows shown,
          count_with-behind after key "FAILED" rows shown,
        )
        refl

  count_with-IsTally :
      (key : String × ℕ) (status : String) (rows : List InstanceRow)
      → IsTally key.0 key.1 status rows (count_with db key status rows)
  unfolding count_with
  count_with-IsTally key status [] = no_row
  count_with-IsTally key status (row ∷ rows) =
      let rest = count_with-IsTally key status rows in
      elim (Bool-cases (same_key (key_of row) key && row.status == status)) [
        | inl same ↦
            let key_eq : key_of row ≡ key = same_key-eq (key_of row) key (ground arith) in
            let status_eq : row.status ≡ status = (==_iff row.status status).0 (ground arith) in
            rw same (counted_row row (ap (λ k. k.0) key_eq) (ap (λ k. k.1) key_eq) status_eq rest)
        | inr other ↦ rw other (
            other_row row
              (λ h.
                let ids = (==_iff row.definition_id key.0).1 h.0 in
                let statuses = (==_iff row.status status).1 h.2 in ground (arith, h.1))
              rest)
      ]

  IsBehind-behind_key :
      (after key : String × ℕ) → behind_key db after key ≡ true → IsBehind db after key.0 key.1
  IsBehind-behind_key after key h = elim (Bool-cases (is_empty after.0)) [
    | inl first_page ↦ inl first_page
    | inr later ↦ elim (Bool-cases (db.id_before after.0 key.0)) [
      | inl smaller ↦ inr (inl smaller)
      | inr not_smaller ↦ inr (inr ((==_iff after.0 key.0).0 (ground arith), ground arith))
    ]
  ]

  name_found-name_or :
      (d : Option NamedDefinition) (id workflow : String)
      → name_found db d workflow ≡ true
      → db.found_in (name_or d id) workflow ≡ true
  name_found-name_or none id workflow h = cc
  name_found-name_or (some d) id workflow h = h

  IsFound-is_searched :
      (workflow : String) (key : String × ℕ)
      → is_searched db workflow key ≡ true
      → IsFound db workflow key.0 (name_or (find_named db key) key.0)
  IsFound-is_searched workflow key h = elim (Bool-cases (is_empty workflow)) [
    | inl everything ↦ inl everything
    | inr some_text ↦ elim (Bool-cases (db.found_in key.0 workflow)) [
      | inl by_id ↦ inr (inl by_id)
      | inr not_by_id ↦
          inr (inr (name_found-name_or (find_named db key) key.0 workflow (ground arith)))
    ]
  ]

  IsNamed-more :
      (d : NamedDefinition) (ds : List NamedDefinition) (id : String) (version : ℕ) (name : String)
      → IsNamed ds id version name
      → IsNamed (d ∷ ds) id version name
  IsNamed-more d ds id version name (inl missing) = inl missing
  IsNamed-more d ds id version name (inr listed) = inr (ground (arith, listed))

  IsNamed-first :
      (key : String × ℕ) (ds : List NamedDefinition)
      → IsNamed ds key.0 key.1
          (name_or (first_of (filter_by (λ d. same_key (d.id, d.version) key) ds)) key.0)
  IsNamed-first key [] = inl refl
  IsNamed-first key (d ∷ ds) =
      let first : List NamedDefinition → Option NamedDefinition =
        λ ds. first_of (filter_by (λ d. same_key (d.id, d.version) key) ds) in
      elim (Bool-cases (same_key (d.id, d.version) key)) [
        | inl same ↦
            let it : first (d ∷ ds) ≡ some d = rw same refl in
            subst (λ o. IsNamed (d ∷ ds) key.0 key.1 (name_or o key.0)) (sym it)
              (inr (ground (arith, same, ==_refl d.name)))
        | inr other ↦
            let it : first (d ∷ ds) ≡ first ds = rw other refl in
            subst (λ o. IsNamed (d ∷ ds) key.0 key.1 (name_or o key.0)) (sym it)
              (IsNamed-more d ds key.0 key.1 (name_or (first ds) key.0) (IsNamed-first key ds))
      ]

  count_row-IsCounted :
      (after key : String × ℕ) (workflow : String)
      → behind_key db after key ≡ true
      → is_searched db workflow key ≡ true
      → IsCounted db after workflow (count_row db db.workflow_instance key)
  unfolding count_row
  count_row-IsCounted after key workflow shown found = record {
    behind = IsBehind-behind_key after key shown;
    searched_for = IsFound-is_searched workflow key found;
    named = IsNamed-first key db.workflow_definition;
    active = count_with-IsTally key "ACTIVE" db.workflow_instance;
    waiting = count_with-IsTally key "WAITING" db.workflow_instance;
    failed = count_with-IsTally key "FAILED" db.workflow_instance;
  }

  -- Each listed definition comes after the cursor in the order of ids and versions, is one whose id
  -- or name has the text that is searched for, if there is one, bears its name in the table of
  -- definitions, or its id, and its three counts are the numbers of all instances of the definition
  -- with that status, also of those that the cursor hides.
  pub select_definitions-counts :
      (after : String × ℕ) (limit : ℕ) (workflow : String)
      → All (IsCounted db after workflow) (select_definitions db after limit workflow)
  unfolding select_definitions
  select_definitions-counts after limit workflow =
      let is_shown : InstanceRow → Bool = λ row. behind_key db after (key_of row) in
      let rows = filter_by is_shown db.workflow_instance in
      let keys = group_keys db rows in
      All-map _ (count_row db rows) _ (
        All-weaken
          (λ key h.
            subst (IsCounted db after workflow)
              (sym (count_row-behind after key db.workflow_instance h.0))
              (count_row-IsCounted after key workflow h.0 h.1))
          _
          (All-take (λ key. (behind_key db after key ≡ true) × (is_searched db workflow key ≡ true))
            limit (filter_by (is_searched db workflow) keys)
            (All-both _ _ _
              (All-filter_by (λ key. behind_key db after key ≡ true) _ keys
                (All-group_keys (λ key. behind_key db after key ≡ true) rows
                  (All-filtered (λ row. behind_key db after (key_of row) ≡ true) is_shown
                    (λ row h. h) db.workflow_instance)))
              (All-filtered (λ key. is_searched db workflow key ≡ true) (is_searched db workflow)
                (λ key h. h) keys))))
