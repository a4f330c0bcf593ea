-- ===== src/Modeller/Io/Drafts/Laws.antt =====
-- What the drafts of workflow-modeller/src/io/drafts.ts keep.
use rochallor_engine.Base.{
  ℕ, suc, ◌≤◌, String, true, false, none, some, List, [], ◌∷◌, ◌++◌, ◌≡◌, sym, ◌⊎◌, refl, inl, inr,
  map, not, is_empty, trim, leb, length, length-append, filter_by, arith, ◌==◌, ==_iff, ==_refl,
  if◌then◌else◌, Bool-cases, Option-cases,
}
use rochallor_engine.Modeller.Io.Drafts.{
  Draft, DraftInput, a_draft, array, Browser, Reason, saved, not_saved, name_required, cap_reached,
  storage_failed, drafts_limit, drafts_in, array_drafts, find_draft, read_raw, write_raw,
  store_draft, save_draft, get_draft, delete_draft,
}

-- What the code relies on of the browser: a text that was written is read again, and the drafts
-- come back from their JSON text, which is not empty.
pub record IsLawful (b : Browser) : Type 1 where
  pub get-set :
      (s s' : b.Storage) (t : b.JsonText) → b.set_item s t ≡ some s' → b.get_item s' ≡ some t
  pub parse-stringify : (ds : List Draft) → b.parse (b.stringify ds) ≡ array (map a_draft ds)
  pub stringify-text : (ds : List Draft) → b.lacks_text (b.stringify ds) ≡ false

drafts_in-map : (ds : List Draft) → drafts_in (map a_draft ds) ≡ ds
unfolding drafts_in
drafts_in-map [] = refl
drafts_in-map (d ∷ ds) = rw (drafts_in-map ds)

module _ (b : Browser) (lawful : IsLawful b) where
  read_raw_written :
      (s s' : b.Storage) (ds : List Draft)
      → b.set_item s (b.stringify ds) ≡ some s'
      → read_raw b s' ≡ ds
  unfolding read_raw array_drafts
  read_raw_written s s' ds e =
      rw (lawful.get-set s s' (b.stringify ds) e, read_raw)
        (rw (lawful.stringify-text ds, lawful.parse-stringify ds, drafts_in-map ds))

  -- A write that goes through leaves the drafts; one that throws leaves the state.
  write_raw-cases :
      (s : b.Storage) (ds : List Draft)
      → ((s' : b.Storage) × (write_raw b s ds ≡ (s', true)) × (read_raw b s' ≡ ds))
        ⊎ (write_raw b s ds ≡ (s, false))
  unfolding write_raw
  write_raw-cases s ds = elim (Option-cases (b.set_item s (b.stringify ds))) [
    | inl failed ↦ inr (rw (failed, write_raw))
    | inr (s', e) ↦ inl (s', rw (e, write_raw), read_raw_written s s' ds e)
  ]

  -- `saveDraft` either appends one draft, with what it was given, under the trimmed name, or changes
  -- nothing at all.
  pub save_draft-cases :
      (id : String) (now : ℕ) (input : DraftInput) (s : b.Storage)
      → ((s' : b.Storage) × (d : Draft) × (save_draft b id now input s ≡ (s', saved d))
          × (d.id ≡ id)
          × (d.name ≡ trim input.name)
          × (d.definition ≡ input.definition)
          × (d.layout ≡ input.layout)
          × (d.edge_handles ≡ input.edge_handles)
          × (suc (length (read_raw b s)) ≤ drafts_limit)
          × (read_raw b s' ≡ read_raw b s ++ d ∷ []))
        ⊎ ((reason : Reason) × (save_draft b id now input s ≡ (s, not_saved reason)))
  unfolding save_draft store_draft
  save_draft-cases id now input s = elim (Bool-cases (is_empty (trim input.name))) [
    | inl blank ↦ inr (name_required, rw blank)
    | inr text ↦ elim (Bool-cases (leb drafts_limit (length (read_raw b s)))) [
      | inl full ↦ inr (cap_reached, rw (text, full))
      | inr room ↦ elim (write_raw-cases s (read_raw b s ++ draft ∷ [])) [
        | inl (s', e, back) ↦
            inl (s', draft, rw (text, room, e), refl, refl, refl, refl, refl, ground arith, back)
        | inr e ↦ inr (storage_failed, rw (text, room, e))
      ]
    ]
  ]
    where
      draft : Draft
      draft = record {
        id = id;
        name = trim input.name;
        saved_at = now;
        definition = input.definition;
        layout = input.layout;
        edge_handles = input.edge_handles;
      }

  -- The cap is kept: a browser that holds ten drafts at most still does after a save, and after a
  -- deletion.
  pub save_draft-cap :
      (id : String) (now : ℕ) (input : DraftInput) (s : b.Storage)
      → length (read_raw b s) ≤ drafts_limit
      → length (read_raw b (save_draft b id now input s).0) ≤ drafts_limit
  save_draft-cap id now input s h = elim (save_draft-cases id now input s) [
    | inl (s', d, e, _, _, _, _, _, room, back) ↦
        rw (e, back, length-append (read_raw b s) (d ∷ [])) (omega (arith, room))
    | inr (reason, e) ↦ rw e h
  ]

  find_draft-append :
      (id : String) (ds : List Draft) (d : Draft)
      → d.id ≡ id
      → find_draft id ds ≡ none
      → find_draft id (ds ++ d ∷ []) ≡ some d
  unfolding find_draft
  find_draft-append id [] d e absent = ground (arith, ==_refl id)
  find_draft-append id (x ∷ ds) d e absent = ground (arith, find_draft-append id ds d)

  find_draft-other :
      (id other : String) (ds : List Draft) (d : Draft)
      → d.id ≡ id
      → (id == other) ≡ false
      → find_draft other (ds ++ d ∷ []) ≡ find_draft other ds
  unfolding find_draft
  find_draft-other id other [] d e apart = ground arith
  find_draft-other id other (x ∷ ds) d e apart = ground (arith, find_draft-other id other ds d)

  -- A draft that was saved is the one that `getDraft` returns for its id, if no draft had the id,
  -- and the drafts under other ids are as they were.
  pub get_draft-save_draft :
      (id other : String) (now : ℕ) (input : DraftInput) (s s' : b.Storage) (d : Draft)
      → save_draft b id now input s ≡ (s', saved d)
      → get_draft b s id ≡ none
      → (id == other) ≡ false
      → (get_draft b s' id ≡ some d) × (get_draft b s' other ≡ get_draft b s other)
  unfolding get_draft
  get_draft-save_draft id other now input s s' d e absent apart =
      elim (save_draft-cases id now input s) [
        | inl (s₁, d₁, e₁, own, _, _, _, _, _, back) ↦
            let same : s₁ ≡ s' = cc in
            let draft : d₁ ≡ d = cc in
            rw (sym same, sym draft, back)
              (
                find_draft-append id (read_raw b s) d₁ own absent,
                find_draft-other id other (read_raw b s) d₁ own apart,
              )
        | inr (reason, e₁) ↦ cc
      ]

  find_draft-deleted :
      (id other : String) (ds : List Draft)
      → find_draft other (filter_by (λ (d : Draft). not (d.id == id)) ds)
        ≡ (if id == other then none else find_draft other ds)
  unfolding find_draft
  find_draft-deleted id other [] = ground arith
  find_draft-deleted id other (d ∷ ds) =
      ground
        (arith, find_draft-deleted id other ds, ==_iff d.id id, ==_iff d.id other, ==_iff id other)

  -- A deletion whose write goes through removes the drafts of its id and no other; if the write
  -- throws, it changes nothing.
  pub get_draft-delete_draft :
      (id other : String) (s : b.Storage)
      → (get_draft b (delete_draft b id s) other
          ≡ (if id == other then none else get_draft b s other))
        ⊎ (delete_draft b id s ≡ s)
  unfolding get_draft delete_draft
  get_draft-delete_draft id other s =
      elim (write_raw-cases s (filter_by (λ (d : Draft). not (d.id == id)) (read_raw b s))) [
        | inl (s', e, back) ↦
            inl (rw (delete_draft, e, back) (find_draft-deleted id other (read_raw b s)))
        | inr e ↦ inr (rw (delete_draft, e))
      ]

  -- What a saved draft holds.
  pub save_draft-content :
      (id : String) (now : ℕ) (input : DraftInput) (s s' : b.Storage) (d : Draft)
      → save_draft b id now input s ≡ (s', saved d)
      → (d.definition ≡ input.definition)
        × (d.layout ≡ input.layout)
        × (d.edge_handles ≡ input.edge_handles)
  save_draft-content id now input s s' d e = elim (save_draft-cases id now input s) [
    | inl (s₁, d₁, e₁, _, _, definition, layout, handles, _, _) ↦
        let draft : d₁ ≡ d = cc in rw⁻¹ draft (definition, layout, handles)
    | inr (reason, e₁) ↦ cc
  ]

  pub get_draft-found :
      (id : String) (now : ℕ) (input : DraftInput) (s s' : b.Storage) (d : Draft)
      → save_draft b id now input s ≡ (s', saved d)
      → get_draft b s id ≡ none
      → get_draft b s' id ≡ some d
  unfolding get_draft
  get_draft-found id now input s s' d e absent = elim (save_draft-cases id now input s) [
    | inl (s₁, d₁, e₁, own, _, _, _, _, _, back) ↦
        let same : s₁ ≡ s' = cc in
        let draft : d₁ ≡ d = cc in
        rw (sym same, sym draft, back) (find_draft-append id (read_raw b s) d₁ own absent)
    | inr (reason, e₁) ↦ cc
  ]
