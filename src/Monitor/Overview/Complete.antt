-- ===== src/Monitor/Overview/Complete.antt =====
-- Every instance is counted in a group of the overview.
use mathlib.Core.Path.{subst}
use rochallor_engine.Base.{
  ℕ, zero, suc, String, true, List, [], ◌∷◌, ◌≡◌, refl, ◌∙◌, ap, arith, All, All-weaken, Bool-cases,
  inl, inr, ◌&&◌, ◌||◌, ltb, ==_refl, any, filter_by, map, take, length,
}
use rochallor_engine.Monitor.Instances.{InstanceRow}
use rochallor_engine.Monitor.Paging.Keyset.{filter_by-and, All-filtered, All-filter_by, All-both}
use rochallor_engine.Monitor.Overview.{
  OverviewTables, same_key, key_of, behind_key, add_key, group_keys, count_row, is_searched,
  select_definitions,
}
use rochallor_engine.Monitor.Overview.Laws.{same_key-eq, key_in}

take-short : {A : Type 0} (n : ℕ) (xs : List A) → ltb (length (take n xs)) n ≡ true → take n xs ≡ xs
take-short zero xs h = ground arith
take-short (suc n) [] h = refl
take-short (suc n) (x ∷ xs) h = ap (λ ys. x ∷ ys) (take-short n xs (ground arith))

length-map : {A B : Type 0} (f : A → B) (xs : List A) → length (map f xs) ≡ length xs
length-map f [] = refl
length-map f (x ∷ xs) = ap suc (length-map f xs)

module _ (db : OverviewTables) where
  add_key-old :
      (x key : String × ℕ) (keys : List (String × ℕ))
      → any (same_key x) keys ≡ true
      → any (same_key x) (add_key db key keys) ≡ true
  unfolding add_key
  add_key-old x key [] h = cc
  add_key-old x key (k ∷ keys) h = ground (arith, add_key-old x key keys)

  same_key_self : (key : String × ℕ) → same_key key key ≡ true
  same_key_self key = ground (arith, ==_refl key.0)

  add_key-new :
      (key : String × ℕ) (keys : List (String × ℕ))
      → any (same_key key) (add_key db key keys) ≡ true
  unfolding add_key
  add_key-new key [] = ground (arith, same_key_self key)
  add_key-new key (k ∷ keys) = ground (arith, add_key-new key keys, same_key_self key)

  grouped :
      (rows : List InstanceRow)
      → All (λ row. any (same_key (key_of row)) (group_keys db rows) ≡ true) rows
  unfolding group_keys
  grouped [] = tt
  grouped (row ∷ rows) = (
    add_key-new (key_of row) (group_keys db rows),
    All-weaken (λ x. add_key-old (key_of x) (key_of row) (group_keys db rows)) rows (grouped rows),
  )

  any-searched :
      (workflow : String) (key : String × ℕ) (keys : List (String × ℕ))
      → is_searched db workflow key ≡ true
      → any (same_key key) keys ≡ true
      → any (same_key key) (filter_by (is_searched db workflow) keys) ≡ true
  any-searched workflow key [] s h = h
  any-searched workflow key (k ∷ keys) s h = elim (Bool-cases (same_key key k)) [
    | inl same ↦
        let kept : is_searched db workflow k ≡ true =
          subst (λ k. is_searched db workflow k ≡ true) (same_key-eq key k same) s in
        ground (arith, kept, same)
    | inr other ↦ ground (arith, other, any-searched workflow key keys s)
  ]

  any-count_row :
      (rows : List InstanceRow) (key : String × ℕ) (keys : List (String × ℕ))
      → any (λ item. same_key key (key_in item)) (map (count_row db rows) keys)
        ≡ any (same_key key) keys
  unfolding count_row
  any-count_row rows key [] = refl
  any-count_row rows key (k ∷ keys) = ap (λ b. same_key key k || b) (any-count_row rows key keys)

  -- If fewer definitions are listed than the limit, each instance of a definition behind the cursor
  -- that is searched for is counted in a listed one.
  pub select_definitions_complete :
      (after : String × ℕ) (limit : ℕ) (workflow : String)
      → ltb (length (select_definitions db after limit workflow)) limit ≡ true
      → All
          (λ row.
            any
              (λ item. same_key (key_of row) (key_in item))
              (select_definitions db after limit workflow)
            ≡ true)
          (filter_by
            (λ row. behind_key db after (key_of row) && is_searched db workflow (key_of row))
            db.workflow_instance)
  unfolding select_definitions
  select_definitions_complete after limit workflow short =
      let rows = filter_by (λ row. behind_key db after (key_of row)) db.workflow_instance in
      let keys = filter_by (is_searched db workflow) (group_keys db rows) in
      let whole : take limit keys ≡ keys = take-short limit keys (
        subst (λ n. ltb n limit ≡ true) (length-map (count_row db rows) (take limit keys)) short) in
      rw
        (filter_by-and (λ row. behind_key db after (key_of row))
          (λ row. is_searched db workflow (key_of row)) db.workflow_instance)
        (All-weaken
          (λ row h.
            any-count_row rows (key_of row) (take limit keys)
            ∙ ap (any (same_key (key_of row))) whole
            ∙ any-searched workflow (key_of row) (group_keys db rows) h.1 h.0)
          _
          (All-both _ _ _
            (All-filter_by (λ row. any (same_key (key_of row)) (group_keys db rows) ≡ true)
              (λ row. is_searched db workflow (key_of row)) rows (grouped rows))
            (All-filtered (λ row. is_searched db workflow (key_of row) ≡ true)
              (λ row. is_searched db workflow (key_of row)) (λ row h. h) rows)))
