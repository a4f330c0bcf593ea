-- ===== src/Monitor/Detail/Latest.antt =====
-- The latest executions of the steps of an instance.
use mathlib.Core.Path.{subst, sym}
use rochallor_engine.Base.{
  IsDistinct, contains, Bool-cases, inl, inr, false, ◌||◌, ap, refl, ◌∙◌, All-weaken, All-map,
  elim_if, String, Bool, true, List, [], ◌∷◌, ◌≡◌, arith, ◌==◌, ==_iff, ==_refl, ◌&&◌, leb, nat_eq,
  any, All, map, filter_by,
}
use rochallor_engine.Monitor.Executions.{StepExecutionRow}
use rochallor_engine.Monitor.Detail.{
  StepExecutionSummary, Snapshot, later_attempt, place, distinct_on_step, put_in_order,
  order_by_step, summary, latest_by_step,
}

-- `s` is of the step of `row`, and of no earlier attempt.
abbrev pub covers : StepExecutionRow → StepExecutionSummary → Bool
covers row s = row.step_id == s.step_id && leb row.attempt_number s.attempt_number

abbrev pub is_row : StepExecutionRow → StepExecutionSummary → Bool
is_row row s =
    row.id == s.execution_id
    && row.step_id == s.step_id
    && row.status == s.status
    && nat_eq row.attempt_number s.attempt_number

abbrev pub of_instance : {D : Type 0} → Snapshot D → String → List StepExecutionRow
of_instance db instance_id = filter_by (λ row. row.instance_id == instance_id) db.step_execution

abbrev listed_steps : List StepExecutionRow → List String
listed_steps rows = map (λ row. row.step_id) rows

module _ (id_before : String → String → Bool) where
  covers-replace :
      (x row r : StepExecutionRow)
      → (row.step_id == r.step_id) ≡ true
      → later_attempt id_before row r ≡ true
      → covers x (summary r) ≡ true
      → covers x (summary row) ≡ true
  covers-replace x row r same later h =
      let moved = (==_iff row.step_id r.step_id).0 same in
      let at = (==_iff x.step_id r.step_id).0 (ground arith) in
      let same_step : x.step_id ≡ row.step_id = cc (at, moved) in
      ground (arith, (==_iff x.step_id row.step_id).1 same_step)

  place-old :
      (x row : StepExecutionRow) (rs : List StepExecutionRow)
      → any (covers x) (map summary rs) ≡ true
      → any (covers x) (map summary (place id_before row rs)) ≡ true
  unfolding place
  place-old x row [] h = cc
  place-old x row (r ∷ rs) h = ground (arith, covers-replace x row r, place-old x row rs)

  place-new :
      (row : StepExecutionRow) (rs : List StepExecutionRow)
      → any (covers row) (map summary (place id_before row rs)) ≡ true
  unfolding place
  place-new row [] = ground (arith, ==_refl row.step_id)
  place-new row (r ∷ rs) = ground (arith, place-new row rs, ==_refl row.step_id)

  covered :
      (rows : List StepExecutionRow)
      → All (λ row. any (covers row) (map summary (distinct_on_step id_before rows)) ≡ true) rows
  unfolding distinct_on_step
  covered [] = tt
  covered (row ∷ rows) = (
    place-new row (distinct_on_step id_before rows),
    All-weaken (λ x. place-old x row (distinct_on_step id_before rows)) rows (covered rows),
  )

  All-place :
      (P : StepExecutionRow → Type 0) (row : StepExecutionRow) (rs : List StepExecutionRow)
      → P row
      → All P rs
      → All P (place id_before row rs)
  unfolding place
  All-place P row [] h k = (h, tt)
  All-place P row (r ∷ rs) h k =
      elim_if (All P) (row.step_id == r.step_id)
        (elim_if (All P) (later_attempt id_before row r) (h, k.1) k) (k.0, All-place P row rs h k.1)

  listed :
      (rows : List StepExecutionRow)
      → All (λ r. any (λ row. is_row row (summary r)) rows ≡ true) (distinct_on_step id_before rows)
  unfolding distinct_on_step
  listed [] = tt
  listed (row ∷ rows) =
      All-place (λ r. any (λ x. is_row x (summary r)) (row ∷ rows) ≡ true) row
        (distinct_on_step id_before rows)
        (ground (arith, ==_refl row.id, ==_refl row.step_id, ==_refl row.status))
        (All-weaken (λ r h. ground (arith)) (distinct_on_step id_before rows) (listed rows))

  -- The order keeps the rows.
  any-put_in_order :
      (p : StepExecutionSummary → Bool) (row : StepExecutionRow) (rs : List StepExecutionRow)
      → any p (map summary (put_in_order id_before row rs))
        ≡ p (summary row) || any p (map summary rs)
  unfolding put_in_order
  any-put_in_order p row [] = refl
  any-put_in_order p row (r ∷ rs) = ground (arith, any-put_in_order p row rs)

  any-order_by_step :
      (p : StepExecutionSummary → Bool) (rs : List StepExecutionRow)
      → any p (map summary (order_by_step id_before rs)) ≡ any p (map summary rs)
  unfolding order_by_step
  any-order_by_step p [] = refl
  any-order_by_step p (r ∷ rs) =
      any-put_in_order p r (order_by_step id_before rs)
      ∙ ap (λ b. p (summary r) || b) (any-order_by_step p rs)

  All-put_in_order :
      (P : StepExecutionRow → Type 0) (row : StepExecutionRow) (rs : List StepExecutionRow)
      → P row
      → All P rs
      → All P (put_in_order id_before row rs)
  unfolding put_in_order
  All-put_in_order P row [] h k = (h, tt)
  All-put_in_order P row (r ∷ rs) h k =
      elim_if (All P) (id_before row.step_id r.step_id) (h, k)
        (k.0, All-put_in_order P row rs h k.1)

  All-order_by_step :
      (P : StepExecutionRow → Type 0) (rs : List StepExecutionRow)
      → All P rs
      → All P (order_by_step id_before rs)
  unfolding order_by_step
  All-order_by_step P [] h = tt
  All-order_by_step P (r ∷ rs) h =
      All-put_in_order P r (order_by_step id_before rs) h.0 (All-order_by_step P rs h.1)

  -- No step has two rows.
  contains-place :
      (x : String) (row : StepExecutionRow) (rs : List StepExecutionRow)
      → contains (listed_steps (place id_before row rs)) x
        ≡ (row.step_id == x) || contains (listed_steps rs) x
  unfolding place
  contains-place x row [] = refl
  contains-place x row (r ∷ rs) = elim (Bool-cases (row.step_id == r.step_id)) [
    | inl same ↦
        let moved : (row.step_id == x) ≡ (r.step_id == x) =
          ap (λ s. s == x) ((==_iff row.step_id r.step_id).0 same) in
        ground (arith, same, moved)
    | inr apart ↦ ground (arith, apart, contains-place x row rs)
  ]

  place-IsDistinct :
      (row : StepExecutionRow) (rs : List StepExecutionRow)
      → IsDistinct (listed_steps rs)
      → IsDistinct (listed_steps (place id_before row rs))
  unfolding place
  place-IsDistinct row [] h = (refl, tt)
  place-IsDistinct row (r ∷ rs) h = elim (Bool-cases (row.step_id == r.step_id)) [
    | inl same ↦
        let moved = (==_iff row.step_id r.step_id).0 same in
        rw same (
          elim_if (λ l. IsDistinct (listed_steps l)) (later_attempt id_before row r)
            (ap (contains (listed_steps rs)) moved ∙ h.0, h.1) h)
    | inr apart ↦
        rw apart (ground (arith, contains-place r.step_id row rs, h.0), place-IsDistinct row rs h.1)
  ]

  distinct_on_step-IsDistinct :
      (rows : List StepExecutionRow) → IsDistinct (listed_steps (distinct_on_step id_before rows))
  unfolding distinct_on_step
  distinct_on_step-IsDistinct [] = tt
  distinct_on_step-IsDistinct (row ∷ rows) =
      place-IsDistinct row (distinct_on_step id_before rows) (distinct_on_step-IsDistinct rows)

  contains-put_in_order :
      (x : String) (row : StepExecutionRow) (rs : List StepExecutionRow)
      → contains (listed_steps (put_in_order id_before row rs)) x
        ≡ (row.step_id == x) || contains (listed_steps rs) x
  unfolding put_in_order
  contains-put_in_order x row [] = refl
  contains-put_in_order x row (r ∷ rs) = ground (arith, contains-put_in_order x row rs)

  contains-order_by_step :
      (x : String) (rs : List StepExecutionRow)
      → contains (listed_steps (order_by_step id_before rs)) x ≡ contains (listed_steps rs) x
  unfolding order_by_step
  contains-order_by_step x [] = refl
  contains-order_by_step x (r ∷ rs) =
      contains-put_in_order x r (order_by_step id_before rs)
      ∙ ap (λ b. (r.step_id == x) || b) (contains-order_by_step x rs)

  put_in_order-IsDistinct :
      (row : StepExecutionRow) (rs : List StepExecutionRow)
      → contains (listed_steps rs) row.step_id ≡ false
      → IsDistinct (listed_steps rs)
      → IsDistinct (listed_steps (put_in_order id_before row rs))
  unfolding put_in_order
  put_in_order-IsDistinct row [] fresh h = (refl, tt)
  put_in_order-IsDistinct row (r ∷ rs) fresh h =
      elim_if (λ l. IsDistinct (listed_steps l)) (id_before row.step_id r.step_id) (fresh, h)
        (
          ground (
            arith,
            contains-put_in_order r.step_id row rs,
            fresh,
            h.0,
            ==_iff row.step_id r.step_id,
            ==_iff r.step_id row.step_id,
          ),
          put_in_order-IsDistinct row rs (ground (arith, fresh)) h.1,
        )

  order_by_step-IsDistinct :
      (rs : List StepExecutionRow)
      → IsDistinct (listed_steps rs)
      → IsDistinct (listed_steps (order_by_step id_before rs))
  unfolding order_by_step
  order_by_step-IsDistinct [] h = tt
  order_by_step-IsDistinct (r ∷ rs) h =
      put_in_order-IsDistinct r (order_by_step id_before rs)
        (contains-order_by_step r.step_id rs ∙ h.0) (order_by_step-IsDistinct rs h.1)

map-summary :
    (rows : List StepExecutionRow) → map (λ s. s.step_id) (map summary rows) ≡ listed_steps rows
map-summary [] = refl
map-summary (r ∷ rows) = ap (λ ids. r.step_id ∷ ids) (map-summary rows)

-- No step is listed twice; each step execution of the instance is covered by a listed one, of the
-- same step and of no earlier attempt; and each listed one is a step execution of the instance with
-- its status.
pub latest_by_step-covers :
    {D : Type 0} (db : Snapshot D) (instance_id : String)
    → IsDistinct (map (λ s. s.step_id) (latest_by_step db instance_id))
      × All
          (λ row. any (covers row) (latest_by_step db instance_id) ≡ true)
          (of_instance db instance_id)
      × All
          (λ s. any (λ row. is_row row s) (of_instance db instance_id) ≡ true)
          (latest_by_step db instance_id)
unfolding latest_by_step
latest_by_step-covers db instance_id =
    let rows = of_instance db instance_id in
    let kept = distinct_on_step db.id_before rows in
    (
      subst IsDistinct (sym (map-summary (order_by_step db.id_before kept))) (
          order_by_step-IsDistinct db.id_before kept
            (distinct_on_step-IsDistinct db.id_before rows)),
      All-weaken (λ row h. any-order_by_step db.id_before (covers row) kept ∙ h) rows
          (covered db.id_before rows),
      All-map (λ s. any (λ row. is_row row s) rows ≡ true) summary _
          (All-order_by_step db.id_before (λ r. any (λ row. is_row row (summary r)) rows ≡ true)
            kept (listed db.id_before rows)),
    )
