-- ===== src/Monitor/Executions/Laws.antt =====
-- The pages of the history of an instance.
use rochallor_engine.Base.{
  ℕ, suc, ◌*◌, ◌/◌, ◌%◌, String, Bool, false, Option, none, some, List, ◌&&◌, ◌≡◌, refl, ◌∙◌, ap,
  fun_ext, arith, All, filter_by, take, map, length, is_empty, ◌==◌, ==_refl,
}
use rochallor_engine.Monitor.Request.{ok, Platform, IsPlatform, page_size}
use rochallor_engine.Monitor.Paging.{slice_page, read_all, key_before}
use rochallor_engine.Monitor.Paging.Keyset.{
  map-take, filter_by-and, All-filter_by, All-both, IsOrder, behind_row, IsNewestFirst,
  IsNewestFirst-filter_by, read_all-rows,
}
use rochallor_engine.Monitor.Executions.{
  StepExecutionRow, step_execution_item, StepExecutionCursor, StepExecutionQuery, History,
  select_executions, encode_step_execution_cursor, requested_step_cursor, list_step_executions,
}

abbrev pub IsWhole : StepExecutionRow → Type 0
IsWhole row = row.started_at % 1000 ≡ 0

abbrev pub IsNamed : StepExecutionRow → Type 0
IsNamed row = is_empty row.id ≡ false

whole_millis :
    (row : StepExecutionRow) → IsWhole row → row.started_at / 1000 * 1000 ≡ row.started_at
whole_millis row h = omega arith

abbrev pub executions : History → String → List StepExecutionRow
executions history instance_id =
    filter_by (λ row. row.instance_id == instance_id) history.step_execution

module _ {T K : Type 0} (platform : Platform T StepExecutionCursor K) (laws : IsPlatform platform)
    (history : History) (instance_id : String) where
  abbrev pub later_than : StepExecutionRow → StepExecutionRow → Bool
  later_than = behind_row history.id_before (λ row. row.started_at) (λ row. row.id)

  abbrev cursor_fields : StepExecutionRow → String × String
  cursor_fields row = (platform.to_iso_string (row.started_at / 1000), row.id)

  requested-encode :
      (u : StepExecutionRow)
      → IsNamed u
      → requested_step_cursor platform instance_id
          (some (encode_step_execution_cursor platform instance_id (step_execution_item u)))
        ≡ ok (some (cursor_fields u))
  unfolding requested_step_cursor encode_step_execution_cursor step_execution_item
  requested-encode u name = ground (
    arith,
    laws.decoded (record {
      v = some 1;
      started_at = some (platform.to_iso_string (u.started_at / 1000));
      id = some u.id;
      instance_id = some instance_id;
    }),
    laws.iso_utc (u.started_at / 1000),
    ==_refl instance_id,
    name,
  )

  select-none :
      (limit : ℕ)
      → select_executions platform.timestamptz history instance_id none limit
        ≡ take (suc limit) (executions history instance_id)
  unfolding select_executions
  select-none limit =
      ap (λ p. take (suc limit) (filter_by p history.step_execution)) (fun_ext λ row. ground arith)

  select-some :
      (limit : ℕ) (u : StepExecutionRow)
      → IsWhole u
      → select_executions platform.timestamptz history instance_id (some (cursor_fields u)) limit
        ≡ take (suc limit) (filter_by (later_than u) (executions history instance_id))
  unfolding select_executions
  select-some limit u exact = ap (take (suc limit)) (
      ap
        (λ (t : ℕ).
          filter_by
            (λ row.
              (row.instance_id == instance_id)
              && key_before history.id_before row.started_at row.id t u.id)
            history.step_execution)
        (laws.iso_instant (u.started_at / 1000) ∙ whole_millis u exact)
      ∙ filter_by-and (λ row. row.instance_id == instance_id) (later_than u) history.step_execution)

  module _ (order : IsOrder history.id_before)
      (sorted : IsNewestFirst history.id_before
        (λ row. row.started_at)
        (λ row. row.id)
        history.step_execution)
      (whole : All IsWhole history.step_execution) (named : All IsNamed history.step_execution)
      (size : Option String) (n : ℕ) (sized : page_size platform size ≡ ok (suc n)) where
    abbrev request : Option T → StepExecutionQuery T
    request cursor = record { cursor = cursor; page_size = size }

    page-eq :
        (cursor : Option T) (read : Option (String × String)) (later : List StepExecutionRow)
        → requested_step_cursor platform instance_id cursor ≡ ok read
        → select_executions platform.timestamptz history instance_id read (suc n)
          ≡ take (suc (suc n)) later
        → list_step_executions platform history instance_id (request cursor)
          ≡ ok (
              slice_page
                (suc n)
                (encode_step_execution_cursor platform instance_id)
                (take (suc (suc n)) (map step_execution_item later)))
    unfolding list_step_executions
    page-eq cursor read later e selected =
        rw (sized, e)
          (ap (λ rs. ok (slice_page (suc n) (encode_step_execution_cursor platform instance_id) rs))
            (ap (map step_execution_item) selected
              ∙ map-take step_execution_item (suc (suc n)) later))

    first_request : requested_step_cursor platform instance_id none ≡ ok none
    unfolding requested_step_cursor
    first_request = refl

    -- If the stored times are whole milliseconds, a reader who follows the cursors of the history
    -- of an instance gets each of its step executions exactly once, newest first, and reaches the
    -- last page after no more pages than there are executions, and one.
    pub read_all-list_step_executions :
        read_all
          (λ cursor. list_step_executions platform history instance_id (request cursor))
          (suc (length (map step_execution_item (executions history instance_id))))
          none
        ≡ some (map step_execution_item (executions history instance_id))
    read_all-list_step_executions =
        read_all-rows history.id_before (λ row. row.started_at) (λ row. row.id) order
          (λ u. IsWhole u × IsNamed u) step_execution_item
          (encode_step_execution_cursor platform instance_id)
          (λ cursor. list_step_executions platform history instance_id (request cursor)) n
          (executions history instance_id)
          (λ u known.
            page-eq _ (some (cursor_fields u)) _ (requested-encode u known.1)
              (select-some (suc n) u known.0))
          (IsNewestFirst-filter_by history.id_before (λ row. row.started_at) (λ row. row.id) _
            history.step_execution sorted)
          (All-filter_by (λ u. IsWhole u × IsNamed u) _ history.step_execution
            (All-both IsWhole IsNamed history.step_execution whole named))
          (page-eq none none (executions history instance_id) first_request (select-none (suc n)))
