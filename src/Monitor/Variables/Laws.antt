-- ===== src/Monitor/Variables/Laws.antt =====
-- The recorded variables against the list of step executions.
use rochallor_engine.Base.{
  ℕ, String, Bool, true, false, Option, none, some, List, [], ◌∷◌, ◌≡◌, refl, ◌∙◌, ap, fun_ext,
  arith, ◌==◌, is_some, filter_by, map,
}
use rochallor_engine.Monitor.Paging.Keyset.{filter_by-and}
use rochallor_engine.Monitor.Executions.{
  StepExecutionRow, StepExecutionItem, step_execution_item, History,
}
use rochallor_engine.Monitor.Executions.Laws.{executions}
use rochallor_engine.Monitor.Context.{first_of}
use rochallor_engine.Monitor.Variables.{
  VariableDocument, not_recorded, RecordedVariables, variable_document, snapshot_document,
  recorded_of, recorded,
}

abbrev pub is_recorded : {V : Type 0} → VariableDocument V → Bool
is_recorded not_recorded = false
is_recorded _ = true

abbrev pub shown : {V : Type 0} → Option (RecordedVariables V) → Option (Bool × Bool)
shown none = none
shown (some r) = some (is_recorded r.recorded_input, is_recorded r.recorded_output)

abbrev pub promised : Option StepExecutionItem → Option (Bool × Bool)
promised none = none
promised (some item) = some (item.has_input_snapshot, item.has_output_snapshot)

module _ {V : Type 0} (parse : String → V) (byte_length : V → ℕ) (limit : ℕ) where
  is_recorded-snapshot :
      (column : Option String)
      → is_recorded (snapshot_document parse byte_length limit column) ≡ is_some column
  unfolding variable_document
  is_recorded-snapshot none = refl
  is_recorded-snapshot (some column) = ground arith

  shown-first :
      (execution_id : String) (rows : List StepExecutionRow)
      → shown (
          recorded_of parse byte_length limit
            (first_of (filter_by (λ row. row.id == execution_id) rows)))
        ≡ promised
            (first_of (filter_by (λ item. item.id == execution_id) (map step_execution_item rows)))
  unfolding step_execution_item
  shown-first execution_id [] = refl
  shown-first execution_id (row ∷ rows) = ground (
    arith,
    shown-first execution_id rows,
    is_recorded-snapshot row.input_snapshot,
    is_recorded-snapshot row.output_snapshot,
  )

  -- The variables of a step execution are found exactly if the history of the instance lists the
  -- execution, and they show an input or an output exactly if the list promises it.
  pub recorded-listed :
      (history : History) (instance_id execution_id : String)
      → shown (recorded parse byte_length limit history.step_execution instance_id execution_id)
        ≡ promised (
            first_of (
              filter_by
                (λ item. item.id == execution_id)
                (map step_execution_item (executions history instance_id))))
  unfolding recorded
  recorded-listed history instance_id execution_id =
      ap
        (λ p.
          shown
            (recorded_of parse byte_length limit (first_of (filter_by p history.step_execution))))
        (fun_ext λ row. ground arith)
      ∙ ap (λ rows. shown (recorded_of parse byte_length limit (first_of rows)))
          (filter_by-and (λ row. row.instance_id == instance_id) (λ row. row.id == execution_id)
            history.step_execution)
      ∙ shown-first execution_id (executions history instance_id)
