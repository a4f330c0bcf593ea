-- ===== src/Monitor/Incidents/Where.antt =====
-- The `WHERE` clause of the incidents, against the filters.
use rochallor_engine.Base.{
  ℕ, suc, String, Bool, true, Option, none, some, List, ◌∷◌, ◌++◌, ◌&&◌, not, all, ltb, leb, ◌==◌,
  length, ◌≡◌, refl, ◌∙◌, arith,
}
use rochallor_engine.Monitor.Request.{equals, given}
use rochallor_engine.Monitor.Sql.{Built, placeholder, Value, text, on_text}
use rochallor_engine.Monitor.Sql.Laws.{
  placeholder-last, placeholder-next, Means, Means-condition, Means-pair,
}
use rochallor_engine.Monitor.Paging.{key_before}
use rochallor_engine.Monitor.Incidents.{
  IncidentRow, IncidentFilters, Condition, definition_id_is, job_type_is, ended_from, ended_to,
  before_row, Incidents, holds, add_given, add_cursor, fixed_conditions, build_incidents,
}

abbrev pub accepts : Option String → (String → Bool) → Bool
accepts none p = true
accepts (some s) p = p s

module _ (timestamptz : String → ℕ) (db : Incidents) (row : IncidentRow) where
  -- A failed execution of an instance that is not cancelled, as the filters ask.
  unfoldable pub is_incident : IncidentFilters → Bool
  is_incident f =
      row.status == "FAILED"
      && not (row.instance_status == "CANCELLED")
      && accepts (given f.definition_id) (λ s. row.definition_id == s)
      && accepts (given f.job_type) (λ s. equals row.job_type s)
      && accepts (given f.from) (λ s. leb (timestamptz s) row.ended_at)
      && accepts (given f.to) (λ s. ltb row.ended_at (timestamptz s))

  unfoldable pub is_behind : Option (String × String) → Bool
  unfolding key_before
  is_behind none = true
  is_behind (some (occurred_at, id)) =
      key_before db.id_before row.ended_at row.id (timestamptz occurred_at) id

  abbrev Meaning : Built Condition Value → Bool → Type 0
  Meaning = Means (holds timestamptz db row)

  Meaning-fixed :
      Meaning fixed_conditions (row.status == "FAILED" && not (row.instance_status == "CANCELLED"))
  unfolding holds
  Meaning-fixed more = ground arith

  Meaning-given :
      (condition : ℕ → Condition) (o : Option String) (p : String → Bool)
      (b : Built Condition Value) (meaning : Bool)
      → ((values : List Value) (n : ℕ)
          → holds timestamptz db row values (condition n) ≡ on_text (placeholder values n) p)
      → Meaning b meaning
      → Meaning (add_given condition o b) (meaning && accepts o p)
  unfolding add_given
  Meaning-given condition none p b meaning read old = λ more. old more ∙ ground arith
  Meaning-given condition (some s) p b meaning read old =
      Means-condition (holds timestamptz db row) b meaning (p s) condition (text s) old λ xs more.
        read (xs ++ text s ∷ more) (suc (length xs)) ∙ rw (placeholder-last xs (text s) more) refl

  Meaning-cursor :
      (cursor : Option (String × String)) (b : Built Condition Value) (meaning : Bool)
      → Meaning b meaning
      → Meaning (add_cursor cursor b) (meaning && is_behind cursor)
  unfolding add_cursor holds is_behind
  Meaning-cursor none b meaning old = λ more. old more ∙ ground arith
  Meaning-cursor (some (occurred_at, id)) b meaning old =
      Means-pair (holds timestamptz db row) b meaning
        (key_before db.id_before row.ended_at row.id (timestamptz occurred_at) id) before_row
        (text occurred_at) (text id) old
        λ xs more.
          rw
            (
              placeholder-last xs (text occurred_at) (text id ∷ more),
              placeholder-next xs (text occurred_at) (text id) more,
            )
            refl

  -- The conditions hold for a row, under the values of the statement and whatever is pushed behind
  -- them, exactly if the row is an incident that the filters ask for and stands behind the cursor.
  pub build_incidents-Means :
      (filters : IncidentFilters) (cursor : Option (String × String)) (more : List Value)
      → all
          (holds timestamptz db row ((build_incidents filters cursor).values ++ more))
          (build_incidents filters cursor).conditions
        ≡ (is_incident filters && is_behind cursor)
  unfolding build_incidents is_incident holds
  build_incidents-Means f cursor = Meaning-cursor cursor _ _ (
      Meaning-given ended_to (given f.to) _ _ _ (λ values n. refl)
        (Meaning-given ended_from (given f.from) _ _ _ (λ values n. refl)
          (Meaning-given job_type_is (given f.job_type) _ _ _ (λ values n. refl)
            (Meaning-given definition_id_is (given f.definition_id) _ _ _ (λ values n. refl)
              Meaning-fixed))))
