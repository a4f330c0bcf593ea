-- ===== src/Monitor/Instances/Query/Where.antt =====
-- The `WHERE` clause that `list` builds, against the filters: which rows it lets through.
use rochallor_engine.Base.{
  ℕ, suc, String, Bool, true, false, Option, none, some, List, [], ◌∷◌, ◌++◌, ◌&&◌, all, ltb, leb,
  nat_eq, ◌==◌, contains, length, ◌≡◌, refl, ◌∙◌, arith,
}
use rochallor_engine.Monitor.Request.{QueryValue, text, texts, given, digits_value}
use rochallor_engine.Monitor.Sql.{Built, add_condition, placeholder}
use rochallor_engine.Monitor.Sql.Laws.{
  placeholder-last, placeholder-next, Means, Means-nothing, Means-condition, Means-pair,
  Means-fixed,
}
use rochallor_engine.Monitor.Paging.{key_before}
use rochallor_engine.Monitor.Instances.{InstanceRow, InstanceFilters, status_values, given_value}
use rochallor_engine.Monitor.Instances.Query.{
  Value, query_value, query_text, Condition, definition_id_is, definition_version_is,
  current_step_is, status_is_live, latest_started_before, status_in, business_key_is, started_from,
  started_to, before_row, Database, on_text, to_value, started_running, keyed, holds, add_given,
  as_value, add_current_step, add_cutoff, add_statuses, add_cursor, build,
}

abbrev pub accepts {ℓ} : {A : Type ℓ} → Option A → (A → Bool) → Bool
accepts none p = true
accepts (some x) p = p x

-- A value that is not a text matches nothing.
abbrev pub text_accepts : QueryValue → (String → Bool) → Bool
text_accepts (text s) p = p s
text_accepts (texts _) p = false

abbrev pub value_accepts : Option QueryValue → (QueryValue → Bool) → Bool
value_accepts none p = false
value_accepts (some v) p = p v

abbrev pub one_of : List String → String → Bool
one_of [] s = true
one_of (t ∷ ts) s = contains (t ∷ ts) s

module _ (timestamptz : String → ℕ) (db : Database) (row : InstanceRow) where
  abbrev pub version_matches : QueryValue → Bool
  version_matches v = text_accepts v λ s. nat_eq row.definition_version (digits_value 0 s)

  abbrev pub step_matches : QueryValue → Bool
  step_matches v = text_accepts v λ s. contains row.current_step_ids s

  abbrev pub is_live : Bool
  is_live = contains ("ACTIVE" ∷ "WAITING" ∷ []) row.status

  -- The latest execution of the step is running and began before the cutoff.
  abbrev pub cutoff_matches : Option QueryValue → QueryValue → Bool
  cutoff_matches step_id cutoff = value_accepts step_id λ v. text_accepts v λ step.
      text_accepts cutoff λ s. started_running (db.latest_execution row.id step) (timestamptz s)

  -- What the filters ask of a row.
  unfoldable pub matches : InstanceFilters → Bool
  unfolding digits_value status_values
  matches f =
      accepts (as_value (given f.definition_id)) (λ v. text_accepts v λ s. row.definition_id == s)
      && accepts (given_value f.definition_version) version_matches
      && accepts (given_value f.current_step_id) (λ v. step_matches v && is_live)
      && accepts (given_value f.step_started_before) (cutoff_matches f.current_step_id)
      && one_of (status_values f.status) row.status
      && accepts (as_value (given f.business_key))
          (λ v. text_accepts v λ s. keyed row.business_key s)
      && accepts (as_value (given f.from))
          (λ v. text_accepts v λ s. leb (timestamptz s) row.started_at)
      && accepts (as_value (given f.to))
          (λ v. text_accepts v λ s. ltb row.started_at (timestamptz s))

  -- What a cursor asks of a row: it comes later in the list.
  unfoldable pub behind : Option (String × String) → Bool
  behind cursor =
      accepts cursor λ c. key_before db.id_before row.started_at row.id (timestamptz c.0) c.1

  abbrev Meaning : Built Condition Value → Bool → Type 0
  Meaning = Means (holds timestamptz db row)

  on_text-value :
      (v : QueryValue) (p : String → Bool) → on_text (some (query_value v)) p ≡ text_accepts v p
  on_text-value (text s) p = refl
  on_text-value (texts ss) p = refl

  Meaning-given :
      (condition : ℕ → Condition) (o : Option QueryValue) (p : String → Bool)
      (b : Built Condition Value) (meaning : Bool)
      → ((values : List Value) (n : ℕ)
          → holds timestamptz db row values (condition n) ≡ on_text (placeholder values n) p)
      → Meaning b meaning
      → Meaning (add_given condition o b) (meaning && accepts o (λ v. text_accepts v p))
  unfolding add_given
  Meaning-given condition none p b meaning read old = λ more. old more ∙ ground arith
  Meaning-given condition (some v) p b meaning read old =
      Means-condition (holds timestamptz db row) b meaning (text_accepts v p) condition
        (query_value v) old
        λ xs more.
          read (xs ++ query_value v ∷ more) (suc (length xs))
          ∙ rw (placeholder-last xs (query_value v) more) (on_text-value v p)

  Meaning-current_step :
      (o : Option QueryValue) (b : Built Condition Value) (meaning : Bool)
      → Meaning b meaning
      → Meaning (add_current_step o b) (meaning && accepts o (λ v. step_matches v && is_live))
  unfolding add_current_step holds
  Meaning-current_step none b meaning old = λ more. old more ∙ ground arith
  Meaning-current_step (some v) b meaning old = λ more.
      Means-fixed (holds timestamptz db row) (add_condition current_step_is (query_value v) b)
        (meaning && step_matches v) is_live status_is_live
        (Means-condition (holds timestamptz db row) b meaning (step_matches v) current_step_is
          (query_value v) old
          λ xs more.
            rw (placeholder-last xs (query_value v) more)
              (on_text-value v (λ s. contains row.current_step_ids s)))
        (λ values. refl) more
      ∙ ground arith

  read_pair :
      (step_id : Option QueryValue) (v : QueryValue)
      → on_text (some (to_value step_id)) (λ step.
        on_text
          (some (query_value v))
          λ s. started_running (db.latest_execution row.id step) (timestamptz s))
        ≡ cutoff_matches step_id v
  read_pair none v = refl
  read_pair (some (text step)) (text s) = refl
  read_pair (some (text step)) (texts ss) = refl
  read_pair (some (texts ss)) v = refl

  Meaning-cutoff :
      (o step_id : Option QueryValue) (b : Built Condition Value) (meaning : Bool)
      → Meaning b meaning
      → Meaning (add_cutoff o step_id b) (meaning && accepts o (cutoff_matches step_id))
  unfolding add_cutoff holds
  Meaning-cutoff none step_id b meaning old = λ more. old more ∙ ground arith
  Meaning-cutoff (some v) step_id b meaning old =
      Means-pair (holds timestamptz db row) b meaning (cutoff_matches step_id v)
        latest_started_before (to_value step_id) (query_value v) old
        λ xs more.
          rw
            (
              placeholder-last xs (to_value step_id) (query_value v ∷ more),
              placeholder-next xs (to_value step_id) (query_value v) more,
            )
            (read_pair step_id v)

  Meaning-statuses :
      (statuses : List String) (b : Built Condition Value) (meaning : Bool)
      → Meaning b meaning
      → Meaning (add_statuses statuses b) (meaning && one_of statuses row.status)
  unfolding add_statuses holds
  Meaning-statuses [] b meaning old = λ more. old more ∙ ground arith
  Meaning-statuses (s ∷ ss) b meaning old =
      Means-condition (holds timestamptz db row) b meaning (contains (s ∷ ss) row.status) status_in
        (query_value (texts (s ∷ ss))) old
        λ xs more. rw (placeholder-last xs (query_value (texts (s ∷ ss))) more) refl

  Meaning-cursor :
      (cursor : Option (String × String)) (b : Built Condition Value) (meaning : Bool)
      → Meaning b meaning
      → Meaning (add_cursor cursor b) (meaning && behind cursor)
  unfolding add_cursor holds behind
  Meaning-cursor none b meaning old = λ more. old more ∙ ground arith
  Meaning-cursor (some (started_at, id)) b meaning old =
      Means-pair (holds timestamptz db row) b meaning
        (key_before db.id_before row.started_at row.id (timestamptz started_at) id) before_row
        (query_text started_at) (query_text id) old
        λ xs more.
          rw
            (
              placeholder-last xs (query_text started_at) (query_text id ∷ more),
              placeholder-next xs (query_text started_at) (query_text id) more,
            )
            refl

  -- The conditions hold for a row, under the values of the statement and whatever is pushed behind
  -- them, exactly if the row matches the filters and stands behind the cursor.
  pub build-Means :
      (filters : InstanceFilters) (cursor : Option (String × String)) (more : List Value)
      → all
          (holds timestamptz db row ((build filters cursor).values ++ more))
          (build filters cursor).conditions
        ≡ (matches filters && behind cursor)
  unfolding build matches holds
  build-Means f cursor = Meaning-cursor cursor _ _ (
      Meaning-given started_to (as_value (given f.to)) _ _ _ (λ values n. refl)
        (Meaning-given started_from (as_value (given f.from)) _ _ _ (λ values n. refl)
          (Meaning-given business_key_is (as_value (given f.business_key)) _ _ _ (λ values n. refl)
            (Meaning-statuses (status_values f.status) _ _ (
              Meaning-cutoff (given_value f.step_started_before) f.current_step_id _ _ (
                Meaning-current_step (given_value f.current_step_id) _ _ (
                  Meaning-given definition_version_is (given_value f.definition_version) _ _ _
                    (λ values n. refl)
                    (Meaning-given definition_id_is (as_value (given f.definition_id)) _ _ _
                      (λ values n. refl) (Means-nothing (holds timestamptz db row))))))))))
