-- ===== src/Modeller/Validate/Unknown/Laws.antt =====
-- The two places that look for unknown fields: `checkUnknownFields` of
-- workflow-modeller/src/domain/validate.ts and `collectUnknownFieldWarnings` of io/import.ts.
use rochallor_engine.Base.{
  String, true, false, Option, none, some, List, [], ◌∷◌, ◌++◌, ◌≡◌, ◌↔◌, refl, arith, All,
  All-append, All-append_split, All-iff, Bool-cases, inl, inr, append-eq-nil_iff, flat_map,
  flat_map-eq-nil_iff, length, ltb, if◌then◌else◌, contains, filter_by, not, keys,
}
use rochallor_engine.Modeller.Types.{
  Step, StepType, step_type, Variant, service_task_type, user_task_type, decision_type,
  decision_table_type, transformation_type, wait_type, parallel_gateway_type, join_gateway_type,
  end_type, service_task, user_task, decision, decision_table, transformation, wait,
  parallel_gateway, join_gateway, end_step, WorkflowDefinition,
}
use rochallor_engine.Modeller.Validate.Unknown.{
  known_root_keys, known_step_keys, key_if, variant_keys, step_keys, root_keys, unknown_keys,
  step_extras, root_extras, check_step_fields, check_unknown_fields, import_root_extras,
  import_step_extras, collect_unknown_field_warnings,
}

-- The keys stand in the list.
abbrev pub AreListed : List String → List String → Type 0
AreListed known = All (λ k. contains known k ≡ true)

-- The keys that the schema has passed through are known for the step, or for the definition.
abbrev pub IsCleanStep : Step → Type 0
IsCleanStep step = AreListed (known_step_keys (step_type step.variant)) (keys step.extras)

abbrev pub IsCleanRoot : WorkflowDefinition → Type 0
IsCleanRoot def = AreListed known_root_keys (keys def.extras)

unknown_keys_iff :
    (known ks : List String)
    → (filter_by (λ k. not (contains known k)) ks ≡ []) ↔ AreListed known ks
unknown_keys_iff known [] = (λ _. tt, λ _. refl)
unknown_keys_iff known (k ∷ ks) =
    let ih = unknown_keys_iff known ks in
    elim (Bool-cases (contains known k)) [
      | inl listed ↦ (λ e. (listed, ih.0 (rw listed at e)), λ h. rw listed (ih.1 h.1))
      | inr missing ↦
          (λ e. cc (rw missing at e), λ h. let bad : true ≡ false = cc (h.0, missing) in cc)
    ]

-- A known optional key in front changes nothing.
key_if_iff :
    {A : Type 0} (known : List String) (key : String) (o : Option A) (rest : List String)
    → contains known key ≡ true
    → AreListed known (key_if key o ++ rest) ↔ AreListed known rest
key_if_iff known key none rest h = (λ l. l, λ l. l)
key_if_iff known key (some a) rest h = (λ l. l.1, λ l. (h, l))

-- An optional key at the end.
last_key :
    {A : Type 0} (known : List String) (key : String) (o : Option A)
    → contains known key ≡ true
    → AreListed known (key_if key o)
last_key known key none h = tt
last_key known key (some a) h = (h, tt)

-- The keys that the schema names for a step are known for its type.
variant_keys-AreListed : (v : Variant) → AreListed (known_step_keys (step_type v)) (variant_keys v)
unfolding variant_keys known_step_keys
variant_keys-AreListed (service_task t) =
    let known = known_step_keys service_task_type in
    let events = key_if "boundaryEvents" t.boundary_events in
    let retries = key_if "retryCount" t.retry_count ++ events in
    let class = key_if "delegateClass" t.delegate_class ++ retries in
    (key_if_iff known "nextStep" t.next_step (key_if "jobType" t.job_type ++ class) refl).1 (
      (key_if_iff known "jobType" t.job_type class refl).1 (
        (key_if_iff known "delegateClass" t.delegate_class retries refl).1 (
          (key_if_iff known "retryCount" t.retry_count events refl).1
            (last_key known "boundaryEvents" t.boundary_events refl))))
variant_keys-AreListed (user_task t) =
    let known = known_step_keys user_task_type in
    let events = key_if "boundaryEvents" t.boundary_events in
    (key_if_iff known "nextStep" t.next_step (key_if "jobType" t.job_type ++ events) refl).1 (
      (key_if_iff known "jobType" t.job_type events refl).1
        (last_key known "boundaryEvents" t.boundary_events refl))
variant_keys-AreListed (decision b) = (refl, tt)
variant_keys-AreListed (decision_table t) =
    (key_if_iff (known_step_keys decision_table_type) "hitPolicy" t.hit_policy
        ("nextStep" ∷ "decisionTable" ∷ []) refl).1
      (refl, (refl, tt))
variant_keys-AreListed (transformation t) = (refl, (refl, tt))
variant_keys-AreListed (wait t) =
    (refl, last_key (known_step_keys wait_type) "boundaryEvents" t.boundary_events refl)
variant_keys-AreListed (parallel_gateway t) = (refl, (refl, tt))
variant_keys-AreListed (join_gateway n) = (refl, tt)
variant_keys-AreListed end_step = tt

common-AreListed :
    (type : StepType)
    → (contains (known_step_keys type) "id" ≡ true)
      × (contains (known_step_keys type) "name" ≡ true)
      × (contains (known_step_keys type) "description" ≡ true)
      × (contains (known_step_keys type) "type" ≡ true)
unfolding known_step_keys
common-AreListed service_task_type = (refl, refl, refl, refl)
common-AreListed user_task_type = (refl, refl, refl, refl)
common-AreListed decision_type = (refl, refl, refl, refl)
common-AreListed decision_table_type = (refl, refl, refl, refl)
common-AreListed transformation_type = (refl, refl, refl, refl)
common-AreListed wait_type = (refl, refl, refl, refl)
common-AreListed parallel_gateway_type = (refl, refl, refl, refl)
common-AreListed join_gateway_type = (refl, refl, refl, refl)
common-AreListed end_type = (refl, refl, refl, refl)

step_keys_iff :
    (step : Step)
    → AreListed (known_step_keys (step_type step.variant)) (step_keys step) ↔ IsCleanStep step
unfolding step_keys
step_keys_iff step =
    let known = known_step_keys (step_type step.variant) in
    let P : String → Type 0 = λ k. contains known k ≡ true in
    let common = common-AreListed (step_type step.variant) in
    let behind =
      key_if_iff known "description" step.description
        ("type" ∷ (variant_keys step.variant ++ keys step.extras)) common.2 in
    (
      λ h. (All-append_split P (variant_keys step.variant) (keys step.extras) (behind.0 h.1.1).1).1,
      λ h. (
        common.0,
        (
          common.1,
          behind.1 (
            common.3,
            All-append P (variant_keys step.variant) (keys step.extras)
                (variant_keys-AreListed step.variant) h,
          ),
        ),
      ),
    )

root_keys_iff :
    (def : WorkflowDefinition) → AreListed known_root_keys (root_keys def) ↔ IsCleanRoot def
unfolding root_keys
root_keys_iff def =
    let known = known_root_keys in
    let extras = key_if "metadata" def.metadata ++ keys def.extras in
    let next = key_if "nextWorkflowId" def.next_workflow_id ++ ("steps" ∷ extras) in
    let auto = key_if "autoStartNextWorkflow" def.auto_start_next_workflow ++ next in
    let named = "name" ∷ (key_if "description" def.description ++ auto) in
    let version = key_if_iff known "version" def.version named refl in
    let described = key_if_iff known "description" def.description auto refl in
    let started = key_if_iff known "autoStartNextWorkflow" def.auto_start_next_workflow next refl in
    let followed = key_if_iff known "nextWorkflowId" def.next_workflow_id ("steps" ∷ extras) refl in
    let last = key_if_iff known "metadata" def.metadata (keys def.extras) refl in
    (
      λ h. last.0 (followed.0 (started.0 (described.0 (version.0 h.1).1))).1,
      λ h. (refl, version.1 (refl, described.1 (started.1 (followed.1 (refl, last.1 h))))),
    )

report_iff :
    {A : Type 0} (extras : List String) (x : A)
    → ((if ltb 0 (length extras) then x ∷ [] else []) ≡ []) ↔ (extras ≡ [])
report_iff [] x = ground arith
report_iff (k ∷ extras) x = ground arith

compose_iff : {A B C : Type 0} → A ↔ B → B ↔ C → A ↔ C
compose_iff f g = (λ a. g.0 (f.0 a), λ c. f.1 (g.1 c))

root_extras_iff : (def : WorkflowDefinition) → (root_extras def ≡ []) ↔ IsCleanRoot def
unfolding root_extras unknown_keys
root_extras_iff def =
    compose_iff (unknown_keys_iff known_root_keys (root_keys def)) (root_keys_iff def)

step_extras_iff : (step : Step) → (step_extras step ≡ []) ↔ IsCleanStep step
unfolding step_extras unknown_keys
step_extras_iff step =
    compose_iff (unknown_keys_iff (known_step_keys (step_type step.variant)) (step_keys step))
      (step_keys_iff step)

import_root_extras_iff :
    (def : WorkflowDefinition) → (import_root_extras def ≡ []) ↔ IsCleanRoot def
unfolding import_root_extras
import_root_extras_iff def =
    compose_iff (unknown_keys_iff known_root_keys (root_keys def)) (root_keys_iff def)

import_step_extras_iff : (step : Step) → (import_step_extras step ≡ []) ↔ IsCleanStep step
unfolding import_step_extras
import_step_extras_iff step =
    compose_iff (unknown_keys_iff (known_step_keys (step_type step.variant)) (step_keys step))
      (step_keys_iff step)

check_step_fields_iff : (step : Step) → (check_step_fields step ≡ []) ↔ IsCleanStep step
unfolding check_step_fields
check_step_fields_iff step = compose_iff (report_iff (step_extras step) _) (step_extras_iff step)

-- A report on the definition, and one on each step.
both_iff :
    {A : Type 0} (root : List A) (each : Step → List A) (def : WorkflowDefinition)
    → (root ≡ []) ↔ IsCleanRoot def
    → ((s : Step) → (each s ≡ []) ↔ IsCleanStep s)
    → (root ++ flat_map each def.steps ≡ []) ↔ (IsCleanRoot def × All IsCleanStep def.steps)
both_iff root each def root_iff each_iff =
    let split = append-eq-nil_iff root (flat_map each def.steps) in
    let silent = flat_map-eq-nil_iff each def.steps in
    let known = All-iff each_iff def.steps in
    (
      λ e. (root_iff.0 (split.0 e).0, known.0 (silent.0 (split.0 e).1)),
      λ h. split.1 (root_iff.1 h.0, silent.1 (known.1 h.1)),
    )

-- The validator reports no unknown field, and the import warns of none, exactly if every key that
-- the schema has passed through, of the definition and of each step, is a known key of the
-- definition or of the type of the step.
pub check_unknown_fields_iff :
    (def : WorkflowDefinition)
    → ((check_unknown_fields def ≡ []) ↔ (IsCleanRoot def × All IsCleanStep def.steps))
      × ((collect_unknown_field_warnings def ≡ []) ↔ (IsCleanRoot def × All IsCleanStep def.steps))
unfolding check_unknown_fields collect_unknown_field_warnings
check_unknown_fields_iff def = (
  both_iff _ check_step_fields def
      (compose_iff (report_iff (root_extras def) _) (root_extras_iff def)) check_step_fields_iff,
  both_iff _ _ def
      (compose_iff (report_iff (import_root_extras def) _) (import_root_extras_iff def))
      (λ s. compose_iff (report_iff (import_step_extras s) _) (import_step_extras_iff s)),
)
