-- ===== src/Modeller/Validate/Shape.antt =====
-- `checkStepVariantShape` of workflow-modeller/src/domain/validate.ts.
use rochallor_engine.Base.{
  ℕ, suc, String, Bool, true, false, Option, none, some, List, [], ◌∷◌, ◌++◌, ◌+◌, ◌&&◌, ◌||◌, not,
  if◌then◌else◌, ◌<>◌, code, nat_eq, leb, ltb, is_empty, is_blank, decimal, contains, length,
  flat_map, flat_map_from, lookup, is_some,
}
use rochallor_engine.Modeller.Types.{
  StepId, Step, Variant, service_task, user_task, decision, decision_table, transformation, wait,
  parallel_gateway, join_gateway, end_step, Rule, DecisionTable, DecisionTableStep, Diagnostic,
  warning, decision_has_branches, transformation_has_next, transformation_has_entries,
  wait_has_next, parallel_min_branches, parallel_has_join, join_has_next, decision_table_has_rules,
  decision_table_has_next, decision_table_hit_policy_unknown, decision_table_aggregator_on_non_c,
  decision_table_legacy_then, decision_table_legacy_default_next_step,
  decision_table_unreachable_rule, step_field_invalid, Json,
}
use rochallor_engine.Modeller.Validate.Diag.{plain, field_error}

-- `!s || s.trim() === ''`.
unfoldable pub lacks_text : String → Bool
lacks_text s = is_empty s || is_blank s

abbrev pub hit_policies : List String
hit_policies = "U" ∷ "F" ∷ "A" ∷ "R" ∷ "C" ∷ "C+" ∷ "C#" ∷ "C>" ∷ "C<" ∷ []

unfoldable pub known_hit_policy : Option String → Bool
known_hit_policy none = true
known_hit_policy (some policy) = contains hit_policies policy

-- A text of two code units or more, whose first is not C and whose second is an aggregator. (A
-- first character outside the basic plane is followed by a surrogate.)
unfoldable pub aggregator_on_non_c : Option String → Bool
aggregator_on_non_c (some (String.◌∷◌ c (String.◌∷◌ d rest))) =
    leb (code c) 0xffff
    && not (nat_eq (code c) b'C')
    && (nat_eq (code d) b'+'
        || nat_eq (code d) b'#'
        || nat_eq (code d) b'>'
        || nat_eq (code d) b'<')
aggregator_on_non_c _ = false

abbrev policy_text : Option String → String
policy_text none = "undefined"
policy_text (some policy) = policy

unfoldable pub check_hit_policy : StepId → Option String → List Diagnostic
unfolding known_hit_policy aggregator_on_non_c
check_hit_policy id policy =
    (if known_hit_policy policy
      then []
      else field_error decision_table_hit_policy_unknown
          ("DECISION_TABLE \""
            <> id
            <> "\" has unknown hitPolicy \""
            <> policy_text policy
            <> "\". Allowed: U, F, A, R, C, C+, C#, C>, C<.")
          id "hitPolicy"
        ∷ [])
    ++ (if aggregator_on_non_c policy
        then field_error decision_table_aggregator_on_non_c
            ("DECISION_TABLE \""
              <> id
              <> "\" hitPolicy \""
              <> policy_text policy
              <> "\" applies an aggregator to a non-Collect policy.")
            id "hitPolicy"
          ∷ []
        else [])

unfoldable pub check_legacy_then : StepId → ℕ → Rule → List Diagnostic
check_legacy_then id i rule =
    if is_some (lookup "then" rule.extras)
    then record (field_error decision_table_legacy_then
        ("DECISION_TABLE \""
          <> id
          <> "\" rule "
          <> decimal (i + 1)
          <> " carries legacy \"then\" field — use the step-level \"nextStep\" plus per-rule "
          <> "\"outputs\" (see workflow-format.md, \"Migration from 005\").")
        id "decisionTable.rules") { rule_index = some i }
      ∷ []
    else []

unfoldable pub check_legacy_default : StepId → DecisionTable → List Diagnostic
check_legacy_default id table =
    if is_some (lookup "defaultNextStep" table.extras)
    then field_error decision_table_legacy_default_next_step
        ("DECISION_TABLE \"" <> id <> "\" carries legacy \"defaultNextStep\" field — no-match is a "
          <> "runtime failure now (see workflow-format.md, \"Migration from 005\").")
        id "decisionTable.defaultNextStep"
      ∷ []
    else []

abbrev pub forbidden_fields : List String
forbidden_fields =
    "conditionalNextSteps" ∷ "transformations" ∷ "parallelNextSteps" ∷ "joinStep" ∷ "jobType"
    ∷ "delegateClass" ∷ "retryCount" ∷ "boundaryEvents" ∷ []

unfoldable pub check_forbidden : StepId → List (String × Json) → String → List Diagnostic
check_forbidden id extras f =
    if is_some (lookup f extras)
    then field_error step_field_invalid
        ("Field \"" <> f <> "\" is not valid on a DECISION_TABLE step.") id f
      ∷ []
    else []

abbrev pub is_catch_all : Rule → Bool
is_catch_all rule = nat_eq (length rule.when) 0

-- The loop over the rules; `first` is `firstCatchAllIndex`, with `none` for -1.
unfoldable pub unreachable_rules : StepId → Option ℕ → ℕ → List Rule → List Diagnostic
unreachable_rules id first i [] = []
unreachable_rules id none i (rule ∷ rules) =
    unreachable_rules id (if is_catch_all rule then some i else none) (suc i) rules
unreachable_rules id (some first) i (rule ∷ rules) =
    (if ltb first i
      then record (plain decision_table_unreachable_rule warning (
          "Rule "
          <> decimal (i + 1)
          <> " is unreachable: rule "
          <> decimal (first + 1)
          <> " is a catch-all and matches first.")) {
            node_id = some id;
            field = some "decisionTable.rules";
            rule_index = some i;
          }
        ∷ []
      else [])
    ++ unreachable_rules id (some first) (suc i) rules

unfoldable pub check_decision_table :
    StepId → DecisionTableStep → List (String × Json) → List Diagnostic
unfolding lacks_text check_hit_policy check_legacy_then check_legacy_default check_forbidden
    unreachable_rules
check_decision_table id t extras =
    (if nat_eq (length t.decision_table.rules) 0
      then field_error decision_table_has_rules
          ("DECISION_TABLE \"" <> id <> "\" must declare at least one rule.") id
          "decisionTable.rules"
        ∷ []
      else [])
    ++ (if lacks_text t.next_step
        then field_error decision_table_has_next
            ("DECISION_TABLE \"" <> id <> "\" must declare nextStep.") id "nextStep"
          ∷ []
        else [])
    ++ check_hit_policy id t.hit_policy
    ++ flat_map_from 0 (check_legacy_then id) t.decision_table.rules
    ++ check_legacy_default id t.decision_table
    ++ flat_map (check_forbidden id extras) forbidden_fields
    ++ unreachable_rules id none 0 t.decision_table.rules

unfoldable pub check_variant_shape : StepId → List (String × Json) → Variant → List Diagnostic
unfolding lacks_text check_decision_table
check_variant_shape id extras (decision branches) =
    if nat_eq (length branches) 0
    then field_error decision_has_branches
        ("DECISION \"" <> id <> "\" must declare at least one branch.") id "conditionalNextSteps"
      ∷ []
    else []
check_variant_shape id extras (decision_table t) = check_decision_table id t extras
check_variant_shape id extras (transformation t) =
    (if lacks_text t.next_step
      then field_error transformation_has_next
          ("TRANSFORMATION \"" <> id <> "\" must declare nextStep.") id "nextStep"
        ∷ []
      else [])
    ++ (if nat_eq (length t.transformations) 0
        then field_error transformation_has_entries
            ("TRANSFORMATION \"" <> id <> "\" must declare at least one transformation entry.") id
            "transformations"
          ∷ []
        else [])
check_variant_shape id extras (wait t) =
    if lacks_text t.next_step
    then field_error wait_has_next ("WAIT \"" <> id <> "\" must declare nextStep.") id "nextStep"
      ∷ []
    else []
check_variant_shape id extras (parallel_gateway t) =
    (if ltb (length t.parallel_next_steps) 2
      then field_error parallel_min_branches
          ("PARALLEL_GATEWAY \"" <> id <> "\" must declare at least two parallel branches.") id
          "parallelNextSteps"
        ∷ []
      else [])
    ++ (if lacks_text t.join_step
        then field_error parallel_has_join
            ("PARALLEL_GATEWAY \"" <> id <> "\" must declare a joinStep.") id "joinStep"
          ∷ []
        else [])
check_variant_shape id extras (join_gateway next_step) =
    if lacks_text next_step
    then field_error join_has_next ("JOIN_GATEWAY \"" <> id <> "\" must declare nextStep.") id
        "nextStep"
      ∷ []
    else []
check_variant_shape id extras (service_task _) = []
check_variant_shape id extras (user_task _) = []
check_variant_shape id extras end_step = []

unfoldable pub check_step_variant_shape : Step → List Diagnostic
unfolding check_variant_shape
check_step_variant_shape step = check_variant_shape step.id step.extras step.variant
