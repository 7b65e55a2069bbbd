-- ===== src/Static/Decided.antt =====
-- For each task and each type of allocation the last rule that matches and has the type decides.
use workload_collocation_age.Base.{
  ◌≡◌, refl, sym, ap, ◌∙◌, Bool, true, false, Option, none, some, List, [], ◌∷◌, All, if◌then◌else◌,
  Outcome, ok, err, >>=-eq-ok, ok-injective, String,
}
use workload_collocation_age.Base.Eq.{String_eq}
use workload_collocation_age.Base.Dict.{Dict, get}
use workload_collocation_age.Base.Text.{Text}
use workload_collocation_age.Metrics.Tree.{through}
use workload_collocation_age.Scheduler.Filter.{is_in}
use workload_collocation_age.Containers.Measured.{AreDistinct}
use workload_collocation_age.Static.{
  AllocationValue, TaskAllocations, Rule, convert, TasksLabels, match_task_ids, apply_rule,
  build_from, build_allocations_from_rules,
}
use workload_collocation_age.Static.Merged.{
  or_else, value_for, value_for-merge_rules, convert-AreDistinct,
}

abbrev pub allocations_after : Outcome TaskAllocations → Option TaskAllocations
allocations_after (ok a) = some a
allocations_after (err e) = none

-- What a rule is to apply: nothing where its allocations are missing or empty.
abbrev pub effective : Option TaskAllocations → Option TaskAllocations
effective none = none
effective (some []) = none
effective (some (entry ∷ entries)) = allocations_after (convert (entry ∷ entries))

abbrev pub rule_value :
    (Text → Text → Bool) → TasksLabels → String → String → Rule → Option AllocationValue
rule_value re_match tasks_data t k rule =
    if is_in t (match_task_ids re_match rule.task_id rule.labels tasks_data)
    then through (get k) (effective rule.allocations)
    else none

-- The value of the last rule that has one.
abbrev pub decided :
    (Text → Text → Bool)
    → TasksLabels
    → String
    → String
    → List Rule
    → Option AllocationValue
    → Option AllocationValue
decided re_match tasks_data t k [] before = before
decided re_match tasks_data t k (rule ∷ rules) before =
    decided re_match tasks_data t k rules (or_else (rule_value re_match tasks_data t k rule) before)

or_else-nothing : (b : Bool) (o : Option AllocationValue) → o ≡ or_else (if b then none else none) o
or_else-nothing true o = refl
or_else-nothing false o = refl

module _ (re_match : Text → Text → Bool) (tasks_data : TasksLabels) (t k : String) where
  abbrev HasDistinct : Option TaskAllocations → Type 0
  HasDistinct none = Unit
  HasDistinct (some a) = AreDistinct a

  value_for-apply_rule :
      (rule : Rule) (o : Option TaskAllocations) (d : Dict String TaskAllocations)
      {r : Dict String TaskAllocations}
      → HasDistinct o
      → apply_rule re_match tasks_data rule o d ≡ ok r
      → value_for t k r
        ≡ or_else
            (if is_in t (match_task_ids re_match rule.task_id rule.labels tasks_data)
              then through (get k) (effective o)
              else none)
            (value_for t k d)
  unfolding apply_rule
  value_for-apply_rule rule none d apart h =
      ap (value_for t k) (sym (ok-injective h))
      ∙ or_else-nothing (is_in t (match_task_ids re_match rule.task_id rule.labels tasks_data))
          (value_for t k d)
  value_for-apply_rule rule (some []) d apart h =
      ap (value_for t k) (sym (ok-injective h))
      ∙ or_else-nothing (is_in t (match_task_ids re_match rule.task_id rule.labels tasks_data))
          (value_for t k d)
  value_for-apply_rule rule (some (entry ∷ entries)) d apart h =
      let ids = match_task_ids re_match rule.task_id rule.labels tasks_data in
      let (a, converted, whole) = >>=-eq-ok (convert (entry ∷ entries)) _ h in
      ap (value_for t k) (sym (ok-injective whole))
      ∙ value_for-merge_rules t k d ids a (convert-AreDistinct (entry ∷ entries) apart converted)
      ∙ ap
          (λ m.
            or_else (if is_in t ids then through (get k) (allocations_after m) else none)
              (value_for t k d))
          (sym converted)

  value_for-build_from :
      (rules : List Rule) (d : Dict String TaskAllocations) {r : Dict String TaskAllocations}
      → All (λ rule. HasDistinct rule.allocations) rules
      → build_from re_match tasks_data rules d ≡ ok r
      → value_for t k r ≡ decided re_match tasks_data t k rules (value_for t k d)
  unfolding build_from
  value_for-build_from [] d apart h = ap (value_for t k) (sym (ok-injective h))
  value_for-build_from (rule ∷ rules) d (first, apart) h =
      let (e, applied, rest) =
        >>=-eq-ok (apply_rule re_match tasks_data rule rule.allocations d) _ h in
      value_for-build_from rules e apart rest
      ∙ ap (decided re_match tasks_data t k rules)
          (value_for-apply_rule rule rule.allocations d first applied)

  -- For rules whose allocations have distinct types: if the allocations can be built, the value of
  -- a type for a task is that of the last rule that matches the task and has the type, and there is
  -- none where no rule has one.
  pub build_allocations-decided :
      (rules : List Rule) {r : Dict String TaskAllocations}
      → All (λ rule. HasDistinct rule.allocations) rules
      → build_allocations_from_rules re_match tasks_data rules ≡ ok r
      → value_for t k r ≡ decided re_match tasks_data t k rules none
  unfolding build_allocations_from_rules
  build_allocations-decided rules apart h = value_for-build_from rules [] apart h
