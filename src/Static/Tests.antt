-- ===== src/Static/Tests.antt =====
-- The static allocator with two rules that match the same task.
use workload_collocation_age.Base.{ℕ, ◌≡◌, refl, Bool, none, some, List, [], ◌∷◌, String}
use workload_collocation_age.Base.Eq.{String_eq}
use workload_collocation_age.Base.Int.{pos}
use workload_collocation_age.Base.Dict.{Dict}
use workload_collocation_age.Base.Number.{whole}
use workload_collocation_age.Base.Text.{Text, codes, starts_with}
use workload_collocation_age.Static.{
  AllocationValue, TaskAllocations, Rule, TasksLabels, convert, some_label, tasks_with_labels,
  match_task_ids, merge_new, merge_existing, merge_rules, for_all, apply_rule, build_from,
  build_allocations_from_rules,
}
use workload_collocation_age.Static.Merged.{value_for}
use workload_collocation_age.Static.Decided.{decided, build_allocations-decided}

abbrev quota : ℕ → AllocationValue
quota n = AllocationValue.number (whole (pos n))

abbrev tasks : TasksLabels
tasks = ("web", ("app", codes "nginx") ∷ []) ∷ ("db", ("app", codes "redis") ∷ []) ∷ []

-- All tasks first, then those whose label starts with a prefix.
abbrev rules : List Rule
rules =
    record {
      allocations = some (("cpu_quota", quota 1) ∷ ("cpu_shares", quota 2) ∷ []);
      task_id = none;
      labels = none;
    }
    ∷ record {
      allocations = some (("cpu_quota", quota 3) ∷ []);
      task_id = none;
      labels = some (("app", codes "ng") ∷ []);
    }
    ∷ []

abbrev is_prefix : Text → Text → Bool
is_prefix pattern label = starts_with label pattern

abbrev allocations : Dict String TaskAllocations
allocations =
    ("web", ("cpu_quota", quota 3) ∷ ("cpu_shares", quota 2) ∷ [])
    ∷ ("db", ("cpu_quota", quota 1) ∷ ("cpu_shares", quota 2) ∷ [])
    ∷ []

build_allocations-decided_example :
    value_for "web" "cpu_quota" allocations ≡ decided is_prefix tasks "web" "cpu_quota" rules none
unfolding build_allocations_from_rules build_from apply_rule convert match_task_ids
    tasks_with_labels some_label merge_rules merge_new merge_existing for_all
build_allocations-decided_example =
    build_allocations-decided is_prefix tasks "web" "cpu_quota" rules {r = allocations}
      ((refl, (refl, tt)), ((refl, tt), tt)) refl
