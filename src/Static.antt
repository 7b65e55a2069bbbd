-- ===== src/Static.antt =====
-- The static allocator of wca/extra/static_allocator.py: rules that give allocations to the tasks
-- they match. `re.match` is an argument.
pub mod Merged
pub mod Decided
mod Tests
use workload_collocation_age.Base.{
  ℕ, zero, suc, ◌+◌, ◌-◌, ◌*◌, ◌/◌, ◌%◌, ◌≤◌, ◌<◌, ◌≡◌, refl, sym, ap, ◌∙◌, ◌≢◌, ◌↔◌, ◌⊎◌, inl, inr,
  Bool, true, false, not, ◌&&◌, ◌||◌, Option, none, some, List, [], ◌∷◌, ◌++◌, map, length, All,
  All-map, In, arith, ltb, leb, ◌==◌, ==_iff, if◌then◌else◌, Bool-cases, Option-cases, Outcome, ok,
  err, Error, ◌>>=◌, ◌>>◌, guard, from_option, >>=-eq-ok, ok-injective, traverse, each,
  Outcome-cases, String, append-nil, append_assoc, sum, map_outcome, All-append, In-append_left,
  In-append_right, In-append,
}
use workload_collocation_age.Base.Eq.{◌=?◌, String_eq}
use workload_collocation_age.Base.Dict.{Dict, get, put, has, keys}
use workload_collocation_age.Base.Number.{Number}
use workload_collocation_age.Base.Text.{Text}
use workload_collocation_age.Rdt.Allocation.{RdtAllocation}
use workload_collocation_age.Scheduler.Filter.{update, is_in}

-- A value of a rule's `allocations`: RDT allocations are written as a dictionary of their fields.
pub data AllocationValue : Type 0 where
  number : Number → AllocationValue
  text : Text → AllocationValue
  rdt_fields : Dict String Text → AllocationValue
  rdt : RdtAllocation → AllocationValue

abbrev pub TaskAllocations : Type 0
TaskAllocations = Dict String AllocationValue

-- A rule, a dictionary of which every entry may be missing.
pub record Rule : Type 0 where
  pub allocations : Option TaskAllocations
  pub task_id : Option String
  pub labels : Option (Dict String Text)

abbrev pub known_fields : Dict String Text → Bool
known_fields [] = true
known_fields ((k, v) ∷ d) = is_in k ("name" ∷ "l3" ∷ "mb" ∷ []) && known_fields d

-- `RDTAllocation(**fields)`
unfoldable pub rdt_of_fields : Dict String Text → Outcome AllocationValue
rdt_of_fields d =
    if known_fields d
    then ok (rdt (record { name = get "name" d; l3 = get "l3" d; mb = get "mb" d }))
    else err Error.type_error

abbrev pub convert_value : TaskAllocations → Option AllocationValue → Outcome TaskAllocations
convert_value allocations (some (rdt_fields d)) =
    rdt_of_fields d >>= λ v. ok (put "rdt" v allocations)
convert_value allocations o = ok allocations

unfoldable pub convert : TaskAllocations → Outcome TaskAllocations
convert allocations = convert_value allocations (get "rdt" allocations)

-- The labels of each task are all that is read of the tasks' data.
abbrev pub TasksLabels : Type 0
TasksLabels = Dict String (Dict String Text)

abbrev pub or_no_allocations : Option TaskAllocations → TaskAllocations
or_no_allocations none = []
or_no_allocations (some a) = a

-- The two loops of `merge_rules`.
unfoldable pub merge_new :
    Dict String TaskAllocations
    → Dict String TaskAllocations
    → Dict String TaskAllocations
    → Dict String TaskAllocations
merge_new existing [] merged = merged
merge_new existing ((t, a) ∷ new) merged =
    merge_new existing new (put t (update (or_no_allocations (get t existing)) a) merged)

unfoldable pub merge_existing :
    Dict String TaskAllocations → Dict String TaskAllocations → Dict String TaskAllocations
merge_existing [] merged = merged
merge_existing ((t, a) ∷ existing) merged =
    merge_existing existing (if has t merged then merged else put t a merged)

unfoldable pub merge_rules :
    Dict String TaskAllocations → Dict String TaskAllocations → Dict String TaskAllocations
merge_rules existing new = merge_existing existing (merge_new existing new [])

unfoldable pub for_all :
    List String → TaskAllocations → Dict String TaskAllocations → Dict String TaskAllocations
for_all [] a d = d
for_all (t ∷ task_ids) a d = for_all task_ids a (put t a d)

module _ (re_match : Text → Text → Bool) where
  -- Some label that the rule and the task both have matches.
  abbrev pub label_matches : Option Text → Text → Bool
  label_matches none v = false
  label_matches (some pattern) v = re_match pattern v

  unfoldable pub some_label : Dict String Text → Dict String Text → Bool
  some_label labels [] = false
  some_label labels ((k, v) ∷ task_labels) =
      label_matches (get k labels) v || some_label labels task_labels

  unfoldable pub tasks_with_labels : Dict String Text → TasksLabels → List String
  tasks_with_labels labels [] = []
  tasks_with_labels labels ((t, task_labels) ∷ tasks_data) =
      let rest = tasks_with_labels labels tasks_data in
      if some_label labels task_labels then t ∷ rest else rest

  -- By the task id, whether there is such a task or not, else by labels, else all tasks.
  unfoldable pub match_task_ids :
      Option String → Option (Dict String Text) → TasksLabels → List String
  match_task_ids (some t) labels tasks_data = t ∷ []
  match_task_ids none (some labels) tasks_data = tasks_with_labels labels tasks_data
  match_task_ids none none tasks_data = keys tasks_data

  -- A rule without allocations, or with none in them, is ignored.
  unfoldable pub apply_rule :
      TasksLabels
      → Rule
      → Option TaskAllocations
      → Dict String TaskAllocations
      → Outcome (Dict String TaskAllocations)
  apply_rule tasks_data rule none tasks_allocations = ok tasks_allocations
  apply_rule tasks_data rule (some []) tasks_allocations = ok tasks_allocations
  apply_rule tasks_data rule (some (entry ∷ entries)) tasks_allocations =
      convert (entry ∷ entries) >>= λ a. ok (
        merge_rules tasks_allocations
          (for_all (match_task_ids rule.task_id rule.labels tasks_data) a []))

  unfoldable pub build_from :
      TasksLabels → List Rule → Dict String TaskAllocations → Outcome (Dict String TaskAllocations)
  build_from tasks_data [] tasks_allocations = ok tasks_allocations
  build_from tasks_data (rule ∷ rules) tasks_allocations =
      apply_rule tasks_data rule rule.allocations tasks_allocations >>= build_from tasks_data rules

  unfoldable pub build_allocations_from_rules :
      TasksLabels → List Rule → Outcome (Dict String TaskAllocations)
  build_allocations_from_rules tasks_data rules = build_from tasks_data rules []

  -- `allocate`, with the rules of the configuration file where it exists: they come last.
  unfoldable pub allocate :
      TasksLabels → List Rule → List Rule → Outcome (Dict String TaskAllocations)
  allocate tasks_data rules config_rules =
      build_allocations_from_rules tasks_data (rules ++ config_rules)
