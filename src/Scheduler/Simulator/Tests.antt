-- ===== src/Scheduler/Simulator/Tests.antt =====
-- The simulator at concrete inputs.
use workload_collocation_age.Base.{
  ℕ, ◌+◌, ◌≡◌, refl, false, Option, none, some, List, [], ◌∷◌, map, ok, String,
}
use workload_collocation_age.Base.Eq.{String_eq}
use workload_collocation_age.Base.Int.{pos, scale, ◌-ℤ◌}
use workload_collocation_age.Base.Number.{whole, subtract}
use workload_collocation_age.Scheduler.Resources.{ResourceType, ResourceType_eq, ordinal}
use workload_collocation_age.Scheduler.Simulator.{
  Task, Simulator, NodeResources, is_enough, subtract_aep_aware, each_left, dimension_left,
  membw_read_write_ratio, subtract_tasks, validate_assignment, nodes_named, perform_assignment,
}
use workload_collocation_age.Scheduler.Simulator.Iterate.{
  Algorithm, greatest, call_scheduler, assign_one, assign_all,
}
use workload_collocation_age.Scheduler.Simulator.Life.{updates, updates-over}
use workload_collocation_age.Scheduler.Simulator.Assigned.{count_assigned, assign_all-count}

abbrev cpus : ℕ → NodeResources
cpus n = (ResourceType.cpu, whole (pos n)) ∷ []

abbrev task_with : Option String → ℕ → Task
task_with assignment n = record {
  name = "task";
  assignment = assignment;
  node_name = none;
  requested = cpus n;
  life_time = 0;
  duration = some 2;
}

updates-over_example :
    ((updates 2 (task_with (some "node") 1)).assignment ≡ some "node")
    × ((updates 3 (task_with (some "node") 1)).assignment ≡ none)
updates-over_example = updates-over 2 (task_with (some "node") 1) "node" 2 refl refl refl

-- Every node gets the same score.
abbrev no_preference : Algorithm String
no_preference = record {
  filter = λ s names task. ok [];
  prioritize = λ s names task. ok (map (λ n. (n, 1)) names);
  reschedule = λ s. ok [];
}

abbrev cluster : List Task → Simulator
cluster tasks = record {
  tasks = tasks;
  nodes = record { name = "node"; initial = cpus 4 } ∷ [];
  allow_rough_assignment = false;
  retry_scheduling = false;
  rough_assignments_per_node = ("node", 0) ∷ [];
}

-- The first of two tasks fits, the second would need more than is left.
abbrev before : List Task
before = task_with none 3 ∷ task_with none 2 ∷ []

abbrev behind : List Task
behind = task_with (some "node") 3 ∷ task_with none 2 ∷ []

assign_all-count_example : count_assigned behind ≡ 1 + count_assigned before
unfolding assign_all assign_one call_scheduler greatest perform_assignment validate_assignment
    subtract_tasks membw_read_write_ratio nodes_named subtract_aep_aware each_left dimension_left
    is_enough subtract scale ◌-ℤ◌ ordinal
assign_all-count_example =
    assign_all-count no_preference (0 ∷ 1 ∷ []) (cluster before) {p = (1, cluster behind)}
      (((λ h. absurd (cc h)), tt), (tt, tt))
      ((task_with none 3, refl, refl), ((task_with none 2, refl, refl), tt)) refl
