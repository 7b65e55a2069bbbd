-- ===== src/Numa/Tests.antt =====
-- Tests of the NUMA allocator, and its theorems at concrete inputs.
use workload_collocation_age.Base.{
  ℕ, ◌*◌, ◌/◌, ◌≡◌, refl, true, false, ◌&&◌, ◌||◌, none, some, [], ◌∷◌, ok,
}
use workload_collocation_age.Base.Eq.{ℕ_eq, Text_eq}
use workload_collocation_age.Base.Dict.{Dict}
use workload_collocation_age.Base.Text.{Text, codes}
use workload_collocation_age.Numa.{
  TaskData, Platform, Rounding, get_task_memory_limit, get_least_used_node,
  get_platform_total_memory, first_limit, preferences_of, get_numa_node_preferences, greatest,
  greatest_of, get_best_memory_node, get_current_node, node_with_cpus,
}
use workload_collocation_age.Numa.Choose.{
  NumaAllocator, fill_biggest_first, is_member, migration_minimizer_core, first_common, TaskMemory,
  build_tasks_memory, build_tasks_memory_with, build_balanced_memory, balance_tasks, choose_node,
  check_space, consider, analyse,
}
use workload_collocation_age.Numa.Allocate.{
  TaskAllocations, allocate, allocate_task, bind_memory, add_pages, get_pages_to_move,
  update_pages_to_move, remigrate_if,
}
use workload_collocation_age.Numa.Greatest.{
  IsGreatest, get_least_used_node-IsGreatest, migration_minimizer_core-common,
}
use workload_collocation_age.Numa.Chosen.{IsUnpinned, analyse-choice}

abbrev sockets : Platform
sockets = record {
  numa_nodes = 2;
  node_cpus = (0, 0 ∷ 1 ∷ []) ∷ (1, 2 ∷ 3 ∷ []) ∷ [];
  mem_numa_free_bytes = (0, 100) ∷ (1, 200) ∷ [];
  mem_numa_used_bytes = (0, 100) ∷ (1, 0) ∷ [];
}

abbrev redis : TaskData
redis = record {
  mem = none;
  mem_limit_bytes = some 900;
  mem_soft_limit_bytes = some 120;
  mem_max_usage_bytes = none;
  mem_usage_bytes = some 50;
  mem_numa_pages = some ((0, 3) ∷ (1, 1) ∷ []);
  cpuset_cpus = 0 ∷ 1 ∷ 2 ∷ 3 ∷ [];
}

abbrev tasks : Dict Text TaskData
tasks = (codes "redis", redis) ∷ []

abbrev allocator : NumaAllocator
allocator = record {
  algorithm = fill_biggest_first;
  loop_min_task_balance = 0;
  free_space_check = false;
  migrate_pages = true;
  migrate_pages_min_task_balance = none;
  cgroups_memory_binding = false;
  cgroups_memory_migrate = false;
  dryrun = false;
}

-- Rounded down, which is enough for a test.
abbrev rounding : Rounding
rounding = record { ratio = λ a b. a * 10000 / b; log_used = λ n. n; log_size = λ n. n }

abbrev pinned : TaskAllocations
pinned = record { cpuset_cpus = some (0 ∷ 1 ∷ []); cpuset_mems = none; migrate_pages = some 0 }

test_allocate :
    allocate allocator rounding sockets tasks []
    ≡ ok ((codes "redis", pinned) ∷ [], (codes "redis", 1) ∷ [])
unfolding allocate allocate_task bind_memory add_pages get_pages_to_move update_pages_to_move
    remigrate_if analyse consider choose_node check_space build_tasks_memory build_tasks_memory_with
    build_balanced_memory balance_tasks get_task_memory_limit first_limit get_platform_total_memory
    get_numa_node_preferences preferences_of get_best_memory_node greatest greatest_of
    get_current_node node_with_cpus
test_allocate = refl

get_least_used_node-IsGreatest_example :
    (free : ℕ) × IsGreatest (1, free) sockets.mem_numa_free_bytes
unfolding get_least_used_node greatest_of greatest
get_least_used_node-IsGreatest_example = get_least_used_node-IsGreatest sockets {n = 1} refl

migration_minimizer_core-common_example :
    ((is_member 1 (0 ∷ 1 ∷ []) && is_member 1 (1 ∷ []))
      || ((is_member 1 (0 ∷ 1 ∷ []) && is_member 1 []) || (is_member 1 (1 ∷ []) && is_member 1 [])))
    ≡ true
unfolding migration_minimizer_core first_common
migration_minimizer_core-common_example =
    migration_minimizer_core-common (0 ∷ 1 ∷ []) (1 ∷ []) [] {n = 1} refl

abbrev redis_memory : TaskMemory
redis_memory = record {
  task = codes "redis";
  memory_limit = 120;
  preferences = (0, 7500) ∷ (1, 2500) ∷ [];
}

analyse-choice_example : IsUnpinned sockets tasks (redis_memory ∷ []) (codes "redis")
unfolding analyse consider choose_node check_space get_best_memory_node greatest greatest_of
    get_current_node node_with_cpus
analyse-choice_example =
    analyse-choice allocator rounding ((0, []) ∷ (1, []) ∷ []) sockets tasks (redis_memory ∷ []) []
      {choice = (codes "redis", 0)} {moved = (codes "redis", 0) ∷ []} refl
