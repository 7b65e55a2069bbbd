-- ===== src/Numa/Choose.antt =====
-- The choice of a task and a node in `NUMAAllocator.allocate` of wca/extra/numa_allocator.py.
use workload_collocation_age.Base.{
  ℕ, Bool, true, false, ◌||◌, Option, none, some, List, [], ◌∷◌, ◌++◌, ltb, ◌==◌, if◌then◌else◌,
  Outcome, ok, Error, ◌>>=◌, from_option, map_outcome,
}
use workload_collocation_age.Base.Eq.{ℕ_eq, Text_eq}
use workload_collocation_age.Base.Dict.{Dict, get, put, has}
use workload_collocation_age.Base.Text.{Text}
use workload_collocation_age.Numa.{
  TaskData, Platform, Rounding, get_task_memory_limit, get_platform_total_memory,
  get_numa_node_preferences, from_range, get_most_used_node, get_most_used_nodes,
  get_best_memory_node, get_best_memory_nodes, get_most_free_memory_nodes, get_current_node,
  is_enough_memory_on_target,
}

pub data NumaAlgorithm : Type 0 where
  fill_biggest_first minimize_migrations : NumaAlgorithm

-- The balances are in ten-thousandths, rounded up, as preferences are compared with them.
pub record NumaAllocator : Type 0 where
  pub algorithm : NumaAlgorithm
  pub loop_min_task_balance : ℕ
  pub free_space_check : Bool
  pub migrate_pages : Bool
  pub migrate_pages_min_task_balance : Option ℕ
  pub cgroups_memory_binding : Bool
  pub cgroups_memory_migrate : Bool
  pub dryrun : Bool

pub record TaskMemory : Type 0 where
  pub task : Text
  pub memory_limit : ℕ
  pub preferences : Dict ℕ ℕ

-- `sorted(tasks_memory, reverse=True, key=lambda x: x[1])` is stable.
abbrev pub insert_memory : TaskMemory → List TaskMemory → List TaskMemory
insert_memory m [] = m ∷ []
insert_memory m (n ∷ ms) =
    let rest = insert_memory m ms in
    if ltb m.memory_limit n.memory_limit then n ∷ rest else m ∷ n ∷ ms

unfoldable pub build_tasks_memory_with : Rounding → ℕ → ℕ → Dict Text TaskData → List TaskMemory
build_tasks_memory_with r total_memory numa_nodes [] = []
build_tasks_memory_with r total_memory numa_nodes ((task, d) ∷ tasks_data) =
    insert_memory
      (record {
        task = task;
        memory_limit = get_task_memory_limit d total_memory;
        preferences = get_numa_node_preferences r d numa_nodes;
      })
      (build_tasks_memory_with r total_memory numa_nodes tasks_data)

unfoldable pub build_tasks_memory : Rounding → Dict Text TaskData → Platform → List TaskMemory
build_tasks_memory r tasks_data p =
    build_tasks_memory_with r (get_platform_total_memory p) p.numa_nodes tasks_data

abbrev pub BalancedMemory : Type 0
BalancedMemory = Dict ℕ (List (Text × ℕ))

-- `balanced_memory[current_node].append(...)` for a task that has a node.
abbrev pub append_to_node : Option ℕ → Text × ℕ → BalancedMemory → Outcome BalancedMemory
append_to_node none entry balanced = ok balanced
append_to_node (some node) entry balanced =
    map_outcome (λ tasks. put node (tasks ++ entry ∷ []) balanced)
      (from_option (get node balanced) Error.key_error)

unfoldable pub balance_tasks :
    List TaskMemory → Dict Text TaskData → Platform → BalancedMemory → Outcome BalancedMemory
balance_tasks [] tasks_data p balanced = ok balanced
balance_tasks (m ∷ ms) tasks_data p balanced =
    from_option (get m.task tasks_data) Error.key_error >>= λ d.
    append_to_node (get_current_node d p) (m.task, m.memory_limit) balanced
    >>= balance_tasks ms tasks_data p

unfoldable pub build_balanced_memory :
    List TaskMemory → Dict Text TaskData → Platform → Outcome BalancedMemory
build_balanced_memory ms tasks_data p = balance_tasks ms tasks_data p (from_range [] p.numa_nodes)

abbrev pub is_member : ℕ → List ℕ → Bool
is_member n [] = false
is_member n (m ∷ ms) = m == n || is_member n ms

-- `list(a.intersection(b))[0]`, where there is one.
unfoldable pub first_common : List ℕ → List ℕ → Option ℕ
first_common [] b = none
first_common (n ∷ a) b = let rest = first_common a b in if is_member n b then some n else rest

abbrev pub first_some : Option ℕ → Option ℕ → Option ℕ
first_some none other = other
first_some (some n) other = some n

-- The node for the task; `none` for the source's `None, None`.
unfoldable pub migration_minimizer_core : List ℕ → List ℕ → List ℕ → Option ℕ
migration_minimizer_core most_used_nodes best_memory_nodes most_free_memory_nodes =
    first_some (first_common most_used_nodes best_memory_nodes) (
      first_some (first_common most_used_nodes most_free_memory_nodes)
        (first_common best_memory_nodes most_free_memory_nodes))

unfoldable pub migration_minimizer :
    NumaAllocator → Rounding → TaskMemory → BalancedMemory → Platform → Outcome (Option ℕ)
migration_minimizer a r m balanced p = do
  let most_used_nodes = (← get_most_used_nodes r m.preferences)
  let best_memory_nodes = (← get_best_memory_nodes r m.memory_limit balanced)
  let most_used_node = (← get_most_used_node m.preferences)
  let balance = (← from_option (get most_used_node m.preferences) Error.key_error)
  ok (
      if ltb balance a.loop_min_task_balance
      then none
      else migration_minimizer_core most_used_nodes best_memory_nodes
          (get_most_free_memory_nodes r m.memory_limit p.mem_numa_free_bytes))

unfoldable pub choose_node :
    NumaAlgorithm
    → NumaAllocator
    → Rounding
    → TaskMemory
    → BalancedMemory
    → Platform
    → Outcome (Option ℕ)
choose_node minimize_migrations a r m balanced p = migration_minimizer a r m balanced p
choose_node fill_biggest_first a r m balanced p =
    map_outcome some (get_best_memory_node r m.memory_limit balanced)

-- The chosen node stays unless the check for free space is wanted and fails.
unfoldable pub check_space :
    Bool → TaskMemory → Platform → TaskData → Option ℕ → Outcome (Option (Text × ℕ))
check_space wanted m p d none = ok none
check_space false m p d (some node) = ok (some (m.task, node))
check_space true m p d (some node) =
    map_outcome (λ enough. if enough then some (m.task, node) else none)
      (is_enough_memory_on_target m.memory_limit node p d)

-- The choice so far stays; a pinned or ghost task is passed over.
unfoldable pub consider :
    NumaAllocator
    → Rounding
    → BalancedMemory
    → Platform
    → TaskMemory
    → TaskData
    → Option ℕ
    → Option (Text × ℕ)
    → Outcome (Option (Text × ℕ))
consider a r balanced p m d (some current_node) choice = ok choice
consider a r balanced p m d none (some choice) = ok (some choice)
consider a r balanced p m d none none =
    if m.memory_limit == 0
    then ok none
    else choose_node a.algorithm a r m balanced p >>= check_space a.free_space_check m p d

-- `setdefault(task, 0)`
abbrev pub set_default : Text → Dict Text ℕ → Dict Text ℕ
set_default task pages = if has task pages then pages else put task 0 pages

-- The loop of the analysis. The log reads the pages of each task, and raises where they are missing.
unfoldable pub analyse :
    NumaAllocator
    → Rounding
    → BalancedMemory
    → Platform
    → Dict Text TaskData
    → List TaskMemory
    → Option (Text × ℕ)
    → Dict Text ℕ
    → Outcome (Option (Text × ℕ) × Dict Text ℕ)
analyse a r balanced p tasks_data [] choice pages_to_move = ok (choice, pages_to_move)
analyse a r balanced p tasks_data (m ∷ ms) choice pages_to_move =
    from_option (get m.task tasks_data) Error.key_error >>= λ d.
    from_option d.mem_numa_pages Error.key_error >>= λ pages.
    consider a r balanced p m d (get_current_node d p) choice >>= λ choice'.
    analyse a r balanced p tasks_data ms choice' (set_default m.task pages_to_move)
