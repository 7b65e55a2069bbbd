-- ===== src/Numa/Allocate.antt =====
-- The allocations that `NUMAAllocator.allocate` of wca/extra/numa_allocator.py makes of its choice,
-- and the pages of tasks that are pinned already. CPU sets stay lists where the source encodes them.
use workload_collocation_age.Base.{
  ℕ, ◌+◌, Bool, true, false, Option, none, some, List, [], ◌∷◌, ltb, ◌==◌, if◌then◌else◌, Outcome,
  ok, err, Error, ◌>>=◌, from_option, map_outcome,
}
use workload_collocation_age.Base.Eq.{ℕ_eq, Text_eq}
use workload_collocation_age.Base.Dict.{Dict, get, put, has}
use workload_collocation_age.Base.Text.{Text}
use workload_collocation_age.Numa.{
  TaskData, Platform, Rounding, get_current_node, get_least_used_node,
}
use workload_collocation_age.Numa.Choose.{
  NumaAllocator, TaskMemory, build_tasks_memory, build_balanced_memory, analyse,
}

-- The entries of a task's dictionary that the allocator sets.
pub record TaskAllocations : Type 0 where
  pub cpuset_cpus : Option (List ℕ)
  pub cpuset_mems : Option (List ℕ)
  pub migrate_pages : Option ℕ

abbrev pub no_allocations : TaskAllocations
no_allocations = record { cpuset_cpus = none; cpuset_mems = none; migrate_pages = none }

-- The pages outside the target node.
abbrev pub pages_outside : ℕ → Dict ℕ ℕ → ℕ
pages_outside target_node [] = 0
pages_outside target_node ((node, pages) ∷ d) =
    (if node == target_node then 0 else pages) + pages_outside target_node d

unfoldable pub get_pages_to_move : Text → Dict Text TaskData → ℕ → Outcome ℕ
get_pages_to_move task tasks_data target_node = do
  let d = (← from_option (get task tasks_data) Error.key_error)
  let pages = (← from_option d.mem_numa_pages Error.key_error)
  ok (pages_outside target_node pages)

-- `self._pages_to_move[task] += pages`
unfoldable pub add_pages : Text → Dict Text TaskData → ℕ → Dict Text ℕ → Outcome (Dict Text ℕ)
add_pages task tasks_data node pages_to_move = do
  let before = (← from_option (get task pages_to_move) Error.key_error)
  let pages = (← get_pages_to_move task tasks_data node)
  ok (put task (before + pages) pages_to_move)

-- Memory binding; `AllocationType.CPUSET_MEM_MIGRATE`, which it names, does not exist.
unfoldable pub bind_memory : NumaAllocator → ℕ → TaskAllocations → Outcome TaskAllocations
bind_memory a node allocation =
    if a.cgroups_memory_binding
    then (if a.cgroups_memory_migrate
        then err Error.attribute_error
        else ok (record allocation { cpuset_mems = some (node ∷ []) }))
    else ok allocation

unfoldable pub allocate_task :
    NumaAllocator
    → Dict Text TaskData
    → Platform
    → Option (Text × ℕ)
    → Dict Text ℕ
    → Outcome (Dict Text TaskAllocations × Dict Text ℕ)
allocate_task a tasks_data p none pages_to_move = ok ([], pages_to_move)
allocate_task a tasks_data p (some (task, node)) pages_to_move = do
  let cpus = (← from_option (get node p.node_cpus) Error.key_error)
  let bound = (← bind_memory a node (record no_allocations { cpuset_cpus = some cpus }))
  let moved =
      (← (
        if a.migrate_pages then add_pages task tasks_data node pages_to_move else ok pages_to_move))
  ok (
    (task, (if a.migrate_pages then (record bound { migrate_pages = some node }) else bound)) ∷ [],
    moved,
  )

-- `_update_pages_to_move`: tasks that are gone are forgotten.
unfoldable pub update_pages_to_move : Dict Text TaskData → Dict Text ℕ → Dict Text ℕ
update_pages_to_move tasks_data [] = []
update_pages_to_move tasks_data ((task, pages) ∷ pages_to_move) =
    let rest = update_pages_to_move tasks_data pages_to_move in
    if has task tasks_data then (task, pages) ∷ rest else rest

-- Whether a pinned task has less than the wanted share of its memory on its node.
unfoldable pub is_unbalanced : ℕ → TaskMemory → Option ℕ → Outcome Bool
is_unbalanced min_balance m none = ok false
is_unbalanced min_balance m (some node) =
    map_outcome (λ balance. ltb balance min_balance)
      (from_option (get node m.preferences) Error.key_error)

-- The unbalanced tasks, each with its node.
unfoldable pub tasks_to_balance :
    ℕ → Dict Text TaskData → Platform → List TaskMemory → Outcome (List (Text × ℕ))
tasks_to_balance min_balance tasks_data p [] = ok []
tasks_to_balance min_balance tasks_data p (m ∷ ms) =
    from_option (get m.task tasks_data) Error.key_error >>= λ d.
    is_unbalanced min_balance m (get_current_node d p) >>= λ unbalanced.
    tasks_to_balance min_balance tasks_data p ms >>= λ rest.
    ok (with_node unbalanced m.task (get_current_node d p) rest)
  where
    with_node : Bool → Text → Option ℕ → List (Text × ℕ) → List (Text × ℕ)
    with_node unbalanced task none rest = rest
    with_node unbalanced task (some node) rest = if unbalanced then (task, node) ∷ rest else rest

-- `allocations.setdefault(task, {})`, then the node for the pages.
abbrev pub set_migrate_pages : ℕ → Option TaskAllocations → TaskAllocations
set_migrate_pages node none = record no_allocations { migrate_pages = some node }
set_migrate_pages node (some allocation) = record allocation { migrate_pages = some node }

unfoldable pub remigrate_tasks :
    ℕ
    → Dict Text TaskData
    → List (Text × ℕ)
    → Dict Text TaskAllocations
    → Dict Text ℕ
    → Outcome (Dict Text TaskAllocations × Dict Text ℕ)
remigrate_tasks least_used tasks_data [] allocations pages_to_move = ok (allocations, pages_to_move)
remigrate_tasks least_used tasks_data ((task, node) ∷ tasks) allocations pages_to_move =
    elim (node == least_used) [
      | true ↦ add_pages task tasks_data node pages_to_move >>= λ moved.
          remigrate_tasks least_used tasks_data tasks
            (put task (set_migrate_pages node (get task allocations)) allocations) moved
      | false ↦ remigrate_tasks least_used tasks_data tasks allocations pages_to_move
    ]

unfoldable pub remigrate_pages :
    ℕ
    → Dict Text TaskData
    → List TaskMemory
    → Platform
    → Dict Text TaskAllocations
    → Dict Text ℕ
    → Outcome (Dict Text TaskAllocations × Dict Text ℕ)
remigrate_pages min_balance tasks_data ms p allocations pages_to_move = do
  let tasks = (← tasks_to_balance min_balance tasks_data p ms)
  let least_used = (← get_least_used_node p)
  remigrate_tasks least_used tasks_data tasks allocations pages_to_move

unfoldable pub remigrate_if :
    Bool
    → Option ℕ
    → Dict Text TaskData
    → List TaskMemory
    → Platform
    → Dict Text TaskAllocations
    → Dict Text ℕ
    → Outcome (Dict Text TaskAllocations × Dict Text ℕ)
remigrate_if false min_balance tasks_data ms p allocations pages_to_move =
    ok (allocations, pages_to_move)
remigrate_if true none tasks_data ms p allocations pages_to_move = ok (allocations, pages_to_move)
remigrate_if true (some min_balance) tasks_data ms p allocations pages_to_move =
    remigrate_pages min_balance tasks_data ms p allocations pages_to_move

-- `allocate`, with the state `_pages_to_move` before and after.
unfoldable pub allocate :
    NumaAllocator
    → Rounding
    → Platform
    → Dict Text TaskData
    → Dict Text ℕ
    → Outcome (Dict Text TaskAllocations × Dict Text ℕ)
allocate a r p tasks_data pages_to_move =
    let ms = build_tasks_memory r tasks_data p in
    build_balanced_memory ms tasks_data p >>= λ balanced.
    (if a.dryrun
      then ok ([], pages_to_move)
      else analyse a r balanced p tasks_data ms none pages_to_move >>= (λ q.
        allocate_task a tasks_data p q.0 (update_pages_to_move tasks_data q.1) >>= (λ s.
          remigrate_if a.migrate_pages a.migrate_pages_min_task_balance tasks_data ms p s.0 s.1)))
