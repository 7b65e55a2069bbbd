-- ===== src/Numa/Chosen.antt =====
-- The task that numa_allocator.py chooses to pin.
use workload_collocation_age.Base.{
  ℕ, ◌≡◌, refl, ap, ◌∙◌, ◌≢◌, ◌⊎◌, inl, inr, Bool, true, false, Option, none, some, List, [], ◌∷◌,
  In, arith, ◌==◌, Bool-cases, ok, Error, from_option, >>=-eq-ok, ok-injective, Outcome-cases,
}
use workload_collocation_age.Base.Eq.{Text_eq}
use workload_collocation_age.Base.Dict.{Dict, get}
use workload_collocation_age.Base.Text.{Text}
use workload_collocation_age.Numa.{
  TaskData, Platform, Rounding, get_current_node, is_enough_memory_on_target,
}
use workload_collocation_age.Numa.Choose.{
  NumaAllocator, TaskMemory, BalancedMemory, check_space, choose_node, consider, analyse,
  set_default,
}

-- The task is one of those given, runs on no single node, and has a memory limit.
pub record IsUnpinned (p : Platform) (tasks_data : Dict Text TaskData) (ms : List TaskMemory)
    (task : Text) : Type 0 where
  pub memory : TaskMemory
  pub taken : In memory ms
  pub named : memory.task ≡ task
  pub task_data : TaskData
  pub found : get memory.task tasks_data ≡ some task_data
  pub unpinned : get_current_node task_data p ≡ none
  pub has_limit : memory.memory_limit ≢ 0

check_space-task :
    (wanted : Bool) (m : TaskMemory) (p : Platform) (d : TaskData) (node : Option ℕ)
    {choice : Text × ℕ}
    → check_space wanted m p d node ≡ ok (some choice)
    → m.task ≡ choice.0
unfolding check_space
check_space-task wanted m p d none h = absurd (cc h)
check_space-task false m p d (some node) h = ap (λ x. x.0) (some_pair h)
  where
    some_pair : {a b : Text × ℕ} → ok (some a) ≡ ok (some b) → a ≡ b
    some_pair h = cc
check_space-task true m p d (some node) h =
    elim (Outcome-cases (is_enough_memory_on_target m.memory_limit node p d)) [
      | inl (enough, known) ↦ elim (Bool-cases enough) [
        | inl fits ↦ ap (λ x. x.0) (some_pair (rw (known, fits) at h))
        | inr full ↦ absurd (cc (rw (known, full) at h))
      ]
      | inr (e, failed) ↦ absurd (cc (rw failed at h))
    ]
  where
    some_pair : {a b : Text × ℕ} → ok (some a) ≡ ok (some b) → a ≡ b
    some_pair h = cc

-- A choice is an earlier one, or the task at hand, which then has no node and has a limit.
consider-task :
    (a : NumaAllocator) (r : Rounding) (balanced : BalancedMemory) (p : Platform) (m : TaskMemory)
    (d : TaskData) (current_node : Option ℕ) (before : Option (Text × ℕ)) {choice : Text × ℕ}
    → consider a r balanced p m d current_node before ≡ ok (some choice)
    → (before ≡ some choice) ⊎ ((current_node ≡ none) × (m.memory_limit ≢ 0) × (m.task ≡ choice.0))
unfolding consider
consider-task a r balanced p m d (some node) before h = inl (ok-injective h)
consider-task a r balanced p m d none (some earlier) h = inl (ok-injective h)
consider-task a r balanced p m d none none h = elim (Bool-cases (m.memory_limit == 0)) [
  | inl ghost ↦ absurd (cc (rw ghost at h))
  | inr limited ↦
      let (node, chosen, h1) =
        >>=-eq-ok (choose_node a.algorithm a r m balanced p) _ (rw limited at h) in
      inr (refl, (λ zero_limit. ground arith), check_space-task a.free_space_check m p d node h1)
]

-- Pinning needs a task that is not pinned: one that the analysis chooses with no choice before it
-- runs on no single node and is no ghost.
pub analyse-IsUnpinned :
    (a : NumaAllocator) (r : Rounding) (balanced : BalancedMemory) (p : Platform)
    (tasks_data : Dict Text TaskData) (ms : List TaskMemory) (before : Option (Text × ℕ))
    (pages_to_move : Dict Text ℕ) {choice : Text × ℕ} {moved : Dict Text ℕ}
    → analyse a r balanced p tasks_data ms before pages_to_move ≡ ok (some choice, moved)
    → (before ≡ some choice) ⊎ IsUnpinned p tasks_data ms choice.0
unfolding analyse
analyse-IsUnpinned a r balanced p tasks_data [] before pages_to_move h =
    inl (ap (λ x. x.0) (ok-injective h))
analyse-IsUnpinned a r balanced p tasks_data (m ∷ ms) before pages_to_move {choice} h =
    let (d, found, h1) = >>=-eq-ok (from_option (get m.task tasks_data) Error.key_error) _ h in
    let (pages, measured, h2) = >>=-eq-ok (from_option d.mem_numa_pages Error.key_error) _ h1 in
    let (choice', considered, h3) =
      >>=-eq-ok (consider a r balanced p m d (get_current_node d p) before) _ h2 in
    elim (analyse-IsUnpinned a r balanced p tasks_data ms choice' (set_default m.task pages_to_move)
      h3) [
        | inl same ↦
            elim (consider-task a r balanced p m d (get_current_node d p) before
              (considered ∙ ap ok same)) [
                | inl earlier ↦ inl earlier
                | inr (unpinned, limited, named) ↦ inr (record {
                  memory = m;
                  taken = inl refl;
                  named = named;
                  task_data = d;
                  found = found_some (get m.task tasks_data) found;
                  unpinned = unpinned;
                  has_limit = limited;
                })
              ]
        | inr u ↦ inr (record {
          memory = u.memory;
          taken = inr u.taken;
          named = u.named;
          task_data = u.task_data;
          found = u.found;
          unpinned = u.unpinned;
          has_limit = u.has_limit;
        })
      ]
  where
    found_some :
        {d : TaskData} (o : Option TaskData) → from_option o Error.key_error ≡ ok d → o ≡ some d
    found_some none h = absurd (cc h)
    found_some (some d) h = ap some (ok-injective h)

-- The task that the analysis chooses is one of those given, has a CPU set that differs from the CPU
-- set of every node, and has a memory limit.
pub analyse-choice :
    (a : NumaAllocator) (r : Rounding) (balanced : BalancedMemory) (p : Platform)
    (tasks_data : Dict Text TaskData) (ms : List TaskMemory) (pages_to_move : Dict Text ℕ)
    {choice : Text × ℕ} {moved : Dict Text ℕ}
    → analyse a r balanced p tasks_data ms none pages_to_move ≡ ok (some choice, moved)
    → IsUnpinned p tasks_data ms choice.0
analyse-choice a r balanced p tasks_data ms pages_to_move h =
    elim (analyse-IsUnpinned a r balanced p tasks_data ms none pages_to_move h) [
      | inl earlier ↦ absurd (cc earlier)
      | inr u ↦ u
    ]
