-- ===== src/Numa.antt =====
-- The state that wca/extra/numa_allocator.py reads, and its scores of the NUMA nodes.
pub mod Choose
pub mod Allocate
pub mod Chosen
pub mod Greatest
mod Tests
use workload_collocation_age.Base.{
  ℕ, zero, suc, ◌+◌, ◌-◌, ◌*◌, ◌/◌, ◌%◌, ◌≤◌, ◌<◌, ◌≡◌, refl, sym, ap, ◌∙◌, ◌≢◌, ◌↔◌, ◌⊎◌, inl, inr,
  Bool, true, false, not, ◌&&◌, ◌||◌, Option, none, some, List, [], ◌∷◌, ◌++◌, map, length, All,
  All-map, In, arith, ltb, leb, ◌==◌, ==_iff, if◌then◌else◌, Bool-cases, Option-cases, Outcome, ok,
  err, Error, ◌>>=◌, ◌>>◌, guard, from_option, map_outcome, sum, >>=-eq-ok, ok-injective, traverse,
  each, Outcome-cases,
}
use workload_collocation_age.Base.Eq.{ℕ_eq, Text_eq, ◌=?◌}
use workload_collocation_age.Base.Dict.{Dict, get, put, has, values}
use workload_collocation_age.Base.Text.{Text}

-- The measurements, resources and allocations of a task. `cpuset_cpus` is the decoded set of CPUs,
-- as a list in order.
pub record TaskData : Type 0 where
  pub mem : Option ℕ
  pub mem_limit_bytes : Option ℕ
  pub mem_soft_limit_bytes : Option ℕ
  pub mem_max_usage_bytes : Option ℕ
  pub mem_usage_bytes : Option ℕ
  pub mem_numa_pages : Option (Dict ℕ ℕ)
  pub cpuset_cpus : List ℕ

pub record Platform : Type 0 where
  pub numa_nodes : ℕ
  pub node_cpus : Dict ℕ (List ℕ)
  pub mem_numa_free_bytes : Dict ℕ ℕ
  pub mem_numa_used_bytes : Dict ℕ ℕ

-- The floating-point functions: `ratio a b` is `round(a / b, 4)` in ten-thousandths, `log_used p` is
-- `round(log1p(p * 1000))` for p ten-thousandths, and `log_size n` is `round(log10(n), 1)` in tenths.
pub record Rounding : Type 0 where
  pub ratio : ℕ → ℕ → ℕ
  pub log_used : ℕ → ℕ
  pub log_size : ℕ → ℕ

-- The first of the limits that is measured and not above the total; 0 if none is.
unfoldable pub first_limit : List (Option ℕ) → ℕ → ℕ
first_limit [] total_memory = 0
first_limit (none ∷ limits) total_memory = first_limit limits total_memory
first_limit (some limit ∷ limits) total_memory =
    let rest = first_limit limits total_memory in if ltb total_memory limit then rest else limit

abbrev pub limits_order : TaskData → List (Option ℕ)
limits_order d =
    d.mem_limit_bytes ∷ d.mem_soft_limit_bytes ∷ d.mem_max_usage_bytes ∷ d.mem_usage_bytes ∷ []

abbrev pub limit_or : Option ℕ → ℕ → ℕ
limit_or none other = other
limit_or (some mem) other = mem

unfoldable pub get_task_memory_limit : TaskData → ℕ → ℕ
get_task_memory_limit d total_memory = limit_or d.mem (first_limit (limits_order d) total_memory)

unfoldable pub get_platform_total_memory : Platform → ℕ
get_platform_total_memory p =
    sum (values p.mem_numa_free_bytes) + sum (values p.mem_numa_used_bytes)

-- `{x: value for x in range(n)}`
abbrev pub from_range : {A : Type 0} → A → ℕ → Dict ℕ A
from_range value zero = []
from_range value (suc n) = from_range value n ++ (n, value) ∷ []

abbrev pub add_ratios : Rounding → ℕ → Dict ℕ ℕ → Dict ℕ ℕ → Dict ℕ ℕ
add_ratios r total [] preferences = preferences
add_ratios r total ((node, pages) ∷ items) preferences =
    add_ratios r total items (put node (r.ratio pages total) preferences)

abbrev pub at_least_one : ℕ → ℕ
at_least_one zero = 1
at_least_one (suc n) = suc n

unfoldable pub preferences_of : Rounding → Option (Dict ℕ ℕ) → ℕ → Dict ℕ ℕ
preferences_of r none numa_nodes = from_range 0 numa_nodes
preferences_of r (some pages) numa_nodes =
    add_ratios r (at_least_one (sum (values pages))) pages (from_range 0 numa_nodes)

unfoldable pub get_numa_node_preferences : Rounding → TaskData → ℕ → Dict ℕ ℕ
get_numa_node_preferences r d numa_nodes = preferences_of r d.mem_numa_pages numa_nodes

-- `sorted(d.items(), reverse=True, key=lambda x: x[1])[0]`: the first item with the greatest value.
unfoldable pub greatest : ℕ × ℕ → Dict ℕ ℕ → ℕ × ℕ
greatest best [] = best
greatest best (item ∷ items) = greatest (if ltb best.1 item.1 then item else best) items

unfoldable pub greatest_of : Dict ℕ ℕ → Outcome (ℕ × ℕ)
greatest_of [] = err Error.index_error
greatest_of (item ∷ items) = ok (greatest item items)

-- `sorted(d.items(), key=lambda x: x[1])[0]`
unfoldable pub least : ℕ × ℕ → Dict ℕ ℕ → ℕ × ℕ
least best [] = best
least best (item ∷ items) = least (if ltb item.1 best.1 then item else best) items

-- `{x[0] for x in d.items() if x[1] == z}`
abbrev pub with_value : ℕ → Dict ℕ ℕ → List ℕ
with_value z [] = []
with_value z ((node, v) ∷ d) = let rest = with_value z d in if v == z then node ∷ rest else rest

abbrev pub map_values : {A B : Type 0} → (A → B) → Dict ℕ A → Dict ℕ B
map_values f [] = []
map_values f ((node, v) ∷ d) = (node, f v) ∷ map_values f d

unfoldable pub get_most_used_node : Dict ℕ ℕ → Outcome ℕ
get_most_used_node preferences = map_outcome (λ best. best.0) (greatest_of preferences)

unfoldable pub get_most_used_nodes : Rounding → Dict ℕ ℕ → Outcome (List ℕ)
get_most_used_nodes r preferences =
    let d = map_values r.log_used preferences in
    map_outcome (λ best. with_value best.1 d) (greatest_of d)

unfoldable pub get_least_used_node : Platform → Outcome ℕ
get_least_used_node p = map_outcome (λ best. best.0) (greatest_of p.mem_numa_free_bytes)

-- The memory pinned to a node: `sum([k[1] for k in balanced_memory[node]])`.
abbrev pub pinned_memory : List (Text × ℕ) → ℕ
pinned_memory [] = 0
pinned_memory ((task, memory) ∷ tasks) = memory + pinned_memory tasks

unfoldable pub get_best_memory_node : Rounding → ℕ → Dict ℕ (List (Text × ℕ)) → Outcome ℕ
get_best_memory_node r memory_limit balanced_memory =
    map_outcome (λ best. best.0)
      (greatest_of (
        map_values (λ tasks. r.ratio memory_limit (pinned_memory tasks + memory_limit))
          balanced_memory))

abbrev pub least_values : Dict ℕ ℕ → Outcome (List ℕ)
least_values [] = err Error.index_error
least_values (item ∷ items) = ok (with_value (least item items).1 (item ∷ items))

unfoldable pub get_best_memory_nodes : Rounding → ℕ → Dict ℕ (List (Text × ℕ)) → Outcome (List ℕ)
get_best_memory_nodes r memory_limit balanced_memory =
    least_values
      (map_values (λ tasks. r.log_size (pinned_memory tasks + memory_limit)) balanced_memory)

-- The nodes where the limit fits into the free memory, with what would remain.
abbrev pub remaining : Rounding → ℕ → Dict ℕ ℕ → Dict ℕ ℕ
remaining r memory_limit [] = []
remaining r memory_limit ((node, free) ∷ d) =
    let rest = remaining r memory_limit d in
    if leb free memory_limit then rest else (node, r.log_size (free - memory_limit)) ∷ rest

abbrev pub greatest_values : Dict ℕ ℕ → List ℕ
greatest_values [] = []
greatest_values (item ∷ items) = with_value (greatest item items).1 (item ∷ items)

unfoldable pub get_most_free_memory_nodes : Rounding → ℕ → Dict ℕ ℕ → List ℕ
get_most_free_memory_nodes r memory_limit node_memory_free =
    greatest_values (remaining r memory_limit node_memory_free)

-- The node whose CPUs are just those of the task; `none` is the -1 of the source.
unfoldable pub node_with_cpus : Dict ℕ (List ℕ) → List ℕ → Option ℕ
node_with_cpus [] cpus = none
node_with_cpus ((node, node_cpus) ∷ nodes) cpus =
    let rest = node_with_cpus nodes cpus in if node_cpus =? cpus then some node else rest

unfoldable pub get_current_node : TaskData → Platform → Option ℕ
get_current_node d p = node_with_cpus p.node_cpus d.cpuset_cpus

unfoldable pub pages_to_bytes : ℕ → ℕ
pages_to_bytes pages = 4096 * pages

-- `limit - bytes < free` for integers, with the subtraction on the other side.
unfoldable pub is_enough_memory_on_target : ℕ → ℕ → Platform → TaskData → Outcome Bool
is_enough_memory_on_target memory_limit target_node p d = do
  let pages = (← from_option d.mem_numa_pages Error.key_error)
  let here = (← from_option (get target_node pages) Error.key_error)
  let free = (← from_option (get target_node p.mem_numa_free_bytes) Error.key_error)
  ok (ltb memory_limit (free + pages_to_bytes here))
