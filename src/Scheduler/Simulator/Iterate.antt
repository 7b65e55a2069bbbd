-- ===== src/Scheduler/Simulator/Iterate.antt =====
-- `call_scheduler` and `iterate` of the `ClusterSimulator`, one step of the simulated cluster.
use workload_collocation_age.Base.{
  ℕ, suc, ◌+◌, Bool, true, false, Option, none, some, List, [], ◌∷◌, ◌++◌, length, ltb,
  if◌then◌else◌, Outcome, ok, Error, ◌>>=◌, from_option, String, map_outcome,
}
use workload_collocation_age.Base.Eq.{◌=?◌, String_eq}
use workload_collocation_age.Base.Dict.{Dict, has}
use workload_collocation_age.Scheduler.Simulator.{
  Task, Node, Simulator, assigned_to, update_task, with_tasks, only_one, get_node_by_name, task_at,
  replace_at, perform_assignment,
}

-- The interface that the simulator calls: the failed nodes of `filter`, the scores of `prioritize`
-- and the names of `reschedule`. An algorithm may read the state of the simulated cluster.
pub record Algorithm (M : Type 0) : Type 0 where
  pub filter : Simulator → List String → Task → Outcome (Dict String M)
  pub prioritize : Simulator → List String → Task → Outcome (List (String × ℕ))
  pub reschedule : Simulator → Outcome (List String)

abbrev pub node_names : List Node → List String
node_names [] = []
node_names (node ∷ nodes) = node.name ∷ node_names nodes

abbrev pub not_failed : {M : Type 0} → List String → Dict String M → List String
not_failed [] failed = []
not_failed (n ∷ names) failed =
    let rest = not_failed names failed in if has n failed then rest else n ∷ rest

-- `max(priorities, key=score)`: the first of the greatest.
unfoldable pub greatest : String × ℕ → List (String × ℕ) → String × ℕ
greatest best [] = best
greatest best (p ∷ priorities) = greatest (if ltb best.1 p.1 then p else best) priorities

abbrev pub best_node : List (String × ℕ) → Option String
best_node [] = none
best_node (p ∷ priorities) = some (greatest p priorities).0

abbrev pub find_node : Simulator → Option String → Outcome (Option Node)
find_node s none = ok none
find_node s (some n) = map_outcome some (get_node_by_name s n)

unfoldable pub call_scheduler :
    {M : Type 0} → Algorithm M → Simulator → Task → Outcome (Option Node)
call_scheduler algorithm s task = algorithm.filter s (node_names s.nodes) task >>= λ failed.
    algorithm.prioritize s (not_failed (node_names s.nodes) failed) task >>= λ priorities.
    find_node s (best_node priorities)

abbrev pub bound_to : String → Task → Task
bound_to n t = record {
  name = t.name;
  assignment = some n;
  node_name = none;
  requested = t.requested;
  life_time = t.life_time;
  duration = t.duration;
}

-- New tasks are appended; those with a node name are bound to it, once. The places of the others
-- are collected.
unfoldable pub add_task : Simulator → Task → List ℕ → Option String → Outcome (Simulator × List ℕ)
add_task s t unassigned none =
    ok (with_tasks s (s.tasks ++ t ∷ []), unassigned ++ length s.tasks ∷ [])
add_task s t unassigned (some n) = get_node_by_name s n >>= λ node.
    ok (with_tasks s (s.tasks ++ bound_to node.name t ∷ []), unassigned)

unfoldable pub add_tasks : List Task → Simulator → List ℕ → Outcome (Simulator × List ℕ)
add_tasks [] s unassigned = ok (s, unassigned)
add_tasks (t ∷ new_tasks) s unassigned =
    add_task s t unassigned t.node_name >>= λ p. add_tasks new_tasks p.0 p.1

abbrev pub is_none : {A : Type 0} → Option A → Bool
is_none none = true
is_none (some a) = false

-- The places of the tasks without an assignment, counted from `i`.
unfoldable pub unassigned_places : ℕ → List Task → List ℕ
unassigned_places i [] = []
unassigned_places i (t ∷ tasks) =
    let rest = unassigned_places (suc i) tasks in if is_none t.assignment then i ∷ rest else rest

abbrev pub to_schedule : Bool → List ℕ → List Task → List ℕ
to_schedule retry [] tasks = if retry then unassigned_places 0 tasks else []
to_schedule retry (i ∷ new_unassigned) tasks = i ∷ new_unassigned

abbrev pub count_of : Bool → ℕ
count_of true = 1
count_of false = 0

unfoldable pub assign_one :
    {M : Type 0} → Algorithm M → ℕ → Task → Simulator → Outcome (ℕ × Simulator)
assign_one algorithm i task s = call_scheduler algorithm s task >>= λ found. elim found [
  | none ↦ ok (0, s)
  | some node ↦ perform_assignment i task node s >>= λ p. ok (count_of p.0, p.1)
]

-- The places come from the list of tasks, so that there is a task at each.
unfoldable pub assign_all :
    {M : Type 0} → Algorithm M → List ℕ → Simulator → Outcome (ℕ × Simulator)
assign_all algorithm [] s = ok (0, s)
assign_all algorithm (i ∷ places) s = from_option (task_at i s.tasks) Error.index_error >>= λ task.
    assign_one algorithm i task s >>= λ p.
    assign_all algorithm places p.1 >>= λ q. ok (p.0 + q.0, q.1)

unfoldable pub places_named : ℕ → String → List Task → List ℕ
places_named i n [] = []
places_named i n (t ∷ tasks) =
    let rest = places_named (suc i) n tasks in if t.name =? n then i ∷ rest else rest

unfoldable pub unassign : List String → Simulator → Outcome Simulator
unassign [] s = ok s
unassign (n ∷ names) s = only_one (places_named 0 n s.tasks) >>= λ i.
    from_option (task_at i s.tasks) Error.index_error >>= λ task.
    unassign names (with_tasks s (replace_at i (assigned_to none task) s.tasks))

abbrev pub update_all : List Task → List Task
update_all [] = []
update_all (t ∷ tasks) = update_task t ∷ update_all tasks

abbrev pub nothing_new : List Task → Bool
nothing_new [] = true
nothing_new (t ∷ new_tasks) = false

-- The assignments, or a rescheduling where there is nothing to assign and nothing new.
unfoldable pub schedule :
    {M : Type 0} → Algorithm M → Bool → List ℕ → Simulator → Outcome (ℕ × Simulator)
schedule algorithm idle [] s =
    if idle
    then (algorithm.reschedule s >>= (λ names. unassign names s >>= (λ r. ok (0, r))))
    else ok (0, s)
schedule algorithm idle (i ∷ places) s = assign_all algorithm (i ∷ places) s

unfoldable pub iterate :
    {M : Type 0} → Algorithm M → List Task → Simulator → Outcome (ℕ × Simulator)
iterate algorithm new_tasks s = add_tasks new_tasks s [] >>= λ p.
    schedule algorithm (nothing_new new_tasks) (to_schedule s.retry_scheduling p.1 p.0.tasks) p.0
    >>= λ q. ok (q.0, with_tasks q.1 (update_all q.1.tasks))
