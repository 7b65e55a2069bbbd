-- ===== src/Scheduler/Simulator.antt =====
-- `ClusterSimulator` of wca/scheduler/cluster_simulator.py with its tasks and nodes. A task is
-- identified by its place in the list of tasks, a node by its name: `get_node_by_name` insists that
-- only one node has it. The scheduling algorithm is an argument.
pub mod Iterate
pub mod Life
pub mod Assigned
mod Tests
use workload_collocation_age.Base.{
  ℕ, zero, suc, ◌+◌, ◌-◌, ◌*◌, ◌/◌, ◌%◌, ◌≤◌, ◌<◌, ◌≡◌, refl, sym, ap, ◌∙◌, ◌≢◌, ◌↔◌, ◌⊎◌, inl, inr,
  Bool, true, false, not, ◌&&◌, ◌||◌, Option, none, some, List, [], ◌∷◌, ◌++◌, map, length, All,
  All-map, In, arith, ltb, leb, ◌==◌, ==_iff, if◌then◌else◌, Bool-cases, Option-cases, Outcome, ok,
  err, Error, ◌>>=◌, ◌>>◌, guard, from_option, >>=-eq-ok, ok-injective, traverse, each,
  Outcome-cases, String, append-nil, append_assoc, sum, map_outcome, All-append, In-append_left,
  In-append_right, In-append,
}
use workload_collocation_age.Base.Eq.{Eq, ◌=?◌, String_eq}
use workload_collocation_age.Base.Int.{pos}
use workload_collocation_age.Base.Dict.{Dict, get, put, has, keys}
use workload_collocation_age.Base.Number.{
  Number, whole, subtract, multiply, divide, is_positive, is_below,
}
use workload_collocation_age.Scheduler.Resources.{ResourceType, ResourceType_eq}
use workload_collocation_age.Scheduler.Filter.{is_in}

-- The class `Resources`: a dictionary of numbers.
abbrev pub NodeResources : Type 0
NodeResources = Dict ResourceType Number

-- `bool(resources)`: every value is positive or nearly 0.
unfoldable pub is_enough : NodeResources → Bool
is_enough [] = true
is_enough ((d, v) ∷ r) = (is_positive v || is_below 10000 v) && is_enough r

abbrev pub all_keys : List ResourceType → NodeResources → Bool
all_keys [] r = true
all_keys (d ∷ ds) r = has d r && all_keys ds r

abbrev pub same_keys : NodeResources → NodeResources → Bool
same_keys x y = all_keys (keys x) y && all_keys (keys y) x

abbrev pub both_bandwidths : NodeResources → Bool
both_bandwidths x = has ResourceType.membw_read x && has ResourceType.membw_write x

abbrev pub number_at : ResourceType → NodeResources → Outcome Number
number_at d r = from_option (get d r) Error.key_error

-- What is left of the read and the write bandwidth, each of which the other one takes a share of.
unfoldable pub read_left : NodeResources → Number → Number → Outcome Number
read_left y ratio v = number_at ResourceType.membw_read y >>= λ read.
    number_at ResourceType.membw_write y >>= λ write.
    ok (subtract (subtract v read) (multiply write ratio))

unfoldable pub write_left : NodeResources → Number → Number → Outcome Number
write_left y ratio v = number_at ResourceType.membw_read y >>= λ read.
    number_at ResourceType.membw_write y >>= λ write.
    divide read ratio >>= λ share. ok (subtract (subtract v write) share)

-- A bandwidth without the other one is left as it is.
unfoldable pub dimension_left :
    Bool → NodeResources → Number → ResourceType → Number → Outcome Number
dimension_left both y ratio ResourceType.membw_read v = if both then read_left y ratio v else ok v
dimension_left both y ratio ResourceType.membw_write v = if both then write_left y ratio v else ok v
dimension_left both y ratio d v = number_at d y >>= λ w. ok (subtract v w)

unfoldable pub each_left : Bool → NodeResources → Number → NodeResources → Outcome NodeResources
each_left both y ratio [] = ok []
each_left both y ratio ((d, v) ∷ x) =
    let rest = each_left both y ratio x in
    dimension_left both y ratio d v >>= λ w. rest >>= λ r. ok ((d, w) ∷ r)

unfoldable pub subtract_aep_aware : NodeResources → NodeResources → Number → Outcome NodeResources
subtract_aep_aware x y ratio =
    guard (same_keys x y) Error.assertion_error >> each_left (both_bandwidths x) y ratio x

pub record Task : Type 0 where
  pub name : String
  pub assignment : Option String
  pub node_name : Option String
  pub requested : NodeResources
  pub life_time : ℕ
  pub duration : Option ℕ

-- The unassigned resources of a node are computed from its tasks when they are needed.
pub record Node : Type 0 where
  pub name : String
  pub initial : NodeResources

abbrev pub assigned_to : Option String → Task → Task
assigned_to node t = record {
  name = t.name;
  assignment = node;
  node_name = t.node_name;
  requested = t.requested;
  life_time = t.life_time;
  duration = t.duration;
}

abbrev pub is_over : Option ℕ → ℕ → Bool
is_over none life_time = false
is_over (some duration) life_time = ltb duration life_time

-- An assigned task grows older, and is unassigned when it has lived for longer than its duration.
abbrev pub older : Option String → Task → Task
older none t = t
older (some n) t = record {
  name = t.name;
  assignment = if is_over t.duration (suc t.life_time) then none else some n;
  node_name = t.node_name;
  requested = t.requested;
  life_time = suc t.life_time;
  duration = t.duration;
}

unfoldable pub update_task : Task → Task
update_task t = older t.assignment t

unfoldable pub membw_read_write_ratio : Node → Outcome Number
membw_read_write_ratio node =
    if both_bandwidths node.initial
    then (number_at ResourceType.membw_read node.initial >>= (λ read.
        number_at ResourceType.membw_write node.initial >>= (λ write. divide read write)))
    else ok (whole (pos 1))

abbrev pub is_on : String → Option String → Bool
is_on n none = false
is_on n (some m) = m =? n

unfoldable pub subtract_tasks : Node → Number → List Task → NodeResources → Outcome NodeResources
subtract_tasks node ratio [] unassigned = ok unassigned
subtract_tasks node ratio (t ∷ tasks) unassigned =
    (if is_on node.name t.assignment
      then subtract_aep_aware unassigned t.requested ratio
      else ok unassigned)
    >>= subtract_tasks node ratio tasks

unfoldable pub validate_assignment : Node → List Task → Task → Outcome Bool
validate_assignment node tasks new_task = membw_read_write_ratio node >>= λ ratio.
    subtract_tasks node ratio tasks node.initial >>= λ unassigned.
    subtract_aep_aware unassigned new_task.requested ratio >>= λ left. ok (is_enough left)

pub record Simulator : Type 0 where
  pub tasks : List Task
  pub nodes : List Node
  pub allow_rough_assignment : Bool
  pub retry_scheduling : Bool
  pub rough_assignments_per_node : Dict String ℕ

abbrev pub with_tasks : Simulator → List Task → Simulator
with_tasks s tasks = record {
  tasks = tasks;
  nodes = s.nodes;
  allow_rough_assignment = s.allow_rough_assignment;
  retry_scheduling = s.retry_scheduling;
  rough_assignments_per_node = s.rough_assignments_per_node;
}

abbrev pub with_rough : Simulator → Dict String ℕ → Simulator
with_rough s rough = record {
  tasks = s.tasks;
  nodes = s.nodes;
  allow_rough_assignment = s.allow_rough_assignment;
  retry_scheduling = s.retry_scheduling;
  rough_assignments_per_node = rough;
}

-- `assert len(filtered) == 1` for the elements with a name
abbrev pub only_one : {A : Type 0} → List A → Outcome A
only_one (a ∷ []) = ok a
only_one others = err Error.assertion_error

unfoldable pub nodes_named : String → List Node → List Node
nodes_named n [] = []
nodes_named n (node ∷ nodes) =
    let rest = nodes_named n nodes in if node.name =? n then node ∷ rest else rest

abbrev pub get_node_by_name : Simulator → String → Outcome Node
get_node_by_name s n = only_one (nodes_named n s.nodes)

abbrev pub task_at : ℕ → List Task → Option Task
task_at i [] = none
task_at zero (t ∷ tasks) = some t
task_at (suc i) (t ∷ tasks) = task_at i tasks

abbrev pub replace_at : ℕ → Task → List Task → List Task
replace_at i u [] = []
replace_at zero u (t ∷ tasks) = u ∷ tasks
replace_at (suc i) u (t ∷ tasks) = t ∷ replace_at i u tasks

-- `rough_assignments_per_node[node] += 1`
abbrev pub count_rough : String → Bool → Simulator → Outcome Simulator
count_rough n true s = ok s
count_rough n false s =
    from_option (get n s.rough_assignments_per_node) Error.key_error >>= λ count.
    ok (with_rough s (put n (suc count) s.rough_assignments_per_node))

-- The result is true where the task was assigned.
unfoldable pub perform_assignment : ℕ → Task → Node → Simulator → Outcome (Bool × Simulator)
perform_assignment i task node s = validate_assignment node s.tasks task >>= λ task_fits_node.
    if task_fits_node || s.allow_rough_assignment
    then (count_rough node.name task_fits_node
          (with_tasks s (replace_at i (assigned_to (some node.name) task) s.tasks))
        >>= (λ r. ok (true, r)))
    else ok (false, s)
