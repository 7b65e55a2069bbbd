-- ===== src/Containers.antt =====
-- Containers of wca/containers.py: `ContainerManager.sync_containers_state` and the containers it
-- keeps for the tasks of wca/nodes.py. What is done to the system is recorded as actions, each of
-- which may raise; what an exception leaves behind is not modelled.
pub mod Measured
pub mod Settled
pub mod Tests
pub mod Covers
pub mod Synced
use workload_collocation_age.Base.{
  ℕ, zero, suc, ◌+◌, ◌-◌, ◌*◌, ◌/◌, ◌%◌, ◌≤◌, ◌<◌, ◌≡◌, refl, sym, ap, ◌∙◌, ◌≢◌, ◌↔◌, ◌⊎◌, inl, inr,
  Bool, true, false, not, ◌&&◌, ◌||◌, Option, none, some, List, [], ◌∷◌, ◌++◌, map, length, All,
  All-map, In, arith, ltb, leb, ◌==◌, ==_iff, if◌then◌else◌, Bool-cases, Option-cases, Outcome, ok,
  err, Error, ◌>>=◌, ◌>>◌, guard, from_option, >>=-eq-ok, ok-injective, traverse, each,
  Outcome-cases, String, append-nil, append_assoc, sum, map_outcome, All-append, In-append_left,
  In-append_right, In-append,
}
use workload_collocation_age.Base.Eq.{◌=?◌, Text_eq}
use workload_collocation_age.Base.Dict.{Dict, get, put, has}
use workload_collocation_age.Base.Number.{Number}
use workload_collocation_age.Base.Text.{Text, starts_with}
use workload_collocation_age.Scheduler.Filter.{is_in}

pub data TaskResource : Type 0 where
  quantity : Number → TaskResource
  description : Text → TaskResource

pub record Task : Type 0 where
  pub name : Text
  pub task_id : Text
  pub cgroup_path : Text
  pub subcgroups_paths : List Text
  pub labels : Dict Text Text
  pub resources : Dict Text TaskResource

-- `Container` and `ContainerSet`, which has a sub-container for each of its cgroups.
pub record Container : Type 0 where
  pub cgroup_path : Text
  pub name : Text
  pub subcontainers : List Text
  pub resgroup : Option Text

-- A dictionary keyed by tasks, which are equal if their ids are.
abbrev pub Watched : Type 0
Watched = List (Task × Container)

-- `containers[task] = container`: an equal task that is already a key remains the key.
unfoldable pub assign : Task → Container → Watched → Watched
assign t c [] = (t, c) ∷ []
assign t c ((u, d) ∷ w) = if u.task_id =? t.task_id then (u, c) ∷ w else (u, d) ∷ assign t c w

abbrev pub containers_of : Watched → List Container
containers_of [] = []
containers_of ((t, c) ∷ w) = c ∷ containers_of w

-- `s.replace('/', '-')`
abbrev pub dashed : Text → Text
dashed [] = []
dashed (c ∷ s) = (if c == b'/' then b'-' else c) ∷ dashed s

unfoldable pub sanitize_cgroup_path : Text → Outcome Text
sanitize_cgroup_path [] = err Error.assertion_error
sanitize_cgroup_path (c ∷ s) = guard (c == b'/') Error.assertion_error >> ok (dashed s)

abbrev pub is_empty_list : {A : Type 0} → List A → Bool
is_empty_list [] = true
is_empty_list (x ∷ xs) = false

-- The name of a `Container`, which must not be empty.
unfoldable pub container_name : Text → Outcome Text
container_name path = sanitize_cgroup_path path >>= λ name.
    guard (not (is_empty_list name)) Error.assertion_error >> ok name

-- The keys of `_subcontainers`: each path once.
unfoldable pub add_paths : List Text → List Text → List Text
add_paths seen [] = seen
add_paths seen (p ∷ paths) = add_paths (if is_in p seen then seen else seen ++ p ∷ []) paths

-- A task without sub-cgroups gets a `Container`, any other a `ContainerSet` of containers.
unfoldable pub container_for : Text → List Text → Outcome Container
container_for path [] = container_name path >>= λ name.
    ok (record { cgroup_path = path; name = name; subcontainers = []; resgroup = none })
container_for path (p ∷ paths) = sanitize_cgroup_path path >>= λ name.
    traverse container_name (p ∷ paths) >>= λ _. ok (record {
      cgroup_path = path;
      name = name;
      subcontainers = add_paths [] (p ∷ paths);
      resgroup = none;
    })

unfoldable pub create_container : Task → Outcome Container
create_container task = container_for task.cgroup_path task.subcgroups_paths

pub data Action : Type 0 where
  cleanup : Container → Action
  clean_taskless_groups : Dict Text (List Text) → Action
  reset_counters : Container → Action
  add_pids : Container → Action

-- Each action is recorded after those before it. `perform` says what it raises after those, and so
-- stands for the system, whose state they have made.
module _ (perform : List Action → Action → Outcome (Unit {0})) where
  abbrev pub act : List Action → Action → Outcome (List Action)
  act done a = perform done a >>= λ _. ok (done ++ a ∷ [])

  unfoldable pub act_all : List Action → List Action → Outcome (List Action)
  act_all done [] = ok done
  act_all done (a ∷ actions) = act done a >>= λ next. act_all next actions

abbrev pub paths_of : List Task → List Text
paths_of [] = []
paths_of (t ∷ tasks) = t.cgroup_path ∷ paths_of tasks

abbrev pub container_paths : List Container → List Text
container_paths [] = []
container_paths (c ∷ containers) = c.cgroup_path ∷ container_paths containers

unfoldable pub select_containers : List Text → List Container → List Container
select_containers paths [] = []
select_containers paths (c ∷ containers) =
    let rest = select_containers paths containers in
    if is_in c.cgroup_path paths then rest else c ∷ rest

unfoldable pub select_tasks : List Text → List Task → List Task
select_tasks paths [] = []
select_tasks paths (t ∷ tasks) =
    let rest = select_tasks paths tasks in if is_in t.cgroup_path paths then rest else t ∷ rest

unfoldable pub find_new_and_dead_tasks : List Task → List Container → List Task × List Container
find_new_and_dead_tasks discovered_tasks known_containers = (
  select_tasks (container_paths known_containers) discovered_tasks,
  select_containers (paths_of discovered_tasks) known_containers,
)

-- The known containers with the path of the task; the last one remains.
unfoldable pub assign_known : Task → Watched → Watched → Watched
assign_known task [] containers = containers
assign_known task ((known_task, c) ∷ known) containers =
    assign_known task known
      (if task.cgroup_path =? known_task.cgroup_path then assign task c containers else containers)

unfoldable pub recreate : List Task → Watched → Watched → Watched
recreate [] known containers = containers
recreate (task ∷ tasks) known containers = recreate tasks known (assign_known task known containers)

module _ (perform : List Action → Action → Outcome (Unit {0})) where
  unfoldable pub create_containers :
      List Action → List Task → Watched → Outcome (List Action × Watched)
  create_containers done [] containers = ok (done, containers)
  create_containers done (task ∷ new_tasks) containers = create_container task >>= λ c.
      act perform done (reset_counters c) >>= λ next.
      create_containers next new_tasks (assign task c containers)

-- `set(a) != set(b)`
abbrev pub all_in : List Text → List Text → Bool
all_in [] ys = true
all_in (x ∷ xs) ys = is_in x ys && all_in xs ys

abbrev pub same_set : List Text → List Text → Bool
same_set xs ys = all_in xs ys && all_in ys xs

module _ (perform : List Action → Action → Outcome (Unit {0})) where
  -- A container is cleaned up and created again.
  unfoldable pub replace_container :
      List Action → Task → Container → Outcome (List Action × Container)
  replace_container done task c = act perform done (cleanup c) >>= λ cleaned.
      create_container task >>= λ d. act perform cleaned (reset_counters d) >>= λ next. ok (next, d)

  -- A container whose sub-cgroups have changed is replaced.
  unfoldable pub refresh_one : List Action → Task → Container → Outcome (List Action × Container)
  refresh_one done task c =
      if same_set task.subcgroups_paths c.subcontainers
      then ok (done, c)
      else (replace_container done task c)

  unfoldable pub refresh : List Action → Watched → Outcome (List Action × Watched)
  refresh done [] = ok (done, [])
  refresh done ((task, c) ∷ w) =
      refresh_one done task c >>= λ p. refresh p.0 w >>= λ q. ok (q.0, (task, p.1) ∷ q.1)

-- The control group of each container name: a later group replaces an earlier one.
abbrev pub name_all : Text → List Text → Dict Text Text → Dict Text Text
name_all ctrl_group [] names = names
name_all ctrl_group (n ∷ container_names) names =
    name_all ctrl_group container_names (put n ctrl_group names)

unfoldable pub inverse : Dict Text (List Text) → Dict Text Text → Dict Text Text
inverse [] names = names
inverse ((ctrl_group, container_names) ∷ relation) names =
    inverse relation (name_all ctrl_group container_names names)

-- A container that is in no control group is assigned to the root group, whose name is empty.
abbrev pub group_of : Dict Text Text → Container → Text
group_of names c = elim (get c.name names) [ none ↦ [] | some g ↦ g ]

abbrev pub set_resgroup : Text → Container → Container
set_resgroup g c = record {
  cgroup_path = c.cgroup_path;
  name = c.name;
  subcontainers = c.subcontainers;
  resgroup = some g;
}

unfoldable pub set_resgroups : Dict Text Text → Watched → Watched
set_resgroups names [] = []
set_resgroups names ((task, c) ∷ w) =
    (task, set_resgroup (group_of names c) c) ∷ set_resgroups names w

abbrev pub sync_actions : Watched → List Action
sync_actions [] = []
sync_actions ((task, c) ∷ w) = add_pids c ∷ sync_actions w

-- `rdt_information`: whether it is there, and whether monitoring is enabled.
abbrev pub MonitoredRdt : Type 0
MonitoredRdt = Option Bool

-- What `read_mon_groups_relation` returns before and after the groups without tasks are removed.
pub record Relations : Type 0 where
  pub before_cleanup : Dict Text (List Text)
  pub after_cleanup : Dict Text (List Text)

unfoldable pub read_groups :
    (List Action → Action → Outcome (Unit {0}))
    → List Action
    → MonitoredRdt
    → Relations
    → Outcome (List Action × Dict Text Text)
read_groups perform done none relations = ok (done, [])
read_groups perform done (some monitoring) relations =
    guard monitoring Error.assertion_error
    >> (act perform done (clean_taskless_groups relations.before_cleanup) >>= λ next.
        ok (next, inverse relations.after_cleanup []))

-- Without RDT the group remains, and the synchronisation of pids does nothing.
unfoldable pub sync_all :
    (List Action → Action → Outcome (Unit {0}))
    → List Action
    → MonitoredRdt
    → Dict Text Text
    → Watched
    → Outcome (List Action × Watched)
sync_all perform done none names w = ok (done, w)
sync_all perform done (some monitoring) names w =
    act_all perform done (sync_actions (set_resgroups names w)) >>= λ next.
    ok (next, set_resgroups names w)

unfoldable pub sync_containers_state :
    (List Action → Action → Outcome (Unit {0}))
    → MonitoredRdt
    → Relations
    → List Task
    → Watched
    → Outcome (List Action × Watched)
sync_containers_state perform rdt relations tasks containers =
    let (new_tasks, dead) = find_new_and_dead_tasks tasks (containers_of containers) in
    act_all perform [] (map cleanup dead) >>= λ cleaned.
    read_groups perform cleaned rdt relations >>= λ groups.
    create_containers perform groups.0 new_tasks (recreate tasks containers []) >>= λ created.
    refresh perform created.0 created.1 >>= λ refreshed.
    sync_all perform refreshed.0 rdt groups.1 refreshed.1
