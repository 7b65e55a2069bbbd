-- ===== src/Containers/Tests.antt =====
-- The theorems on containers at concrete inputs.
use workload_collocation_age.Base.{
  ℕ, ◌≡◌, refl, inl, inr, true, some, none, ◌⊎◌, Outcome, err, Error, List, [], ◌∷◌, ok, String,
}
use workload_collocation_age.Base.Eq.{String_eq, Text_eq}
use workload_collocation_age.Base.Dict.{Dict, get}
use workload_collocation_age.Base.Text.{Text, codes}
use workload_collocation_age.Containers.{
  Task, Container, Watched, Action, Relations, sync_containers_state, find_new_and_dead_tasks,
  select_tasks, select_containers, recreate, assign_known, assign, create_containers,
  create_container, container_for, sanitize_cgroup_path, container_name, add_paths, refresh,
  refresh_one, replace_container, inverse, set_resgroups, sync_all, act_all, read_groups,
}
use workload_collocation_age.Containers.Covers.{IsWatching, has_task, sync-IsWatching}
use workload_collocation_age.Containers.Settled.{IsRaised}
use workload_collocation_age.Containers.Measured.{
  flatten_measurements, flatten_from, flatten_measurements-kept,
}

abbrev task_of : Text → List Text → Task
task_of task_id subcgroups_paths = record {
  name = task_id;
  task_id = task_id;
  cgroup_path = b'/' ∷ task_id;
  subcgroups_paths = subcgroups_paths;
  labels = [];
  resources = [];
}

abbrev container_of : Text → Container
container_of name = record {
  cgroup_path = b'/' ∷ name;
  name = name;
  subcontainers = [];
  resgroup = some [];
}

-- A pod that has grown a second container, a new task, and a container whose task is gone.
abbrev discovered : List Task
discovered =
    task_of (codes "pod") (codes "/pod/one" ∷ codes "/pod/two" ∷ []) ∷ task_of (codes "new") [] ∷ []

abbrev watched : Watched
watched =
    (task_of (codes "pod") [], container_of (codes "pod"))
    ∷ (task_of (codes "gone") [], container_of (codes "gone"))
    ∷ []

abbrev relations : Relations
relations = record {
  before_cleanup = (codes "group", codes "pod" ∷ []) ∷ [];
  after_cleanup = (codes "group", codes "pod" ∷ []) ∷ [];
}

abbrev watched_after : Outcome (List Action × Watched) → Watched
watched_after (ok p) = p.1
watched_after (err e) = []

-- The system has no group left when pids are to be added, and allows everything else.
abbrev exhausted : List Action → Action → Outcome (Unit {0})
exhausted done (Action.add_pids c) = err Error.out_of_closids
exhausted done (Action.cleanup c) = ok tt
exhausted done (Action.clean_taskless_groups relation) = ok tt
exhausted done (Action.reset_counters c) = ok tt

test_exhausted :
    (sync_containers_state exhausted (some true) relations discovered watched
      ≡ err Error.out_of_closids)
    × (has_task
          (codes "new")
          (watched_after (sync_containers_state exhausted none relations discovered watched))
        ≡ true)
unfolding sync_containers_state find_new_and_dead_tasks select_tasks select_containers recreate
    assign_known assign create_containers create_container container_for sanitize_cgroup_path
    container_name add_paths refresh refresh_one replace_container inverse set_resgroups sync_all
    act_all read_groups
test_exhausted = (refl, refl)

sync-IsWatching_example :
    ((p : List Action × Watched) × (sync_containers_state exhausted none relations discovered
          watched
        ≡ ok p)
      × IsWatching discovered p.1)
    ⊎ ((e : Error) × IsRaised exhausted e
        × (sync_containers_state exhausted none relations discovered watched ≡ err e))
sync-IsWatching_example =
    sync-IsWatching exhausted (λ task_id. b'/' ∷ task_id) none relations discovered watched
      (λ h. cc h) ((((refl, (refl, (refl, tt))), refl)), (((refl, tt), refl), tt))
      (refl, (refl, tt))

abbrev cpu : Dict String ℕ
cpu = ("usage", 5) ∷ ("limit", 9) ∷ []

abbrev memory : Dict String ℕ
memory = ("memory", 7) ∷ []

abbrev flat : Dict String ℕ
flat = ("usage", 5) ∷ ("limit", 9) ∷ ("memory", 7) ∷ []

flatten_measurements-kept_example : get "memory" flat ≡ some 7
unfolding flatten_measurements flatten_from
flatten_measurements-kept_example =
    flatten_measurements-kept (cpu ∷ memory ∷ []) memory {r = flat} "memory"
      ((refl, (refl, tt)), ((refl, tt), tt)) refl (inr (inl refl)) refl
