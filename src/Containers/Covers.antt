-- ===== src/Containers/Covers.antt =====
-- After a synchronisation the containers are those of exactly the discovered tasks.
use workload_collocation_age.Base.{
  ◌≡◌, refl, sym, ap, ◌∙◌, ◌≢◌, inl, inr, Bool, true, false, not, ◌&&◌, ◌||◌, none, some, List, [],
  ◌∷◌, map, All, arith, Bool-cases, ok, err, Error, Outcome, Settles-bind, ◌>>=◌, ◌⊎◌, >>=-eq-ok,
  ok-injective,
}
use workload_collocation_age.Base.Eq.{◌=?◌, Text_eq}
use workload_collocation_age.Base.Dict.{Dict}
use workload_collocation_age.Base.Text.{Text}
use workload_collocation_age.Scheduler.Filter.{is_in}
use workload_collocation_age.Containers.{
  Task, Container, Watched, assign, containers_of, container_paths, create_container, Action,
  select_tasks, select_containers, paths_of, find_new_and_dead_tasks, Relations, read_groups,
  assign_known, recreate, create_containers, refresh_one, refresh, set_resgroups, sync_all,
  MonitoredRdt, cleanup, sync_containers_state, clean_taskless_groups, inverse, act, act_all,
  sync_actions, reset_counters,
}
use workload_collocation_age.Containers.Synced.{
  IsMatched, IsInSync, IsDetermined, recreate-IsPlaced, create_containers-IsPlaced,
  refresh-IsInSync, sync_all-IsInSync, IsPlaced, AreInSync,
}
use workload_collocation_age.Containers.Settled.{
  IsRaised, IsSettled, act-IsSettled, act_all-IsSettled,
}

abbrev pub ids_of : List Task → List Text
ids_of [] = []
ids_of (t ∷ tasks) = t.task_id ∷ ids_of tasks

-- `task in containers`, for a task with this id.
abbrev pub has_task : Text → Watched → Bool
has_task i [] = false
has_task i ((t, c) ∷ w) = t.task_id =? i || has_task i w

has_task-assign :
    (i : Text) (t : Task) (c : Container) (w : Watched)
    → has_task i (assign t c w) ≡ (t.task_id =? i || has_task i w)
unfolding assign
has_task-assign i t c [] = refl
has_task-assign i t c ((u, d) ∷ w) = elim (Bool-cases (u.task_id =? t.task_id)) [
  | inl same ↦
      let e = (Text_eq.beq_iff u.task_id t.task_id).0 same in
      rw same (ground (arith, ap (λ j. j =? i) e))
  | inr other ↦ rw other (ground (arith, has_task-assign i t c w))
]

watched_paths : Watched → List Text
watched_paths [] = []
watched_paths ((t, c) ∷ w) = t.cgroup_path ∷ watched_paths w

-- The ids of the tasks whose path is among the given ones, or is not.
id_selected : Bool → Text → List Text → List Task → Bool
id_selected kind i paths [] = false
id_selected true i paths (t ∷ tasks) =
    (is_in t.cgroup_path paths && (t.task_id =? i)) || id_selected true i paths tasks
id_selected false i paths (t ∷ tasks) =
    (not (is_in t.cgroup_path paths) && (t.task_id =? i)) || id_selected false i paths tasks

id_selected-both :
    (i : Text) (paths : List Text) (tasks : List Task)
    → (id_selected false i paths tasks || id_selected true i paths tasks) ≡ is_in i (ids_of tasks)
unfolding id_selected
id_selected-both i paths [] = refl
id_selected-both i paths (t ∷ tasks) = ground (arith, id_selected-both i paths tasks)

has_task-assign_known :
    (i : Text) (t : Task) (known w : Watched)
    → has_task i (assign_known t known w)
      ≡ ((is_in t.cgroup_path (watched_paths known) && (t.task_id =? i)) || has_task i w)
unfolding assign_known watched_paths
has_task-assign_known i t [] w = refl
has_task-assign_known i t ((u, c) ∷ known) w = elim (Bool-cases (t.cgroup_path =? u.cgroup_path)) [
  | inl same ↦ rw same (
      has_task-assign_known i t known (assign t c w)
      ∙ ground (
        arith,
        has_task-assign i t c w,
        Text_eq.beq_iff t.cgroup_path u.cgroup_path,
        Text_eq.beq_iff u.cgroup_path t.cgroup_path,
      ))
  | inr other ↦ rw other (
      has_task-assign_known i t known w
      ∙ ground (
        arith,
        Text_eq.beq_iff t.cgroup_path u.cgroup_path,
        Text_eq.beq_iff u.cgroup_path t.cgroup_path,
      ))
]

has_task-recreate :
    (i : Text) (tasks : List Task) (known w : Watched)
    → has_task i (recreate tasks known w)
      ≡ (id_selected true i (watched_paths known) tasks || has_task i w)
unfolding recreate id_selected
has_task-recreate i [] known w = refl
has_task-recreate i (t ∷ tasks) known w =
    has_task-recreate i tasks known (assign_known t known w)
    ∙ ground (arith, has_task-assign_known i t known w)

has_task-create_containers :
    (i : Text) (perform : List Action → Action → Outcome (Unit {0})) (done : List Action)
    (tasks : List Task) (w : Watched) {p : List Action × Watched}
    → create_containers perform done tasks w ≡ ok p
    → has_task i p.1 ≡ (is_in i (ids_of tasks) || has_task i w)
unfolding create_containers
has_task-create_containers i perform done [] w h = ap (λ p. has_task i p.1) (sym (ok-injective h))
has_task-create_containers i perform done (t ∷ tasks) w h =
    let (c, created, h') = >>=-eq-ok (create_container t) _ h in
    let (next, reset, others) = >>=-eq-ok (act perform done (reset_counters c)) _ h' in
    has_task-create_containers i perform next tasks (assign t c w) others
    ∙ ground (arith, has_task-assign i t c w)

select_tasks-ids :
    (i : Text) (paths : List Text) (tasks : List Task)
    → is_in i (ids_of (select_tasks paths tasks)) ≡ id_selected false i paths tasks
unfolding select_tasks id_selected
select_tasks-ids i paths [] = refl
select_tasks-ids i paths (t ∷ tasks) = elim (Bool-cases (is_in t.cgroup_path paths)) [
  | inl known ↦ rw known (select_tasks-ids i paths tasks)
  | inr new ↦ rw new (ground (arith, select_tasks-ids i paths tasks))
]

has_task-refresh :
    (i : Text) (perform : List Action → Action → Outcome (Unit {0})) (done : List Action)
    (w : Watched) {p : List Action × Watched}
    → refresh perform done w ≡ ok p
    → has_task i p.1 ≡ has_task i w
unfolding refresh
has_task-refresh i perform done [] h = ap (λ p. has_task i p.1) (sym (ok-injective h))
has_task-refresh i perform done ((t, c) ∷ w) h =
    let (p, one, h') = >>=-eq-ok (refresh_one perform done t c) _ h in
    let (q, others, whole) = >>=-eq-ok (refresh perform p.0 w) _ h' in
    ap (λ p. has_task i p.1) (sym (ok-injective whole))
    ∙ ap (λ b. t.task_id =? i || b) (has_task-refresh i perform p.0 w others)

has_task-set_resgroups :
    (i : Text) (names : Dict Text Text) (w : Watched)
    → has_task i (set_resgroups names w) ≡ has_task i w
unfolding set_resgroups
has_task-set_resgroups i names [] = refl
has_task-set_resgroups i names ((t, c) ∷ w) =
    ap (λ b. t.task_id =? i || b) (has_task-set_resgroups i names w)

has_task-sync_all :
    (i : Text) (perform : List Action → Action → Outcome (Unit {0})) (done : List Action)
    (rdt : MonitoredRdt) (names : Dict Text Text) (w : Watched) {p : List Action × Watched}
    → sync_all perform done rdt names w ≡ ok p
    → has_task i p.1 ≡ has_task i w
unfolding sync_all
has_task-sync_all i perform done none names w h = ap (λ p. has_task i p.1) (sym (ok-injective h))
has_task-sync_all i perform done (some monitoring) names w h =
    let (next, synced, whole) =
      >>=-eq-ok (act_all perform done (sync_actions (set_resgroups names w))) _ h in
    ap (λ p. has_task i p.1) (sym (ok-injective whole)) ∙ has_task-set_resgroups i names w

watched_paths-containers :
    (w : Watched) → All IsMatched w → watched_paths w ≡ container_paths (containers_of w)
unfolding watched_paths
watched_paths-containers [] all = refl
watched_paths-containers ((t, c) ∷ w) (match, all) =
    ap (λ p. p ∷ watched_paths w) (sym match)
    ∙ ap (λ ps. c.cgroup_path ∷ ps) (watched_paths-containers w all)

-- The tasks that are watched next: those of known containers, and the new ones.
watched-ids :
    (i : Text) (perform : List Action → Action → Outcome (Unit {0})) (done : List Action)
    (tasks : List Task) (w : Watched) {p : List Action × Watched}
    → All IsMatched w
    → create_containers perform done
        (select_tasks (container_paths (containers_of w)) tasks)
        (recreate tasks w [])
      ≡ ok p
    → has_task i p.1 ≡ is_in i (ids_of tasks)
watched-ids i perform done tasks w matched h =
    let known = container_paths (containers_of w) in
    has_task-create_containers i perform done (select_tasks known tasks) (recreate tasks w []) h
    ∙ ap (λ b. b || has_task i (recreate tasks w [])) (select_tasks-ids i known tasks)
    ∙ ap (λ b. id_selected false i known tasks || b)
        (has_task-recreate i tasks w []
          ∙ ap (λ ps. id_selected true i ps tasks || false) (watched_paths-containers w matched)
          ∙ ground arith)
    ∙ id_selected-both i known tasks

-- What the manager promises for the tasks it is given.
pub record IsWatching (tasks : List Task) (w : Watched) : Type 0 where
  pub in_sync : All IsInSync w
  pub covers : (i : Text) → has_task i w ≡ is_in i (ids_of tasks)

read_groups-IsSettled :
    (perform : List Action → Action → Outcome (Unit {0})) (done : List Action) (rdt : MonitoredRdt)
    (relations : Relations)
    → rdt ≢ some false
    → IsSettled perform (λ groups. Unit {0}) (read_groups perform done rdt relations)
unfolding read_groups
read_groups-IsSettled perform done none relations h = inl ((done, []), refl, tt)
read_groups-IsSettled perform done (some true) relations h =
    let clean = clean_taskless_groups relations.before_cleanup in
    Settles-bind (IsRaised perform) (λ groups. Unit {0}) (act perform done clean) _
      (act-IsSettled perform done clean)
      (λ next same u. inl ((next, inverse relations.after_cleanup []), refl, tt))
read_groups-IsSettled perform done (some false) relations h = absurd (h refl)

select_tasks-All :
    (P : Task → Type 0) (paths : List Text) (tasks : List Task)
    → All P tasks
    → All P (select_tasks paths tasks)
unfolding select_tasks
select_tasks-All P paths [] all = tt
select_tasks-All P paths (t ∷ tasks) (here, all) = elim (Bool-cases (is_in t.cgroup_path paths)) [
  | inl known ↦ rw known (select_tasks-All P paths tasks all)
  | inr new ↦ rw new (here, select_tasks-All P paths tasks all)
]

AreWatching : List Task → List Action × Watched → Type 0
AreWatching tasks p = IsWatching tasks p.1

-- From containers that belong to their tasks' cgroups, and for tasks with proper paths that their
-- ids determine, with RDT monitoring unless there is no RDT, whatever the actions on the system
-- raise: the synchronisation raises what one of the actions raised, or it returns, and then the
-- containers it leaves are those of exactly the given tasks, and each has the cgroup and the
-- sub-cgroups of its task.
pub sync-IsWatching :
    (perform : List Action → Action → Outcome (Unit {0})) (path_of : Text → Text)
    (rdt : MonitoredRdt) (relations : Relations) (tasks : List Task) (w : Watched)
    → rdt ≢ some false
    → All (IsDetermined path_of) tasks
    → All IsMatched w
    → ((p : List Action × Watched) × (sync_containers_state perform rdt relations tasks w ≡ ok p)
        × IsWatching tasks p.1)
      ⊎ ((e : Error) × IsRaised perform e
          × (sync_containers_state perform rdt relations tasks w ≡ err e))
unfolding sync_containers_state find_new_and_dead_tasks AreWatching
sync-IsWatching perform path_of rdt relations tasks w monitored determined matched =
    let paths = container_paths (containers_of w) in
    let dead = map cleanup (select_containers (paths_of tasks) (containers_of w)) in
    let R = AreWatching tasks in
    Settles-bind (IsRaised perform) R (act_all perform [] dead) _
      (act_all-IsSettled perform [] dead)
      (λ cleaned c1 u.
        Settles-bind (IsRaised perform) R (read_groups perform cleaned rdt relations) _
          (read_groups-IsSettled perform cleaned rdt relations monitored)
          (λ groups c2 u.
            Settles-bind (IsRaised perform) R
              (create_containers perform groups.0 (select_tasks paths tasks) (recreate tasks w []))
              _
              (create_containers-IsPlaced perform path_of groups.0 (select_tasks paths tasks)
                (recreate tasks w [])
                (select_tasks-All (IsDetermined path_of) paths tasks determined)
                (recreate-IsPlaced path_of tasks w [] determined matched tt))
              (λ created c3 placed.
                last_stages groups created placed
                  (λ i. watched-ids i perform groups.0 tasks w matched c3))))
  where
    last_stages :
        (groups : List Action × Dict Text Text) (created : List Action × Watched)
        → All (IsPlaced path_of) created.1
        → ((i : Text) → has_task i created.1 ≡ is_in i (ids_of tasks))
        → IsSettled perform (AreWatching tasks) (
            refresh perform created.0 created.1 >>= λ refreshed.
            sync_all perform refreshed.0 rdt groups.1 refreshed.1)
    last_stages groups created placed covers =
        Settles-bind (IsRaised perform) (AreWatching tasks) (refresh perform created.0 created.1) _
          (refresh-IsInSync perform path_of created.0 created.1 placed)
          (λ refreshed c4 in_sync.
            with_covers (sync_all perform refreshed.0 rdt groups.1 refreshed.1)
              (λ p same i.
                has_task-sync_all i perform refreshed.0 rdt groups.1 refreshed.1 same
                ∙ has_task-refresh i perform created.0 created.1 c4
                ∙ covers i)
              (sync_all-IsInSync perform refreshed.0 rdt groups.1 refreshed.1 in_sync))
      where
        with_covers :
            (m : Outcome (List Action × Watched))
            → ((p : List Action × Watched)
                → m ≡ ok p
                → (i : Text) → has_task i p.1 ≡ is_in i (ids_of tasks))
            → IsSettled perform AreInSync m
            → IsSettled perform (AreWatching tasks) m
        with_covers m covers (inl (p, same, in_sync)) =
            inl (p, same, record { in_sync = in_sync; covers = covers p same })
        with_covers m covers (inr raised) = inr raised
