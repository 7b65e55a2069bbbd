-- ===== src/Containers/Synced.antt =====
-- Synchronisation settles for tasks with proper cgroup paths, and where it returns every container
-- belongs to its task's cgroup and sub-cgroups.
use mathlib.Core.Path.{subst}
use workload_collocation_age.Base.{
  ◌≡◌, refl, sym, ap, ◌∙◌, inl, inr, true, ◌||◌, none, some, List, [], ◌∷◌, ◌++◌, All, arith,
  ==_iff, if◌then◌else◌, Bool-cases, ok, ◌>>=◌, traverse, Outcome, Settles-bind,
}
use workload_collocation_age.Base.Eq.{◌=?◌, Text_eq}
use workload_collocation_age.Base.Dict.{Dict}
use workload_collocation_age.Base.Text.{Text}
use workload_collocation_age.Scheduler.Filter.{is_in}
use workload_collocation_age.Scheduler.Filter.Partition.{is_in-append}
use workload_collocation_age.Containers.{
  Task, Container, Watched, assign, dashed, sanitize_cgroup_path, container_name, add_paths,
  create_container, container_for, Action, assign_known, recreate, create_containers, all_in,
  same_set, refresh_one, refresh, set_resgroups, sync_all, MonitoredRdt, cleanup, reset_counters,
  act, act_all, sync_actions, replace_container,
}
use workload_collocation_age.Containers.Settled.{
  IsRaised, IsSettled, act-IsSettled, act_all-IsSettled,
}

-- A path that starts with a slash and goes on.
abbrev pub IsPath : Text → Type 0
IsPath [] = ⊥
IsPath (c ∷ []) = ⊥
IsPath (c ∷ (d ∷ s)) = c ≡ b'/'

abbrev pub IsProper : Task → Type 0
IsProper t = IsPath t.cgroup_path × All IsPath t.subcgroups_paths

-- A container of the task's cgroup.
abbrev pub IsMatched : Task × Container → Type 0
IsMatched p = p.1.cgroup_path ≡ p.0.cgroup_path

-- One that also has the task's sub-cgroups.
abbrev pub IsInSync : Task × Container → Type 0
IsInSync p = IsMatched p × (same_set p.0.subcgroups_paths p.1.subcontainers ≡ true)

sanitize-ok : (p : Text) → IsPath p → (n : Text) × (sanitize_cgroup_path p ≡ ok n)
unfolding sanitize_cgroup_path
sanitize-ok [] h = elim h [ ]
sanitize-ok (c ∷ []) h = elim h [ ]
sanitize-ok (c ∷ (d ∷ s)) h = (dashed (d ∷ s), rw ((==_iff c b'/').1 h) refl)

container_name-ok : (p : Text) → IsPath p → (n : Text) × (container_name p ≡ ok n)
unfolding container_name sanitize_cgroup_path
container_name-ok [] h = elim h [ ]
container_name-ok (c ∷ []) h = elim h [ ]
container_name-ok (c ∷ (d ∷ s)) h = (dashed (d ∷ s), rw ((==_iff c b'/').1 h) refl)

names-ok :
    (ps : List Text) → All IsPath ps → (ns : List Text) × (traverse container_name ps ≡ ok ns)
names-ok [] all = ([], refl)
names-ok (p ∷ ps) (h, all) =
    let (n, here) = container_name-ok p h in
    let (ns, there) = names-ok ps all in (n ∷ ns, rw (here, there) refl)

add_paths-is_in :
    (q : Text) (seen ps : List Text) → is_in q (add_paths seen ps) ≡ (is_in q seen || is_in q ps)
unfolding add_paths
add_paths-is_in q seen [] = ground arith
add_paths-is_in q seen (p ∷ ps) =
    add_paths-is_in q (if is_in p seen then seen else seen ++ p ∷ []) ps
    ∙ elim (Bool-cases (is_in p seen)) [
      | inl old ↦ rw old (
          ground (
            arith,
            λ (h : (p =? q) ≡ true).
                subst (λ q. is_in q seen ≡ true) ((Text_eq.beq_iff p q).0 h) old,
          ))
      | inr new ↦ rw new (ground (arith, is_in-append q seen (p ∷ [])))
    ]

all_in-intro :
    (xs ys : List Text) → ((q : Text) → is_in q xs ≡ true → is_in q ys ≡ true) → all_in xs ys ≡ true
all_in-intro [] ys f = refl
all_in-intro (x ∷ xs) ys f =
    let here = f x (ground (arith, (Text_eq.beq_iff x x).1 refl)) in
    let there = all_in-intro xs ys (λ q h. f q (ground arith)) in ground arith

add_paths-same_set : (ps : List Text) → same_set ps (add_paths [] ps) ≡ true
add_paths-same_set ps =
    let forth = all_in-intro ps (add_paths [] ps) (λ q h. add_paths-is_in q [] ps ∙ h) in
    let back = all_in-intro (add_paths [] ps) ps (λ q h. sym (add_paths-is_in q [] ps) ∙ h) in
    ground arith

container_for-ok :
    (path : Text) (ps : List Text)
    → IsPath path
    → All IsPath ps
    → (c : Container) × (container_for path ps ≡ ok c)
      × (c.cgroup_path ≡ path)
      × (same_set ps c.subcontainers ≡ true)
unfolding container_for
container_for-ok path [] h all =
    let (n, named) = container_name-ok path h in
    (
      record { cgroup_path = path; name = n; subcontainers = []; resgroup = none },
      rw named refl,
      refl,
      refl,
    )
container_for-ok path (p ∷ ps) h all =
    let (n, named) = sanitize-ok path h in
    let (ns, subnamed) = names-ok (p ∷ ps) all in
    let grouped : Text → Container = λ (m : Text). record {
      cgroup_path = path;
      name = m;
      subcontainers = add_paths [] (p ∷ ps);
      resgroup = none;
    } in
    (
      grouped n,
      rw named (ap (λ m. m >>= λ _. ok (grouped n)) subnamed),
      refl,
      add_paths-same_set (p ∷ ps),
    )

-- Creation succeeds and gives a container in sync with its task.
create_container-ok :
    (t : Task) → IsProper t → (c : Container) × (create_container t ≡ ok c) × IsInSync (t, c)
unfolding create_container
create_container-ok t (path, subs) =
    let (c, created, same, subs_same) =
      container_for-ok t.cgroup_path t.subcgroups_paths path subs in
    (c, created, (same, subs_same))

module _ (path_of : Text → Text) where
  -- The id of a task determines its path.
  abbrev pub IsDetermined : Task → Type 0
  IsDetermined t = IsProper t × (t.cgroup_path ≡ path_of t.task_id)

  abbrev pub IsPlaced : Task × Container → Type 0
  IsPlaced p = IsDetermined p.0 × IsMatched p

  assign-IsPlaced :
      (t : Task) (c : Container) (w : Watched)
      → IsPlaced (t, c)
      → All IsPlaced w
      → All IsPlaced (assign t c w)
  unfolding assign
  assign-IsPlaced t c [] here all = (here, tt)
  assign-IsPlaced t c ((u, d) ∷ w) here (first, all) = elim (Bool-cases (u.task_id =? t.task_id)) [
    | inl same ↦ rw same (
      (
        first.0,
        here.1
            ∙ here.0.1
            ∙ ap path_of (sym ((Text_eq.beq_iff u.task_id t.task_id).0 same))
            ∙ sym first.0.1,
      ),
      all,
    )
    | inr other ↦ rw other (first, assign-IsPlaced t c w here all)
  ]

  assign_known-IsPlaced :
      (t : Task) (known w : Watched)
      → IsDetermined t
      → All IsMatched known
      → All IsPlaced w
      → All IsPlaced (assign_known t known w)
  unfolding assign_known
  assign_known-IsPlaced t [] w determined matched all = all
  assign_known-IsPlaced t ((u, c) ∷ known) w determined (match, matched) all =
      elim (Bool-cases (t.cgroup_path =? u.cgroup_path)) [
        | inl same ↦ rw same (
            assign_known-IsPlaced t known (assign t c w) determined matched (
              assign-IsPlaced t c w
                (determined, match ∙ sym ((Text_eq.beq_iff t.cgroup_path u.cgroup_path).0 same))
                all))
        | inr other ↦ rw other (assign_known-IsPlaced t known w determined matched all)
      ]

  pub recreate-IsPlaced :
      (tasks : List Task) (known w : Watched)
      → All IsDetermined tasks
      → All IsMatched known
      → All IsPlaced w
      → All IsPlaced (recreate tasks known w)
  unfolding recreate
  recreate-IsPlaced [] known w determined matched all = all
  recreate-IsPlaced (t ∷ tasks) known w (here, determined) matched all =
      recreate-IsPlaced tasks known (assign_known t known w) determined matched
        (assign_known-IsPlaced t known w here matched all)

  -- What a stage leaves, besides the record of its actions.
  abbrev pub ArePlaced : List Action × Watched → Type 0
  ArePlaced p = All IsPlaced p.1

abbrev pub AreInSync : List Action × Watched → Type 0
AreInSync p = All IsInSync p.1

module _ (perform : List Action → Action → Outcome (Unit {0})) (path_of : Text → Text) where
  pub create_containers-IsPlaced :
      (done : List Action) (tasks : List Task) (w : Watched)
      → All (IsDetermined path_of) tasks
      → All (IsPlaced path_of) w
      → IsSettled perform (ArePlaced path_of) (create_containers perform done tasks w)
  unfolding create_containers
  create_containers-IsPlaced done [] w determined all = inl ((done, w), refl, all)
  create_containers-IsPlaced done (t ∷ tasks) w (here, determined) all =
      let (c, created, in_sync) = create_container-ok t here.0 in
      rw created (
        Settles-bind (IsRaised perform) (ArePlaced path_of) (act perform done (reset_counters c)) _
          (act-IsSettled perform done (reset_counters c))
          (λ next same u.
            create_containers-IsPlaced next tasks (assign t c w) determined
              (assign-IsPlaced path_of t c w (here, in_sync.0) all)))

  replace_container-IsInSync :
      (done : List Action) (t : Task) (c : Container)
      → IsProper t
      → IsSettled perform (λ p. IsInSync (t, p.1)) (replace_container perform done t c)
  unfolding replace_container
  replace_container-IsInSync done t c proper =
      let (d, created, in_sync) = create_container-ok t proper in
      let R : List Action × Container → Type 0 = λ p. IsInSync (t, p.1) in
      Settles-bind (IsRaised perform) R (act perform done (cleanup c)) _
        (act-IsSettled perform done (cleanup c))
        (λ cleaned same u. rw created (
          Settles-bind (IsRaised perform) R (act perform cleaned (reset_counters d)) _
            (act-IsSettled perform cleaned (reset_counters d))
            (λ next same u. inl ((next, d), refl, in_sync))))

  refresh_one-IsInSync :
      (done : List Action) (t : Task) (c : Container)
      → IsPlaced path_of (t, c)
      → IsSettled perform (λ p. IsInSync (t, p.1)) (refresh_one perform done t c)
  unfolding refresh_one
  refresh_one-IsInSync done t c (determined, match) =
      elim (Bool-cases (same_set t.subcgroups_paths c.subcontainers)) [
        | inl same ↦ rw same (inl ((done, c), refl, (match, same)))
        | inr changed ↦ rw changed (replace_container-IsInSync done t c determined.0)
      ]

  pub refresh-IsInSync :
      (done : List Action) (w : Watched)
      → All (IsPlaced path_of) w
      → IsSettled perform AreInSync (refresh perform done w)
  unfolding refresh
  refresh-IsInSync done [] all = inl ((done, []), refl, tt)
  refresh-IsInSync done ((t, c) ∷ w) (here, all) =
      Settles-bind (IsRaised perform) AreInSync (refresh_one perform done t c) _
        (refresh_one-IsInSync done t c here)
        (λ p one in_sync.
          Settles-bind (IsRaised perform) AreInSync (refresh perform p.0 w) _
            (refresh-IsInSync p.0 w all)
            (λ q others rest. inl ((q.0, (t, p.1) ∷ q.1), refl, (in_sync, rest))))

set_resgroups-IsInSync :
    (names : Dict Text Text) (w : Watched) → All IsInSync w → All IsInSync (set_resgroups names w)
unfolding set_resgroups
set_resgroups-IsInSync names [] all = tt
set_resgroups-IsInSync names ((t, c) ∷ w) (here, all) = (here, set_resgroups-IsInSync names w all)

pub sync_all-IsInSync :
    (perform : List Action → Action → Outcome (Unit {0})) (done : List Action) (rdt : MonitoredRdt)
    (names : Dict Text Text) (w : Watched)
    → All IsInSync w
    → IsSettled perform AreInSync (sync_all perform done rdt names w)
unfolding sync_all
sync_all-IsInSync perform done none names w all = inl ((done, w), refl, all)
sync_all-IsInSync perform done (some monitoring) names w all =
    let actions = sync_actions (set_resgroups names w) in
    Settles-bind (IsRaised perform) AreInSync (act_all perform done actions) _
      (act_all-IsSettled perform done actions)
      (λ next same u. inl ((next, set_resgroups names w), refl, set_resgroups-IsInSync names w all))
