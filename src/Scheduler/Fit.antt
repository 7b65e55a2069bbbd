-- ===== src/Scheduler/Fit.antt =====
-- `app_fits` and `Fit.app_fit_node` of wca/scheduler/algorithms/fit.py, without the metrics and the
-- text of the message: what is missing stands for it.
pub mod Leaves
use workload_collocation_age.Base.{
  ℕ, zero, suc, ◌+◌, ◌-◌, ◌*◌, ◌/◌, ◌%◌, ◌≤◌, ◌<◌, ◌≡◌, refl, sym, ap, ◌∙◌, ◌≢◌, ◌↔◌, ◌⊎◌, inl, inr,
  Bool, true, false, not, ◌&&◌, ◌||◌, Option, none, some, List, [], ◌∷◌, ◌++◌, map, length, All,
  All-map, In, arith, ltb, leb, ◌==◌, ==_iff, if◌then◌else◌, Bool-cases, Option-cases, Outcome, ok,
  err, Error, ◌>>=◌, ◌>>◌, guard, from_option, on_value_error, >>=-eq-ok, ok-injective, traverse,
  each, Outcome-cases,
}
use workload_collocation_age.Base.Eq.{Eq, ◌=?◌}
use workload_collocation_age.Base.Dict.{Dict, get, put}
use workload_collocation_age.Scheduler.Filter.{is_in}
use workload_collocation_age.Scheduler.Resources.{
  ResourceType, Arithmetic, Resources, calculate_read_write_ratio, used_resources_on_node,
  subtract_resources, sum_resources, enough_resources_on_node, value_of, cpu,
}

-- `{app: len(tasks) for app, tasks in apps.items()}`
abbrev pub count_apps : {A X : Type 0} → Dict A (List X) → Dict A ℕ
count_apps [] = []
count_apps ((app, tasks) ∷ apps) = (app, length tasks) ∷ count_apps apps

module _ {N : Type 0} ⦃e : Eq ResourceType⦄ (a : Arithmetic N) where
  -- `DataMissingException` replaces a `ValueError` of the sum.
  unfoldable pub fits_on :
      Resources a → Resources a → Resources a → Option N → Outcome (Bool × Resources a)
  fits_on used requested capacity ratio =
      on_value_error (sum_resources a requested used) Error.data_missing >>= λ requested_and_used.
      enough_resources_on_node a capacity requested_and_used ratio >>= λ p. ok (p.0, p.1)

module _ {N T : Type 0} ⦃e : Eq ResourceType⦄ ⦃et : Eq T⦄ (a : Arithmetic N) where
  -- The capacities with the CPUs of the nodes that have persistent memory scaled.
  unfoldable pub scale_cpus : List T → N → Dict T (Resources a) → Outcome (Dict T (Resources a))
  scale_cpus pmem_nodes factor [] = ok []
  scale_cpus pmem_nodes factor ((node, capacity) ∷ nodes) =
      let rest = scale_cpus pmem_nodes factor nodes in
      if is_in node pmem_nodes
      then value_of a cpu capacity
        >>= (λ v. rest >>= λ others. ok ((node, put cpu (a.times v factor) capacity) ∷ others))
      else (rest >>= λ others. ok ((node, capacity) ∷ others))

module _ {N A T : Type 0} ⦃e : Eq ResourceType⦄ ⦃ea : Eq A⦄ ⦃et : Eq T⦄ (a : Arithmetic N) where
  -- The capacity, the requested and the used resources, and the ratio; the free resources are
  -- computed for the metrics, and may raise.
  unfoldable pub used_free_requested :
      {X : Type 0}
      → T
      → A
      → List ResourceType
      → Dict T (Resources a)
      → Dict T (Dict A (List X))
      → Dict A (Resources a)
      → Outcome (Resources a × Resources a × Resources a × Option N)
  used_free_requested node_name app_name dimensions nodes_capacities assigned_apps apps_spec = do
    let capacity = (← from_option (get node_name nodes_capacities) Error.key_error)
    let ratio = (← calculate_read_write_ratio a capacity)
    let apps = (← from_option (get node_name assigned_apps) Error.key_error)
    let used = (← used_resources_on_node a dimensions (count_apps apps) apps_spec)
    let requested = (← from_option (get app_name apps_spec) Error.key_error)
    let free = (← subtract_resources a capacity used ratio)
    ok (used, requested, capacity, ratio)

  unfoldable pub app_fits :
      {X : Type 0}
      → T
      → A
      → List ResourceType
      → Dict T (Resources a)
      → Dict T (Dict A (List X))
      → Dict A (Resources a)
      → Outcome (Bool × Resources a)
  app_fits node_name app_name dimensions nodes_capacities assigned_apps apps_spec =
      used_free_requested node_name app_name dimensions nodes_capacities assigned_apps apps_spec
      >>= λ p. fits_on a p.0 p.1 p.2 p.3

  unfoldable pub app_fit_node :
      {X : Type 0}
      → List T
      → N
      → T
      → A
      → List ResourceType
      → Dict T (Resources a)
      → Dict T (Dict A (List X))
      → Dict A (Resources a)
      → Outcome (Bool × Resources a)
  app_fit_node pmem_nodes factor node_name app_name dimensions nodes_capacities assigned_apps
        apps_spec =
      scale_cpus a pmem_nodes factor nodes_capacities >>= λ capacities.
      app_fits node_name app_name dimensions capacities assigned_apps apps_spec
