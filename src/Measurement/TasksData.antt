-- ===== src/Measurement/TasksData.antt =====
-- `append_additional_labels_to_tasks` and `_prepare_tasks_data` of wca/runners/measurement.py.
use mathlib.Core.Path.{subst}
use workload_collocation_age.Base.{
  ◌≡◌, refl, sym, ◌∙◌, Bool, true, false, Option, none, some, List, [], ◌∷◌, length, if◌then◌else◌,
  Outcome, ok, ◌>>=◌,
}
use workload_collocation_age.Base.Eq.{◌=?◌, Text_eq, String_eq}
use workload_collocation_age.Base.Int.{pos}
use workload_collocation_age.Base.Dict.{Dict, get, put, has, get-put, has-true}
use workload_collocation_age.Base.Number.{Number, whole}
use workload_collocation_age.Base.Text.{Text, codes}
use workload_collocation_age.Metrics.Names.{MetricName, value}
use workload_collocation_age.Metrics.Metadata.{MetricValue}
use workload_collocation_age.Metrics.Tree.{leaf, Measurements}
use workload_collocation_age.Containers.{Task, TaskResource, quantity, description}

-- A generator of `wca/extra` or of the user's: a label for a task, or none.
abbrev pub TaskLabelGenerator : Type 0
TaskLabelGenerator = Task → Option Text

abbrev pub with_labels : Dict Text Text → Task → Task
with_labels labels t = record {
  name = t.name;
  task_id = t.task_id;
  cgroup_path = t.cgroup_path;
  subcgroups_paths = t.subcgroups_paths;
  labels = labels;
  resources = t.resources;
}

abbrev pub set_label : Text → Option Text → Task → Task
set_label target none t = t
set_label target (some v) t = with_labels (put target v t.labels) t

-- A label that the task has already is not generated.
unfoldable pub generate_labels : Dict Text TaskLabelGenerator → Task → Task
generate_labels [] t = t
generate_labels ((target, generate) ∷ generators) t =
    generate_labels generators (if has target t.labels then t else set_label target (generate t) t)

unfoldable pub append_labels : Dict Text TaskLabelGenerator → Task → Task
append_labels generators t =
    generate_labels generators
      (with_labels (put (codes "task_name") t.name (put (codes "task_id") t.task_id t.labels)) t)

unfoldable pub append_additional_labels_to_tasks :
    Dict Text TaskLabelGenerator → List Task → List Task
append_additional_labels_to_tasks generators [] = []
append_additional_labels_to_tasks generators (t ∷ tasks) =
    append_labels generators t ∷ append_additional_labels_to_tasks generators tasks

-- A requested resource is stored where the task has it. Texts are not numbers and are left out of
-- the model: the nodes give numbers for both resources.
abbrev pub store_resource :
    MetricName → Option TaskResource → Measurements MetricValue → Measurements MetricValue
store_resource n (some (quantity v)) m = put (value n) (leaf v) m
store_resource n (some (description s)) m = m
store_resource n none m = m

unfoldable pub with_internal_metrics :
    Number → Task → Measurements MetricValue → Measurements MetricValue
with_internal_metrics now t m =
    store_resource MetricName.task_requested_mem_bytes (get (codes "mem") t.resources) (
      store_resource MetricName.task_requested_cpus (get (codes "cpus") t.resources) (
        put (value MetricName.task_subcontainers) (leaf (whole (pos (length t.subcgroups_paths)))) (
          put (value MetricName.task_last_seen) (leaf now)
            (put (value MetricName.task_up) (leaf (whole (pos 1))) m))))

-- `MeasuredTask`: a task with its measurements.
pub record MeasuredTask : Type 0 where
  pub task : Task
  pub measurements : Measurements MetricValue

abbrev pub TasksData : Type 0
TasksData = Dict Text MeasuredTask

unfoldable pub prepare_tasks_data :
    Number → List (Task × Outcome (Measurements MetricValue)) → TasksData → Outcome TasksData
prepare_tasks_data now [] tasks_data = ok tasks_data
prepare_tasks_data now ((t, measured) ∷ containers) tasks_data = measured >>= λ m.
    prepare_tasks_data now containers
      (put t.task_id (record { task = t; measurements = with_internal_metrics now t m }) tasks_data)

-- Generated labels leave the labels that a task has as they are.
generate_labels-kept :
    (generators : Dict Text TaskLabelGenerator) (t : Task) (k : Text) {v : Text}
    → get k t.labels ≡ some v
    → get k (generate_labels generators t).labels ≡ some v
unfolding generate_labels
generate_labels-kept [] t k h = h
generate_labels-kept ((target, generate) ∷ generators) t k {v} h =
    generate_labels-kept generators
      (if has target t.labels then t else set_label target (generate t) t) k
      (chosen (has target t.labels) refl (generate t))
  where
    chosen :
        (b : Bool)
        → has target t.labels ≡ b
        → (o : Option Text) → get k (if b then t else set_label target o t).labels ≡ some v
    chosen true old o = h
    chosen false new none = h
    chosen false new (some w) = get-put target k w t.labels ∙ other (target =? k) refl
      where
        other : (c : Bool) → (target =? k) ≡ c → (if c then some w else get k t.labels) ≡ some v
        other true same =
            let e = (Text_eq.beq_iff target k).0 same in
            absurd
              (cc (sym new ∙ subst (λ j. has j t.labels ≡ true) (sym e) (has-true k t.labels h)))
        other false differs = h

-- Whatever the generators are, a task is labelled with its own id afterwards.
pub append_labels-task_id :
    (generators : Dict Text TaskLabelGenerator) (t : Task)
    → get (codes "task_id") (append_labels generators t).labels ≡ some t.task_id
unfolding append_labels
append_labels-task_id generators t =
    generate_labels-kept generators
      (with_labels (put (codes "task_name") t.name (put (codes "task_id") t.task_id t.labels)) t)
      (codes "task_id")
      (get-put (codes "task_name") (codes "task_id") t.name
          (put (codes "task_id") t.task_id t.labels)
        ∙ get-put (codes "task_id") (codes "task_id") t.task_id t.labels)
