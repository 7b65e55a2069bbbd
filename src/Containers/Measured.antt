-- ===== src/Containers/Measured.antt =====
-- Measurements and allocations of `Container` and `ContainerSet` of wca/containers.py. What the
-- cgroup, the perf counters, resctrl and /proc are read for are arguments.
use mathlib.Core.Path.{subst}
use workload_collocation_age.Base.{
  ◌≡◌, refl, sym, ap, ◌∙◌, ◌↔◌, inl, inr, Bool, true, false, not, ◌&&◌, ◌||◌, Option, none, some,
  List, [], ◌∷◌, All, In, arith, if◌then◌else◌, Bool-cases, Outcome, ok, Error, ◌>>=◌, ◌>>◌, guard,
  from_option, >>=-eq-ok, ok-injective, traverse, String,
}
use workload_collocation_age.Base.Eq.{Eq, ◌=?◌, String_eq}
use workload_collocation_age.Base.Dict.{Dict, get, put, has, get-put, has-true}
use workload_collocation_age.Metrics.Metadata.{MetricValue, Metadata}
use workload_collocation_age.Metrics.Tree.{Measurements}
use workload_collocation_age.Metrics.Merge.{merge_measurements}
use workload_collocation_age.Scheduler.Filter.{update}

-- `set(measurement.keys()) & set(flat.keys())` is not empty.
abbrev pub overlap : {V : Type 0} → Dict String V → Dict String V → Bool
overlap [] flat = false
overlap ((k, v) ∷ m) flat = has k flat || overlap m flat

unfoldable pub flatten_from :
    {V : Type 0} → List (Dict String V) → Dict String V → Outcome (Dict String V)
flatten_from [] flat = ok flat
flatten_from (m ∷ measurements) flat =
    guard (not (overlap m flat)) Error.assertion_error >> flatten_from measurements (update flat m)

unfoldable pub flatten_measurements : {V : Type 0} → List (Dict String V) → Outcome (Dict String V)
flatten_measurements measurements = flatten_from measurements []

-- The configuration of a `Container` that its measurements depend on.
pub record Sources : Type 0 where
  pub event_names : Bool
  pub monitoring : Bool
  pub resgroup : Bool
  pub wss : Bool
  pub sched : Bool

-- `wss_measurements` is not bound where WSS is measured and there is no resgroup.
unfoldable pub wss_measurements :
    Bool → Bool → Outcome (Measurements MetricValue) → Outcome (Option (Measurements MetricValue))
wss_measurements false resgroup measured = ok (some [])
wss_measurements true false measured = ok none
wss_measurements true true measured = measured >>= λ m. ok (some m)

abbrev pub enabled : Bool → Outcome (Measurements MetricValue) → Outcome (Measurements MetricValue)
enabled b measured = if b then measured else ok []

-- `Container._get_measurements`
unfoldable pub get_container_measurements :
    Sources
    → (cgroup perf rdt sched : Outcome (Measurements MetricValue))
    → (Measurements MetricValue → Outcome (Measurements MetricValue))
    → Outcome (Measurements MetricValue)
get_container_measurements s cgroup perf rdt sched wss = cgroup >>= λ c.
    enabled s.event_names perf >>= λ p. enabled (s.resgroup && s.monitoring) rdt >>= λ r.
    wss_measurements s.wss s.resgroup (wss r) >>= λ w. enabled s.sched sched >>= λ d.
    from_option w Error.unbound_local >>= λ w. flatten_measurements (c ∷ r ∷ p ∷ w ∷ d ∷ [])

-- `ContainerSet.get_measurements`: later measurements replace earlier ones with the same name.
unfoldable pub get_set_measurements :
    Metadata
    → (monitoring resgroup wss : Bool) → Outcome (Measurements MetricValue)
    → (Measurements MetricValue → Outcome (Measurements MetricValue))
    → List (Outcome (Measurements MetricValue))
    → Outcome (Measurements MetricValue)
get_set_measurements metadata monitoring resgroup wss rdt measure_wss subcontainers =
    (if monitoring then guard resgroup Error.assertion_error >> rdt else ok []) >>= λ m.
    (if wss then (measure_wss m >>= (λ w. ok (update m w))) else ok m) >>= λ m.
    traverse (λ measured. measured) subcontainers >>= λ ms.
    merge_measurements metadata ms >>= λ merged. ok (update m merged)

-- `get_subcgroups_cpuset_allocations`: the first sub-cgroup decides, another value is only logged.
pub data CpusetType : Type 0 where
  cpuset_cpus cpuset_mems : CpusetType

abbrev pub same_type : CpusetType → CpusetType → Bool
same_type CpusetType.cpuset_cpus CpusetType.cpuset_cpus = true
same_type CpusetType.cpuset_cpus CpusetType.cpuset_mems = false
same_type CpusetType.cpuset_mems CpusetType.cpuset_cpus = false
same_type CpusetType.cpuset_mems CpusetType.cpuset_mems = true

pub same_type_iff : (a b : CpusetType) → (same_type a b ≡ true) ↔ (a ≡ b)
same_type_iff CpusetType.cpuset_cpus CpusetType.cpuset_cpus = ground arith
same_type_iff CpusetType.cpuset_cpus CpusetType.cpuset_mems = ground arith
same_type_iff CpusetType.cpuset_mems CpusetType.cpuset_cpus = ground arith
same_type_iff CpusetType.cpuset_mems CpusetType.cpuset_mems = ground arith

instance abbrev pub CpusetType_eq : Eq CpusetType
CpusetType_eq = record { beq = same_type; beq_iff = same_type_iff }

unfoldable pub cpuset_allocations :
    {V : Type 0} → List (V × V) → Dict CpusetType V → Dict CpusetType V
cpuset_allocations [] allocations = allocations
cpuset_allocations ((cpus, mems) ∷ subcgroups) allocations =
    let with_cpus =
      if has CpusetType.cpuset_cpus allocations
      then allocations
      else put CpusetType.cpuset_cpus cpus allocations in
    cpuset_allocations subcgroups (
      if has CpusetType.cpuset_mems with_cpus
      then with_cpus
      else put CpusetType.cpuset_mems mems with_cpus)

-- The keys of a dictionary are distinct.
abbrev pub AreDistinct : {V : Type 0} → Dict String V → Type 0
AreDistinct [] = Unit
AreDistinct ((k, v) ∷ m) = (has k m ≡ false) × AreDistinct m

guard-true : (b : Bool) {u : Unit {0}} → guard b Error.assertion_error ≡ ok u → b ≡ true
guard-true true h = refl
guard-true false h = absurd (cc h)

module _ {V : Type 0} where
  pub get-update_old :
      (d m : Dict String V) (n : String) → has n m ≡ false → get n (update d m) ≡ get n d
  get-update_old d [] n out = refl
  get-update_old d ((k, v) ∷ m) n out =
      get-update_old (put k v d) m n (ground arith)
      ∙ get-put k n v d
      ∙ ap (λ b. if b then some v else get n d) (differs (k =? n) (has n m) out)
    where
      differs : (b c : Bool) → (if b then true else c) ≡ false → b ≡ false
      differs true c h = absurd (cc h)
      differs false c h = refl

  pub get-update_new :
      (d m : Dict String V) (n : String) {v : V}
      → AreDistinct m
      → get n m ≡ some v
      → get n (update d m) ≡ some v
  get-update_new d [] n apart h = absurd (cc h)
  get-update_new d ((k, w) ∷ m) n {v} (fresh, apart) h = elim (Bool-cases (k =? n)) [
    | inl same ↦
        let e = (String_eq.beq_iff k n).0 same in
        get-update_old (put k w d) m n (subst (λ n. has n m ≡ false) e fresh)
        ∙ get-put k n w d
        ∙ ap (λ b. if b then some w else get n d) same
        ∙ (rw same at h)
    | inr other ↦ get-update_new (put k w d) m n apart (rw other at h)
  ]

  overlap-has :
      (m d : Dict String V) (n : String) → overlap m d ≡ false → has n d ≡ true → has n m ≡ false
  overlap-has [] d n apart h = refl
  overlap-has ((k, v) ∷ m) d n apart h = elim (Bool-cases (k =? n)) [
    | inl same ↦
        let known : has k d ≡ true =
          subst (λ k. has k d ≡ true) (sym ((String_eq.beq_iff k n).0 same)) h in
        absurd (ground arith)
    | inr other ↦ rw other (overlap-has m d n (ground arith) h)
  ]

  flatten_from-old :
      (ms : List (Dict String V)) (flat : Dict String V) {r : Dict String V} (n : String) {v : V}
      → flatten_from ms flat ≡ ok r
      → get n flat ≡ some v
      → get n r ≡ some v
  unfolding flatten_from
  flatten_from-old [] flat n {v} h found = subst (λ r. get n r ≡ some v) (ok-injective h) found
  flatten_from-old (m ∷ ms) flat n h found =
      let (u, checked, rest) = >>=-eq-ok (guard (not (overlap m flat)) Error.assertion_error) _ h in
      let no_overlap = guard-true (not (overlap m flat)) checked in
      let apart = overlap-has m flat n (ground arith) (has-true n flat found) in
      flatten_from-old ms (update flat m) n rest (get-update_old flat m n apart ∙ found)

  flatten_from-new :
      (ms : List (Dict String V)) (flat m : Dict String V) {r : Dict String V} (n : String) {v : V}
      → All AreDistinct ms
      → flatten_from ms flat ≡ ok r
      → In m ms
      → get n m ≡ some v
      → get n r ≡ some v
  unfolding flatten_from
  flatten_from-new [] flat m n apart h inside found = elim inside [ ]
  flatten_from-new (k ∷ ms) flat m n {v} (first, apart) h inside found =
      let (u, checked, rest) = >>=-eq-ok (guard (not (overlap k flat)) Error.assertion_error) _ h in
      elim inside [
        | inl same ↦
            flatten_from-old ms (update flat k) n rest
              (get-update_new flat k n first (subst (λ m. get n m ≡ some v) same found))
        | inr later ↦ flatten_from-new ms (update flat k) m n apart rest later found
      ]

  -- If flattening succeeds, every value of every measurement is in the result under its name.
  pub flatten_measurements-kept :
      (ms : List (Dict String V)) (m : Dict String V) {r : Dict String V} (n : String) {v : V}
      → All AreDistinct ms
      → flatten_measurements ms ≡ ok r
      → In m ms
      → get n m ≡ some v
      → get n r ≡ some v
  unfolding flatten_measurements
  flatten_measurements-kept ms m n apart h inside found =
      flatten_from-new ms [] m n apart h inside found
