-- ===== src/Perf/CgroupDerived/Flat.antt =====
-- Derived metrics of counters without levels: where a division by zero is guarded, and where not.
use workload_collocation_age.Base.{
  ℕ, ◌≡◌, refl, ap, ◌∙◌, inl, inr, true, Option, none, some, List, length, arith, Bool-cases, ok,
  err, Error, ◌>>=◌, from_option, ok-injective, String,
}
use workload_collocation_age.Base.Eq.{String_eq}
use workload_collocation_age.Base.Int.{pos}
use workload_collocation_age.Base.Dict.{get, has-true}
use workload_collocation_age.Base.Number.{
  Number, fraction, subtract, divide-positive, divide-zero, is_positive,
}
use workload_collocation_age.Metrics.Names.{MetricName, value}
use workload_collocation_age.Metrics.Metadata.{MetricValue, MetricMetadata, Metadata}
use workload_collocation_age.Metrics.Tree.{leaf, Measurements}
use workload_collocation_age.Metrics.Merge.{levels_of, levels_in, levels_or_none}
use workload_collocation_age.Metrics.Derived.{
  available, delta, delta_of, max_depth, len_levels, combine, on_each_number, sub,
}
use workload_collocation_age.Perf.CgroupDerived.{
  store, flat_ipc, store_ips, store_ipc, misses_per_kilo, deltas, both, derive_ipc, derive_misses,
}

max_depth-levels_of :
    (md : Metadata) (n : String) {d : ℕ} → max_depth md n ≡ ok d → length (levels_of md n) ≡ d
unfolding max_depth
max_depth-levels_of md n h = from_entry (get n md) h
  where
    from_levels :
        (o : Option (List String)) {d : ℕ} → len_levels o ≡ ok d → length (levels_or_none o) ≡ d
    from_levels none h = absurd (cc h)
    from_levels (some levels) h = ok-injective h

    from_entry :
        (o : Option MetricMetadata) {d : ℕ}
        → (from_option o Error.key_error >>= λ m. len_levels m.levels) ≡ ok d
        → length (levels_in o) ≡ d
    from_entry none h = absurd (cc h)
    from_entry (some m) h = from_levels m.levels h

-- A metric without levels that both measurements contain, with its two values.
pub record IsFlat (md : Metadata) (m prev : Measurements MetricValue) (n : MetricName)
    (now before : Number) : Type 0 where
  pub flat : max_depth md (value n) ≡ ok 0
  pub current : get (value n) m ≡ some (leaf now)
  pub previous : get (value n) prev ≡ some (leaf before)

module _ (md : Metadata) (m prev : Measurements MetricValue) where
  delta_of-flat :
      (n : MetricName) (now before : Number)
      → IsFlat md m prev n now before
      → delta_of md m prev (value n) ≡ ok (leaf (subtract now before))
  unfolding delta_of combine
  delta_of-flat n now before h =
      ap
        (λ o. from_option o Error.key_error >>= λ a.
          from_option (get (value n) prev) Error.key_error >>= λ b.
          combine sub (length (levels_of md (value n))) a b)
        h.current
      ∙ ap
          (λ o. from_option o Error.key_error >>= λ b.
            combine sub (length (levels_of md (value n))) (leaf now) b)
          h.previous
      ∙ ap (λ d. combine sub d (leaf now) (leaf before)) (max_depth-levels_of md (value n) h.flat)

  both-flat :
      (a b : MetricName) {na pa nb pb : Number}
      → IsFlat md m prev a na pa
      → IsFlat md m prev b nb pb
      → both md prev m a b ≡ true
  unfolding available
  both-flat a b ha hb =
      let am = has-true (value a) m ha.current in
      let ap' = has-true (value a) prev ha.previous in
      let bm = has-true (value b) m hb.current in
      let bp = has-true (value b) prev hb.previous in ground arith

  deltas-flat :
      (a b : MetricName) {na pa nb pb : Number}
      → IsFlat md m prev a na pa
      → IsFlat md m prev b nb pb
      → deltas md prev m a b ≡ ok (leaf (subtract na pa), leaf (subtract nb pb))
  unfolding delta
  deltas-flat a b {na} {pa} {nb} {pb} ha hb =
      rw (both-flat a b ha hb, delta_of-flat a na pa ha, delta_of-flat b nb pb hb) refl

  store_ips-flat :
      (time inst : Number) (m : Measurements MetricValue)
      → (r : Measurements MetricValue) × (store_ips 0 time (leaf inst) m ≡ ok r)
  unfolding store_ips on_each_number
  store_ips-flat time inst m = elim (Bool-cases (is_positive time)) [
    | inl some_time ↦
        let (q, e) = divide-positive inst time some_time in
        (store MetricName.task_ips m (leaf q), rw (some_time, e) refl)
    | inr no_time ↦ (m, rw no_time refl)
  ]

  store_ipc-flat :
      (inst cycles : Number) (m : Measurements MetricValue)
      → (r : Measurements MetricValue) × (store_ipc 0 (leaf inst) (leaf cycles) m ≡ ok r)
  unfolding store_ipc flat_ipc
  store_ipc-flat inst cycles m = elim (Bool-cases (is_positive cycles)) [
    | inl some_cycles ↦
        let (q, e) = divide-positive inst cycles some_cycles in
        (store MetricName.task_ipc m (leaf q), rw (some_cycles, e) refl)
    | inr no_cycles ↦ (m, rw no_cycles refl)
  ]

  -- Where instructions and cycles have no levels and both measurements contain them, the
  -- instructions per cycle and per second are derived without an exception, whatever the counters
  -- and the time are.
  pub derive_ipc-flat :
      (time : Number) {ni pi nc pc : Number}
      → IsFlat md m prev MetricName.task_instructions ni pi
      → IsFlat md m prev MetricName.task_cycles nc pc
      → (r : Measurements MetricValue) × (derive_ipc md prev time m ≡ ok r)
  unfolding derive_ipc
  derive_ipc-flat time {ni} {pi} {nc} {pc} hi hc =
      let (s, first) = store_ipc-flat (subtract ni pi) (subtract nc pc) m in
      let (r, second) = store_ips-flat time (subtract ni pi) s in
      (
        r,
        rw
            (
              both-flat MetricName.task_instructions MetricName.task_cycles hi hc,
              deltas-flat MetricName.task_instructions MetricName.task_cycles hi hc,
              hi.flat,
              first,
            )
            second,
      )

  -- With the same counters the misses per thousand instructions are not guarded: the call raises
  -- `ZeroDivisionError` when no instruction was counted since the last measurement.
  pub derive_misses-zero :
      {ni pi nm pm : Number} (d : ℕ)
      → IsFlat md m prev MetricName.task_instructions ni pi
      → IsFlat md m prev MetricName.task_cache_misses nm pm
      → subtract ni pi ≡ fraction (pos 0) d
      → derive_misses md prev m ≡ err Error.zero_division
  unfolding derive_misses misses_per_kilo combine
  derive_misses-zero {ni} {pi} {nm} {pm} d hi hm idle =
      rw
        (
          both-flat MetricName.task_instructions MetricName.task_cache_misses hi hm,
          deltas-flat MetricName.task_instructions MetricName.task_cache_misses hi hm,
          hm.flat,
          idle,
        )
        (rw (divide-zero (subtract nm pm) d) refl)
