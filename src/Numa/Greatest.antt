-- ===== src/Numa/Greatest.antt =====
-- The nodes that the scores of numa_allocator.py select.
use mathlib.Core.Path.{subst}
use workload_collocation_age.Base.{
  ℕ, ◌≤◌, ◌≡◌, refl, sym, ap, ◌∙◌, inl, inr, Bool, true, false, ◌&&◌, ◌||◌, Option, none, some,
  List, [], ◌∷◌, All, In, arith, ltb, if◌then◌else◌, Bool-cases, Option-cases, ok, ok-injective,
  Outcome-cases,
}
use workload_collocation_age.Base.Dict.{Dict}
use workload_collocation_age.Numa.{
  TaskData, Platform, greatest, greatest_of, get_least_used_node, first_limit, limits_order,
  get_task_memory_limit,
}
use workload_collocation_age.Numa.Choose.{is_member, first_common, migration_minimizer_core}

-- An item of the dictionary, and none has a greater value.
pub IsGreatest : ℕ × ℕ → Dict ℕ ℕ → Type 0
IsGreatest item items = In item items × All (λ other. other.1 ≤ item.1) items

greatest-lower : (best : ℕ × ℕ) (items : Dict ℕ ℕ) → best.1 ≤ (greatest best items).1
unfolding greatest
greatest-lower best [] = omega arith
greatest-lower best (item ∷ items) =
    ground (arith, greatest-lower (if ltb best.1 item.1 then item else best) items)

greatest-All :
    (best : ℕ × ℕ) (items : Dict ℕ ℕ) → All (λ other. other.1 ≤ (greatest best items).1) items
unfolding greatest
greatest-All best [] = tt
greatest-All best (item ∷ items) = (
  ground (arith, greatest-lower (if ltb best.1 item.1 then item else best) items),
  greatest-All (if ltb best.1 item.1 then item else best) items,
)

greatest-In : (best : ℕ × ℕ) (items : Dict ℕ ℕ) → In (greatest best items) (best ∷ items)
unfolding greatest
greatest-In best [] = inl refl
greatest-In best (item ∷ items) =
    widen (ltb best.1 item.1) (greatest-In (if ltb best.1 item.1 then item else best) items)
  where
    widen :
        (b : Bool) {x : ℕ × ℕ}
        → In x ((if b then item else best) ∷ items)
        → In x (best ∷ item ∷ items)
    widen true h = inr h
    widen false (inl same) = inl same
    widen false (inr later) = inr (inr later)

pub greatest_of-IsGreatest :
    (items : Dict ℕ ℕ) {best : ℕ × ℕ} → greatest_of items ≡ ok best → IsGreatest best items
unfolding greatest_of IsGreatest
greatest_of-IsGreatest [] h = absurd (cc h)
greatest_of-IsGreatest (item ∷ items) h =
    subst (λ best. In best (item ∷ items) × All (λ other. other.1 ≤ best.1) (item ∷ items))
      (ok-injective h)
      (greatest-In item items, (greatest-lower item items, greatest-All item items))

-- The least used node has the most free memory.
pub get_least_used_node-IsGreatest :
    (p : Platform) {n : ℕ}
    → get_least_used_node p ≡ ok n
    → (free : ℕ) × IsGreatest (n, free) p.mem_numa_free_bytes
unfolding get_least_used_node
get_least_used_node-IsGreatest p h = elim (Outcome-cases (greatest_of p.mem_numa_free_bytes)) [
  | inl (best, found) ↦
      let same = ok-injective (rw found at h) in
      (
        best.1,
        subst (λ n. IsGreatest (n, best.1) p.mem_numa_free_bytes) same
            (greatest_of-IsGreatest p.mem_numa_free_bytes found),
      )
  | inr (e, failed) ↦ absurd (cc (rw failed at h))
]

-- Without a limit of its own, a task has a limit that the platform's memory bounds.
first_limit-bound : (limits : List (Option ℕ)) (total : ℕ) → first_limit limits total ≤ total
unfolding first_limit
first_limit-bound [] total = omega arith
first_limit-bound (none ∷ limits) total = first_limit-bound limits total
first_limit-bound (some limit ∷ limits) total = ground (arith, first_limit-bound limits total)

pub get_task_memory_limit-bound :
    (d : TaskData) (total : ℕ) → d.mem ≡ none → get_task_memory_limit d total ≤ total
unfolding get_task_memory_limit
get_task_memory_limit-bound d total absent = rw absent (first_limit-bound (limits_order d) total)

first_common-both :
    (a b : List ℕ) {n : ℕ}
    → first_common a b ≡ some n
    → (is_member n a ≡ true) × (is_member n b ≡ true)
unfolding first_common
first_common-both [] b h = absurd (cc h)
first_common-both (m ∷ a) b {n} h = elim (Bool-cases (is_member m b)) [
  | inl inside ↦
      let same = some_eq (rw inside at h) in
      ((rw same (ground arith)), (ap (λ k. is_member k b) (sym same) ∙ inside))
  | inr outside ↦ let (in_a, in_b) = first_common-both a b (rw outside at h) in (ground arith, in_b)
]
  where
    some_eq : some m ≡ some n → m ≡ n
    some_eq h = cc

-- A chosen node lies in two of the three sets at least: most used, best memory and most free.
pub migration_minimizer_core-common :
    (used best free : List ℕ) {n : ℕ}
    → migration_minimizer_core used best free ≡ some n
    → ((is_member n used && is_member n best)
        || ((is_member n used && is_member n free) || (is_member n best && is_member n free)))
      ≡ true
unfolding migration_minimizer_core
migration_minimizer_core-common used best free {n} h =
    elim (Option-cases (first_common used best)) [
      | inr (m, one) ↦
          let both = first_common-both used best {n = n} (one ∙ (rw one at h)) in ground arith
      | inl none_one ↦ elim (Option-cases (first_common used free)) [
        | inr (m, two) ↦
            let both = first_common-both used free {n = n} (two ∙ (rw (none_one, two) at h)) in
            ground arith
        | inl none_two ↦
            let both = first_common-both best free {n = n} (rw (none_one, none_two) at h) in
            ground arith
      ]
    ]
