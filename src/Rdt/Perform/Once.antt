-- ===== src/Rdt/Perform/Once.antt =====
-- The schemata of a group is written once, however many tasks share the group.
use workload_collocation_age.Base.{
  ℕ, ◌+◌, ◌≤◌, true, false, List, [], ◌∷◌, ◌++◌, Option, none, some, ◌≡◌, refl, ap, arith,
  if◌then◌else◌, All, Bool-cases, inl, inr,
}
use workload_collocation_age.Base.Eq.{Text_eq, ◌=?◌}
use workload_collocation_age.Base.Text.{Text}
use workload_collocation_age.Rdt.Allocation.{
  RdtAllocationValue, RdtGroups, get_resgroup_name, contains, should_perform_schemata_write,
}
use workload_collocation_age.Rdt.Perform.{
  Call, add_pids, remove, write_schemata, move_calls, schemata_lines, write_calls,
  perform_allocations, perform_all,
}

-- How often the schemata of a group is written.
abbrev pub writes : Text → List Call → ℕ
writes n [] = 0
writes n (write_schemata group lines ∷ calls) = (if group =? n then 1 else 0) + writes n calls
writes n (add_pids group pids mongroup ∷ calls) = writes n calls
writes n (remove group mongroup ∷ calls) = writes n calls

writes-append : (n : Text) (xs ys : List Call) → writes n (xs ++ ys) ≡ writes n xs + writes n ys
writes-append n [] ys = omega arith
writes-append n (write_schemata group lines ∷ calls) ys = omega (arith, writes-append n calls ys)
writes-append n (add_pids group pids mongroup ∷ calls) ys = writes-append n calls ys
writes-append n (remove group mongroup ∷ calls) ys = writes-append n calls ys

-- The value is placed in the group that it is named after.
abbrev pub IsPlaced : RdtAllocationValue → Type 0
IsPlaced v = v.resgroup ≡ get_resgroup_name v

-- What a group may still be written.
abbrev budget : Text → RdtGroups → ℕ
budget n g = if contains n g.already_executed_resgroup_names then 0 else 1

pub contains-append :
    (n m : Text) (ms : List Text)
    → contains n (ms ++ m ∷ []) ≡ (if m =? n then true else contains n ms)
contains-append n m [] = refl
contains-append n m (k ∷ ms) = ground (arith, contains-append n m ms)

moves_write_nothing :
    (n : Text) (mon_groups : Text → List Text) (v : RdtAllocationValue) (source : Option Text)
    → writes n (move_calls mon_groups v source) ≡ 0
moves_write_nothing n mon_groups v none = refl
moves_write_nothing n mon_groups v (some source) = ground arith

write_calls-le :
    (n group : Text) (lines : List Text)
    → writes n (write_calls group lines) ≤ (if group =? n then 1 else 0)
write_calls-le n group [] = ground arith
write_calls-le n group (line ∷ lines) = ground arith

-- What is left of the budget when the group `m` is marked for the first time.
marked-budget :
    (n m : Text) (g : RdtGroups)
    → contains m g.already_executed_resgroup_names ≡ false
    → (if m =? n then 1 else 0)
        + (if contains n (g.already_executed_resgroup_names ++ m ∷ []) then 0 else 1)
      ≡ budget n g
marked-budget n m g h = elim (Bool-cases (m =? n)) [
  | inl same ↦
      let e = (Text_eq.beq_iff m n).0 same in
      rw (contains-append n m g.already_executed_resgroup_names, same, ← e, h)
  | inr other ↦ rw (contains-append n m g.already_executed_resgroup_names, other) (omega arith)
]

perform-budget :
    (n : Text) (mon_groups : Text → List Text) (v : RdtAllocationValue) (g : RdtGroups)
    → IsPlaced v
    → writes n (perform_allocations mon_groups v g).0
        + budget n (perform_allocations mon_groups v g).1
      ≤ budget n g
unfolding perform_allocations should_perform_schemata_write
perform-budget n mon_groups v g p =
    elim (Bool-cases (contains (get_resgroup_name v) g.already_executed_resgroup_names)) [
      | inl old ↦
          rw
            (
              old,
              writes-append n (move_calls mon_groups v v.source_resgroup) [],
              moves_write_nothing n mon_groups v v.source_resgroup,
            )
            (omega arith)
      | inr new ↦
          rw
            (
              new,
              writes-append n (move_calls mon_groups v v.source_resgroup)
                  (write_calls v.resgroup (schemata_lines v)),
              moves_write_nothing n mon_groups v v.source_resgroup,
            )
            (omega (
              arith,
              write_calls-le n v.resgroup (schemata_lines v),
              ap {B = ℕ} (λ m. if m =? n then 1 else 0) p,
              marked-budget n (get_resgroup_name v) g new,
            ))
    ]

perform_all-budget :
    (n : Text) (vs : List ((Text → List Text) × RdtAllocationValue)) (g : RdtGroups)
    → All (λ p. IsPlaced p.1) vs
    → writes n (perform_all vs g).0 ≤ budget n g
unfolding perform_all
perform_all-budget n [] g h = omega arith
perform_all-budget n ((mon_groups, v) ∷ vs) g (p, h) =
    let (calls, g') = perform_allocations mon_groups v g in
    rw (writes-append n calls (perform_all vs g').0)
      (omega (arith, perform-budget n mon_groups v g p, perform_all-budget n vs g' h))

-- For values that are each placed in the group they are named after, and from any state of the shared
-- groups: each group's schemata is written at most once in one iteration, and not at all if it was
-- marked before.
pub perform_all_once :
    (n : Text) (vs : List ((Text → List Text) × RdtAllocationValue)) (g : RdtGroups)
    → All (λ p. IsPlaced p.1) vs
    → writes n (perform_all vs g).0
      ≤ (if contains n g.already_executed_resgroup_names then 0 else 1)
perform_all_once n vs g h = perform_all-budget n vs g h
