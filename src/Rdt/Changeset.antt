-- ===== src/Rdt/Changeset.antt =====
-- `_is_rdt_suballocation_changed` and `RDTAllocationValue.calculate_changeset` of
-- wca/resctrl_allocations.py.
pub mod Changed
pub mod Merge
pub mod Settle
use workload_collocation_age.Base.{
  ℕ, Bool, true, false, List, [], ◌∷◌, Option, none, some, ◌≡◌, refl, not, ◌&&◌, ◌||◌, ◌==◌,
  if◌then◌else◌, Outcome, ok, err, Error, ◌>>=◌, ◌>>◌, guard,
}
use workload_collocation_age.Base.Eq.{Text_eq, ◌=?◌}
use workload_collocation_age.Base.Dict.{Dict, get, has}
use workload_collocation_age.Base.Text.{Text, codes, drop_while}
use workload_collocation_age.Rdt.Schemata.{parse_row}
use workload_collocation_age.Rdt.Allocation.{
  RdtAllocation, RdtAllocationValue, is_set, or_else, get_resgroup_name, copy, copy_moved,
}

-- `first.lstrip(' 0') == second.lstrip(' 0')`
abbrev pub is_blank_or_zero : ℕ → Bool
is_blank_or_zero c = (c == b' ') || (c == b'0')

abbrev pub is_equal : Text → Text → Bool
is_equal first second = drop_while is_blank_or_zero first =? drop_while is_blank_or_zero second

-- `common_domains_names == set(new_domains.keys())`: every new domain is a current one.
unfoldable pub is_subset : Dict Text Text → Dict Text Text → Bool
is_subset [] current = true
is_subset ((k, v) ∷ new) current = has k current && is_subset new current

-- The loop over the common domains: does one differ?
abbrev pub differs_from : Option Text → Text → Bool
differs_from none v = false
differs_from (some w) v = not (is_equal w v)

unfoldable pub some_differs : Dict Text Text → Dict Text Text → Bool
some_differs [] current = false
some_differs ((k, v) ∷ new) current = differs_from (get k current) v || some_differs new current

unfoldable pub compare_rows : Text → Text → Outcome Bool
compare_rows current new = do
  current_domains ← parse_row current
  new_domains ← parse_row new
  guard (is_subset new_domains current_domains) Error.assertion_error
  ok (some_differs new_domains current_domains)

unfoldable pub is_rdt_suballocation_changed : Option Text → Option Text → Outcome Bool
is_rdt_suballocation_changed current none = ok false
is_rdt_suballocation_changed none (some new) = err Error.assertion_error
is_rdt_suballocation_changed (some current) (some new) = compare_rows current new

abbrev pub keep_if : Bool → Option Text → Option Text
keep_if changed new = if changed then new else none

-- The target and the changeset, once it is known which rows changed.
unfoldable pub merged :
    RdtAllocationValue
    → RdtAllocationValue
    → Bool
    → Bool
    → RdtAllocationValue × Option RdtAllocationValue
merged new current l3_changed mb_changed =
    let a = new.rdt_allocation in
    let c = current.rdt_allocation in
    let new_l3 = keep_if l3_changed a.l3 in
    let new_mb = keep_if mb_changed a.mb in
    (
      copy current (record { name = c.name; l3 = or_else a.l3 c.l3; mb = or_else a.mb c.mb }),
      (if is_set new_l3 || is_set new_mb
          then some (copy current (record { name = a.name; l3 = new_l3; mb = new_mb }))
          else none),
    )

-- Both are in the group of the same name.
unfoldable pub merge_same_group :
    RdtAllocationValue
    → RdtAllocationValue
    → Outcome (RdtAllocationValue × Option RdtAllocationValue)
merge_same_group new current = do
  l3_changed ← is_rdt_suballocation_changed current.rdt_allocation.l3 new.rdt_allocation.l3
  mb_changed ← is_rdt_suballocation_changed current.rdt_allocation.mb new.rdt_allocation.mb
  ok (merged new current l3_changed mb_changed)

unfoldable pub calculate_changeset :
    RdtAllocationValue
    → Option RdtAllocationValue
    → Outcome (RdtAllocationValue × Option RdtAllocationValue)
calculate_changeset new none =
    ok (new, some (copy_moved new new.rdt_allocation (get_resgroup_name new) []))
calculate_changeset new (some current) =
    if get_resgroup_name current =? get_resgroup_name new
    then merge_same_group new current
    else ok (
      new,
      some (copy_moved new new.rdt_allocation (get_resgroup_name new) (get_resgroup_name current)),
    )
