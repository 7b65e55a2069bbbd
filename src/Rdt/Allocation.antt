-- ===== src/Rdt/Allocation.antt =====
-- `RDTAllocation` of wca/allocators.py, and of wca/resctrl_allocations.py the classes `RDTGroups`
-- and `RDTAllocationValue` with its `get_resgroup_name`, `_copy` and `validate`.
use workload_collocation_age.Base.{
  ℕ, Bool, true, false, List, [], ◌∷◌, ◌++◌, Option, none, some, not, ltb, length, if◌then◌else◌,
  Outcome, ok, err, Error, ◌>>=◌, ◌>>◌, guard,
}
use workload_collocation_age.Base.Eq.{Text_eq, ◌=?◌}
use workload_collocation_age.Base.Dict.{Dict}
use workload_collocation_age.Base.Text.{Text}
use workload_collocation_age.Rdt.Domains.{validate_l3_string}
use workload_collocation_age.Rdt.Bandwidth.{normalize_mb_string}

pub record RdtAllocation : Type 0 where
  pub name : Option Text
  pub l3 : Option Text
  pub mb : Option Text

-- The part of `RDTInformation` that allocations read.
pub record RdtInformation : Type 0 where
  pub rdt_cache_control_enabled : Bool
  pub rdt_mb_control_enabled : Bool
  pub cbm_mask : Option Text
  pub min_cbm_bits : Option Text
  pub num_closids : Option ℕ
  pub mb_bandwidth_gran : Option ℕ
  pub mb_min_bandwidth : Option ℕ

-- A `ResGroup` object is its name: the root group has the empty one. The shared `rdt_groups` is no
-- field here but a state that the methods thread.
pub record RdtAllocationValue : Type 0 where
  pub container_name : Text
  pub rdt_allocation : RdtAllocation
  pub resgroup : Text
  pub pids : List Text
  pub platform_sockets : ℕ
  pub rdt_information : RdtInformation
  pub common_labels : Dict Text Text
  pub source_resgroup : Option Text

-- `if text:` for a text or `None`
abbrev pub is_set : Option Text → Bool
is_set none = false
is_set (some []) = false
is_set (some (c ∷ s)) = true

-- `a or b`
abbrev pub or_else : Option Text → Option Text → Option Text
or_else (some (c ∷ s)) b = some (c ∷ s)
or_else _ b = b

abbrev pub or_default : Option Text → Text → Text
or_default none d = d
or_default (some n) d = n

unfoldable pub get_resgroup_name : RdtAllocationValue → Text
get_resgroup_name v = or_default v.rdt_allocation.name v.container_name

-- `_copy(rdt_allocation)`: the copy has no source group.
unfoldable pub copy : RdtAllocationValue → RdtAllocation → RdtAllocationValue
copy v a = record v { rdt_allocation = a; source_resgroup = none }

-- `_copy(rdt_allocation, resgroup=..., source_resgroup=...)`
unfoldable pub copy_moved : RdtAllocationValue → RdtAllocation → Text → Text → RdtAllocationValue
copy_moved v a target source = record v {
  rdt_allocation = a;
  resgroup = target;
  source_resgroup = some source;
}

-- A set of names as a list without repetition.
abbrev pub contains : Text → List Text → Bool
contains n [] = false
contains n (m ∷ ms) = if m =? n then true else contains n ms

abbrev pub add : Text → List Text → List Text
add n ms = if contains n ms then ms else ms ++ n ∷ []

pub record RdtGroups : Type 0 where
  pub closids_limit : ℕ
  pub already_executed_resgroup_names : List Text
  pub existing_groups : List Text

unfoldable pub should_perform_schemata_write : RdtAllocationValue → RdtGroups → Bool × RdtGroups
unfolding get_resgroup_name
should_perform_schemata_write v g =
    let resgroup_name = get_resgroup_name v in
    if contains resgroup_name g.already_executed_resgroup_names then (false, g) else (
      true,
      record g {
        already_executed_resgroup_names = add resgroup_name g.already_executed_resgroup_names;
      },
    )

-- The group stays counted when the limit is passed: the set is changed before the test.
unfoldable pub validate_groups : RdtAllocationValue → RdtGroups → Outcome (Unit {0}) × RdtGroups
unfolding get_resgroup_name
validate_groups v g =
    let groups = add (get_resgroup_name v) g.existing_groups in
    (
      guard (not (ltb g.closids_limit (length groups))) Error.invalid_allocations,
      record g { existing_groups = groups },
    )

abbrev pub validate_l3 : RdtAllocationValue → Option Text → Outcome (Unit {0})
validate_l3 v (some (c ∷ l3)) = do
  guard v.rdt_information.rdt_cache_control_enabled Error.invalid_allocations
  validate_l3_string (c ∷ l3) v.platform_sockets v.rdt_information.cbm_mask
      v.rdt_information.min_cbm_bits
validate_l3 v _ = ok tt

-- The normalised row goes into a copy of the allocation that is dropped: `replace` returns a new
-- object and its result is not used.
abbrev pub validate_mb : RdtAllocationValue → Option Text → Outcome (Unit {0})
validate_mb v (some (c ∷ mb)) = do
  guard v.rdt_information.rdt_mb_control_enabled Error.invalid_allocations
  normalized_mb_string ←
      normalize_mb_string (c ∷ mb) v.platform_sockets v.rdt_information.mb_min_bandwidth
        v.rdt_information.mb_bandwidth_gran
  ok tt
validate_mb v _ = ok tt

abbrev pub then_groups :
    Outcome (Unit {0}) → RdtAllocationValue → RdtGroups → Outcome (Unit {0}) × RdtGroups
then_groups (ok _) v g = validate_groups v g
then_groups (err e) v g = (err e, g)

unfoldable pub validate : RdtAllocationValue → RdtGroups → Outcome (Unit {0}) × RdtGroups
validate v g =
    then_groups (validate_l3 v v.rdt_allocation.l3 >> validate_mb v v.rdt_allocation.mb) v g
