-- ===== src/Rdt/Perform.antt =====
-- `RDTAllocationValue.perform_allocations` of wca/resctrl_allocations.py, as the calls that it makes
-- on resource groups.
pub mod Once
pub mod Closids
use workload_collocation_age.Base.{
  ℕ, Bool, true, false, List, [], ◌∷◌, ◌++◌, Option, none, some, ◌≡◌, refl, ◌&&◌, ◌==◌, length,
  if◌then◌else◌, Outcome, ok, err, Error,
}
use workload_collocation_age.Base.Text.{Text}
use workload_collocation_age.Rdt.Allocation.{
  RdtAllocationValue, RdtGroups, is_set, or_default, should_perform_schemata_write, validate,
}

-- The methods of `ResGroup` that are called, each with the name of its group.
pub data Call : Type 0 where
  add_pids : Text → List Text → Text → Call
  remove : Text → Text → Call
  write_schemata : Text → List Text → Call

-- `mon_groups` is what the resctrl file system lists for a group when it is asked.
abbrev pub move_calls : (Text → List Text) → RdtAllocationValue → Option Text → List Call
move_calls mon_groups v none = []
move_calls mon_groups v (some source) =
    add_pids v.resgroup v.pids v.container_name
    ∷ (if length (mon_groups source) == 1 then remove source v.container_name ∷ [] else [])

abbrev pub line_if : Bool → Option Text → List Text
line_if enabled row = if is_set row && enabled then or_default row [] ∷ [] else []

abbrev pub schemata_lines : RdtAllocationValue → List Text
schemata_lines v =
    line_if v.rdt_information.rdt_cache_control_enabled v.rdt_allocation.l3
    ++ line_if v.rdt_information.rdt_mb_control_enabled v.rdt_allocation.mb

abbrev pub write_calls : Text → List Text → List Call
write_calls group [] = []
write_calls group (line ∷ lines) = write_schemata group (line ∷ lines) ∷ []

unfoldable pub perform_allocations :
    (Text → List Text) → RdtAllocationValue → RdtGroups → List Call × RdtGroups
perform_allocations mon_groups v g =
    let moves = move_calls mon_groups v v.source_resgroup in
    let (write, g') = should_perform_schemata_write v g in
    (moves ++ (if write then write_calls v.resgroup (schemata_lines v) else []), g')

-- `AllocationsDict.perform_allocations` over the values of one iteration, which share their groups.
-- The file system may answer differently each time.
unfoldable pub perform_all :
    List ((Text → List Text) × RdtAllocationValue) → RdtGroups → List Call × RdtGroups
perform_all [] g = ([], g)
perform_all ((mon_groups, v) ∷ vs) g =
    let (calls, g') = perform_allocations mon_groups v g in
    let (rest, g'') = perform_all vs g' in (calls ++ rest, g'')

-- `AllocationsDict.validate` over such values: the first error ends it.
unfoldable pub validate_all_groups :
    List RdtAllocationValue → RdtGroups → Outcome (Unit {0}) × RdtGroups
validate_all_groups [] g = (ok tt, g)
validate_all_groups (v ∷ vs) g = elim (validate v g).0 [
  | ok u ↦ validate_all_groups vs (validate v g).1
  | err e ↦ (err e, (validate v g).1)
]
