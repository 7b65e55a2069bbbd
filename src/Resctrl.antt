-- ===== src/Resctrl.antt =====
-- The resctrl groups of wca/resctrl.py. What is read from the file system is an argument, and what
-- is done to it is recorded as actions.
pub mod Defaults
mod Tests
use workload_collocation_age.Base.{
  ℕ, zero, suc, ◌+◌, ◌-◌, ◌*◌, ◌/◌, ◌%◌, ◌≤◌, ◌<◌, ◌≡◌, refl, sym, ap, ◌∙◌, ◌≢◌, ◌↔◌, ◌⊎◌, inl, inr,
  Bool, true, false, not, ◌&&◌, ◌||◌, Option, none, some, List, [], ◌∷◌, ◌++◌, map, length, All,
  All-map, In, arith, ltb, leb, ◌==◌, ==_iff, if◌then◌else◌, Bool-cases, Option-cases, Outcome, ok,
  err, Error, ◌>>=◌, ◌>>◌, guard, from_option, >>=-eq-ok, ok-injective, traverse, each,
  Outcome-cases, String, append-nil, append_assoc, sum, map_outcome, All-append, In-append_left,
  In-append_right, In-append,
}
use workload_collocation_age.Base.Eq.{◌=?◌, String_eq, Text_eq}
use workload_collocation_age.Base.Int.{ℤ, pos, ◌+ℤ◌, ◌-ℤ◌}
use workload_collocation_age.Base.Dict.{Dict, get, put}
use workload_collocation_age.Base.Number.{Number, whole}
use workload_collocation_age.Base.Text.{Text, codes, starts_with, strip, int, join}
use workload_collocation_age.Base.Decimal.{show}
use workload_collocation_age.Metrics.Names.{MetricName, value}
use workload_collocation_age.Metrics.Metadata.{MetricValue}
use workload_collocation_age.Metrics.Tree.{leaf, Measurements}
use workload_collocation_age.Rdt.Allocation.{RdtAllocation}

abbrev pub base_resctrl_path : Text
base_resctrl_path = codes "/sys/fs/resctrl"

abbrev pub mon_groups_name : Text
mon_groups_name = codes "mon_groups"

abbrev pub tasks_filename : Text
tasks_filename = codes "tasks"

abbrev pub ends_with_slash : Text → Bool
ends_with_slash [] = true
ends_with_slash (c ∷ []) = c == b'/'
ends_with_slash (c ∷ (d ∷ s)) = ends_with_slash (d ∷ s)

-- `os.path.join(a, b)` for a relative `b`
unfoldable pub join_path : Text → Text → Text
join_path a b = if ends_with_slash a then a ++ b else a ++ b'/' ∷ b

-- `ResGroup(name).fullpath`: the root group has the empty name.
unfoldable pub fullpath : Text → Text
fullpath [] = base_resctrl_path
fullpath (c ∷ name) = base_resctrl_path ++ b'/' ∷ c ∷ name

unfoldable pub mongroup_fullpath : Text → Text → Text
mongroup_fullpath name mongroup_name =
    join_path (join_path (fullpath name) mon_groups_name) mongroup_name

pub data FileAction : Type 0 where
  makedirs : Text → FileAction
  write_pids : Text → List Text → FileAction
  rmdir : Text → FileAction

-- The errors of `os.makedirs` that the code tells apart.
pub data Errno : Type 0 where
  enospc ebusy other : Errno

-- `_create_controlgroup_directory`
abbrev pub controlgroup_error : Option Errno → Outcome (Unit {0})
controlgroup_error none = ok tt
controlgroup_error (some enospc) = err Error.out_of_closids
controlgroup_error (some ebusy) = err Error.os_error
controlgroup_error (some other) = err Error.os_error

abbrev pub mongroup_error : Option Errno → Outcome (Unit {0})
mongroup_error none = ok tt
mongroup_error (some enospc) = err Error.plain_exception
mongroup_error (some ebusy) = err Error.plain_exception
mongroup_error (some other) = err Error.os_error

unfoldable pub create_controlgroup : (Text → Option Errno) → Text → Outcome (List FileAction)
create_controlgroup result [] = ok []
create_controlgroup result (c ∷ name) =
    controlgroup_error (result (fullpath (c ∷ name))) >> ok (makedirs (fullpath (c ∷ name)) ∷ [])

-- `_add_pids_to_tasks_file`: its own errors are only logged.
abbrev pub add_to_tasks : List Text → Text → List FileAction
add_to_tasks [] tasks_filepath = []
add_to_tasks (p ∷ pids) tasks_filepath = write_pids tasks_filepath (p ∷ pids) ∷ []

abbrev pub not_empty : Text → Bool
not_empty [] = false
not_empty (c ∷ s) = true

-- `add_pids`, with what `os.makedirs` gives for a directory.
unfoldable pub add_pids :
    (Text → Option Errno) → Text → List Text → Text → Outcome (List FileAction)
add_pids result name pids mongroup_name =
    guard (not_empty mongroup_name) Error.assertion_error
    >> (create_controlgroup result name >>= (λ created.
        mongroup_error (result (mongroup_fullpath name mongroup_name))
        >> ok (
            created
            ++ add_to_tasks pids (join_path (fullpath name) tasks_filename)
            ++ makedirs (mongroup_fullpath name mongroup_name)
              ∷ add_to_tasks pids
                  (join_path (mongroup_fullpath name mongroup_name) tasks_filename))))

-- The directory that `remove` removes: all of a group, but of the root or of a group with several
-- monitoring groups only the monitoring group.
unfoldable pub dir_to_remove : Text → List Text → Text → Text
dir_to_remove [] mon_groups mongroup_name = mongroup_fullpath [] mongroup_name
dir_to_remove (c ∷ name) mon_groups mongroup_name =
    if length mon_groups == 1
    then fullpath (c ∷ name)
    else mongroup_fullpath (c ∷ name) mongroup_name

unfoldable pub remove : (Text → Bool) → Text → List Text → Text → List FileAction
remove exists name mon_groups mongroup_name =
    let dir = dir_to_remove name mon_groups mongroup_name in
    if exists dir then rmdir dir ∷ [] else []

-- What the event files of a socket hold, where they exist.
pub record SocketFiles : Type 0 where
  pub mbm_total : Option Text
  pub mbm_local : Option Text
  pub llc_occupancy : Option Text

pub record Sums : Type 0 where
  pub total : ℤ
  pub local_total : ℤ
  pub occupancy : ℤ

abbrev pub read_event : Option Text → Outcome ℤ
read_event contents = from_option contents Error.missing_measurement >>= int 10

unfoldable pub add_bandwidth : Bool → SocketFiles → Sums → Outcome Sums
add_bandwidth false files s = ok s
add_bandwidth true files s = read_event files.mbm_total >>= λ t. read_event files.mbm_local >>= λ l.
    ok (record { total = s.total +ℤ t; local_total = s.local_total +ℤ l; occupancy = s.occupancy })

unfoldable pub add_occupancy : Bool → SocketFiles → Sums → Outcome Sums
add_occupancy false files s = ok s
add_occupancy true files s = read_event files.llc_occupancy >>= λ o.
    ok (record { total = s.total; local_total = s.local_total; occupancy = s.occupancy +ℤ o })

unfoldable pub add_sockets : Bool → Bool → List SocketFiles → Sums → Outcome Sums
add_sockets mb cache [] s = ok s
add_sockets mb cache (files ∷ sockets) s =
    add_bandwidth mb files s >>= add_occupancy cache files >>= add_sockets mb cache sockets

abbrev pub store_bandwidth_of : Bool → Sums → Measurements MetricValue → Measurements MetricValue
store_bandwidth_of false s m = m
store_bandwidth_of true s m =
    put (value MetricName.task_mem_bandwidth_remote_bytes) (leaf (whole (s.total -ℤ s.local_total)))
      (put (value MetricName.task_mem_bandwidth_local_bytes) (leaf (whole s.local_total))
        (put (value MetricName.task_mem_bandwidth_bytes) (leaf (whole s.total)) m))

abbrev pub store_occupancy : Bool → Sums → Measurements MetricValue → Measurements MetricValue
store_occupancy false s m = m
store_occupancy true s m =
    put (value MetricName.task_llc_occupancy_bytes) (leaf (whole s.occupancy)) m

-- `get_measurements` for the socket directories of a monitoring group, where there is one.
unfoldable pub get_group_measurements :
    Bool → Bool → Option (List SocketFiles) → Outcome (Measurements MetricValue)
get_group_measurements mb cache socket_dirs =
    from_option socket_dirs Error.missing_measurement >>= λ sockets.
    add_sockets mb cache sockets (record { total = pos 0; local_total = pos 0; occupancy = pos 0 })
    >>= λ s. ok (store_occupancy cache s (store_bandwidth_of mb s []))

-- `p in s`
unfoldable pub contains : Text → Text → Bool
contains [] p = starts_with [] p
contains (c ∷ s) p = starts_with (c ∷ s) p || contains s p

-- The last line of each kind; a line of both kinds counts for the bandwidth.
unfoldable pub schemata_lines : List Text → Option Text × Option Text → Option Text × Option Text
schemata_lines [] found = found
schemata_lines (line ∷ lines) (l3, mb) = schemata_lines lines (
    if contains line (codes "MB:")
    then (l3, some (strip line))
    else if contains line (codes "L3:")
    then (some (strip line), mb)
    else (l3, mb))

-- `get_allocations` for the lines of the schemata file.
unfoldable pub get_allocations : Text → Option (List Text) → Outcome RdtAllocation
get_allocations name schemata = from_option schemata Error.missing_allocation >>= λ lines.
    let (l3, mb) = schemata_lines lines (none, none) in
    ok (record { name = some name; l3 = l3; mb = mb })

-- The groups without tasks. `mon_groups_to_remove` is emptied for every monitoring group, so that
-- the control group is removed only if it has just one.
unfoldable pub clean_group : (Text → Text → Bool) → Text → ℕ → List Text → List FileAction
clean_group is_taskless ctrl_group count [] = []
clean_group is_taskless ctrl_group count (mon_group ∷ mon_groups) =
    let rest = clean_group is_taskless ctrl_group count mon_groups in
    let ctrl_group_dir = join_path base_resctrl_path ctrl_group in
    if is_taskless ctrl_group mon_group
    then (if not_empty ctrl_group && (count == 1)
        then rmdir ctrl_group_dir ∷ rest
        else rmdir (join_path (join_path ctrl_group_dir mon_groups_name) mon_group) ∷ rest)
    else rest

unfoldable pub clean_taskless_groups :
    (Text → Text → Bool) → Dict Text (List Text) → List FileAction
clean_taskless_groups is_taskless [] = []
clean_taskless_groups is_taskless ((ctrl_group, mon_groups) ∷ relation) =
    clean_group is_taskless ctrl_group (length mon_groups) mon_groups
    ++ clean_taskless_groups is_taskless relation

-- `'%i=%s' % (dom_id, mask)` for each domain from `dom_id` on
unfoldable pub domain_items : Text → ℕ → ℕ → List Text
domain_items mask dom_id zero = []
domain_items mask dom_id (suc sockets) =
    (show dom_id ++ b'=' ∷ mask) ∷ domain_items mask (suc dom_id) sockets

abbrev pub when : Bool → Text → Option Text
when true s = some s
when false s = none

-- The greatest values for L3 and MB, where their control is enabled.
unfoldable pub get_max_rdt_values : Text → ℕ → Bool → Bool → Option Text × Option Text
get_max_rdt_values cbm_mask platform_sockets rdt_mb_control_enabled rdt_cache_control_enabled = (
  when rdt_cache_control_enabled
      (codes "L3:" ++ join b';' (domain_items cbm_mask 0 platform_sockets)),
  when rdt_mb_control_enabled
      (codes "MB:" ++ join b';' (domain_items (codes "100") 0 platform_sockets)),
)
