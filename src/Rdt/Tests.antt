-- ===== src/Rdt/Tests.antt =====
-- Tests of the RDT modules, and their theorems at concrete inputs.
use workload_collocation_age.Base.{
  ℕ, ◌≤◌, true, false, List, [], ◌∷◌, Option, none, some, ◌≡◌, ◌↔◌, refl, arith, ok, err, Error,
  All,
}
use workload_collocation_age.Base.Int.{pos, neg, ◌≤ℤ◌}
use workload_collocation_age.Base.Eq.{Text_eq}
use workload_collocation_age.Base.Dict.{Dict}
use workload_collocation_age.Base.Text.{Text, codes, int}
use workload_collocation_age.Base.Decimal.{show}
use workload_collocation_age.Rdt.Schemata.{parse_row}
use workload_collocation_age.Rdt.Schemata.Sound.{IsRow, parse_row-IsRow}
use workload_collocation_age.Rdt.Schemata.RoundTrip.{render, parse_row-render}
use workload_collocation_age.Rdt.Mask.{scan, binary, check_cbm_mask}
use workload_collocation_age.Rdt.Mask.Accepts.{HasRun, check_cbm_mask_iff}
use workload_collocation_age.Rdt.Domains.{
  IsSocket, validate_l3_string, validate_domains, validate_domain, validate_domains_iff,
}
use workload_collocation_age.Rdt.Bandwidth.{
  ceil_div, item, normalize_mb_value, normalize_mb_string, normalize_row, normalize_domains,
  normalize_domain,
}
use workload_collocation_age.Rdt.Bandwidth.Ceiling.{IsCeiling, normalize_mb_value_lem}
use workload_collocation_age.Rdt.Bandwidth.Idempotent.{normalize_mb_string_idem}
use workload_collocation_age.Rdt.Allocation.{
  RdtInformation, RdtAllocationValue, RdtGroups, get_resgroup_name, copy, contains, validate_groups,
  validate,
}
use workload_collocation_age.Rdt.Changeset.{
  is_subset, some_differs, compare_rows, is_rdt_suballocation_changed, merged, merge_same_group,
  calculate_changeset,
}
use workload_collocation_age.Rdt.Changeset.Changed.{AllSame, is_rdt_suballocation_changed_iff}
use workload_collocation_age.Rdt.Changeset.Merge.{IsUnchanged, calculate_changeset-none}
use workload_collocation_age.Rdt.Changeset.Settle.{calculate_changeset-settles}
use workload_collocation_age.Rdt.Perform.{perform_all, validate_all_groups}
use workload_collocation_age.Rdt.Perform.Once.{writes, perform_all_once}
use workload_collocation_age.Rdt.Perform.Closids.{WithinLimit, validate_all_groups-WithinLimit}

test_parse_row :
    (parse_row (codes "L3:0=ff;1=f0") ≡ ok ((codes "0", codes "ff") ∷ (codes "1", codes "f0") ∷ []))
    × (parse_row (codes "L3:0=ff;0=f0") ≡ err Error.value_error)
    × (parse_row (codes "L3:0=ff;") ≡ err Error.value_error)
unfolding parse_row
test_parse_row = (refl, refl, refl)

test_check_cbm_mask :
    (check_cbm_mask (codes "ff0") (codes "fffff") (codes "2") ≡ ok tt)
    × (check_cbm_mask (codes "f0f") (codes "fffff") (codes "2") ≡ err Error.invalid_allocations)
    × (check_cbm_mask (codes "1") (codes "fffff") (codes "2") ≡ err Error.invalid_allocations)
    × (check_cbm_mask (codes "fffff") (codes "ff") (codes "2") ≡ err Error.invalid_allocations)
    × (check_cbm_mask (codes "xyz") (codes "ff") (codes "2") ≡ err Error.value_error)
    × (check_cbm_mask (codes "-f") (codes "ff") (codes "2") ≡ ok tt)
unfolding check_cbm_mask int scan binary
test_check_cbm_mask = (refl, refl, refl, refl, refl, refl)

test_int :
    (int 10 (codes " -1_0\n") ≡ ok (neg (pos 10)))
    × (int 16 (codes "0xfF") ≡ ok (pos 255))
    × (int 16 (codes "f_") ≡ err Error.value_error)
    × (int 10 (codes "") ≡ err Error.value_error)
    × (int 16 (codes "0x") ≡ err Error.value_error)
unfolding int
test_int = (refl, refl, refl, refl, refl)

abbrev two_domains : Dict Text Text
two_domains = (codes "0", codes "ff") ∷ (codes "1", codes "f0") ∷ []

two_domains-IsRow : IsRow two_domains
two_domains-IsRow = record {
  entries = (((cc), refl, (cc)), (((cc), refl, (cc)), tt));
  distinct = (refl, (refl, tt));
}

parse_row-IsRow_example : IsRow two_domains
parse_row-IsRow_example =
    parse_row-IsRow (codes "L3:0=ff;1=f0") {d = two_domains} (unfold parse_row in refl)

parse_row-render_example : parse_row (render (codes "L3") two_domains) ≡ ok two_domains
parse_row-render_example =
    parse_row-render (codes "L3") two_domains refl (cc) two_domains-IsRow
      ((refl, refl), ((refl, refl), tt))

check_cbm_mask_iff_example :
    (check_cbm_mask (codes "ff0") (codes "fffff") (codes "2") ≡ ok tt)
    ↔ ((pos 4080 ≤ℤ pos 1048575) × HasRun 2 4080)
unfolding int
check_cbm_mask_iff_example =
    check_cbm_mask_iff (codes "ff0") (codes "fffff") (codes "2") (pos 4080) (pos 1048575) 2 refl
      refl refl

validate_domains_iff_example :
    (validate_domains (codes "0" ∷ codes "1" ∷ []) 2 ≡ ok tt)
    ↔ All (IsSocket 2) (codes "0" ∷ codes "1" ∷ [])
validate_domains_iff_example = validate_domains_iff (codes "0" ∷ codes "1" ∷ []) 2

normalize_mb_value_lem_example : (n : ℕ) × (pos 23 ≡ pos n) × (10 ≤ n) × IsCeiling 10 n 30
unfolding normalize_mb_value ceil_div
normalize_mb_value_lem_example = normalize_mb_value_lem (pos 23) 10 10 {r = 30} refl

test_normalize :
    (normalize_mb_string (codes "MB:0=23;1=50") 2 (some 10) (some 10) ≡ ok (codes "MB:0=30;1=50"))
    × (normalize_mb_string (codes "MB:0=3") 2 (some 10) (some 10) ≡ err Error.invalid_allocations)
    × (normalize_mb_string (codes "MB:2=30") 2 (some 10) (some 10) ≡ err Error.invalid_allocations)
    × (normalize_mb_string (codes "L3:0=30") 2 (some 10) (some 10) ≡ err Error.invalid_allocations)
unfolding normalize_mb_string normalize_row normalize_domains normalize_domain normalize_mb_value
    ceil_div item show int parse_row validate_domains validate_domain
test_normalize = (refl, refl, refl, refl)

normalize_mb_string_idem_example :
    normalize_mb_string (codes "MB:0=30;1=50") 2 (some 10) (some 10) ≡ ok (codes "MB:0=30;1=50")
normalize_mb_string_idem_example =
    normalize_mb_string_idem (codes "MB:0=23;1=50") 2 (some 10) (some 10) (test_normalize.0)

abbrev platform : RdtInformation
platform = record {
  rdt_cache_control_enabled = true;
  rdt_mb_control_enabled = true;
  cbm_mask = some (codes "fffff");
  min_cbm_bits = some (codes "2");
  num_closids = some 16;
  mb_bandwidth_gran = some 10;
  mb_min_bandwidth = some 10;
}

abbrev task_value : Option Text → Option Text → RdtAllocationValue
task_value name l3 = record {
  container_name = codes "task";
  rdt_allocation = record { name = name; l3 = l3; mb = none };
  resgroup = codes "task";
  pids = codes "7" ∷ [];
  platform_sockets = 2;
  rdt_information = platform;
  common_labels = [];
  source_resgroup = none;
}

abbrev now : RdtAllocationValue
now = task_value none (some (codes "L3:0=ff;1=ff"))

abbrev wanted : RdtAllocationValue
wanted = task_value none (some (codes "L3:0=0f"))

is_rdt_suballocation_changed_iff_example :
    (is_rdt_suballocation_changed (some (codes "L3:0=ff;1=f0")) (some (codes "L3:0=0ff"))
      ≡ ok false)
    ↔ AllSame ((codes "0", codes "0ff") ∷ []) two_domains
is_rdt_suballocation_changed_iff_example =
    is_rdt_suballocation_changed_iff (codes "L3:0=ff;1=f0") (codes "L3:0=0ff") two_domains
      ((codes "0", codes "0ff") ∷ []) (unfold parse_row in refl) (unfold parse_row in refl)

abbrev wanted_target : RdtAllocationValue
wanted_target = wanted

changeset_wanted : calculate_changeset wanted (some now) ≡ ok (wanted_target, some wanted)
unfolding calculate_changeset get_resgroup_name merge_same_group merged is_rdt_suballocation_changed
    compare_rows parse_row is_subset some_differs copy
changeset_wanted = refl

calculate_changeset-none_example :
    (◌≡◌ {A = Option RdtAllocationValue} (some wanted) none)
    ↔ (IsUnchanged (some (codes "L3:0=ff;1=ff")) (some (codes "L3:0=0f")) × IsUnchanged none none)
calculate_changeset-none_example =
    calculate_changeset-none wanted now {target = wanted_target} {cs = some wanted}
      (unfold get_resgroup_name in refl) changeset_wanted

calculate_changeset-settles_example :
    (t : RdtAllocationValue) × (calculate_changeset wanted (some wanted_target) ≡ ok (t, none))
calculate_changeset-settles_example =
    calculate_changeset-settles wanted (some now) {target = wanted_target} {cs = some wanted}
      ((codes "0", codes "0f") ∷ [], unfold parse_row in refl) tt changeset_wanted

abbrev no_groups : RdtGroups
no_groups = record {
  closids_limit = 16;
  already_executed_resgroup_names = [];
  existing_groups = [];
}

abbrev listing : Text → List Text
listing group = []

perform_all_once_example :
    writes (codes "task") (perform_all ((listing, now) ∷ (listing, wanted) ∷ []) no_groups).0 ≤ 1
perform_all_once_example =
    perform_all_once (codes "task") ((listing, now) ∷ (listing, wanted) ∷ []) no_groups
      (unfold get_resgroup_name in (refl, (refl, tt)))

both_accepted : (validate_all_groups (now ∷ wanted ∷ []) no_groups).0 ≡ ok tt
unfolding validate_all_groups validate validate_groups get_resgroup_name validate_l3_string
    validate_domains validate_domain check_cbm_mask int scan binary parse_row
both_accepted = refl

validate_all_groups-WithinLimit_example :
    WithinLimit (validate_all_groups (now ∷ wanted ∷ []) no_groups).1
    × All
        (λ v.
          contains
            (get_resgroup_name v)
            (validate_all_groups (now ∷ wanted ∷ []) no_groups).1.existing_groups
          ≡ true)
        (now ∷ wanted ∷ [])
validate_all_groups-WithinLimit_example =
    validate_all_groups-WithinLimit (now ∷ wanted ∷ []) no_groups
      (record { nodup = tt; bounded = omega arith }) both_accepted
