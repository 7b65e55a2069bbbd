-- ===== src/Cgroups.antt =====
-- `set_shares`, `set_quota` and `build_cpu_to_socket_mapping` of wca/cgroups.py, and
-- `_migrate_pages` of wca/cgroups_allocations.py.
-- Normalised values are exact fractions; what is written to control files is returned in order.
pub mod Quota
mod Tests
use workload_collocation_age.Base.{
  ℕ, zero, suc, ◌+◌, ◌-◌, ◌*◌, ◌/◌, ◌%◌, ◌^◌, ◌≤◌, ◌<◌, ◌≡◌, refl, sym, ap, ◌∙◌, ◌≢◌, ◌↔◌, ◌⊎◌, inl,
  inr, Bool, true, false, not, ◌&&◌, ◌||◌, Option, none, some, List, [], ◌∷◌, ◌++◌, map, length,
  All, All-map, In, arith, ltb, leb, ◌==◌, ==_iff, if◌then◌else◌, Bool-cases, Option-cases, Outcome,
  ok, err, Error, ◌>>=◌, ◌>>◌, guard, from_option, >>=-eq-ok, ok-injective, traverse, each,
  Outcome-cases,
}
use workload_collocation_age.Base.Eq.{ℕ_eq}
use workload_collocation_age.Base.Dict.{Dict, put}
use workload_collocation_age.Base.Int.{sub_ℕ, ℤ, pos, negsuc, neg}
use workload_collocation_age.Wss.{Fraction}

pub data Write : Type 0 where
  write_shares write_period : ℕ → Write
  write_quota : ℤ → Write

-- `int(normalized * unit)`
abbrev pub scaled : Fraction → ℕ → ℕ
scaled q unit = q.numerator * unit / q.denominator

abbrev pub at_least : ℕ → ℕ → ℕ
at_least minimum n = if ltb n minimum then minimum else n

unfoldable pub set_shares : Fraction → ℕ → List Write
set_shares normalized_shares cpu_shares_unit =
    write_shares (at_least 2 (scaled normalized_shares cpu_shares_unit)) ∷ []

-- `QUOTA_NOT_SET` is -1.
unfoldable pub quota_for : Fraction → ℕ → ℕ → ℤ
quota_for normalized_quota cpu_quota_period cpus =
    if leb normalized_quota.denominator normalized_quota.numerator
    then negsuc 0
    else pos (at_least 1000 (scaled normalized_quota (cpu_quota_period * cpus)))

-- The period is written if it differs from the current one, then the quota.
unfoldable pub set_quota : Fraction → ℕ → ℕ → ℕ → List Write
set_quota normalized_quota current_period cpu_quota_period cpus =
    (if current_period == cpu_quota_period then [] else write_period cpu_quota_period ∷ [])
    ++ write_quota (quota_for normalized_quota cpu_quota_period cpus) ∷ []

-- The file system after the writes: the period and the quota.
abbrev pub apply : List Write → ℕ × ℤ → ℕ × ℤ
apply [] files = files
apply (write_shares n ∷ ws) files = apply ws files
apply (write_period n ∷ ws) files = apply ws (n, files.1)
apply (write_quota z ∷ ws) files = apply ws (files.0, z)

-- `_get_normalized_quota`: a quota that is not set is the whole machine, 1.
unfoldable pub get_normalized_quota : ℕ × ℤ → ℕ → Fraction
get_normalized_quota (period, negsuc n) cpus = record { numerator = 1; denominator = 1 }
get_normalized_quota (period, pos quota) cpus = record {
  numerator = quota;
  denominator = period * cpus;
}

-- `build_cpu_to_socket_mapping`: the node of each CPU.
abbrev pub add_cpus : ℕ → List ℕ → Dict ℕ ℕ → Dict ℕ ℕ
add_cpus node [] mapping = mapping
add_cpus node (cpu ∷ cpus) mapping = add_cpus node cpus (put cpu node mapping)

unfoldable pub build_cpu_to_socket_mapping : Dict ℕ (List ℕ) → Dict ℕ ℕ → Dict ℕ ℕ
build_cpu_to_socket_mapping [] mapping = mapping
build_cpu_to_socket_mapping ((node, cpus) ∷ node_cpus) mapping =
    build_cpu_to_socket_mapping node_cpus (add_cpus node cpus mapping)

-- `_migrate_pages`: for each process the old mask, of all nodes but one, and the new mask.
unfoldable pub migrate_pages : {P : Type 0} → List P → ℕ → ℕ → List (P × ℤ × ℕ)
migrate_pages [] to_node number_of_nodes = []
migrate_pages (pid ∷ task_pids) to_node number_of_nodes =
    (pid, sub_ℕ (2 ^ number_of_nodes - 1) (2 ^ to_node), 2 ^ to_node)
    ∷ migrate_pages task_pids to_node number_of_nodes
