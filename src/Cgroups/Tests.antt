-- ===== src/Cgroups/Tests.antt =====
-- A quota set on a machine of four CPUs.
use workload_collocation_age.Base.{◌≡◌, refl, [], ◌∷◌}
use workload_collocation_age.Base.Int.{pos, negsuc}
use workload_collocation_age.Wss.{Fraction}
use workload_collocation_age.Cgroups.{set_shares, write_shares, set_quota, quota_for, apply}
use workload_collocation_age.Cgroups.Quota.{IsQuota, set_quota-IsQuota}

abbrev quarter : Fraction
quarter = record { numerator = 1; denominator = 4 }

test_quota :
    (apply (set_quota quarter 5000 100000 4) (5000, negsuc 0) ≡ (100000, pos 100000))
    × (apply (set_quota quarter 1000 1000 1) (1000, negsuc 0) ≡ (1000, pos 1000))
    × (set_shares quarter 4 ≡ write_shares 2 ∷ [])
unfolding set_quota quota_for set_shares
test_quota = (refl, refl, refl)

set_quota-IsQuota_example :
    ((apply (set_quota quarter 5000 100000 4) (5000, negsuc 0)).0 ≡ 100000)
    × IsQuota quarter 100000 4 (apply (set_quota quarter 5000 100000 4) (5000, negsuc 0)).1
set_quota-IsQuota_example = set_quota-IsQuota quarter (5000, negsuc 0) 100000 4
