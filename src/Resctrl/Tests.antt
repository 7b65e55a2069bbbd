-- ===== src/Resctrl/Tests.antt =====
-- The default rows of a platform with two sockets.
use workload_collocation_age.Base.{◌≡◌, refl, true, some, ok}
use workload_collocation_age.Base.Eq.{String_eq}
use workload_collocation_age.Base.Text.{codes, digits, trim_int, int}
use workload_collocation_age.Base.Int.{neg}
use workload_collocation_age.Base.Decimal.{show}
use workload_collocation_age.Rdt.Mask.{check_cbm_mask, check_bits, scan, binary}
use workload_collocation_age.Rdt.Domains.{validate_l3_string}
use workload_collocation_age.Resctrl.{domain_items, get_max_rdt_values}
use workload_collocation_age.Resctrl.Defaults.{get_max_rdt_values-validate_l3_string}

get_max_rdt_values-validate_l3_string_example :
    validate_l3_string (codes "L3:0=ff;1=ff") 2 (some (codes "ff")) (some (codes "2")) ≡ ok tt
unfolding check_cbm_mask check_bits scan binary int digits trim_int neg domain_items
    get_max_rdt_values show
get_max_rdt_values-validate_l3_string_example =
    get_max_rdt_values-validate_l3_string (codes "ff") (λ e. cc e) 1 (codes "2") true
      {row = codes "L3:0=ff;1=ff"} refl refl refl
