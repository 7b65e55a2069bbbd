-- ===== src/Rdt/Bandwidth.antt =====
-- `normalize_mb_string` and `_normalize_mb_value` of wca/resctrl_allocations.py.
-- `math.ceil(a / b)` divides floats. It is the exact quotient rounded up for all `a` below 2^53,
-- far above any bandwidth, and is modelled so.
pub mod Ceiling
mod Entries
pub mod Idempotent
use workload_collocation_age.Base.{
  ℕ, ◌+◌, ◌-◌, ◌*◌, ◌/◌, ◌%◌, ◌≤◌, ◌<◌, Bool, true, false, List, [], ◌∷◌, ◌++◌, ◌≡◌, refl, arith,
  ltb, if◌then◌else◌, Outcome, ok, err, Error, ◌>>=◌, ◌>>◌, guard, on_value_error, from_option,
  Option,
}
use workload_collocation_age.Base.Int.{ℤ, pos, negsuc}
use workload_collocation_age.Base.Dict.{Dict, keys}
use workload_collocation_age.Base.Text.{Text, codes, int, starts_with}
use workload_collocation_age.Base.Decimal.{show}
use workload_collocation_age.Rdt.Schemata.{parse_row}
use workload_collocation_age.Rdt.Domains.{validate_domains}

unfoldable pub ceil_div : ℕ → ℕ → ℕ
ceil_div a b = (a + b - 1) / b

-- The platform's minimum and granularity are no negative numbers, so a negative value is below the
-- minimum.
unfoldable pub normalize_mb_value : ℤ → ℕ → ℕ → Outcome ℕ
normalize_mb_value (negsuc n) mb_min_bandwidth mb_bandwidth_gran = err Error.invalid_allocations
normalize_mb_value (pos mb_value) mb_min_bandwidth mb_bandwidth_gran =
    if ltb mb_value mb_min_bandwidth
    then err Error.invalid_allocations
    else if ltb 0 mb_bandwidth_gran
    then ok (ceil_div mb_value mb_bandwidth_gran * mb_bandwidth_gran)
    else ok mb_value

-- `'{}={};'.format(domain, value)`
unfoldable pub item : Text × Text → Text
item (domain, value) = (domain ++ b'=' ∷ value) ++ b';' ∷ []

-- One round of the loop: the text with `domain=value;` behind it.
unfoldable pub normalize_domain : ℕ → ℕ → Text × Text → Text → Outcome Text
normalize_domain mb_min_bandwidth mb_bandwidth_gran (domain, value) normalized = do
  mb_value ← on_value_error (int 10 value) Error.invalid_allocations
  normalized_value ← normalize_mb_value mb_value mb_min_bandwidth mb_bandwidth_gran
  ok (normalized ++ item (domain, show normalized_value))

unfoldable pub normalize_domains : ℕ → ℕ → Dict Text Text → Text → Outcome Text
unfolding normalize_domain
normalize_domains least gran [] normalized = ok normalized
normalize_domains least gran (d ∷ domains) normalized =
    elim (normalize_domain least gran d normalized) [
      | ok t ↦ normalize_domains least gran domains t
      | err e ↦ err e
    ]

-- `s[:-1]`
abbrev pub drop_last : Text → Text
drop_last [] = []
drop_last (c ∷ []) = []
drop_last (c ∷ (d ∷ s)) = c ∷ drop_last (d ∷ s)

-- The body of the function behind its two assertions.
unfoldable pub normalize_row : Text → ℕ → ℕ → ℕ → Outcome Text
normalize_row mb platform_sockets mb_min_bandwidth mb_bandwidth_gran = do
  guard (starts_with mb (codes "MB:")) Error.invalid_allocations
  domains ← parse_row mb
  validate_domains (keys domains) platform_sockets
  normalized ← normalize_domains mb_min_bandwidth mb_bandwidth_gran domains (codes "MB:")
  ok (drop_last normalized)

-- The platform's values may be missing.
unfoldable pub normalize_mb_string : Text → ℕ → Option ℕ → Option ℕ → Outcome Text
normalize_mb_string mb platform_sockets mb_min_bandwidth mb_bandwidth_gran = do
  least ← from_option mb_min_bandwidth Error.assertion_error
  gran ← from_option mb_bandwidth_gran Error.assertion_error
  normalize_row mb platform_sockets least gran
