-- ===== src/Cgroups/Quota.antt =====
-- The files that `set_quota` of wca/cgroups.py leaves.
use native.Mathlib.Nat.{mod-lt, div-add-mod', mul-le-mul_right}
use workload_collocation_age.Base.{
  ℕ, ◌+◌, ◌*◌, ◌/◌, ◌≤◌, ◌<◌, ◌≡◌, refl, ◌⊎◌, inl, inr, arith, leb, ltb, ◌==◌, ==_iff, Bool-cases,
}
use workload_collocation_age.Base.Int.{ℤ, pos, negsuc}
use workload_collocation_age.Wss.{Fraction}
use workload_collocation_age.Cgroups.{scaled, at_least, set_quota, quota_for, apply}

-- What the quota file holds for a quota: nothing set for the whole machine or more, otherwise the one
-- number that is the wanted share of the machine's time in a period, rounded down, or the minimum
-- where that is less.
pub data IsQuota (q : Fraction) (period cpus : ℕ) : ℤ → Type 0 where
  not_set : q.denominator ≤ q.numerator → IsQuota q period cpus (negsuc 0)
  set_to :
      (n : ℕ)
      → q.numerator < q.denominator
      → 1000 ≤ n
      → (n ≡ 1000) ⊎ (n * q.denominator ≤ q.numerator * (period * cpus))
      → q.numerator * (period * cpus) < (n + 1) * q.denominator
      → IsQuota q period cpus (pos n)

-- A quotient raised to a minimum, bounded on both sides.
raised_quotient :
    (minimum m d : ℕ)
    → 0 < d
    → (minimum ≤ at_least minimum (m / d))
      × ((at_least minimum (m / d) ≡ minimum) ⊎ (at_least minimum (m / d) * d ≤ m))
      × (m < (at_least minimum (m / d) + 1) * d)
raised_quotient minimum m d positive = elim (Bool-cases (ltb (m / d) minimum)) [
  | inl low ↦
      let less : m / d ≤ minimum = ground arith in
      rw low (
        omega arith,
        inl refl,
        omega (arith, div-add-mod' m d, mod-lt m positive, mul-le-mul_right d less),
      )
  | inr high ↦ rw high (
    ground arith,
    inr (omega (arith, div-add-mod' m d)),
    omega (arith, div-add-mod' m d, mod-lt m positive),
  )
]

quota_for-IsQuota :
    (q : Fraction) (period cpus : ℕ) → IsQuota q period cpus (quota_for q period cpus)
unfolding quota_for
quota_for-IsQuota q period cpus = elim (Bool-cases (leb q.denominator q.numerator)) [
  | inl whole ↦ rw whole (not_set (ground arith))
  | inr part ↦
      let less : q.numerator < q.denominator = ground arith in
      let (lower, which, upper) =
        raised_quotient 1000 (q.numerator * (period * cpus)) q.denominator (omega (arith, less)) in
      rw part (set_to (at_least 1000 (scaled q (period * cpus))) less lower which upper)
]

-- After `set_quota` the file of the period holds the configured period, whether it was written or
-- not, and the file of the quota -1 for the whole machine or more, otherwise the one number that is
-- the wanted share of all CPUs' time in a period, rounded down, or 1000 where that is less.
pub set_quota-IsQuota :
    (q : Fraction) (files : ℕ × ℤ) (cpu_quota_period cpus : ℕ)
    → ((apply (set_quota q files.0 cpu_quota_period cpus) files).0 ≡ cpu_quota_period)
      × IsQuota q cpu_quota_period cpus (apply (set_quota q files.0 cpu_quota_period cpus) files).1
unfolding set_quota
set_quota-IsQuota q files period cpus = elim (Bool-cases (files.0 == period)) [
  | inl same ↦ rw same ((==_iff files.0 period).0 same, quota_for-IsQuota q period cpus)
  | inr other ↦ rw other (refl, quota_for-IsQuota q period cpus)
]
