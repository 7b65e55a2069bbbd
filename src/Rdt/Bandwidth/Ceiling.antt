-- ===== src/Rdt/Bandwidth/Ceiling.antt =====
-- `_normalize_mb_value` rounds up to the granularity.
use native.Mathlib.Nat.{div-add-mod', mod-lt, mul-mod_left, mod-eq_of_lt, mod-add-mod}
use workload_collocation_age.Base.{
  ℕ, zero, suc, ◌+◌, ◌-◌, ◌*◌, ◌/◌, ◌%◌, ◌≤◌, ◌≡◌, refl, ap, ◌∙◌, arith, ok,
}
use workload_collocation_age.Base.Int.{ℤ, pos, negsuc}
use workload_collocation_age.Rdt.Bandwidth.{ceil_div, normalize_mb_value}

-- The least multiple of the granularity that is not below `n`; with granularity zero, `n` itself.
abbrev pub IsCeiling : ℕ → ℕ → ℕ → Type 0
IsCeiling zero n r = r ≡ n
IsCeiling (suc g) n r = (n ≤ r) × (r ≤ n + g) × (r % suc g ≡ 0)

ceil_div_lem : (g n : ℕ) → IsCeiling (suc g) n (ceil_div n (suc g) * suc g)
unfolding ceil_div
ceil_div_lem g n = (
  omega (
    arith,
    div-add-mod' (n + suc g - 1) (suc g),
    mod-lt (n + suc g - 1) {m = suc g} (omega arith),
  ),
  omega (arith, div-add-mod' (n + suc g - 1) (suc g)),
  mul-mod_left ((n + suc g - 1) / suc g) (suc g),
)

ceil_div_fixed : (g r : ℕ) → r % suc g ≡ 0 → ceil_div r (suc g) * suc g ≡ r
ceil_div_fixed g r e =
    let (lo, hi, m) = ceil_div_lem g r in
    let x = ceil_div r (suc g) * suc g in
    let d = x - r in
    let small : d % suc g ≡ d = mod-eq_of_lt (omega arith) in
    let shifted : (r % suc g + d) % suc g ≡ x % suc g =
      mod-add-mod r (suc g) d ∙ ap (λ k. k % suc g) (omega arith) in
    let none_left : (r % suc g + d) % suc g ≡ d % suc g = ap (λ k. k % suc g) (omega arith) in
    omega (arith, small, shifted, none_left)

-- An accepted value is a number that is at least the minimum, and the result is that number
-- rounded up to the granularity.
pub normalize_mb_value_lem :
    (v : ℤ) (least gran : ℕ) {r : ℕ}
    → normalize_mb_value v least gran ≡ ok r
    → (n : ℕ) × (v ≡ pos n) × (least ≤ n) × IsCeiling gran n r
unfolding normalize_mb_value
normalize_mb_value_lem (pos n) least zero h = (n, refl, ground arith, ground arith)
normalize_mb_value_lem (pos n) least (suc g) h =
    (n, refl, ground arith, ground (arith, ceil_div_lem g n))
normalize_mb_value_lem (negsuc n) least gran h = absurd (ground arith)

-- A multiple of the granularity that is at least the minimum comes back unchanged.
pub normalize_mb_value_fixed :
    (n least gran r : ℕ)
    → least ≤ n
    → IsCeiling gran n r
    → normalize_mb_value (pos r) least gran ≡ ok r
unfolding normalize_mb_value
normalize_mb_value_fixed n least zero r h c = ground arith
normalize_mb_value_fixed n least (suc g) r h c = ground (arith, ceil_div_fixed g r (c.2))
