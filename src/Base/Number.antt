-- ===== src/Base/Number.antt =====
-- Python's numbers as exact fractions: the rounding of floats is not modelled. The denominator
-- is positive, and a sum of whole numbers is whole.
use Prim.Native.Nat.{ℕ, zero, suc, ◌+◌, ◌*◌}
use mathlib.Core.Path.{◌≡◌, refl}
use mathlib.Core.Bool.{Bool, true, false}
use workload_collocation_age.Base.Tests.{ltb}
use workload_collocation_age.Base.Errors.{Outcome, ok, err, Error}
use workload_collocation_age.Base.Int.{ℤ, pos, negsuc, ◌+ℤ◌, ◌-ℤ◌, scale, pos_part, neg_part}

-- `fraction a d` is a / (d + 1).
pub data Number : Type 0 where
  fraction : ℤ → ℕ → Number

abbrev pub whole : ℤ → Number
whole a = fraction a 0

-- (d + 1) (e + 1) - 1
abbrev pub common : ℕ → ℕ → ℕ
common d e = d * e + d + e

unfoldable pub add : Number → Number → Number
add (fraction a d) (fraction b e) = fraction (scale a (suc e) +ℤ scale b (suc d)) (common d e)

unfoldable pub subtract : Number → Number → Number
subtract (fraction a d) (fraction b e) = fraction (scale a (suc e) -ℤ scale b (suc d)) (common d e)

unfoldable pub times : Number → ℕ → Number
times (fraction a d) n = fraction (scale a n) d

-- The opposite of an integer times a number.
unfoldable pub scale_neg : ℤ → ℕ → ℤ
scale_neg a n = pos 0 -ℤ scale a n

-- a / (d + 1) over b / (e + 1), with the sign in the numerator.
unfoldable pub divide : Number → Number → Outcome Number
divide (fraction a d) (fraction (pos zero) e) = err Error.zero_division
divide (fraction a d) (fraction (pos (suc b)) e) = ok (fraction (scale a (suc e)) (common d b))
divide (fraction a d) (fraction (negsuc b) e) = ok (fraction (scale_neg a (suc e)) (common d b))

unfoldable pub multiply_ℤ : ℤ → ℤ → ℤ
multiply_ℤ a (pos n) = scale a n
multiply_ℤ a (negsuc n) = scale_neg a (suc n)

unfoldable pub multiply : Number → Number → Number
multiply (fraction a d) (fraction b e) = fraction (multiply_ℤ a b) (common d e)

-- `abs(x) < 1 / n`
abbrev pub is_below : ℕ → Number → Bool
is_below n (fraction a d) = ltb ((pos_part a + neg_part a) * n) (suc d)

-- `x > 0`
abbrev pub is_positive : Number → Bool
is_positive (fraction (pos n) d) = ltb 0 n
is_positive (fraction (negsuc n) d) = false

-- A division by a positive number succeeds.
pub divide-positive : (a b : Number) → is_positive b ≡ true → (q : Number) × (divide a b ≡ ok q)
unfolding divide
divide-positive (fraction a d) (fraction (pos zero) e) h = absurd (cc h)
divide-positive (fraction a d) (fraction (pos (suc b)) e) h = (_, refl)
divide-positive (fraction a d) (fraction (negsuc b) e) h = absurd (cc h)

pub divide-zero : (a : Number) (d : ℕ) → divide a (fraction (pos 0) d) ≡ err Error.zero_division
unfolding divide
divide-zero (fraction a e) d = refl
