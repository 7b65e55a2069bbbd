-- ===== src/Allocations/Numeric.antt =====
-- `BoxedNumeric` of wca/allocations.py: its changesets settle, and its range.
use workload_collocation_age.Base.{
  ◌+◌, ◌*◌, suc, ◌≤◌, ◌≡◌, refl, sym, ap, ◌↔◌, inl, inr, Bool, true, Option, none, some, arith, ltb,
  Bool-cases, ok, ok-injective,
}
use workload_collocation_age.Base.Int.{pos_part, neg_part}
use workload_collocation_age.Base.Number.{Number, fraction}
use workload_collocation_age.Allocations.{diff_numeric, Settling, validate_numeric}

-- A number close to itself needs no change once it is set.
unfoldable pub numeric_settling :
    {N : Type 0} (isclose : N → N → Bool)
    → ((n : N) → isclose n n ≡ true)
    → Settling (diff_numeric isclose)
unfolding diff_numeric
numeric_settling {N = N} isclose close_self = record {
  Accepts = λ v. Unit;
  settles = λ v c accepted h. settled v c h;
  same = λ v accepted. (v, (rw (close_self v) refl));
}
  where
    settled :
        {t : N} {d : Option N} (v c : N)
        → diff_numeric isclose v c ≡ ok (t, d)
        → (t' : N) × (diff_numeric isclose v t ≡ ok (t', none))
    settled v c h = elim (Bool-cases (isclose v c)) [
      | inl near ↦
          let one = ap (λ p. p.0) (ok-injective (rw near at h)) in (c, rw (sym one, near) refl)
      | inr far ↦
          let one = ap (λ p. p.0) (ok-injective (rw far at h)) in
          (v, rw (sym one, close_self v) refl)
    ]

-- The order of exact fractions, by the numerators over a common denominator.
infix 50 ◌≤ℚ◌
abbrev pub ◌≤ℚ◌ : Number → Number → Type 0
fraction a d ≤ℚ fraction b e =
    pos_part a * suc e + neg_part b * suc d ≤ pos_part b * suc d + neg_part a * suc e

abbrev pub ltb_ℚ : Number → Number → Bool
ltb_ℚ (fraction a d) (fraction b e) =
    ltb (pos_part a * suc e + neg_part b * suc d) (pos_part b * suc d + neg_part a * suc e)

abbrev pub IsAtLeast : Option Number → Number → Type 0
IsAtLeast none n = Unit
IsAtLeast (some bound) n = bound ≤ℚ n

abbrev pub IsAtMost : Option Number → Number → Type 0
IsAtMost none n = Unit
IsAtMost (some bound) n = n ≤ℚ bound

-- A number, given as an exact fraction with a sign, is accepted exactly when it is at least the
-- minimum, where there is one, and at most the maximum, where there is one.
pub validate_numeric_iff :
    (min_value max_value : Option Number) (n : Number)
    → (validate_numeric ltb_ℚ min_value max_value n ≡ ok tt)
      ↔ (IsAtLeast min_value n × IsAtMost max_value n)
unfolding validate_numeric
validate_numeric_iff none none n = ground arith
validate_numeric_iff none (some (fraction b e)) (fraction a d) = ground arith
validate_numeric_iff (some (fraction b e)) none (fraction a d) = ground arith
validate_numeric_iff (some (fraction b e)) (some (fraction c m)) (fraction a d) = ground arith
