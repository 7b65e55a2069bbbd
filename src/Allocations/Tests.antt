-- ===== src/Allocations/Tests.antt =====
-- Tests of the dictionaries of allocations, and their theorems at concrete inputs.
use workload_collocation_age.Base.{
  ℕ, ◌+◌, ◌≡◌, refl, ◌↔◌, Bool, true, ◌&&◌, none, some, [], ◌∷◌, All, arith, leb, ok,
}
use workload_collocation_age.Base.Eq.{ℕ_eq}
use workload_collocation_age.Base.Int.{pos, negsuc}
use workload_collocation_age.Base.Number.{fraction}
use workload_collocation_age.Base.Dict.{Dict}
use workload_collocation_age.Allocations.{
  merge_items, calculate_changeset, diff_numeric, validate_numeric,
}
use workload_collocation_age.Allocations.Settles.{IsSettled, calculate_changeset-settled}
use workload_collocation_age.Allocations.Unchanged.{calculate_changeset-none_iff}
use workload_collocation_age.Allocations.Numeric.{
  numeric_settling, IsAtLeast, IsAtMost, ltb_ℚ, validate_numeric_iff,
}

-- Numbers are close when they differ by one at most.
is_near : ℕ → ℕ → Bool
is_near a b = leb a (b + 1) && leb b (a + 1)

is_near_self : (n : ℕ) → is_near n n ≡ true
unfolding is_near
is_near_self n = ground arith

abbrev new_shares : Dict ℕ ℕ
new_shares = (1, 10) ∷ (2, 21) ∷ (3, 7) ∷ []

abbrev current_shares : Dict ℕ ℕ
current_shares = (2, 20) ∷ (1, 30) ∷ []

abbrev target_shares : Dict ℕ ℕ
target_shares = (2, 20) ∷ (1, 10) ∷ (3, 7) ∷ []

test_changeset :
    calculate_changeset (diff_numeric is_near) new_shares current_shares
    ≡ ok (target_shares, some ((1, 10) ∷ (3, 7) ∷ []))
unfolding calculate_changeset merge_items diff_numeric is_near
test_changeset = refl

calculate_changeset-settled_example :
    (t : Dict ℕ ℕ) × (calculate_changeset (diff_numeric is_near) new_shares target_shares
      ≡ ok (t, none))
unfolding numeric_settling
calculate_changeset-settled_example =
    calculate_changeset-settled (diff_numeric is_near) (numeric_settling is_near is_near_self)
      new_shares current_shares (refl, (refl, (refl, tt))) (tt, (tt, (tt, tt))) test_changeset

calculate_changeset-none_iff_example :
    ((t : Dict ℕ ℕ) × (calculate_changeset (diff_numeric is_near) new_shares target_shares
        ≡ ok (t, none)))
    ↔ All (IsSettled (diff_numeric is_near) target_shares) new_shares
calculate_changeset-none_iff_example =
    calculate_changeset-none_iff (diff_numeric is_near) new_shares target_shares

-- Minus a half lies between minus one and a third.
validate_numeric_iff_example :
    (validate_numeric ltb_ℚ
        (some (fraction (negsuc 0) 0))
        (some (fraction (pos 1) 2))
        (fraction (negsuc 0) 1)
      ≡ ok tt)
    ↔ (IsAtLeast (some (fraction (negsuc 0) 0)) (fraction (negsuc 0) 1)
        × IsAtMost (some (fraction (pos 1) 2)) (fraction (negsuc 0) 1))
validate_numeric_iff_example =
    validate_numeric_iff (some (fraction (negsuc 0) 0)) (some (fraction (pos 1) 2))
      (fraction (negsuc 0) 1)
