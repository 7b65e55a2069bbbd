-- ===== src/Rdt/Mask.antt =====
-- `_count_enabled_bits` and `check_cbm_mask` of wca/resctrl_allocations.py: cache way masks.
pub mod Bits
pub mod Shape
pub mod Accepts
use workload_collocation_age.Base.{
  ℕ, zero, suc, ◌+◌, ◌/◌, ◌%◌, Bool, true, false, List, [], ◌∷◌, ◌++◌, ◌≡◌, refl, ltb, ◌==◌,
  if◌then◌else◌, Outcome, ok, err, Error, ◌>>=◌,
}
use workload_collocation_age.Base.Int.{ℤ, pos, negsuc, ltb_ℤ, pos_part, neg_part}
use workload_collocation_age.Base.Text.{Text, codes, int}

-- The binary digits of `n`, most significant first, and none for zero; `f` bounds their number.
unfoldable pub digits_of : ℕ → ℕ → List Bool
digits_of zero n = []
digits_of (suc f) n = elim n [
  | zero ↦ []
  | suc m ↦ digits_of f (suc m / 2) ++ (suc m % 2 == 1) ∷ []
]

-- `bin(n)` and `format(n, 'b')` without the prefix and the sign; zero is printed `0`.
unfoldable pub binary : ℕ → List Bool
unfolding digits_of
binary zero = false ∷ []
binary (suc n) = digits_of (suc n) (suc n)

-- `.count('1')`
unfoldable pub ones : List Bool → ℕ
ones [] = 0
ones (true ∷ bits) = suc (ones bits)
ones (false ∷ bits) = ones bits

-- A sign is no bit: it is neither counted nor does it stop a series.
abbrev pub magnitude : ℤ → ℕ
magnitude z = pos_part z + neg_part z

unfoldable pub count_enabled_bits : Text → Outcome ℕ
unfolding binary ones
count_enabled_bits [] = ok 0
count_enabled_bits (c ∷ hexstr) = do z ← int 16 (c ∷ hexstr); ok (ones (binary (magnitude z)))

-- The variables of the loop over the bits.
pub record Scan : Type 0 where
  pub number_of_cbm_bits : ℕ
  pub series_of_ones_finished : Bool
  pub previous : Bool

abbrev pub start : Scan
start = record { number_of_cbm_bits = 0; series_of_ones_finished = false; previous = false }

unfoldable pub scan_bit : Bool → Scan → Outcome Scan
scan_bit true s =
    if s.series_of_ones_finished
    then err Error.invalid_allocations
    else ok (record s { number_of_cbm_bits = s.number_of_cbm_bits + 1; previous = true })
scan_bit false s = ok (record s {
  series_of_ones_finished = if s.previous then true else s.series_of_ones_finished;
  previous = false;
})

unfoldable pub scan : List Bool → Scan → Outcome Scan
unfolding scan_bit
scan [] s = ok s
scan (b ∷ bits) s = elim (scan_bit b s) [ ok t ↦ scan bits t | err e ↦ err e ]

-- The check of the two numbers behind the texts. `min_cbm_bits` is a text too.
unfoldable pub check_bits : ℤ → ℤ → Text → Outcome (Unit {0})
check_bits mask cbm_mask min_cbm_bits =
    if ltb_ℤ cbm_mask mask then err Error.invalid_allocations else do
      s ← scan (binary (magnitude mask)) start
      least ← int 10 min_cbm_bits
      if ltb_ℤ (pos s.number_of_cbm_bits) least then err Error.invalid_allocations else ok tt

unfoldable pub check_cbm_mask : Text → Text → Text → Outcome (Unit {0})
unfolding check_bits
check_cbm_mask mask cbm_mask min_cbm_bits = do
  m ← int 16 mask
  c ← int 16 cbm_mask
  check_bits m c min_cbm_bits
