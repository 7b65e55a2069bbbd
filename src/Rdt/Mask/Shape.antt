-- ===== src/Rdt/Mask/Shape.antt =====
-- The loop over the bits accepts exactly the runs of ones, and counts them.
use workload_collocation_age.Base.{
  ℕ, zero, suc, ◌+◌, ◌*◌, ◌^◌, Bool, true, false, List, [], ◌∷◌, ◌++◌, ◌≡◌, ◌≢◌, refl, arith, ◌∙◌,
  ap, ok, Outcome-cases, ok-injective, Bool-cases, if◌then◌else◌, inl, inr,
}
use mathlib.Core.Path.{subst}
use workload_collocation_age.Rdt.Mask.{Scan, start, scan_bit, scan, binary, digits_of}
use workload_collocation_age.Rdt.Mask.Bits.{
  bit, value, value-binary, pow_two, pow_grows, step_right, replicate, IsRun, digits_of-IsRun,
}

-- What the bits read so far spell: no one yet, a series of ones, or such a series behind zeros.
abbrev Spells : Bool → Bool → ℕ → ℕ → Type 0
Spells false false count n = (count ≡ 0) × (n ≡ 0)
Spells false true count n = n + 1 ≡ 2 ^ count
Spells true previous count n = (t : ℕ) × IsRun count t n

abbrev IsScan : Scan → ℕ → Type 0
IsScan s n = Spells s.series_of_ones_finished s.previous s.number_of_cbm_bits n

double_pow : (c : ℕ) → 2 ^ (c + 1) ≡ 2 * 2 ^ c
double_pow c = ap (λ k. 2 ^ k) (omega arith) ∙ pow_two c

Spells-one : (p : Bool) (c n : ℕ) → Spells false p c n → Spells false true (c + 1) (2 * n + 1)
Spells-one false c n (hc, hn) = rw (hc, hn)
Spells-one true c n h = omega (arith, double_pow c)

shift-IsRun : (c t n : ℕ) → IsRun c t n → IsRun c (suc t) (2 * n + 0)
shift-IsRun c t n h = omega (arith, pow_two t, ap (λ k. 2 ^ k) (step_right c t) ∙ pow_two (c + t))

Spells-zero :
    (f p : Bool) (c n : ℕ) → Spells f p c n → Spells (if p then true else f) false c (2 * n + 0)
Spells-zero false false c n (hc, hn) = (hc, omega arith)
Spells-zero false true c n h = (1, shift-IsRun c 0 n (h ∙ ap (λ k. 2 ^ k) (omega arith)))
Spells-zero true false c n (t, h) = (suc t, shift-IsRun c t n h)
Spells-zero true true c n (t, h) = (suc t, shift-IsRun c t n h)

scan_bit-IsScan :
    (b : Bool) (s : Scan) (n : ℕ) {s' : Scan}
    → IsScan s n
    → scan_bit b s ≡ ok s'
    → IsScan s' (2 * n + bit b)
unfolding scan_bit
scan_bit-IsScan false s n h e =
    subst (λ u. IsScan u (2 * n + 0)) (ok-injective e)
      (Spells-zero s.series_of_ones_finished s.previous s.number_of_cbm_bits n h)
scan_bit-IsScan true s n {s'} h e = elim (Bool-cases s.series_of_ones_finished) [
  | inl f ↦ cc (rw f at e)
  | inr f ↦
      subst (λ u. IsScan u (2 * n + 1)) (ok-injective (rw f at e))
        (Spells-one s.previous s.number_of_cbm_bits n
          (subst (λ g. Spells g s.previous s.number_of_cbm_bits n) f h))
]

scan-IsScan :
    (bits : List Bool) (s : Scan) (n : ℕ) {s' : Scan}
    → IsScan s n
    → scan bits s ≡ ok s'
    → IsScan s' (value n bits)
unfolding scan
scan-IsScan [] s n h e = subst (λ u. IsScan u n) (ok-injective e) h
scan-IsScan (b ∷ bits) s n h e = elim (Outcome-cases (scan_bit b s)) [
  | inl (t, p) ↦ scan-IsScan bits t (2 * n + bit b) (scan_bit-IsScan b s n h p) (rw (p, scan) at e)
  | inr (x, p) ↦ cc (rw (p, scan) at e)
]

IsRun-of_Spells : (f p : Bool) (c n : ℕ) → Spells f p c n → (t : ℕ) × IsRun c t n
IsRun-of_Spells false false c n (hc, hn) = (0, rw (hc, hn))
IsRun-of_Spells false true c n h = (0, h ∙ ap (λ k. 2 ^ k) (omega arith))
IsRun-of_Spells true p c n h = h

-- What the loop accepts is a run of ones, and the count is its length.
pub scan_sound :
    (n : ℕ) {s : Scan} → scan (binary n) start ≡ ok s → (t : ℕ) × IsRun s.number_of_cbm_bits t n
scan_sound n {s} h =
    subst (λ m. (t : ℕ) × IsRun s.number_of_cbm_bits t m) (value-binary n)
      (IsRun-of_Spells s.series_of_ones_finished s.previous s.number_of_cbm_bits
        (value 0 (binary n)) (scan-IsScan (binary n) start 0 (refl, refl) h))

abbrev in_series : ℕ → Scan
in_series c = record { number_of_cbm_bits = c; series_of_ones_finished = false; previous = true }

scan_ones :
    (w c : ℕ) (rest : List Bool)
    → scan (replicate w true ++ rest) (in_series c) ≡ scan rest (in_series (c + w))
unfolding scan
scan_ones zero c rest = ap (λ k. scan rest (in_series k)) (omega arith)
scan_ones (suc w) c rest =
    scan_ones w (c + 1) rest ∙ ap (λ k. scan rest (in_series k)) (omega arith)

scan_zeros :
    (t : ℕ) (s : Scan)
    → (s' : Scan) × (scan (replicate t false) s ≡ ok s')
      × (s'.number_of_cbm_bits ≡ s.number_of_cbm_bits)
unfolding scan
scan_zeros zero s = (s, refl, refl)
scan_zeros (suc t) s = scan_zeros t (record s {
  series_of_ones_finished = if s.previous then true else s.series_of_ones_finished;
  previous = false;
})

binary_pos : (n : ℕ) → n ≢ 0 → binary n ≡ digits_of n n
unfolding binary
binary_pos zero h = absurd (h refl)
binary_pos (suc n) h = refl

run_ne_zero : (w t n : ℕ) → IsRun (suc w) t n → n ≢ 0
run_ne_zero w t n h = omega (arith, pow_grows w t)

-- Every run of ones is accepted, with its length as the count.
pub scan_complete :
    (w t n : ℕ)
    → IsRun (suc w) t n
    → (s : Scan) × (scan (binary n) start ≡ ok s) × (s.number_of_cbm_bits ≡ suc w)
scan_complete w t n h =
    let (s, e, c) = scan_zeros t (in_series (1 + w)) in
    (
      s,
      ap (λ bits. scan bits start) (binary_pos n (run_ne_zero w t n h) ∙ digits_of-IsRun w t n h)
          ∙ first_one w (replicate t false)
          ∙ e,
      c ∙ omega arith,
    )
  where
    first_one :
        (w : ℕ) (rest : List Bool)
        → scan (replicate (suc w) true ++ rest) start ≡ scan rest (in_series (1 + w))
    first_one w rest = unfold scan in scan_ones w 1 rest
