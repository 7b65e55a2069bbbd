-- ===== src/Rdt/Mask/Accepts.antt =====
-- Which masks `check_cbm_mask` accepts, stated on the numbers behind the texts.
use Prim.Native.Nat.add
use workload_collocation_age.Base.{
  ℕ, zero, suc, ◌^◌, ◌≤◌, false, ◌≡◌, ◌↔◌, refl, arith, ap, ok, Outcome-cases, inl, inr,
}
use workload_collocation_age.Base.Int.{ℤ, pos, ◌≤ℤ◌}
use workload_collocation_age.Base.Text.{Text, int}
use workload_collocation_age.Rdt.Mask.{
  Scan, start, magnitude, scan, binary, check_bits, check_cbm_mask,
}
use workload_collocation_age.Rdt.Mask.Bits.{IsRun}
use workload_collocation_age.Rdt.Mask.Shape.{scan_sound, scan_complete}

-- A series of `w` ones without a gap, `w` at least the minimum; zero has the empty series.
abbrev pub HasRun : ℕ → ℕ → Type 0
HasRun least n = (w : ℕ) × (t : ℕ) × IsRun w t n × (least ≤ w)

run_length :
    (n : ℕ) (least : ℕ)
    → HasRun least n
    → (s : Scan) × (scan (binary n) start ≡ ok s) × (least ≤ s.number_of_cbm_bits)
run_length n least (zero, t, r, h) =
    let e : n ≡ 0 = omega (arith, ap (λ k. 2 ^ k) (add.zero t)) in
    rw e (unfold scan binary in (record start { previous = false }, refl, h))
run_length n least (suc w, t, r, h) = let (s, e, c) = scan_complete w t n r in (s, e, omega arith)

module _ (mask cbm : ℤ) (min_cbm_bits : Text) (least : ℕ)
    (parsed : int 10 min_cbm_bits ≡ ok (pos least)) where
  check_bits_sound :
      check_bits mask cbm min_cbm_bits ≡ ok tt → (mask ≤ℤ cbm) × HasRun least (magnitude mask)
  unfolding check_bits
  check_bits_sound h = elim (Outcome-cases (scan (binary (magnitude mask)) start)) [
    | inl (s, e) ↦
        let (t, r) = scan_sound (magnitude mask) e in
        (ground arith, (s.number_of_cbm_bits, t, r, ground arith))
    | inr (x, e) ↦ absurd (ground arith)
  ]

  check_bits_complete :
      mask ≤ℤ cbm → HasRun least (magnitude mask) → check_bits mask cbm min_cbm_bits ≡ ok tt
  unfolding check_bits
  check_bits_complete h run = let (s, e, c) = run_length (magnitude mask) least run in ground arith

-- Where the three texts are read as numbers, the check passes exactly when the mask is at most the
-- platform's mask and its magnitude is one series of ones without a gap, which is followed by
-- zeros only and has at least the minimal length.
pub check_cbm_mask_iff :
    (mask cbm_mask min_cbm_bits : Text) (m c : ℤ) (least : ℕ)
    → int 16 mask ≡ ok m
    → int 16 cbm_mask ≡ ok c
    → int 10 min_cbm_bits ≡ ok (pos least)
    → (check_cbm_mask mask cbm_mask min_cbm_bits ≡ ok tt) ↔ ((m ≤ℤ c) × HasRun least (magnitude m))
unfolding check_cbm_mask
check_cbm_mask_iff mask cbm_mask min_cbm_bits m c least hm hc hl = (
  λ h. check_bits_sound m c min_cbm_bits least hl (rw (hm, hc) at h),
  λ h. rw (hm, hc) (check_bits_complete m c min_cbm_bits least hl h.0 h.1),
)
