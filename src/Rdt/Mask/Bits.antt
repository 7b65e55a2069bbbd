-- ===== src/Rdt/Mask/Bits.antt =====
-- Binary digits and the number that they spell.
use workload_collocation_age.Base.{
  ℕ, zero, suc, ◌+◌, ◌*◌, ◌^◌, ◌/◌, ◌%◌, ◌≤◌, ◌<◌, Bool, true, false, List, [], ◌∷◌, ◌++◌, ◌≡◌,
  refl, arith, ◌==◌, ◌∙◌, sym, ap, append-nil, append_assoc,
}
use workload_collocation_age.Rdt.Mask.{digits_of, binary}

abbrev pub bit : Bool → ℕ
bit true = 1
bit false = 0

-- The number that bits spell behind `n`.
abbrev pub value : ℕ → List Bool → ℕ
value n [] = n
value n (b ∷ bits) = value (2 * n + bit b) bits

abbrev pub replicate : ℕ → Bool → List Bool
replicate zero b = []
replicate (suc n) b = b ∷ replicate n b

pub value-append : (n : ℕ) (xs ys : List Bool) → value n (xs ++ ys) ≡ value (value n xs) ys
value-append n [] ys = refl
value-append n (b ∷ xs) ys = value-append (2 * n + bit b) xs ys

value-digits_of : (f n : ℕ) → n ≤ f → value 0 (digits_of f n) ≡ n
unfolding digits_of
value-digits_of zero zero h = refl
value-digits_of zero (suc n) h = absurd (omega arith)
value-digits_of (suc f) zero h = refl
value-digits_of (suc f) (suc n) h =
    rw (value-append 0 (digits_of f (suc n / 2)) ((suc n % 2 == 1) ∷ []))
      (rw (value-digits_of f (suc n / 2) (omega arith)) (ground arith))

-- The digits of `n` spell `n`.
pub value-binary : (n : ℕ) → value 0 (binary n) ≡ n
unfolding binary
value-binary zero = omega arith
value-binary (suc n) = value-digits_of (suc n) (suc n) (omega arith)

-- More fuel than needed changes nothing.
digits_of_fuel : (f g n : ℕ) → n ≤ f → n ≤ g → digits_of f n ≡ digits_of g n
unfolding digits_of
digits_of_fuel zero zero n h k = refl
digits_of_fuel zero (suc g) zero h k = refl
digits_of_fuel zero (suc g) (suc n) h k = absurd (omega arith)
digits_of_fuel (suc f) zero zero h k = refl
digits_of_fuel (suc f) zero (suc n) h k = absurd (omega arith)
digits_of_fuel (suc f) (suc g) zero h k = refl
digits_of_fuel (suc f) (suc g) (suc n) h k =
    ap (λ bits. bits ++ (suc n % 2 == 1) ∷ [])
      (digits_of_fuel f g (suc n / 2) (omega arith) (omega arith))

half_of : (m n : ℕ) (b : Bool) → n ≡ 2 * m + bit b → (n / 2 ≡ m) × ((n % 2 == 1) ≡ b)
half_of m n true h = (omega arith, ground arith)
half_of m n false h = (omega arith, ground arith)

-- The digits of a positive number end with its parity.
digits_of_step :
    (m n : ℕ) (b : Bool) → n ≡ 2 * m + bit b → 0 < n → digits_of n n ≡ digits_of m m ++ b ∷ []
unfolding digits_of
digits_of_step m zero b h p = absurd (omega arith)
digits_of_step m (suc n) b h p =
    let (e, q) = half_of m (suc n) b h in
    rw (q, e) (ap (λ bits. bits ++ b ∷ []) (digits_of_fuel n m m (omega (arith, e)) (omega arith)))

replicate-append : (n : ℕ) (b : Bool) → replicate n b ++ b ∷ [] ≡ replicate (suc n) b
replicate-append zero b = refl
replicate-append (suc n) b = ap (λ bits. b ∷ bits) (replicate-append n b)

pub pow_two : (n : ℕ) → 2 ^ suc n ≡ 2 * 2 ^ n
pow_two n = omega arith

pow_pos : (n : ℕ) → 0 < 2 ^ n
pow_pos zero = omega arith
pow_pos (suc n) = omega (arith, pow_pos n, pow_two n)

-- `w` ones followed by `t` zeros.
abbrev pub IsRun : ℕ → ℕ → ℕ → Type 0
IsRun w t n = n + 2 ^ t ≡ 2 ^ (w + t)

pub step_right : (w t : ℕ) → w + suc t ≡ suc (w + t)
step_right w t = omega arith

pub pow_grows : (w t : ℕ) → 2 ^ t < 2 ^ (suc w + t)
pow_grows zero t = omega (arith, pow_pos t, pow_two t, ap (λ k. 2 ^ k) (one_right t))
  where
    one_right : (t : ℕ) → suc zero + t ≡ suc t
    one_right t = omega arith
pow_grows (suc w) t =
    omega (arith, pow_grows w t, pow_two (suc w + t), ap (λ k. 2 ^ k) (two_right w t))
  where
    two_right : (w t : ℕ) → suc (suc w) + t ≡ suc (suc w + t)
    two_right w t = omega arith

run_pos : (w t n : ℕ) → n + 2 * 2 ^ t ≡ 2 * 2 ^ (suc w + t) → 0 < n
run_pos w t n h = omega (arith, pow_grows w t)

digits_of_ones : (w n : ℕ) → n + 1 ≡ 2 ^ w → digits_of n n ≡ replicate w true
digits_of_ones zero n h = let e : n ≡ 0 = omega arith in rw e (unfold digits_of in refl)
digits_of_ones (suc w) n h =
    let m = n / 2 in
    let e : m + 1 ≡ 2 ^ w = omega (arith, pow_two w, pow_pos w) in
    digits_of_step m n true (omega (arith, pow_two w, pow_pos w))
      (omega (arith, pow_two w, pow_pos w))
    ∙ ap (λ bits. bits ++ true ∷ []) (digits_of_ones w m e)
    ∙ replicate-append w true

-- A run of ones, shifted left: these are its digits.
pub digits_of-IsRun :
    (w t n : ℕ) → IsRun (suc w) t n → digits_of n n ≡ replicate (suc w) true ++ replicate t false
digits_of-IsRun w zero n h =
    let e : n + 1 ≡ 2 ^ suc w = h ∙ ap (λ k. 2 ^ k) (omega arith) in
    digits_of_ones (suc w) n e ∙ sym (append-nil (replicate (suc w) true))
digits_of-IsRun w (suc t) n h =
    let m = n / 2 in
    let twice : n + 2 * 2 ^ t ≡ 2 * 2 ^ (suc w + t) =
      omega (arith, h ∙ ap (λ k. 2 ^ k) (step_right (suc w) t) ∙ pow_two (suc w + t), pow_two t) in
    let e : IsRun (suc w) t m = omega (arith, twice) in
    digits_of_step m n false (omega (arith, twice)) (run_pos w t n twice)
    ∙ ap (λ bits. bits ++ false ∷ []) (digits_of-IsRun w t m e)
    ∙ append_assoc (replicate (suc w) true) (replicate t false) (false ∷ [])
    ∙ ap (λ bits. replicate (suc w) true ++ bits) (replicate-append t false)
