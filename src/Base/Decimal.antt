-- ===== src/Base/Decimal.antt =====
-- `str(n)` for a number, and its round trip through `int`.
use Prim.Native.Nat.{ℕ, zero, suc, ◌+◌, ◌*◌, ◌/◌, ◌%◌, ◌≤◌, ◌<◌}
use mathlib.Core.Path.{◌≡◌, refl, ◌∙◌, ap}
use mathlib.Core.Logic.{◌≢◌}
use mathlib.Core.Bool.{Bool, true, false}
use mathlib.Core.Option.{none, some}
use mathlib.Core.List.{
  [], ◌∷◌, ◌++◌, append_assoc, append-nil, reverse, reverse-append, reverse-reverse,
}
use native.Mathlib.Omega.{arith}
use native.Mathlib.Decide.{dec_le}
use workload_collocation_age.Base.Tests.{ltb}
use workload_collocation_age.Base.Lists.{All, All-append}
use workload_collocation_age.Base.Errors.{ok, Error, from_option}
use workload_collocation_age.Base.Int.{pos}
use workload_collocation_age.Base.Text.{
  Text, drop_while, is_int_space, digits, drop_prefix, signed, int, trim_int, has_char, is_space,
  strip,
}

-- The digits of `n`, most significant first.
show_digits : ℕ → ℕ → Text
show_digits zero n = []
show_digits (suc f) n = elim (ltb n 10) [
  | true ↦ (b'0' + n) ∷ []
  | false ↦ show_digits f (n / 10) ++ (b'0' + n % 10) ∷ []
]

unfoldable pub show : ℕ → Text
unfolding show_digits
show n = show_digits (suc n) n

abbrev pub IsDigit : ℕ → Type 0
IsDigit c = (b'0' ≤ c) × (c ≤ b'9')

show_digits_small : (f n : ℕ) → n < 10 → show_digits (suc f) n ≡ (b'0' + n) ∷ []
unfolding show_digits
show_digits_small f n h = ground arith

show_digits_large :
    (f n : ℕ) → 10 ≤ n → show_digits (suc f) n ≡ show_digits f (n / 10) ++ (b'0' + n % 10) ∷ []
unfolding show_digits
show_digits_large f n h = ground arith

show_digits-IsDigit : (f n : ℕ) → All IsDigit (show_digits f n)
show_digits-IsDigit zero n = unfold show_digits in tt
show_digits-IsDigit (suc f) n = elim (dec_le 10 n) [
  | yes h ↦ rw (show_digits_large f n h) (
      All-append IsDigit (show_digits f (n / 10)) ((b'0' + n % 10) ∷ [])
        (show_digits-IsDigit f (n / 10)) (omega arith))
  | no h ↦ rw (show_digits_small f n (omega arith)) (omega arith)
]

digits_step :
    (n d : ℕ) (edge : Bool) (s : Text)
    → d < 10
    → digits 10 n edge ((b'0' + d) ∷ s) ≡ digits 10 (n * 10 + d) false s
unfolding digits
digits_step n d true s h = ground arith
digits_step n d false s h = ground arith

digits-show_digits :
    (f n : ℕ) (s : Text) → n < f → digits 10 0 true (show_digits f n ++ s) ≡ digits 10 n false s
digits-show_digits zero n s h = absurd (omega arith)
digits-show_digits (suc f) n s h = elim (dec_le 10 n) [
  | yes t ↦
      rw (show_digits_large f n t, append_assoc)
        (digits-show_digits f (n / 10) ((b'0' + n % 10) ∷ s) (omega arith)
          ∙ digits_step (n / 10) (n % 10) false s (omega arith)
          ∙ ap (λ m. digits 10 m false s) (omega arith))
  | no t ↦
      rw (show_digits_small f n (omega arith))
        (digits_step 0 n true s (omega arith) ∙ ap (λ m. digits 10 m false s) (omega arith))
]

digits-show : (n : ℕ) → digits 10 0 true (show n) ≡ some n
unfolding show digits
digits-show n =
    rw (← append-nil (show_digits (suc n) n)) (digits-show_digits (suc n) n [] (omega arith))

pub show-IsDigit : (n : ℕ) → All IsDigit (show n)
unfolding show
show-IsDigit n = show_digits-IsDigit (suc n) n

pub show-ne-nil : (n : ℕ) → show n ≢ []
show-ne-nil n e = cc (digits-show n, ap (digits 10 0 true) e, digits-nil)
  where
    digits-nil : digits 10 0 true [] ≡ none
    digits-nil = unfold digits in refl

drop_while-IsDigit : (s : Text) → All IsDigit s → drop_while is_int_space s ≡ s
drop_while-IsDigit [] h = refl
drop_while-IsDigit (c ∷ s) (h, _) = ground arith

All-reverse : (s : Text) → All IsDigit s → All IsDigit (reverse s)
All-reverse [] h = tt
All-reverse (c ∷ s) (h, hs) =
    rw (reverse-append (c ∷ []) s)
      (All-append IsDigit (reverse s) (c ∷ []) (All-reverse s hs) (h, tt))

drop_prefix_ten : (s : Text) → drop_prefix 10 s ≡ s
drop_prefix_ten [] = refl
drop_prefix_ten (a ∷ []) = refl
drop_prefix_ten (a ∷ (b ∷ s)) = refl

signed-IsDigit :
    (s : Text) {n : ℕ} → All IsDigit s → digits 10 0 true s ≡ some n → signed 10 s ≡ some (pos n)
signed-IsDigit [] h e = unfold digits in cc
signed-IsDigit (c ∷ s) {n} (h, hs) e = ground (arith, drop_prefix_ten (c ∷ s))

trim_int-IsDigit : (s : Text) → All IsDigit s → trim_int s ≡ s
unfolding trim_int
trim_int-IsDigit s h =
    rw (drop_while-IsDigit s h, drop_while-IsDigit (reverse s) (All-reverse s h))
      (reverse-reverse s)

-- A number is printed and read back.
pub int-show : (n : ℕ) → int 10 (show n) ≡ ok (pos n)
unfolding int
int-show n =
    ap (λ s. from_option (signed 10 s) Error.value_error)
      (trim_int-IsDigit (show n) (show-IsDigit n))
    ∙ ap (λ o. from_option o Error.value_error)
        (signed-IsDigit (show n) (show-IsDigit n) (digits-show n))

All-Lacks : (c : ℕ) (s : Text) → b'9' < c → All IsDigit s → has_char c s ≡ false
All-Lacks c [] h a = refl
All-Lacks c (b ∷ s) h (a, rest) = ground (arith, All-Lacks c s h rest)

-- A printed number holds no character above the digits.
pub show-has_char : (c n : ℕ) → b'9' < c → has_char c (show n) ≡ false
show-has_char c n h = All-Lacks c (show n) h (show-IsDigit n)

All-Lacks_below : (c : ℕ) (s : Text) → c < b'0' → All IsDigit s → has_char c s ≡ false
All-Lacks_below c [] h a = refl
All-Lacks_below c (b ∷ s) h (a, rest) = ground (arith, All-Lacks_below c s h rest)

-- Nor one below the digits.
pub show-lacks : (c n : ℕ) → c < b'0' → has_char c (show n) ≡ false
show-lacks c n h = All-Lacks_below c (show n) h (show-IsDigit n)

drop_space-IsDigit : (s : Text) → All IsDigit s → drop_while is_space s ≡ s
drop_space-IsDigit [] h = refl
drop_space-IsDigit (c ∷ s) (h, _) = ground arith

pub strip-show : (n : ℕ) → strip (show n) ≡ show n
unfolding strip
strip-show n =
    rw
      (
        drop_space-IsDigit (show n) (show-IsDigit n),
        drop_space-IsDigit (reverse (show n)) (All-reverse (show n) (show-IsDigit n)),
      )
      (reverse-reverse (show n))
