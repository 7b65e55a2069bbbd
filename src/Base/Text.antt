-- ===== src/Base/Text.antt =====
-- Texts as lists of code points, with the methods of `str` that the code calls and `int(text, base)`.
-- The texts of the modelled files are ASCII: `int` and `strip` know the ASCII digits and blanks.
use Prim.Native.Nat.{ℕ, ◌+◌, ◌-◌, ◌*◌}
use Prim.Native.Char.{code}
use Prim.Native.String.{String}
use mathlib.Core.Bool.{Bool, true, false, ◌&&◌, ◌||◌}
use mathlib.Core.Option.{Option, none, some}
use mathlib.Core.List.{List, [], ◌∷◌, ◌++◌, reverse}
use workload_collocation_age.Base.Tests.{ltb, leb, ◌==◌, if◌then◌else◌}
use workload_collocation_age.Base.Errors.{Outcome, Error, from_option}
use workload_collocation_age.Base.Int.{ℤ, pos, neg}

abbrev pub Text : Type 0
Text = List ℕ

-- The code points of a literal.
abbrev pub codes : String → Text
codes String.[] = []
codes (String.◌∷◌ c s) = code c ∷ codes s

-- `s.startswith(p)`
abbrev pub starts_with : Text → Text → Bool
starts_with s [] = true
starts_with [] (c ∷ p) = false
starts_with (b ∷ s) (c ∷ p) = (b == c) && starts_with s p

-- `c in s` for a text `c` of one character
abbrev pub has_char : ℕ → Text → Bool
has_char c [] = false
has_char c (b ∷ s) = (b == c) || has_char c s

-- `s[:s.find(c)]` where `c` is in `s`, else `s`
abbrev pub before : ℕ → Text → Text
before c [] = []
before c (b ∷ s) = if b == c then [] else b ∷ before c s

-- `s[s.find(c) + 1:]` where `c` is in `s`, else the empty text
abbrev pub after : ℕ → Text → Text
after c [] = []
after c (b ∷ s) = let rest = after c s in if b == c then s else rest

-- `s[s.find(c) + 1:]`: `find` is -1 for a missing character, and the slice is then all of `s`
abbrev pub after_first : ℕ → Text → Text
after_first c s = if has_char c s then after c s else s

-- `s.split(c)`: the parts between the separators, always at least one
abbrev pub cons_first : ℕ → List Text → List Text
cons_first b [] = (b ∷ []) ∷ []
cons_first b (p ∷ ps) = (b ∷ p) ∷ ps

abbrev pub split : ℕ → Text → List Text
split c [] = [] ∷ []
split c (b ∷ s) = let parts = split c s in if b == c then [] ∷ parts else cons_first b parts

-- `c.join(parts)`
abbrev pub join : ℕ → List Text → Text
join c [] = []
join c (p ∷ []) = p
join c (p ∷ (q ∷ ps)) = p ++ c ∷ join c (q ∷ ps)

-- Drop the leading characters that pass the test.
abbrev pub drop_while : (ℕ → Bool) → Text → Text
drop_while f [] = []
drop_while f (c ∷ s) = let rest = drop_while f s in if f c then rest else c ∷ s

-- `s.strip()`
abbrev pub is_space : ℕ → Bool
is_space c = (leb 9 c && leb c 13) || (leb 28 c && leb c 32)

unfoldable pub strip : Text → Text
strip s = reverse (drop_while is_space (reverse (drop_while is_space s)))

-- The blanks that `int` skips round a number.
abbrev pub is_int_space : ℕ → Bool
is_int_space c = (leb 9 c && leb c 13) || (c == 32)

abbrev pub digit : ℕ → ℕ → Option ℕ
digit base c =
    let d =
      if leb b'0' c && leb c b'9'
      then c - b'0'
      else if leb b'a' c && leb c b'z'
      then c - b'a' + 10
      else if leb b'A' c && leb c b'Z'
      then c - b'A' + 10
      else 36 in
    if ltb d base then some d else none

-- The digits behind `n`; an underscore may stand between two digits. The third argument is true
-- where no underscore may stand and the text may not end.
abbrev pub add_digit : ℕ → ℕ → ℕ → Option ℕ
add_digit base n c = elim (digit base c) [ none ↦ none | some d ↦ some (n * base + d) ]

unfoldable pub digits : ℕ → ℕ → Bool → Text → Option ℕ
digits base n true [] = none
digits base n false [] = some n
digits base n edge (c ∷ s) =
    let skip = digits base n true s in
    if c == b'_'
    then (if edge then none else skip)
    else elim (add_digit base n c) [ none ↦ none | some m ↦ digits base m false s ]

-- `0x` may stand before base 16, with an underscore behind it
abbrev pub drop_underscore : Text → Text
drop_underscore [] = []
drop_underscore (c ∷ s) = if c == b'_' then s else c ∷ s

abbrev pub drop_prefix : ℕ → Text → Text
drop_prefix base (a ∷ (b ∷ s)) =
    if (base == 16) && (a == b'0') && ((b == b'x') || (b == b'X'))
    then drop_underscore s
    else a ∷ b ∷ s
drop_prefix base s = s

abbrev pub magnitude : ℕ → Text → Option ℕ
magnitude base s = digits base 0 true (drop_prefix base s)

abbrev pub signed : ℕ → Text → Option ℤ
signed base [] = none
signed base (c ∷ s) =
    if c == b'-'
    then elim (magnitude base s) [ none ↦ none | some n ↦ some (neg (pos n)) ]
    else elim (magnitude base (if c == b'+' then s else c ∷ s)) [
      | none ↦ none
      | some n ↦ some (pos n)
    ]

unfoldable pub trim_int : Text → Text
trim_int s = reverse (drop_while is_int_space (reverse (drop_while is_int_space s)))

-- `int(s, base)`
unfoldable pub int : ℕ → Text → Outcome ℤ
unfolding digits neg trim_int
int base s = from_option (signed base (trim_int s)) Error.value_error
