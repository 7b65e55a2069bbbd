-- ===== src/Listformat.antt =====
-- `decode_listformat` and `encode_listformat` of wca/platforms.py. A set of integers is the list of its
-- elements in order. A boundary holds no minus sign, so the integers of the format are not negative.
pub mod RoundTrip
pub mod Values
mod Tests
use workload_collocation_age.Base.{
  ℕ, zero, suc, ◌+◌, ◌-◌, ◌*◌, ◌/◌, ◌%◌, ◌≤◌, ◌<◌, ◌≡◌, refl, sym, ap, ◌∙◌, ◌≢◌, ◌↔◌, ◌⊎◌, inl, inr,
  Bool, true, false, not, ◌&&◌, ◌||◌, Option, none, some, List, [], ◌∷◌, ◌++◌, map, length, All,
  All-map, In, arith, ltb, leb, ◌==◌, ==_iff, if◌then◌else◌, Bool-cases, Option-cases, Outcome, ok,
  err, Error, ◌>>=◌, ◌>>◌, guard, from_option, >>=-eq-ok, ok-injective, traverse, each,
  Outcome-cases,
}
use workload_collocation_age.Base.Int.{ℤ, pos, negsuc}
use workload_collocation_age.Base.Text.{Text, split, join, strip, int}
use workload_collocation_age.Base.Decimal.{show}

-- `cores.add(n)`
unfoldable pub add : ℕ → List ℕ → List ℕ
add n [] = n ∷ []
add n (m ∷ set) =
    let rest = add n set in if ltb n m then n ∷ m ∷ set else if n == m then m ∷ set else m ∷ rest

-- The numbers from `start` on, as many as the second argument says.
unfoldable pub add_range : ℕ → ℕ → List ℕ → List ℕ
add_range start zero set = set
add_range start (suc n) set = add_range (suc start) n (add start set)

abbrev pub from_int : ℤ → Outcome ℕ
from_int (pos n) = ok n
from_int (negsuc n) = err Error.value_error

-- `int(boundary.strip())`
unfoldable pub boundary : Text → Outcome ℕ
boundary t = int 10 (strip t) >>= from_int

-- One number, or a range with both ends; a text with more dashes is passed over.
unfoldable pub add_boundaries : List Text → List ℕ → Outcome (List ℕ)
add_boundaries [] set = ok set
add_boundaries (t ∷ []) set = boundary t >>= λ n. ok (add n set)
add_boundaries (s ∷ t ∷ []) set =
    boundary s >>= λ start. boundary t >>= λ end_. ok (add_range start (end_ + 1 - start) set)
add_boundaries (s ∷ t ∷ u ∷ boundaries) set = ok set

unfoldable pub add_ranges : List Text → List ℕ → Outcome (List ℕ)
add_ranges [] set = ok set
add_ranges (r ∷ ranges) set = add_boundaries (split b'-' r) set >>= add_ranges ranges

abbrev pub is_blank : Text → Bool
is_blank [] = true
is_blank (c ∷ t) = false

unfoldable pub decode_listformat : Text → Outcome (List ℕ)
decode_listformat value =
    if is_blank value || is_blank (strip value) then ok [] else add_ranges (split b',' value) []

unfoldable pub encode_listformat : List ℕ → Text
encode_listformat ints = join b',' (map show ints)
