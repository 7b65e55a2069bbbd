-- ===== src/Listformat/RoundTrip.antt =====
-- A set of integers that is encoded in the list format is decoded again.
use mathlib.Core.List.{reverse, reverse-append, reverse-reverse}
use workload_collocation_age.Base.{
  ℕ, ◌<◌, ◌≡◌, refl, sym, ap, ◌∙◌, ◌≢◌, false, List, [], ◌∷◌, ◌++◌, map, append_assoc, append-nil,
  All, All-map, All-append, arith, ok,
}
use workload_collocation_age.Base.Text.{Text, split, join, strip, is_space, drop_while, has_char}
use workload_collocation_age.Base.Decimal.{
  show, IsDigit, show-IsDigit, show-ne-nil, show-lacks, strip-show, int-show,
}
use workload_collocation_age.Rdt.Schemata.RoundTrip.{split-join}
use workload_collocation_age.Listformat.{
  add, boundary, add_boundaries, add_ranges, is_blank, decode_listformat, encode_listformat,
}

-- The elements grow from one to the next.
unfoldable pub IsAscending : List ℕ → Type 0
IsAscending [] = Unit
IsAscending (n ∷ ns) = All (λ m. n < m) ns × IsAscending ns

add-last : (n : ℕ) (set : List ℕ) → All (λ m. m < n) set → add n set ≡ set ++ n ∷ []
unfolding add
add-last n [] below = refl
add-last n (m ∷ set) (less, below) = ground (arith, add-last n set below)

extend :
    (n : ℕ) (set ns : List ℕ)
    → All (λ k. All (λ m. m < k) set) ns
    → All (λ m. n < m) ns
    → All (λ k. All (λ m. m < k) (set ++ n ∷ [])) ns
extend n set [] below above = tt
extend n set (k ∷ ns) (below, all_below) (above, all_above) =
    (All-append (λ m. m < k) set (n ∷ []) below (above, tt), extend n set ns all_below all_above)

boundary-show : (n : ℕ) → boundary (show n) ≡ ok n
unfolding boundary
boundary-show n = rw (strip-show n, int-show n) refl

add_boundaries-show :
    (n : ℕ) (set : List ℕ) → add_boundaries (split b'-' (show n)) set ≡ ok (add n set)
unfolding add_boundaries
add_boundaries-show n set =
    rw (split-join b'-' (show n) [] (show-lacks b'-' n (omega arith), tt), boundary-show n) refl

add_ranges-show :
    (ns set : List ℕ)
    → All (λ k. All (λ m. m < k) set) ns
    → IsAscending ns
    → add_ranges (map show ns) set ≡ ok (set ++ ns)
unfolding add_ranges IsAscending
add_ranges-show [] set below ascending = ap ok (sym (append-nil set))
add_ranges-show (n ∷ ns) set (below, all_below) (above, ascending) =
    let step = add_boundaries-show n set ∙ ap ok (add-last n set below) in
    rw step (
      add_ranges-show ns (set ++ n ∷ []) (extend n set ns all_below above) ascending
      ∙ ap ok (append_assoc set (n ∷ []) ns))

-- The encoded text holds no blank, so that stripping leaves it.
abbrev IsInk : ℕ → Type 0
IsInk c = is_space c ≡ false

show-IsInk : (s : Text) → All IsDigit s → All IsInk s
show-IsInk s all = All-map s (λ c digit. ground arith) all

join-IsInk : (n : ℕ) (ns : List ℕ) → All IsInk (join b',' (map show (n ∷ ns)))
join-IsInk n [] = show-IsInk (show n) (show-IsDigit n)
join-IsInk n (m ∷ ns) =
    All-append IsInk (show n) (b',' ∷ join b',' (map show (m ∷ ns)))
      (show-IsInk (show n) (show-IsDigit n)) (refl, join-IsInk m ns)

reverse-IsInk : (s : Text) → All IsInk s → All IsInk (reverse s)
reverse-IsInk [] all = tt
reverse-IsInk (c ∷ s) (ink, all) =
    rw (reverse-append (c ∷ []) s)
      (All-append IsInk (reverse s) (c ∷ []) (reverse-IsInk s all) (ink, tt))

drop_while-IsInk : (s : Text) → All IsInk s → drop_while is_space s ≡ s
drop_while-IsInk [] all = refl
drop_while-IsInk (c ∷ s) (ink, all) = rw ink refl

strip-IsInk : (s : Text) → All IsInk s → strip s ≡ s
unfolding strip
strip-IsInk s all =
    rw (drop_while-IsInk s all, drop_while-IsInk (reverse s) (reverse-IsInk s all))
      (reverse-reverse s)

is_blank-false : (s : Text) → s ≢ [] → is_blank s ≡ false
is_blank-false [] filled = absurd (filled refl)
is_blank-false (c ∷ s) filled = refl

join-filled : (n : ℕ) (ns : List ℕ) → is_blank (join b',' (map show (n ∷ ns))) ≡ false
join-filled n [] = is_blank-false (show n) (show-ne-nil n)
join-filled n (m ∷ ns) = append-filled (show n)
  where
    append-filled : (s : Text) → is_blank (s ++ b',' ∷ join b',' (map show (m ∷ ns))) ≡ false
    append-filled [] = refl
    append-filled (c ∷ s) = refl

lacks_comma : (ns : List ℕ) → All (λ q. has_char b',' q ≡ false) (map show ns)
lacks_comma [] = tt
lacks_comma (n ∷ ns) = (show-lacks b',' n (omega arith), lacks_comma ns)

-- A set in ascending order that is encoded is decoded to itself.
pub decode_listformat-encode_listformat :
    (ns : List ℕ) → IsAscending ns → decode_listformat (encode_listformat ns) ≡ ok ns
unfolding decode_listformat encode_listformat
decode_listformat-encode_listformat [] ascending = refl
decode_listformat-encode_listformat (n ∷ ns) ascending =
    let filled = join-filled n ns in
    let stripped = strip-IsInk (join b',' (map show (n ∷ ns))) (join-IsInk n ns) in
    rw (stripped, filled, split-join b',' (show n) (map show ns) (lacks_comma (n ∷ ns)))
      (add_ranges-show (n ∷ ns) [] (nothing_below (n ∷ ns)) ascending)
  where
    nothing_below : (ks : List ℕ) → All (λ k. Unit {0}) ks
    nothing_below [] = tt
    nothing_below (k ∷ ks) = (tt, nothing_below ks)
