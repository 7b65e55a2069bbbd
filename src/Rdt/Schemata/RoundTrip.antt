-- ===== src/Rdt/Schemata/RoundTrip.antt =====
-- A printed row is parsed back to its dictionary.
use workload_collocation_age.Base.{
  ℕ, true, false, List, [], ◌∷◌, ◌++◌, append_assoc, append-nil, map, ◌≡◌, ◌≢◌, refl, arith, ok,
  All,
}
use workload_collocation_age.Base.Eq.{Text_eq}
use workload_collocation_age.Base.Dict.{Dict, has, put-new}
use workload_collocation_age.Base.Text.{Text, has_char, split, join, before, after, after_first}
use workload_collocation_age.Rdt.Schemata.{parse_domain, parse_domains, parse_row}
use workload_collocation_age.Rdt.Schemata.Sound.{
  Distinct, IsEntry, IsRow, LacksSeparator, Distinct-has,
}

unfoldable pub render_domain : Text × Text → Text
render_domain (k, v) = k ++ b'=' ∷ v

-- The row of a resource: its name, a colon, and the entries between semicolons.
unfoldable pub render : Text → Dict Text Text → Text
unfolding render_domain
render resource d = resource ++ b':' ∷ join b';' (map render_domain d)

module _ (c : ℕ) where
  has_char-middle : (s t : Text) → has_char c (s ++ c ∷ t) ≡ true
  has_char-middle [] t = ground arith
  has_char-middle (b ∷ s) t = ground (arith, has_char-middle s t)

  before-append : (s t : Text) → has_char c s ≡ false → before c (s ++ c ∷ t) ≡ s
  before-append [] t h = ground arith
  before-append (b ∷ s) t h = ground (arith, before-append s t)

  after-append : (s t : Text) → has_char c s ≡ false → after c (s ++ c ∷ t) ≡ t
  after-append [] t h = ground arith
  after-append (b ∷ s) t h = ground (arith, after-append s t)

  after_first-append : (s t : Text) → has_char c s ≡ false → after_first c (s ++ c ∷ t) ≡ t
  after_first-append s t h = rw (has_char-middle s t) (after-append s t h)

  has_char-append :
      (s t : Text) → has_char c s ≡ false → has_char c t ≡ false → has_char c (s ++ t) ≡ false
  has_char-append [] t h k = k
  has_char-append (b ∷ s) t h k = ground (arith, has_char-append s t)

  split-append : (s t : Text) → has_char c s ≡ false → split c (s ++ c ∷ t) ≡ s ∷ split c t
  split-append [] t h = ground arith
  split-append (b ∷ s) t h = ground (arith, split-append s t)

  split-whole : (s : Text) → has_char c s ≡ false → split c s ≡ s ∷ []
  split-whole [] h = refl
  split-whole (b ∷ s) h = ground (arith, split-whole s)

  -- Splitting a join gives the parts back, where none holds the separator.
  pub split-join :
      (p : Text) (ps : List Text)
      → All (λ q. has_char c q ≡ false) (p ∷ ps)
      → split c (join c (p ∷ ps)) ≡ p ∷ ps
  split-join p [] (h, _) = split-whole p h
  split-join p (q ∷ ps) (h, hs) = rw (split-append p _ h, split-join q ps hs)

map-Lacks :
    (d : Dict Text Text)
    → All LacksSeparator d
    → All (λ q. has_char b';' q ≡ false) (map render_domain d)
unfolding render_domain
map-Lacks [] h = tt
map-Lacks ((k, v) ∷ d) ((hk, hv), hs) =
    (has_char-append b';' k (b'=' ∷ v) hk (ground arith), map-Lacks d hs)

parse_domain-render :
    (k v : Text) (d : Dict Text Text)
    → IsEntry (k, v)
    → has k d ≡ false
    → parse_domain (render_domain (k, v)) d ≡ ok (d ++ (k, v) ∷ [])
unfolding parse_domain render_domain
parse_domain-render [] v d h n = ground arith
parse_domain-render (a ∷ k) [] d h n = ground arith
parse_domain-render (a ∷ k) (b ∷ v) d (_, hk, _) n =
    rw
      (
        has_char-middle b'=' (a ∷ k) (b ∷ v),
        before-append b'=' (a ∷ k) (b ∷ v) hk,
        after-append b'=' (a ∷ k) (b ∷ v) hk,
      )
      (rw n (rw (put-new (a ∷ k) (b ∷ v) d n)))

parse_domains-render :
    (d acc : Dict Text Text)
    → All IsEntry d
    → Distinct (acc ++ d)
    → parse_domains (map render_domain d) acc ≡ ok (acc ++ d)
unfolding parse_domains
parse_domains-render [] acc h n = rw append-nil
parse_domains-render ((k, v) ∷ d) acc (h, hs) n =
    rw (parse_domain-render k v acc h (Distinct-has k v acc d n), parse_domains)
      (rw (parse_domains-render d (acc ++ (k, v) ∷ []) hs (rw append_assoc n)) (rw append_assoc))

parse_row-cons :
    (line : Text)
    → line ≢ []
    → parse_row line ≡ parse_domains (split b';' (after_first b':' line)) []
unfolding parse_row
parse_row-cons [] h = absurd (h refl)
parse_row-cons (c ∷ line) h = refl

append-ne-nil : (s t : Text) (c : ℕ) → s ++ c ∷ t ≢ []
append-ne-nil [] t c = ground arith
append-ne-nil (b ∷ s) t c = ground arith

-- Printing and parsing: the row of a resource whose name has no colon, and of a non-empty
-- dictionary with distinct, non-empty keys and values that hold no separator, is parsed back to
-- that dictionary, with the entries in their order.
pub parse_row-render :
    (resource : Text) (d : Dict Text Text)
    → has_char b':' resource ≡ false
    → d ≢ []
    → IsRow d
    → All LacksSeparator d
    → parse_row (render resource d) ≡ ok d
unfolding render
parse_row-render resource [] hr n h s = absurd (n refl)
parse_row-render resource ((k, v) ∷ d) hr n h s =
    rw (parse_row-cons (render resource ((k, v) ∷ d)) (append-ne-nil resource _ b':')) (
      rw
        (
          after_first-append b':' resource (join b';' (map render_domain ((k, v) ∷ d))) hr,
          split-join b';' (render_domain (k, v)) (map render_domain d) (map-Lacks ((k, v) ∷ d) s),
        )
        (parse_domains-render ((k, v) ∷ d) [] h.entries h.distinct))
