-- ===== src/Rdt/Schemata/Sound.antt =====
-- What a successful parse guarantees.
use mathlib.Core.Path.{subst}
use workload_collocation_age.Base.{
  ◌==◌, ℕ, false, List, [], ◌∷◌, ◌++◌, ◌≡◌, ◌≢◌, refl, arith, ok, All, All-append, ok-injective,
  Bool-cases, Outcome-cases, inl, inr,
}
use workload_collocation_age.Base.Eq.{Text_eq}
use workload_collocation_age.Base.Dict.{Dict, has, put-new}
use workload_collocation_age.Base.Text.{
  Text, has_char, split, before, after, after_first, cons_first,
}
use workload_collocation_age.Rdt.Schemata.{is_empty, parse_domain, parse_domains, parse_row}

-- No key stands twice.
abbrev pub Distinct : Dict Text Text → Type 0
Distinct [] = Unit
Distinct ((k, v) ∷ d) = (has k d ≡ false) × Distinct d

abbrev pub IsEntry : Text × Text → Type 0
IsEntry (k, v) = (k ≢ []) × (has_char b'=' k ≡ false) × (v ≢ [])

-- No entry holds the separator of the entries.
abbrev pub LacksSeparator : Text × Text → Type 0
LacksSeparator (k, v) = (has_char b';' k ≡ false) × (has_char b';' v ≡ false)

-- Every key and every value is there, and no key stands twice.
pub record IsRow (d : Dict Text Text) : Type 0 where
  pub entries : All IsEntry d
  pub distinct : Distinct d

before-Lacks : (c : ℕ) (s : Text) → has_char c (before c s) ≡ false
before-Lacks c [] = ground arith
before-Lacks c (b ∷ s) = ground (arith, before-Lacks c s)

is_empty-false : (s : Text) → is_empty s ≡ false → s ≢ []
is_empty-false [] h = cc
is_empty-false (c ∷ s) h = ground arith

has-append :
    (k : Text) (d : Dict Text Text) (j v : Text)
    → has k d ≡ false
    → j ≢ k
    → has k (d ++ (j, v) ∷ []) ≡ false
has-append k [] j v h n = ground (arith, Text_eq.beq_iff j k)
has-append k ((i, w) ∷ d) j v h n = ground (arith, has-append k d j v)

Distinct-append :
    (d : Dict Text Text) (k v : Text) → Distinct d → has k d ≡ false → Distinct (d ++ (k, v) ∷ [])
Distinct-append [] k v h n = (refl, tt)
Distinct-append ((j, w) ∷ d) k v h n =
    ground (arith, Distinct-append d k v, has-append j d k v, Text_eq.beq_iff j k)

IsRow-append :
    (d : Dict Text Text) (k v : Text)
    → IsRow d
    → has k d ≡ false
    → IsEntry (k, v)
    → IsRow (d ++ (k, v) ∷ [])
IsRow-append d k v h n e = record {
  entries = All-append IsEntry d ((k, v) ∷ []) h.entries (e, tt);
  distinct = Distinct-append d k v h.distinct n;
}

parse_domain-IsRow :
    (part : Text) (d : Dict Text Text) {d' : Dict Text Text}
    → IsRow d
    → parse_domain part d ≡ ok d'
    → IsRow d'
unfolding parse_domain
parse_domain-IsRow part d {d'} h e = elim (Bool-cases (has (before b'=' part) d)) [
  | inl old ↦ absurd (ground (arith))
  | inr new ↦ subst IsRow (ground (arith, put-new (before b'=' part) (after b'=' part) d)) (
      IsRow-append d (before b'=' part) (after b'=' part) h new (
        ground (arith, is_empty-false (before b'=' part)),
        before-Lacks b'=' part,
        ground (arith, is_empty-false (after b'=' part)),
      ))
]

parse_domains-IsRow :
    (parts : List Text) (d : Dict Text Text) {d' : Dict Text Text}
    → IsRow d
    → parse_domains parts d ≡ ok d'
    → IsRow d'
unfolding parse_domains
parse_domains-IsRow [] d h e = subst IsRow (ok-injective e) h
parse_domains-IsRow (part ∷ parts) d h e = elim (Outcome-cases (parse_domain part d)) [
  | inl (m, p) ↦
      parse_domains-IsRow parts m (parse_domain-IsRow part d h p) (rw (p, parse_domains) at e)
  | inr (x, p) ↦ cc (rw (p, parse_domains) at e)
]

-- An accepted row has only entries with a key and a value, no key holds the value separator, and
-- no key stands twice.
pub parse_row-IsRow : (line : Text) {d : Dict Text Text} → parse_row line ≡ ok d → IsRow d
unfolding parse_row
parse_row-IsRow [] h = subst IsRow (ok-injective h) (record { entries = tt; distinct = tt })
parse_row-IsRow (c ∷ line) h =
    parse_domains-IsRow (split b';' (after_first b':' (c ∷ line))) []
      (record { entries = tt; distinct = tt }) h

before-keeps : (c e : ℕ) (s : Text) → has_char e s ≡ false → has_char e (before c s) ≡ false
before-keeps c e [] h = refl
before-keeps c e (b ∷ s) h = ground (arith, before-keeps c e s)

after-keeps : (c e : ℕ) (s : Text) → has_char e s ≡ false → has_char e (after c s) ≡ false
after-keeps c e [] h = refl
after-keeps c e (b ∷ s) h = ground (arith, after-keeps c e s)

All-cons_first :
    (c b : ℕ) (parts : List Text)
    → (b == c) ≡ false
    → All (λ q. has_char c q ≡ false) parts
    → All (λ q. has_char c q ≡ false) (cons_first b parts)
All-cons_first c b [] h a = (ground arith, tt)
All-cons_first c b (p ∷ ps) h (a, rest) = (ground arith, rest)

-- The parts of a split hold no separator.
pub split-Lacks : (c : ℕ) (s : Text) → All (λ q. has_char c q ≡ false) (split c s)
split-Lacks c [] = (refl, tt)
split-Lacks c (b ∷ s) = elim (Bool-cases (b == c)) [
  | inl h ↦ rw (h, All) (refl, split-Lacks c s)
  | inr h ↦ rw (h, All) (All-cons_first c b (split c s) h (split-Lacks c s))
]

parse_domain-Lacks :
    (part : Text) (d : Dict Text Text) {d' : Dict Text Text}
    → has_char b';' part ≡ false
    → All LacksSeparator d
    → parse_domain part d ≡ ok d'
    → All LacksSeparator d'
unfolding parse_domain
parse_domain-Lacks part d l h e = elim (Bool-cases (has (before b'=' part) d)) [
  | inl old ↦ absurd (ground (arith))
  | inr new ↦
      subst (All LacksSeparator) (ground (arith, put-new (before b'=' part) (after b'=' part) d)) (
        All-append LacksSeparator d ((before b'=' part, after b'=' part) ∷ []) h
          ((before-keeps b'=' b';' part l, after-keeps b'=' b';' part l), tt))
]

parse_domains-Lacks :
    (parts : List Text) (d : Dict Text Text) {d' : Dict Text Text}
    → All (λ q. has_char b';' q ≡ false) parts
    → All LacksSeparator d
    → parse_domains parts d ≡ ok d'
    → All LacksSeparator d'
unfolding parse_domains
parse_domains-Lacks [] d l h e = subst (All LacksSeparator) (ok-injective e) h
parse_domains-Lacks (part ∷ parts) d (l, ls) h e = elim (Outcome-cases (parse_domain part d)) [
  | inl (m, p) ↦
      parse_domains-Lacks parts m ls (parse_domain-Lacks part d l h p) (rw (p, parse_domains) at e)
  | inr (x, p) ↦ cc (rw (p, parse_domains) at e)
]

-- No entry of an accepted row holds the separator of the entries.
pub parse_row-Lacks :
    (line : Text) {d : Dict Text Text} → parse_row line ≡ ok d → All LacksSeparator d
unfolding parse_row
parse_row-Lacks [] h = subst (All LacksSeparator) (ok-injective h) tt
parse_row-Lacks (c ∷ line) h =
    let row = after_first b':' (c ∷ line) in
    parse_domains-Lacks (split b';' row) [] (split-Lacks b';' row) tt h

has-middle :
    (j k v : Text) (acc d : Dict Text Text)
    → has j (acc ++ (k, v) ∷ d) ≡ false
    → (has j acc ≡ false) × (k ≢ j)
has-middle j k v [] d h = ground (arith, Text_eq.beq_iff k j)
has-middle j k v ((i, w) ∷ acc) d h = ground (arith, has-middle j k v acc d)

pub Distinct-has :
    (k v : Text) (acc d : Dict Text Text) → Distinct (acc ++ (k, v) ∷ d) → has k acc ≡ false
Distinct-has k v [] d h = refl
Distinct-has k v ((j, w) ∷ acc) d (h, hs) =
    ground (arith, has-middle j k v acc d h, Distinct-has k v acc d hs, Text_eq.beq_iff j k)
