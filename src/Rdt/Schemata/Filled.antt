-- ===== src/Rdt/Schemata/Filled.antt =====
-- A successful parse of a row has an entry.
use workload_collocation_age.Base.{
  ℕ, ◌≡◌, refl, ◌≢◌, inl, inr, List, [], ◌∷◌, arith, ◌==◌, Bool-cases, ok, Outcome-cases,
}
use workload_collocation_age.Base.Eq.{Text_eq}
use workload_collocation_age.Base.Dict.{Dict, put}
use workload_collocation_age.Base.Text.{Text, split, before, after, after_first, cons_first}
use workload_collocation_age.Rdt.Schemata.{parse_domain, parse_domains, parse_row}

put-ne-nil : (k v : Text) (d : Dict Text Text) → put k v d ≢ []
put-ne-nil k v [] = ground arith
put-ne-nil k v ((j, w) ∷ d) = ground arith

parse_domain-ne-nil :
    (part : Text) (d : Dict Text Text) {d' : Dict Text Text} → parse_domain part d ≡ ok d' → d' ≢ []
unfolding parse_domain
parse_domain-ne-nil part d e = ground (arith, put-ne-nil (before b'=' part) (after b'=' part) d)

parse_domains-ne-nil :
    (parts : List Text) (d : Dict Text Text) {d' : Dict Text Text}
    → d ≢ []
    → parse_domains parts d ≡ ok d'
    → d' ≢ []
unfolding parse_domains
parse_domains-ne-nil [] d n e = ground arith
parse_domains-ne-nil (part ∷ parts) d n e = elim (Outcome-cases (parse_domain part d)) [
  | inl (m, p) ↦
      parse_domains-ne-nil parts m (parse_domain-ne-nil part d p) (rw (p, parse_domains) at e)
  | inr (x, p) ↦ cc (rw (p, parse_domains) at e)
]

first_part-ne-nil :
    (parts : List Text) {d' : Dict Text Text}
    → parts ≢ []
    → parse_domains parts [] ≡ ok d'
    → d' ≢ []
unfolding parse_domains
first_part-ne-nil [] n e = absurd (n refl)
first_part-ne-nil (part ∷ parts) n e = elim (Outcome-cases (parse_domain part [])) [
  | inl (m, p) ↦
      parse_domains-ne-nil parts m (parse_domain-ne-nil part [] p) (rw (p, parse_domains) at e)
  | inr (x, p) ↦ cc (rw (p, parse_domains) at e)
]

split-ne-nil : (c : ℕ) (s : Text) → split c s ≢ []
split-ne-nil c [] = ground arith
split-ne-nil c (b ∷ s) = elim (Bool-cases (b == c)) [
  | inl h ↦ λ e. cc (rw h at e)
  | inr h ↦ λ e. cons_first-ne-nil b (split c s) (rw h at e)
]
  where
    cons_first-ne-nil : (b : ℕ) (parts : List Text) → cons_first b parts ≢ []
    cons_first-ne-nil b [] = ground arith
    cons_first-ne-nil b (p ∷ ps) = ground arith

-- A row that is not empty has an entry.
pub parse_row-ne-nil :
    (line : Text) {d : Dict Text Text} → line ≢ [] → parse_row line ≡ ok d → d ≢ []
unfolding parse_row
parse_row-ne-nil [] n h = absurd (n refl)
parse_row-ne-nil (c ∷ line) n h =
    let row = after_first b':' (c ∷ line) in
    first_part-ne-nil (split b';' row) (split-ne-nil b';' row) h
