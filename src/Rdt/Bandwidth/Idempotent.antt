-- ===== src/Rdt/Bandwidth/Idempotent.antt =====
-- `normalize_mb_string` is idempotent: what it returns, it returns again.
use workload_collocation_age.Base.{
  ℕ, Bool, true, false, [], ◌∷◌, ◌++◌, append_assoc, append-nil, map, ◌≡◌, ◌≢◌, refl, arith, Option,
  none, some, ◌∙◌, ap, sym, Outcome, ok, err, Error, guard, map_outcome, ok-injective, >>=-eq-ok,
}
use mathlib.Core.Path.{subst}
use workload_collocation_age.Base.Eq.{Text_eq}
use workload_collocation_age.Base.Dict.{Dict, keys}
use workload_collocation_age.Base.Text.{Text, codes, starts_with, join}
use workload_collocation_age.Rdt.Schemata.{parse_row}
use workload_collocation_age.Rdt.Schemata.Filled.{parse_row-ne-nil}
use workload_collocation_age.Rdt.Schemata.Sound.{parse_row-IsRow, parse_row-Lacks}
use workload_collocation_age.Rdt.Schemata.RoundTrip.{render, render_domain, parse_row-render}
use workload_collocation_age.Rdt.Domains.{validate_domains}
use workload_collocation_age.Rdt.Bandwidth.{
  item, normalize_domains, drop_last, normalize_row, normalize_mb_string,
}
use workload_collocation_age.Rdt.Bandwidth.Entries.{
  normalize_entries, appended, normalize_domains-entries, normalize_entries-IsNormal, IsNormal-keys,
  IsNormal-fixed, IsNormal-Distinct, IsNormal-entries, IsNormal-Lacks, IsNormal-ne-nil,
}

drop_last-append : (s : Text) (c : ℕ) → drop_last (s ++ c ∷ []) ≡ s
drop_last-append [] c = refl
drop_last-append (a ∷ []) c = refl
drop_last-append (a ∷ (b ∷ s)) c = ap (λ t. a ∷ t) (drop_last-append (b ∷ s) c)

-- The appended texts are the joined entries with a separator at the end.
appended-join :
    (d : Dict Text Text) → d ≢ [] → appended d ≡ join b';' (map render_domain d) ++ b';' ∷ []
unfolding appended item render_domain
appended-join [] n = absurd (n refl)
appended-join ((k, v) ∷ []) n = append-nil ((k ++ b'=' ∷ v) ++ b';' ∷ [])
appended-join ((k, v) ∷ (e ∷ d)) n =
    let r = render_domain (k, v) in
    append_assoc r (b';' ∷ []) (appended (e ∷ d))
    ∙ ap (λ t. r ++ b';' ∷ t) (appended-join (e ∷ d) (λ z. cc z))
    ∙ sym (append_assoc r (b';' ∷ join b';' (map render_domain (e ∷ d))) (b';' ∷ []))

-- What the function returns for entries that normalise to `d`.
result-render :
    (d : Dict Text Text) → d ≢ [] → drop_last (codes "MB:" ++ appended d) ≡ render (codes "MB") d
unfolding render
result-render d n =
    ap (λ t. drop_last (codes "MB:" ++ t)) (appended-join d n)
    ∙ drop_last-append (codes "MB:" ++ join b';' (map render_domain d)) b';'

mb_string-ok :
    (mb : Text) (sockets least gran : ℕ) (d d' : Dict Text Text)
    → starts_with mb (codes "MB:") ≡ true
    → parse_row mb ≡ ok d
    → validate_domains (keys d) sockets ≡ ok tt
    → normalize_entries least gran d ≡ ok d'
    → d' ≢ []
    → normalize_row mb sockets least gran ≡ ok (render (codes "MB") d')
unfolding normalize_row
mb_string-ok mb sockets least gran d d' s p v e n =
    rw (s, p, v, normalize_domains-entries least gran d (codes "MB:"), e)
      (ap ok (result-render d' n))

guard-true : (b : Bool) (e : Error) {u : Unit} → guard b e ≡ ok u → b ≡ true
guard-true true e h = refl
guard-true false e h = cc

map_outcome-ok :
    {A B : Type 0} (f : A → B) (m : Outcome A) {b : B}
    → map_outcome f m ≡ ok b
    → (a : A) × (m ≡ ok a) × (f a ≡ b)
map_outcome-ok f (ok a) h = (a, refl, ok-injective h)
map_outcome-ok f (err e) h = absurd (cc h)

mb_string_inv :
    (mb : Text) (sockets least gran : ℕ) {out : Text}
    → normalize_row mb sockets least gran ≡ ok out
    → (d : Dict Text Text) × (d' : Dict Text Text) × (starts_with mb (codes "MB:") ≡ true)
      × (parse_row mb ≡ ok d)
      × (validate_domains (keys d) sockets ≡ ok tt)
      × (normalize_entries least gran d ≡ ok d')
      × (drop_last (codes "MB:" ++ appended d') ≡ out)
unfolding normalize_row
mb_string_inv mb sockets least gran h =
    let (_, s, h1) =
      >>=-eq-ok (guard (starts_with mb (codes "MB:")) Error.invalid_allocations) _ h in
    let (d, p, h2) = >>=-eq-ok (parse_row mb) _ h1 in
    let (_, v, h3) = >>=-eq-ok (validate_domains (keys d) sockets) _ h2 in
    let (t, l, h4) = >>=-eq-ok (normalize_domains least gran d (codes "MB:")) _ h3 in
    let (d', e, r) =
      map_outcome-ok (λ x. codes "MB:" ++ appended x) (normalize_entries least gran d)
        (sym (normalize_domains-entries least gran d (codes "MB:")) ∙ l) in
    (
      d,
      d',
      guard-true (starts_with mb (codes "MB:")) Error.invalid_allocations s,
      p,
      v,
      e,
      ap drop_last r ∙ ok-injective h4,
    )

starts_with-ne-nil : (s : Text) → starts_with s (codes "MB:") ≡ true → s ≢ []
starts_with-ne-nil [] h = cc
starts_with-ne-nil (c ∷ s) h = ground arith

render_again :
    (mb : Text) (sockets least gran : ℕ) (d d' : Dict Text Text)
    → starts_with mb (codes "MB:") ≡ true
    → parse_row mb ≡ ok d
    → validate_domains (keys d) sockets ≡ ok tt
    → normalize_entries least gran d ≡ ok d'
    → (normalize_row (render (codes "MB") d') sockets least gran ≡ ok (render (codes "MB") d'))
      × (d' ≢ [])
render_again mb sockets least gran d d' s p v e =
    let same = normalize_entries-IsNormal least gran d d' e in
    let row = parse_row-IsRow mb p in
    let some_entry =
      IsNormal-ne-nil least gran d d' same (parse_row-ne-nil mb (starts_with-ne-nil mb s) p) in
    (
      mb_string-ok (render (codes "MB") d') sockets least gran d' d' (unfold render in refl)
          (parse_row-render (codes "MB") d' refl some_entry
            (record {
              entries = IsNormal-entries least gran d d' same row.entries;
              distinct = IsNormal-Distinct least gran d d' same row.distinct;
            })
            (IsNormal-Lacks least gran d d' same (parse_row-Lacks mb p)))
          (ap (λ k. validate_domains k sockets) (IsNormal-keys least gran d d' same) ∙ v)
          (IsNormal-fixed least gran d d' same) some_entry,
      some_entry,
    )

normalize_row_idem :
    (mb : Text) (sockets least gran : ℕ) {out : Text}
    → normalize_row mb sockets least gran ≡ ok out
    → normalize_row out sockets least gran ≡ ok out
normalize_row_idem mb sockets least gran h =
    let (d, d', s, p, v, e, r) = mb_string_inv mb sockets least gran h in
    let (again, n) = render_again mb sockets least gran d d' s p v e in
    subst (λ out. normalize_row out sockets least gran ≡ ok out) (sym (result-render d' n) ∙ r)
      again

-- A bandwidth row that is accepted is returned in a form that is accepted again and stays as it
-- is: normalising twice is normalising once.
pub normalize_mb_string_idem :
    (mb : Text) (sockets : ℕ) (least gran : Option ℕ) {out : Text}
    → normalize_mb_string mb sockets least gran ≡ ok out
    → normalize_mb_string out sockets least gran ≡ ok out
unfolding normalize_mb_string
normalize_mb_string_idem mb sockets none gran h = absurd (cc h)
normalize_mb_string_idem mb sockets (some least) none h = absurd (cc h)
normalize_mb_string_idem mb sockets (some least) (some gran) h =
    normalize_row_idem mb sockets least gran h
