-- ===== src/Rdt/Bandwidth/Entries.antt =====
-- The loop of `normalize_mb_string` as a function of the dictionary's entries.
use workload_collocation_age.Base.{
  ℕ, [], ◌∷◌, ◌++◌, append_assoc, append-nil, ◌≡◌, ◌≢◌, refl, arith, ◌∙◌, ap, sym, Outcome, ok, err,
  Error, ◌>>=◌, All, on_value_error, map_outcome, Outcome-cases, ok-injective, inl, inr, >>=-eq-ok,
}
use mathlib.Core.Path.{subst}
use workload_collocation_age.Base.Eq.{Text_eq}
use workload_collocation_age.Base.Dict.{Dict, keys, has}
use workload_collocation_age.Base.Text.{Text, int}
use workload_collocation_age.Base.Decimal.{show, int-show, show-has_char, show-ne-nil}
use workload_collocation_age.Rdt.Schemata.Sound.{Distinct, IsEntry, LacksSeparator}
use workload_collocation_age.Rdt.Bandwidth.{
  normalize_mb_value, item, normalize_domain, normalize_domains,
}
use workload_collocation_age.Rdt.Bandwidth.Ceiling.{
  normalize_mb_value_lem, normalize_mb_value_fixed,
}

-- The entries with their values normalised, or the first error.
unfoldable pub normalize_entry : ℕ → ℕ → Text × Text → Outcome (Text × Text)
normalize_entry least gran (k, v) = do
  n ← on_value_error (int 10 v) Error.invalid_allocations
  r ← normalize_mb_value n least gran
  ok (k, show r)

unfoldable pub normalize_entries : ℕ → ℕ → Dict Text Text → Outcome (Dict Text Text)
unfolding normalize_entry
normalize_entries least gran [] = ok []
normalize_entries least gran (d ∷ ds) =
    let rest = normalize_entries least gran ds in
    do e ← normalize_entry least gran d; es ← rest; ok (e ∷ es)

-- The text that the loop appends for the entries.
unfoldable pub appended : Dict Text Text → Text
appended [] = []
appended (d ∷ ds) = item d ++ appended ds

normalize_domain-entry :
    (least gran : ℕ) (e : Text × Text) (acc : Text)
    → normalize_domain least gran e acc
      ≡ map_outcome (λ x. acc ++ item x) (normalize_entry least gran e)
unfolding normalize_domain normalize_entry
normalize_domain-entry least gran (k, v) acc =
    elim (Outcome-cases (on_value_error (int 10 v) Error.invalid_allocations)) [
      | inl (n, p) ↦ rw p (elim (Outcome-cases (normalize_mb_value n least gran)) [
        | inl (r, q) ↦ rw q
        | inr (x, q) ↦ rw q
      ])
      | inr (x, p) ↦ rw p
    ]

-- The loop appends the texts of the normalised entries, or stops at the first error.
pub normalize_domains-entries :
    (least gran : ℕ) (d : Dict Text Text) (acc : Text)
    → normalize_domains least gran d acc
      ≡ map_outcome (λ x. acc ++ appended x) (normalize_entries least gran d)
unfolding normalize_domains normalize_entries appended
normalize_domains-entries least gran [] acc = ap ok (sym (append-nil acc))
normalize_domains-entries least gran (e ∷ ds) acc =
    elim (Outcome-cases (normalize_entry least gran e)) [
      | inl (x, p) ↦
          let first : normalize_domain least gran e acc ≡ ok (acc ++ item x) =
            normalize_domain-entry least gran e acc ∙ ap (map_outcome (λ y. acc ++ item y)) p in
          rw (first, p, normalize_domains)
            (rw (normalize_domains-entries least gran ds (acc ++ item x))
              (elim (Outcome-cases (normalize_entries least gran ds)) [
                | inl (xs, q) ↦ rw (q, append_assoc)
                | inr (y, q) ↦ rw q
              ]))
      | inr (y, p) ↦
          let first : normalize_domain least gran e acc ≡ err y =
            normalize_domain-entry least gran e acc ∙ ap (map_outcome (λ x. acc ++ item x)) p in
          rw (first, p, normalize_domains)
    ]

on_value_error-ok :
    {A : Type 0} (m : Outcome A) (e : Error) {a : A} → on_value_error m e ≡ ok a → m ≡ ok a
on_value_error-ok (ok a) e h = h
on_value_error-ok (err Error.value_error) e h = cc
on_value_error-ok (err x) e h = h

-- A normalised entry normalises to itself.
normalize_entry_fixed :
    (least gran : ℕ) (k v : Text) {e : Text × Text}
    → normalize_entry least gran (k, v) ≡ ok e
    → (r : ℕ) × (e ≡ (k, show r)) × (normalize_entry least gran (k, show r) ≡ ok (k, show r))
unfolding normalize_entry
normalize_entry_fixed least gran k v h =
    let (n, p, h1) = >>=-eq-ok (on_value_error (int 10 v) Error.invalid_allocations) _ h in
    let (r, q, h2) = >>=-eq-ok (normalize_mb_value n least gran) _ h1 in
    let (m, _, lo, c) = normalize_mb_value_lem n least gran q in
    (r, sym (ok-injective h2), rw (int-show r) (rw (normalize_mb_value_fixed m least gran r lo c)))

module _ (least gran : ℕ) where
  -- The second list has the keys of the first, and printed values that normalise to themselves.
  abbrev pub IsNormal : Dict Text Text → Dict Text Text → Type 0
  IsNormal [] [] = Unit
  IsNormal ((k, v) ∷ d) ((k', v') ∷ d') =
      (k' ≡ k)
      × ((r : ℕ) × (v' ≡ show r) × (normalize_entry least gran (k', v') ≡ ok (k', v')))
      × IsNormal d d'
  IsNormal _ _ = ⊥

  pub normalize_entries-IsNormal :
      (d d' : Dict Text Text) → normalize_entries least gran d ≡ ok d' → IsNormal d d'
  unfolding normalize_entries
  normalize_entries-IsNormal [] d' h = subst (IsNormal []) (ok-injective h) tt
  normalize_entries-IsNormal ((k, v) ∷ d) d' h =
      let (e, p, h1) = >>=-eq-ok (normalize_entry least gran (k, v)) _ h in
      let (es, q, h2) = >>=-eq-ok (normalize_entries least gran d) _ h1 in
      let (r, x, f) = normalize_entry_fixed least gran k v p in
      subst (IsNormal ((k, v) ∷ d)) (ok-injective h2) (
        subst (λ y. IsNormal ((k, v) ∷ d) (y ∷ es)) (sym x)
          (refl, (r, refl, f), normalize_entries-IsNormal d es q))

  pub IsNormal-keys : (d d' : Dict Text Text) → IsNormal d d' → keys d' ≡ keys d
  IsNormal-keys [] [] h = refl
  IsNormal-keys [] (e ∷ d') h = absurd h
  IsNormal-keys (e ∷ d) [] h = absurd h
  IsNormal-keys ((k, v) ∷ d) ((k', v') ∷ d') h = cc (h.0, IsNormal-keys d d' h.2)

  pub IsNormal-fixed :
      (d d' : Dict Text Text) → IsNormal d d' → normalize_entries least gran d' ≡ ok d'
  unfolding normalize_entries
  IsNormal-fixed [] [] h = refl
  IsNormal-fixed [] (e ∷ d') h = absurd h
  IsNormal-fixed (e ∷ d) [] h = absurd h
  IsNormal-fixed ((k, v) ∷ d) ((k', v') ∷ d') h = rw (h.1.2) (rw (IsNormal-fixed d d' h.2))

  has-IsNormal : (j : Text) (d d' : Dict Text Text) → IsNormal d d' → has j d' ≡ has j d
  has-IsNormal j [] [] h = refl
  has-IsNormal j [] (e ∷ d') h = absurd h
  has-IsNormal j (e ∷ d) [] h = absurd h
  has-IsNormal j ((k, v) ∷ d) ((k', v') ∷ d') h = rw (h.0, has-IsNormal j d d' h.2)

  pub IsNormal-Distinct : (d d' : Dict Text Text) → IsNormal d d' → Distinct d → Distinct d'
  IsNormal-Distinct [] [] h x = tt
  IsNormal-Distinct [] (e ∷ d') h x = absurd h
  IsNormal-Distinct (e ∷ d) [] h x = absurd h
  IsNormal-Distinct ((k, v) ∷ d) ((k', v') ∷ d') h x =
      (has-IsNormal k' d d' h.2 ∙ ap (λ y. has y d) h.0 ∙ x.0, IsNormal-Distinct d d' h.2 x.1)

  pub IsNormal-entries : (d d' : Dict Text Text) → IsNormal d d' → All IsEntry d → All IsEntry d'
  IsNormal-entries [] [] h x = tt
  IsNormal-entries [] (e ∷ d') h x = absurd h
  IsNormal-entries (e ∷ d) [] h x = absurd h
  IsNormal-entries ((k, v) ∷ d) ((k', v') ∷ d') h x = (
    subst (λ y. IsEntry (y, v')) (sym h.0)
        (x.0.0, x.0.1, subst (λ y. y ≢ []) (sym h.1.1) (show-ne-nil h.1.0)),
    IsNormal-entries d d' h.2 x.1,
  )

  pub IsNormal-Lacks :
      (d d' : Dict Text Text) → IsNormal d d' → All LacksSeparator d → All LacksSeparator d'
  IsNormal-Lacks [] [] h x = tt
  IsNormal-Lacks [] (e ∷ d') h x = absurd h
  IsNormal-Lacks (e ∷ d) [] h x = absurd h
  IsNormal-Lacks ((k, v) ∷ d) ((k', v') ∷ d') h x = (
    (rw (h.0) (x.0.0), rw (h.1.1) (show-has_char b';' (h.1.0) (omega arith))),
    IsNormal-Lacks d d' h.2 x.1,
  )

  pub IsNormal-ne-nil : (d d' : Dict Text Text) → IsNormal d d' → d ≢ [] → d' ≢ []
  IsNormal-ne-nil [] d' h n = absurd (n refl)
  IsNormal-ne-nil (e ∷ d) [] h n = absurd h
  IsNormal-ne-nil (e ∷ d) (e' ∷ d') h n = ground arith
