-- ===== src/Base/Dict.antt =====
-- Python dictionaries as association lists in insertion order.
use mathlib.Core.Path.{◌≡◌, refl}
use mathlib.Core.Logic.{inl, inr}
use mathlib.Core.Bool.{Bool, true, false}
use mathlib.Core.List.{List, [], ◌∷◌, ◌++◌}
use mathlib.Core.Option.{Option, none, some}
use native.Mathlib.Omega.{arith}
use workload_collocation_age.Base.Tests.{if◌then◌else◌, Bool-cases}
use workload_collocation_age.Base.Eq.{Eq, ◌=?◌}

abbrev pub Dict {ℓ κ} : Type ℓ → Type κ → Type (ℓ ⊔ κ)
Dict K V = List (K × V)

module _ {ℓ κ} {K : Type ℓ} {V : Type κ} ⦃e : Eq K⦄ where
  -- `d.get(k)`
  abbrev pub get : K → Dict K V → Option V
  get k [] = none
  get k ((j, v) ∷ d) = if j =? k then some v else get k d

  -- `d[k] = v`: an old key keeps its place, a new one goes to the end.
  abbrev pub put : K → V → Dict K V → Dict K V
  put k v [] = (k, v) ∷ []
  put k v ((j, w) ∷ d) = if j =? k then (j, v) ∷ d else (j, w) ∷ put k v d

  -- `k in d`
  abbrev pub has : K → Dict K V → Bool
  has k [] = false
  has k ((j, v) ∷ d) = if j =? k then true else has k d

  -- `del d[k]`
  abbrev pub delete : K → Dict K V → Dict K V
  delete k [] = []
  delete k ((j, v) ∷ d) = let rest = delete k d in if j =? k then rest else (j, v) ∷ rest

  pub get-put :
      (k j : K) (v : V) (d : Dict K V) → get j (put k v d) ≡ (if k =? j then some v else get j d)
  get-put k j v [] = refl
  get-put k j v ((i, w) ∷ d) =
      ground (arith, e.beq_iff k j, e.beq_iff i k, e.beq_iff i j, get-put k j v d)

  pub get-delete :
      (k j : K) (d : Dict K V) → get j (delete k d) ≡ (if k =? j then none else get j d)
  get-delete k j [] = ground arith
  get-delete k j ((i, w) ∷ d) =
      ground (arith, e.beq_iff k j, e.beq_iff i k, e.beq_iff i j, get-delete k j d)

  pub has-false : (k : K) (d : Dict K V) → has k d ≡ false → get k d ≡ none
  has-false k [] h = refl
  has-false k ((j, v) ∷ d) h = ground (arith, has-false k d)

  pub has-true : (k : K) (d : Dict K V) {v : V} → get k d ≡ some v → has k d ≡ true
  has-true k [] h = cc
  has-true k ((j, w) ∷ d) {v} h = ground (arith, has-true k d {v = v})

  pub has-some : (k : K) (d : Dict K V) → has k d ≡ true → (v : V) × (get k d ≡ some v)
  has-some k [] h = absurd (cc h)
  has-some k ((j, w) ∷ d) h = elim (Bool-cases (j =? k)) [
    | inl same ↦ (w, rw same)
    | inr other ↦ let (v, e) = has-some k d (rw other at h) in (v, rw other e)
  ]

  pub put-new : (k : K) (v : V) (d : Dict K V) → has k d ≡ false → put k v d ≡ d ++ (k, v) ∷ []
  put-new k v [] h = refl
  put-new k v ((j, w) ∷ d) h = ground (arith, put-new k v d)

abbrev pub keys {ℓ κ} : {K : Type ℓ} {V : Type κ} → Dict K V → List K
keys [] = []
keys ((k, v) ∷ d) = k ∷ keys d

abbrev pub values {ℓ κ} : {K : Type ℓ} {V : Type κ} → Dict K V → List V
values [] = []
values ((k, v) ∷ d) = v ∷ values d
