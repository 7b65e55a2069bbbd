-- ===== src/Allocations/Unchanged.antt =====
-- A dictionary has no changeset exactly when none of its values has one.
use workload_collocation_age.Base.{
  ◌≡◌, refl, ap, ◌∙◌, ◌≢◌, ◌↔◌, Option, none, some, [], ◌∷◌, All, arith, ok, >>=-eq-ok,
  ok-injective,
}
use workload_collocation_age.Base.Eq.{Eq}
use workload_collocation_age.Base.Dict.{Dict, get, put}
use workload_collocation_age.Allocations.{
  Diff, diff_value, put_some, merge_items, or_none, calculate_changeset,
}
use workload_collocation_age.Allocations.Settles.{IsSettled, calculate_changeset-unchanged}

or_none-none : {K V : Type 0} (d : Dict K V) → or_none d ≡ none → d ≡ []
or_none-none [] h = refl
or_none-none (x ∷ d) h = absurd (cc h)

module _ {K V : Type 0} ⦃e : Eq K⦄ where
  put_nonempty : (k : K) (v : V) (d : Dict K V) → put k v d ≢ []
  put_nonempty k v [] h = cc
  put_nonempty k v ((j, w) ∷ d) h = ground arith

  put_some-empty :
      (k : K) (change : Option V) (d : Dict K V)
      → put_some k change d ≡ []
      → (change ≡ none) × (d ≡ [])
  put_some-empty k none d h = (refl, h)
  put_some-empty k (some v) d h = absurd (put_nonempty k v d h)

  IsSettled-item :
      (diff : Diff V) (k : K) (v t : V) (current : Dict K V) (found : Option V)
      → get k current ≡ found
      → diff_value diff v found ≡ ok (t, none)
      → IsSettled diff current (k, v)
  IsSettled-item diff k v t current none found h = absurd (cc h)
  IsSettled-item diff k v t current (some c) found h = record {
    current_value = c;
    target_value = t;
    found = found;
    unchanged = h;
  }

  merge_items-empty :
      (diff : Diff V) (items current target changeset : Dict K V) {t c : Dict K V}
      → merge_items diff items current target changeset ≡ ok (t, c)
      → c ≡ []
      → (changeset ≡ []) × All (IsSettled diff current) items
  unfolding merge_items
  merge_items-empty diff [] current target changeset h empty =
      (ap (λ p. p.1) (ok-injective h) ∙ empty, tt)
  merge_items-empty diff ((k, v) ∷ items) current target changeset h empty =
      let (p, step, rest) = >>=-eq-ok (diff_value diff v (get k current)) _ h in
      let (put_empty, all) = merge_items-empty diff items current _ _ rest empty in
      let (unchanged, before) = put_some-empty k p.1 changeset put_empty in
      let same : p ≡ (p.0, none) = ap (λ d. (p.0, d)) unchanged in
      (before, (IsSettled-item diff k v p.0 current (get k current) refl (step ∙ ap ok same), all))

  -- `None` for the changeset, with whatever target, means that every new value has a current one
  -- from which its own changeset is `None`, and is the result wherever this holds.
  pub calculate_changeset-none_iff :
      (diff : Diff V) (new current : Dict K V)
      → ((t : Dict K V) × (calculate_changeset diff new current ≡ ok (t, none)))
        ↔ All (IsSettled diff current) new
  unfolding calculate_changeset
  calculate_changeset-none_iff diff new current = (forward, backward)
    where
      forward :
          (t : Dict K V) × (calculate_changeset diff new current ≡ ok (t, none))
          → All (IsSettled diff current) new
      forward (t, h) =
          let (p, merged, same) = >>=-eq-ok (merge_items diff new current current []) _ h in
          let empty = or_none-none p.1 (ap (λ q. q.1) (ok-injective same)) in
          (merge_items-empty diff new current current [] merged empty).1

      backward :
          All (IsSettled diff current) new
          → (t : Dict K V) × (calculate_changeset diff new current ≡ ok (t, none))
      backward all = calculate_changeset-unchanged diff new current all
