-- ===== src/Allocations/Settles.antt =====
-- The target of a dictionary's changeset has nothing left to change.
use mathlib.Core.Path.{subst}
use workload_collocation_age.Base.{
  ◌≡◌, refl, sym, ap, ◌∙◌, inl, inr, false, Option, none, some, [], ◌∷◌, All, All-map, arith,
  Bool-cases, ok, >>=-eq-ok, ok-injective,
}
use workload_collocation_age.Base.Eq.{Eq, ◌=?◌}
use workload_collocation_age.Base.Dict.{Dict, get, put, has, get-put, has-true}
use workload_collocation_age.Allocations.{
  Diff, diff_value, merge_items, calculate_changeset, IsDistinct, Settling,
}

-- One step leaves its own item settled in the target.
diff_value-settles :
    {V : Type 0} {diff : Diff V} (s : Settling diff) {t : V} {d : Option V} (v : V)
    (current : Option V)
    → s.Accepts v
    → diff_value diff v current ≡ ok (t, d)
    → (t' : V) × (diff v t ≡ ok (t', none))
diff_value-settles {V = V} {diff = diff} s v none accepted h =
    subst (λ t. (t' : V) × (diff v t ≡ ok (t', none))) (ap (λ p. p.0) (ok-injective h))
      (s.same v accepted)
diff_value-settles s v (some current) accepted h = s.settles v current accepted h

module _ {K V : Type 0} ⦃e : Eq K⦄ (diff : Diff V) where
  -- The item's value needs no change in `d`.
  pub record IsSettled (d : Dict K V) (item : K × V) : Type 0 where
    pub current_value : V
    pub target_value : V
    pub found : get item.0 d ≡ some current_value
    pub unchanged : diff item.1 current_value ≡ ok (target_value, none)

  -- Keys that are not among the items keep their value.
  pub merge_items-keeps :
      (items current target changeset : Dict K V) {t c : Dict K V} (k : K)
      → has k items ≡ false
      → merge_items diff items current target changeset ≡ ok (t, c)
      → get k t ≡ get k target
  unfolding merge_items
  merge_items-keeps [] current target changeset k absent h =
      ap (λ d. get k d) (sym (ap (λ p. p.0) (ok-injective h)))
  merge_items-keeps ((j, v) ∷ items) current target changeset k absent h =
      let (p, step, rest) = >>=-eq-ok (diff_value diff v (get j current)) _ h in
      let (other, absent') = apart j v items k absent in
      merge_items-keeps items current _ _ k absent' rest ∙ get-put j k p.0 target ∙ (rw other refl)
    where
      apart :
          (j : K) (v : V) (items : Dict K V) (k : K)
          → has k ((j, v) ∷ items) ≡ false
          → ((j =? k) ≡ false) × (has k items ≡ false)
      apart j v items k h = ground arith

  -- Items that are settled in the current dictionary add nothing to the changeset.
  pub merge_items-settled :
      (items current target changeset : Dict K V)
      → All (IsSettled current) items
      → (t : Dict K V) × (merge_items diff items current target changeset ≡ ok (t, changeset))
  unfolding merge_items
  merge_items-settled [] current target changeset all = (target, refl)
  merge_items-settled ((k, v) ∷ items) current target changeset (one, all) =
      let (t, h) =
        merge_items-settled items current (put k one.target_value target) changeset all in
      (t, rw (one.found, one.unchanged, h))

  pub calculate_changeset-unchanged :
      (new current : Dict K V)
      → All (IsSettled current) new
      → (t : Dict K V) × (calculate_changeset diff new current ≡ ok (t, none))
  unfolding calculate_changeset
  calculate_changeset-unchanged new current all =
      let (t, h) = merge_items-settled new current current [] all in (t, rw h)

  merge_items-settles :
      (s : Settling diff) (items current target changeset : Dict K V) {t c : Dict K V}
      → IsDistinct items
      → All (λ item. s.Accepts item.1) items
      → merge_items diff items current target changeset ≡ ok (t, c)
      → All (IsSettled t) items
  unfolding merge_items
  merge_items-settles s [] current target changeset distinct accepted h = tt
  merge_items-settles s ((k, v) ∷ items) current target changeset (absent, distinct)
        (accepted, others) h =
      let (p, step, rest) = >>=-eq-ok (diff_value diff v (get k current)) _ h in
      let (t', unchanged) = diff_value-settles s v (get k current) accepted step in
      let kept = merge_items-keeps items current _ _ k absent rest in
      let found = kept ∙ get-put k k p.0 target ∙ (rw ((e.beq_iff k k).1 refl) refl) in
      (
        record { current_value = p.0; target_value = t'; found = found; unchanged = unchanged },
        merge_items-settles s items current _ _ distinct others rest,
      )

  -- Once its target is the current dictionary, a dictionary with distinct keys has no changeset,
  -- provided that its values' own changesets settle.
  pub calculate_changeset-settled :
      (s : Settling diff) (new current : Dict K V) {t : Dict K V} {d : Option (Dict K V)}
      → IsDistinct new
      → All (λ item. s.Accepts item.1) new
      → calculate_changeset diff new current ≡ ok (t, d)
      → (t' : Dict K V) × (calculate_changeset diff new t ≡ ok (t', none))
  unfolding calculate_changeset
  calculate_changeset-settled s new current distinct accepted h =
      let (p, merged, same) = >>=-eq-ok (merge_items diff new current current []) _ h in
      let all = merge_items-settles s new current current [] distinct accepted merged in
      subst (λ t. (t' : Dict K V) × (calculate_changeset diff new t ≡ ok (t', none)))
        (ap (λ q. q.0) (ok-injective same)) (calculate_changeset-unchanged new p.0 all)

  distinct_get : (d : Dict K V) → IsDistinct d → All (λ item. get item.0 d ≡ some item.1) d
  distinct_get [] distinct = tt
  distinct_get ((j, w) ∷ d) (absent, distinct) = (
    (rw ((e.beq_iff j j).1 refl) refl),
    All-map d (λ item found. apart item.0 item.1 found) (distinct_get d distinct),
  )
    where
      apart : (k : K) (v : V) → get k d ≡ some v → get k ((j, w) ∷ d) ≡ some v
      apart k v found = elim (Bool-cases (j =? k)) [
        | inl equal ↦
            let one = (e.beq_iff j k).0 equal in
            let present = has-true k d found in absurd (cc (one, present, absent))
        | inr other ↦ rw other found
      ]

  -- A dictionary with distinct keys differs from itself in nothing.
  calculate_changeset-same :
      (s : Settling diff) (new : Dict K V)
      → IsDistinct new
      → All (λ item. s.Accepts item.1) new
      → (t' : Dict K V) × (calculate_changeset diff new new ≡ ok (t', none))
  calculate_changeset-same s new distinct accepted =
      calculate_changeset-unchanged new new (settled new (distinct_get new distinct) accepted)
    where
      settled :
          (items : Dict K V)
          → All (λ item. get item.0 new ≡ some item.1) items
          → All (λ item. s.Accepts item.1) items
          → All (IsSettled new) items
      settled [] found accepted = tt
      settled ((k, v) ∷ items) (found, all) (accepted, others) =
          let (t', unchanged) = s.same v accepted in
          (
            record { current_value = v; target_value = t'; found = found; unchanged = unchanged },
            settled items all others,
          )

  -- So a dictionary is a value of the same kind, and dictionaries of dictionaries are.
  pub dict_settling : Settling diff → Settling (calculate_changeset {K = K} diff)
  dict_settling s = record {
    Accepts = λ new. IsDistinct new × All (λ item. s.Accepts item.1) new;
    settles =
        λ new current accepted h. calculate_changeset-settled s new current accepted.0 accepted.1 h;
    same = λ new accepted. calculate_changeset-same s new accepted.0 accepted.1;
  }
