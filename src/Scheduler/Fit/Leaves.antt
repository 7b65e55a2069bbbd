-- ===== src/Scheduler/Fit/Leaves.antt =====
-- An application that fits leaves no dimension below zero.
use mathlib.Core.Path.{subst}
use workload_collocation_age.Base.{
  ◌≡◌, refl, sym, ap, ◌∙◌, inl, inr, true, false, none, some, [], ◌∷◌, Bool-cases, Outcome, ok,
  Error, on_value_error, on_value_error-ok, map_outcome, >>=-eq-ok, ok-injective,
}
use workload_collocation_age.Base.Eq.{Eq, ◌=?◌}
use workload_collocation_age.Base.Dict.{get}
use workload_collocation_age.Scheduler.Resources.{
  ResourceType, Arithmetic, Resources, value_of, map_resources, check_keys, sum_resources,
  subtract_resources, subtract_dimension, broken_capacities, is_empty_dict,
  enough_resources_on_node,
}
use workload_collocation_age.Scheduler.Fit.{fits_on}

module _ {N : Type 0} ⦃e : Eq ResourceType⦄ (a : Arithmetic N) where
  map_resources-get :
      (f : ResourceType → N → Outcome N) (r : Resources a) {s : Resources a} (d : ResourceType)
      {v : N}
      → map_resources a f r ≡ ok s
      → get d r ≡ some v
      → (w : N) × (f d v ≡ ok w) × (get d s ≡ some w)
  unfolding map_resources
  map_resources-get f [] d h found = absurd (cc found)
  map_resources-get f ((c, x) ∷ r) {s = s} d {v = v} h found =
      let (w, head, h1) = >>=-eq-ok (f c x) _ h in
      let (rest, tail, h2) = >>=-eq-ok (map_resources a f r) _ h1 in
      let same = ap (λ s. get d s) (ok-injective h2) in
      elim (Bool-cases (c =? d)) [
        | inl here ↦
            let one = (e.beq_iff c d).0 here in
            let value : x ≡ v = some_eq (rw here at found) in
            (w, (ap2 f (sym one) (sym value) ∙ head), (sym same ∙ rw here refl))
        | inr there ↦
            let (w', image, later) = map_resources-get f r d tail (rw there at found) in
            (w', image, (sym same ∙ rw there later))
      ]
    where
      some_eq : {x y : N} → some x ≡ some y → x ≡ y
      some_eq h = cc

      ap2 :
          (f : ResourceType → N → Outcome N) {c d : ResourceType} {x y : N}
          → c ≡ d
          → x ≡ y
          → f c x ≡ f d y
      ap2 f p q = cc

  empty_positive :
      (free : Resources a) (d : ResourceType) {v : N}
      → is_empty_dict a (broken_capacities a free) ≡ true
      → get d free ≡ some v
      → a.is_negative v ≡ false
  empty_positive [] d h found = absurd (cc found)
  empty_positive ((c, w) ∷ free) d {v} h found = elim (Bool-cases (a.is_negative w)) [
    | inl negative ↦ absurd (cc (rw negative at h))
    | inr positive ↦ elim (Bool-cases (c =? d)) [
      | inl here ↦ subst (λ x. a.is_negative x ≡ false) (some_eq (rw here at found)) positive
      | inr there ↦ empty_positive free d (rw positive at h) (rw there at found)
    ]
  ]
    where
      some_eq : {x y : N} → some x ≡ some y → x ≡ y
      some_eq h = cc

  from_value :
      (d : ResourceType) (r : Resources a) {v w : N}
      → get d r ≡ some v
      → value_of a d r ≡ ok w
      → v ≡ w
  from_value d r found h = ok-injective (rw found at h)

  -- One binary operation on each dimension, where both sides have the dimension.
  map_outcome-value :
      (f : N → N) (d : ResourceType) (r : Resources a) {v w : N}
      → get d r ≡ some v
      → map_outcome f (value_of a d r) ≡ ok w
      → f v ≡ w
  map_outcome-value f d r found h = ok-injective (rw found at h)

  sum_resources-get :
      (x y : Resources a) {s : Resources a} (d : ResourceType) {v w : N}
      → sum_resources a x y ≡ ok s
      → get d x ≡ some v
      → get d y ≡ some w
      → get d s ≡ some (a.plus v w)
  unfolding sum_resources
  sum_resources-get x y d {v} {w} h in_x in_y =
      let (u, checked, h1) = >>=-eq-ok (check_keys a x y) _ h in
      let (z, image, found) = map_resources-get _ x d h1 in_x in
      found ∙ ap some (sym (map_outcome-value (a.plus v) d y in_y image))

  subtract_resources-get :
      (x y : Resources a) {s : Resources a} (d : ResourceType) {v w : N}
      → subtract_resources a x y none ≡ ok s
      → get d x ≡ some v
      → get d y ≡ some w
      → get d s ≡ some (a.minus v w)
  unfolding subtract_resources subtract_dimension
  subtract_resources-get x y d {v} {w} h in_x in_y =
      let (u, checked, h1) = >>=-eq-ok (check_keys a x y) _ h in
      let (z, image, found) = map_resources-get _ x d h1 in_x in
      found ∙ ap some (sym (map_outcome-value (a.minus v) d y in_y image))

  -- Without memory bandwidth, an application that fits leaves the capacity less the requested and
  -- used amounts not negative in each dimension.
  pub fits_on-leaves :
      (used requested capacity : Resources a) {missing : Resources a} (d : ResourceType) {u q c : N}
      → fits_on a used requested capacity none ≡ ok (true, missing)
      → get d used ≡ some u
      → get d requested ≡ some q
      → get d capacity ≡ some c
      → a.is_negative (a.minus c (a.plus q u)) ≡ false
  unfolding fits_on enough_resources_on_node
  fits_on-leaves used requested capacity d h has_u has_q has_c =
      let (need, summed, h1) =
        >>=-eq-ok (on_value_error (sum_resources a requested used) Error.data_missing) _ h in
      let (p, enough, h2) = >>=-eq-ok (enough_resources_on_node a capacity need none) _ h1 in
      let (free, left, h3) = >>=-eq-ok (subtract_resources a capacity need none) _ enough in
      let fits = ap (λ q. q.0) (ok-injective h3) ∙ ap (λ q. q.0) (ok-injective h2) in
      let summed' = on_value_error-ok (sum_resources a requested used) Error.data_missing summed in
      let in_need = sum_resources-get requested used d summed' has_q has_u in
      empty_positive free d fits (subtract_resources-get capacity need d left has_c in_need)
