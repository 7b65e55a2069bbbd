-- ===== src/Scheduler/Hierbar/Divides.antt =====
-- The second pass of HierBAR divides the nodes into accepted and failed ones.
use mathlib.Core.Path.{subst}
use workload_collocation_age.Base.{
  ◌≡◌, refl, sym, ap, ◌∙◌, true, false, not, ◌&&◌, ◌||◌, List, [], ◌∷◌, arith, ok, Error, Option,
  from_option, >>=-eq-ok, ok-injective,
}
use workload_collocation_age.Base.Eq.{Eq, ◌=?◌}
use workload_collocation_age.Base.Dict.{Dict, has, get}
use workload_collocation_age.Scheduler.Filter.{is_in}
use workload_collocation_age.Scheduler.Filter.Partition.{IsPartition, has-put}
use workload_collocation_age.Scheduler.Hierbar.{
  get_or_empty, intersection, difference, or_next, choose_class, fail_others, app_fit_nodes,
  ClassArithmetic, classes_of, class_variances, sorted,
}

module _ {N : Type 0} ⦃e : Eq N⦄ where
  same_in : {m n : N} (xs : List N) → (m =? n) ≡ true → is_in m xs ≡ is_in n xs
  same_in {m} {n} xs h = ap (λ k. is_in k xs) ((e.beq_iff m n).0 h)

  pub is_in-intersection :
      (n : N) (a b : List N) → is_in n (intersection a b) ≡ (is_in n a && is_in n b)
  is_in-intersection n [] b = refl
  is_in-intersection n (m ∷ a) b = ground (
    arith,
    is_in-intersection n a b,
    same_in {m = m} {n = n} b,
    same_in {m = m} {n = n} (intersection a b),
  )

  pub is_in-difference :
      (n : N) (a b : List N) → is_in n (difference a b) ≡ (is_in n a && not (is_in n b))
  is_in-difference n [] b = refl
  is_in-difference n (m ∷ a) b = ground (
    arith,
    is_in-difference n a b,
    same_in {m = m} {n = n} b,
    same_in {m = m} {n = n} (difference a b),
  )

choose_class-chosen :
    {N S F : Type 0} ⦃e : Eq N⦄ ⦃es : Eq S⦄ (d : Dict S (List N)) (names : List N)
    (classes : List (S × F)) {r : (S × F) × List N}
    → choose_class d names classes ≡ ok r
    → r.1 ≡ intersection names (get_or_empty r.0.0 d)
unfolding choose_class
choose_class-chosen d names [] h = absurd (cc h)
choose_class-chosen {N} {S} {F} d names (c ∷ classes) h =
    split (intersection names (get_or_empty c.0 d)) refl (choose_class-chosen d names classes) h
  where
    split :
        {r : (S × F) × List N} (accepted : List N)
        → intersection names (get_or_empty c.0 d) ≡ accepted
        → (choose_class d names classes ≡ ok r → r.1 ≡ intersection names (get_or_empty r.0.0 d))
        → or_next c accepted (choose_class d names classes) ≡ ok r
        → r.1 ≡ intersection names (get_or_empty r.0.0 d)
    split [] none_found next h = next h
    split (n ∷ accepted) found next h =
        subst (λ r. r.1 ≡ intersection names (get_or_empty r.0.0 d)) (ok-injective h) (sym found)

module _ {N S R F M : Type 0} ⦃e : Eq N⦄ ⦃es : Eq S⦄ (a : ClassArithmetic N S R F M) where
  fail_others-has :
      (node_shapes : Dict N S) (variances : Dict S F) (best : F) (names : List N)
      (failed : Dict N M) {r : Dict N M} (n : N)
      → fail_others a node_shapes variances best names failed ≡ ok r
      → has n r ≡ (is_in n names || has n failed)
  unfolding fail_others
  fail_others-has node_shapes variances best [] failed n h =
      ap (λ x. has n x) (sym (ok-injective h))
  fail_others-has node_shapes variances best (m ∷ names) failed n h =
      let (s, found, h1) = >>=-eq-ok (from_option (get m node_shapes) Error.key_error) _ h in
      let (v, known, rest) = >>=-eq-ok (from_option (get s variances) Error.key_error) _ h1 in
      fail_others-has node_shapes variances best names _ n rest
      ∙ ground (arith, has-put n m (a.message best v) failed)

  divided :
      (d : Dict S (List N)) (names : List N) (chosen : (S × F) × List N) (failed : Dict N M)
      → chosen.1 ≡ intersection names (get_or_empty chosen.0.0 d)
      → ((n : N) → has n failed ≡ (is_in n (difference names chosen.1) || false))
      → IsPartition names chosen.1 failed
  divided d names chosen failed accepted others = record {
    covered = λ n.
        let inside = ap (λ xs. is_in n xs) accepted ∙ is_in-intersection n names _ in
        ground (arith, others n, is_in-difference n names chosen.1);
    apart = λ n. ground (arith, others n, is_in-difference n names chosen.1);
  }

  -- Where the second pass of HierBAR returns, with merging of shapes or without, it divides the nodes
  -- it is given into accepted and failed ones.
  pub app_fit_nodes-IsPartition :
      {A : Type 0} ⦃ea : Eq A⦄ (merge_threshold : Option F) (node_shapes : Dict N S)
      (apps_spec : Dict A R) (app_name : A) (names : List N) (p : List N × Dict N M)
      → app_fit_nodes a merge_threshold node_shapes apps_spec app_name names ≡ ok p
      → IsPartition names p.0 p.1
  unfolding app_fit_nodes
  app_fit_nodes-IsPartition merge_threshold node_shapes apps_spec app_name names p h =
      let (classes, merged, h1) = >>=-eq-ok (classes_of a merge_threshold node_shapes) _ h in
      let (requested, known, h2) =
        >>=-eq-ok (from_option (get app_name apps_spec) Error.key_error) _ h1 in
      let (variances, varied, h3) = >>=-eq-ok (class_variances a requested classes.1) _ h2 in
      let (chosen, best, h4) =
        >>=-eq-ok (choose_class classes.1 names (sorted a.less variances)) _ h3 in
      let (failed, others, h5) =
        >>=-eq-ok (fail_others a classes.0 variances chosen.0.1 (difference names chosen.1) []) _
          h4 in
      subst (λ p. IsPartition names p.0 p.1) (ok-injective h5)
        (divided classes.1 names chosen failed
          (choose_class-chosen classes.1 names (sorted a.less variances) best)
          (λ n.
            fail_others-has classes.0 variances chosen.0.1 (difference names chosen.1) [] n others))
