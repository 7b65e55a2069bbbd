-- ===== src/Scheduler/Filter/Partition.antt =====
-- The filter of a scheduling algorithm places every node in one of its two results.
use mathlib.Core.Path.{subst}
use workload_collocation_age.Base.{
  ◌≡◌, refl, ap, ◌∙◌, inl, inr, Bool, true, false, ◌&&◌, ◌||◌, List, [], ◌∷◌, ◌++◌, arith,
  Bool-cases, Outcome, ok, >>=-eq-ok, ok-injective,
}
use workload_collocation_age.Base.Eq.{Eq, ◌=?◌}
use workload_collocation_age.Base.Dict.{Dict, has, put}
use workload_collocation_age.Scheduler.Filter.{
  ExtenderFilterResult, is_in, update, first_pass, second_pass, filter, accept_all,
}

pub is_in-append :
    {N : Type 0} ⦃e : Eq N⦄ (n : N) (xs ys : List N)
    → is_in n (xs ++ ys) ≡ (is_in n xs || is_in n ys)
is_in-append n [] ys = refl
is_in-append n (x ∷ xs) ys = ground (arith, is_in-append n xs ys)

module _ {N M : Type 0} ⦃e : Eq N⦄ where
  -- A node is among the given ones exactly when it is accepted or failed, and it is never both.
  pub record IsPartition (names accepted : List N) (failed : Dict N M) : Type 0 where
    pub covered : (n : N) → is_in n names ≡ (is_in n accepted || has n failed)
    pub apart : (n : N) → (is_in n accepted && has n failed) ≡ false

  pub has-put : (n k : N) (v : M) (d : Dict N M) → has n (put k v d) ≡ (k =? n || has n d)
  has-put n k v [] = ground arith
  has-put n k v ((j, w) ∷ d) =
      ground (arith, e.beq_iff k n, e.beq_iff j k, e.beq_iff j n, has-put n k v d)

  pub has-update : (n : N) (d items : Dict N M) → has n (update d items) ≡ (has n d || has n items)
  has-update n d [] = ground arith
  has-update n d ((k, v) ∷ items) = ground (arith, has-update n (put k v d) items, has-put n k v d)

  -- What the first pass has seen is what it accepted and what failed.
  first_pass-covered :
      (fit : N → Bool × M) (names accepted : List N) (failed : Dict N M) (n : N)
      → (is_in n (first_pass fit names accepted failed).0
          || has n (first_pass fit names accepted failed).1)
        ≡ (is_in n names || (is_in n accepted || has n failed))
  unfolding first_pass
  first_pass-covered fit [] accepted failed n = refl
  first_pass-covered fit (m ∷ names) accepted failed n = elim (Bool-cases (fit m).0) [
    | inl fits ↦ rw fits (
        first_pass-covered fit names (accepted ++ m ∷ []) failed n
        ∙ ground (arith, is_in-append n accepted (m ∷ [])))
    | inr fails ↦ rw fails (
        first_pass-covered fit names accepted (put m (fit m).1 failed) n
        ∙ ground (arith, has-put n m (fit m).1 failed))
  ]

  -- A node is accepted only if it fits, and fails only if it does not.
  first_pass-apart :
      (fit : N → Bool × M) (names accepted : List N) (failed : Dict N M) (n : N)
      → (is_in n accepted ≡ true → (fit n).0 ≡ true)
      → (has n failed ≡ true → (fit n).0 ≡ false)
      → (is_in n (first_pass fit names accepted failed).0 ≡ true → (fit n).0 ≡ true)
        × (has n (first_pass fit names accepted failed).1 ≡ true → (fit n).0 ≡ false)
  unfolding first_pass
  first_pass-apart fit [] accepted failed n fit_in fail_in = (fit_in, fail_in)
  first_pass-apart fit (m ∷ names) accepted failed n fit_in fail_in =
      let same = λ (h : (m =? n) ≡ true). ap (λ k. (fit k).0) ((e.beq_iff m n).0 h) in
      elim (Bool-cases (fit m).0) [
        | inl fits ↦ rw fits (
            first_pass-apart fit names (accepted ++ m ∷ []) failed n
              (λ h. ground (arith, same, is_in-append n accepted (m ∷ []))) fail_in)
        | inr fails ↦ rw fails (
            first_pass-apart fit names accepted (put m (fit m).1 failed) n fit_in
              (λ h. ground (arith, same, has-put n m (fit m).1 failed)))
      ]

  pub first_pass-IsPartition :
      (fit : N → Bool × M) (names : List N)
      → IsPartition names (first_pass fit names [] []).0 (first_pass fit names [] []).1
  first_pass-IsPartition fit names = record {
    covered = λ n. ground (arith, first_pass-covered fit names [] [] n);
    apart = λ n. exclusive n;
  }
    where
      exclusive :
          (n : N)
          → (is_in n (first_pass fit names [] []).0 && has n (first_pass fit names [] []).1) ≡ false
      exclusive n =
          let (fits, fails) =
            first_pass-apart fit names [] [] n (λ h. absurd (cc h)) (λ h. absurd (cc h)) in
          ground arith

  second_pass-IsPartition :
      (app_fit_nodes : List N → Outcome (List N × Dict N M))
      → ((xs : List N) (p : List N × Dict N M) → app_fit_nodes xs ≡ ok p → IsPartition xs p.0 p.1)
      → (names accepted : List N) (failed : Dict N M) (r : ExtenderFilterResult N M)
      → IsPartition names accepted failed
      → second_pass app_fit_nodes accepted failed ≡ ok r
      → IsPartition names r.node_names r.failed_nodes
  unfolding second_pass
  second_pass-IsPartition app_fit_nodes law names [] failed r first h =
      subst (λ r. IsPartition names r.node_names r.failed_nodes) (ok-injective h) first
  second_pass-IsPartition app_fit_nodes law names (a ∷ accepted) failed r first h =
      let (p, chosen, same) = >>=-eq-ok (app_fit_nodes (a ∷ accepted)) _ h in
      let second = law (a ∷ accepted) p chosen in
      subst (λ r. IsPartition names r.node_names r.failed_nodes) (ok-injective same)
        (record {
          covered = λ n. ground (arith, first.covered n, second.covered n, has-update n failed p.1);
          apart = λ n.
              ground
                (arith, first.apart n, second.covered n, second.apart n, has-update n failed p.1);
        })

  -- If the second pass divides the nodes it is given into accepted and failed ones, so does the
  -- filter with all the nodes: none is lost and none is in both results.
  pub filter-IsPartition :
      (app_fit_node : N → Bool × M) (app_fit_nodes : List N → Outcome (List N × Dict N M))
      → ((xs : List N) (p : List N × Dict N M) → app_fit_nodes xs ≡ ok p → IsPartition xs p.0 p.1)
      → (names : List N) {r : ExtenderFilterResult N M}
      → filter app_fit_node app_fit_nodes names ≡ ok r
      → IsPartition names r.node_names r.failed_nodes
  unfolding filter
  filter-IsPartition app_fit_node app_fit_nodes law names {r = r} h =
      second_pass-IsPartition app_fit_nodes law names _ _ r
        (first_pass-IsPartition app_fit_node names) h

  pub accept_all-IsPartition :
      (xs : List N) (p : List N × Dict N M) → accept_all xs ≡ ok p → IsPartition xs p.0 p.1
  unfolding accept_all
  accept_all-IsPartition xs p h =
      subst (λ p. IsPartition xs p.0 p.1) (ok-injective h)
        (record { covered = λ n. ground arith; apart = λ n. ground arith })
