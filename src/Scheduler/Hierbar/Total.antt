-- ===== src/Scheduler/Hierbar/Total.antt =====
-- Without merging of shapes the second pass of HierBAR finds a class: its assertion 'Last class has
-- to match!' holds.
use workload_collocation_age.Base.{
  ◌≡◌, refl, inl, inr, true, some, List, [], ◌∷◌, ◌++◌, arith, if◌then◌else◌, Bool-cases, err,
  Error,
}
use workload_collocation_age.Base.Eq.{Eq, ◌=?◌}
use workload_collocation_age.Base.Dict.{Dict, put, get, keys}
use workload_collocation_age.Scheduler.Filter.{is_in}
use workload_collocation_age.Scheduler.Filter.Partition.{is_in-append}
use workload_collocation_age.Scheduler.Hierbar.{get_or_empty, reverse_node_shapes, ClassArithmetic}

module _ {N S : Type 0} ⦃e : Eq N⦄ ⦃es : Eq S⦄ where
  get_or_empty-put :
      (s r : S) (v : List N) (d : Dict S (List N))
      → get_or_empty s (put r v d) ≡ (if r =? s then v else get_or_empty s d)
  get_or_empty-put s r v [] = refl
  get_or_empty-put s r v ((q, w) ∷ d) =
      ground (arith, es.beq_iff r s, es.beq_iff q r, es.beq_iff q s, get_or_empty-put s r v d)

  -- Adding a node to the class of its shape keeps the members of every class.
  add_keeps :
      (n m : N) (s r : S) (d : Dict S (List N))
      → is_in n (get_or_empty s d) ≡ true
      → is_in n (get_or_empty s (put r (get_or_empty r d ++ m ∷ []) d)) ≡ true
  add_keeps n m s r d h = elim (Bool-cases (r =? s)) [
    | inl same ↦
        let one = (es.beq_iff r s).0 same in
        rw
          (
            get_or_empty-put s r (get_or_empty r d ++ m ∷ []) d,
            same,
            one,
            is_in-append n (get_or_empty s d) (m ∷ []),
            h,
          )
          refl
    | inr other ↦ rw (get_or_empty-put s r (get_or_empty r d ++ m ∷ []) d, other) h
  ]

  reverse_node_shapes-keeps :
      (n : N) (s : S) (node_shapes : Dict N S) (d : Dict S (List N))
      → is_in n (get_or_empty s d) ≡ true
      → is_in n (get_or_empty s (reverse_node_shapes node_shapes d)) ≡ true
  unfolding reverse_node_shapes
  reverse_node_shapes-keeps n s [] d h = h
  reverse_node_shapes-keeps n s ((m, r) ∷ node_shapes) d h =
      reverse_node_shapes-keeps n s node_shapes _ (add_keeps n m s r d h)

  -- A node is in the class of its shape.
  pub reverse_node_shapes-finds :
      (n : N) (s : S) (node_shapes : Dict N S) (d : Dict S (List N))
      → get n node_shapes ≡ some s
      → is_in n (get_or_empty s (reverse_node_shapes node_shapes d)) ≡ true
  unfolding reverse_node_shapes
  reverse_node_shapes-finds n s [] d h = absurd (cc h)
  reverse_node_shapes-finds n s ((m, r) ∷ node_shapes) d h = elim (Bool-cases (m =? n)) [
    | inl same ↦
        reverse_node_shapes-keeps n s node_shapes _
          (added ((e.beq_iff m n).0 same) (some_eq (rw same at h)))
    | inr other ↦ reverse_node_shapes-finds n s node_shapes _ (rw other at h)
  ]
    where
      some_eq : some r ≡ some s → r ≡ s
      some_eq h = cc

      added : m ≡ n → r ≡ s → is_in n (get_or_empty s (put r (get_or_empty r d ++ m ∷ []) d)) ≡ true
      added one two =
          rw
            (
              get_or_empty-put s r (get_or_empty r d ++ m ∷ []) d,
              one,
              two,
              (es.beq_iff s s).1 refl,
              is_in-append n (get_or_empty s d) (n ∷ []),
              (e.beq_iff n n).1 refl,
            )
            (ground arith)

module _ {N S R F M : Type 0} ⦃e : Eq N⦄ ⦃es : Eq S⦄ (a : ClassArithmetic N S R F M) where
  -- The variance of some nodes for the requested resources raises the exception.
  abbrev pub IsUndefined : R → Error → Type 0
  IsUndefined requested e = (ns : List N) × (a.variance requested ns ≡ err e)

  -- Each class has a variance.
  abbrev HasAll : Dict S (List N) → Dict S F → Type 0
  HasAll d variances =
      (n : N) (s : S) → is_in n (get_or_empty s d) ≡ true → is_in s (keys variances) ≡ true
