-- ===== src/Scheduler/Hierbar.antt =====
-- `HierBAR.app_fit_nodes` of wca/scheduler/algorithms/hierbar.py: the second pass that keeps the
-- nodes of the best shape, with the merging of shapes. A set is a list without repetitions.
pub mod Divides
pub mod Total
pub mod Capacities
use workload_collocation_age.Base.{
  ℕ, zero, suc, ◌+◌, ◌-◌, ◌*◌, ◌/◌, ◌%◌, ◌≤◌, ◌<◌, ◌≡◌, refl, sym, ap, ◌∙◌, ◌≢◌, ◌↔◌, ◌⊎◌, inl, inr,
  Bool, true, false, not, ◌&&◌, ◌||◌, Option, none, some, List, [], ◌∷◌, ◌++◌, map, length, All,
  All-map, In, arith, ltb, leb, ◌==◌, ==_iff, if◌then◌else◌, Bool-cases, Option-cases, Outcome, ok,
  err, Error, ◌>>=◌, ◌>>◌, guard, from_option, >>=-eq-ok, ok-injective, traverse, each,
  Outcome-cases,
}
use workload_collocation_age.Base.Eq.{Eq, ◌=?◌}
use workload_collocation_age.Base.Dict.{Dict, has, put, get, keys}
use workload_collocation_age.Scheduler.Filter.{is_in}
use workload_collocation_age.Scheduler.Filter.Partition.{IsPartition}

-- The value of a `defaultdict(list)`.
abbrev pub get_or_empty : {S N : Type 0} ⦃e : Eq S⦄ → S → Dict S (List N) → List N
get_or_empty s [] = []
get_or_empty s ((r, ns) ∷ d) = if r =? s then ns else get_or_empty s d

-- `reverse_node_shapes`, with the dictionary so far.
unfoldable pub reverse_node_shapes :
    {S N : Type 0} ⦃e : Eq S⦄ → Dict N S → Dict S (List N) → Dict S (List N)
reverse_node_shapes [] shapes_to_nodes = shapes_to_nodes
reverse_node_shapes ((n, s) ∷ node_shapes) shapes_to_nodes =
    reverse_node_shapes node_shapes
      (put s (get_or_empty s shapes_to_nodes ++ n ∷ []) shapes_to_nodes)

module _ {N : Type 0} ⦃e : Eq N⦄ where
  -- `set(a) & set(b)` and `set(a) - set(b)`
  abbrev pub intersection : List N → List N → List N
  intersection [] b = []
  intersection (n ∷ a) b =
      let rest = intersection a b in if is_in n b && not (is_in n rest) then n ∷ rest else rest

  abbrev pub difference : List N → List N → List N
  difference [] b = []
  difference (n ∷ a) b =
      let rest = difference a b in if not (is_in n b) && not (is_in n rest) then n ∷ rest else rest

-- `sorted(items, key=lambda x: x[1])` is stable; `less` is the order on the variances.
module _ {S F : Type 0} (less : F → F → Bool) where
  abbrev pub insert : S × F → List (S × F) → List (S × F)
  insert x [] = x ∷ []
  insert x (y ∷ ys) = if less y.1 x.1 then y ∷ insert x ys else x ∷ y ∷ ys

  abbrev pub sorted : List (S × F) → List (S × F)
  sorted [] = []
  sorted (x ∷ xs) = insert x (sorted xs)

-- A class with an accepted node ends the search.
abbrev pub or_next : {C N : Type 0} → C → List N → Outcome (C × List N) → Outcome (C × List N)
or_next c [] next = next
or_next c (n ∷ accepted) next = ok (c, n ∷ accepted)

-- The loop over the classes, best first: the class with an accepted node, and those nodes.
unfoldable pub choose_class :
    {N S F : Type 0} ⦃e : Eq N⦄ ⦃es : Eq S⦄
    → Dict S (List N)
    → List N
    → List (S × F)
    → Outcome ((S × F) × List N)
choose_class shapes_to_nodes names [] = err Error.assertion_error
choose_class shapes_to_nodes names (c ∷ classes) =
    or_next c (intersection names (get_or_empty c.0 shapes_to_nodes))
      (choose_class shapes_to_nodes names classes)

-- `node_shapes[node] = shape` for the nodes of each shape.
abbrev pub put_nodes : {N S : Type 0} ⦃e : Eq N⦄ → S → List N → Dict N S → Dict N S
put_nodes s [] node_shapes = node_shapes
put_nodes s (n ∷ ns) node_shapes = put_nodes s ns (put n s node_shapes)

unfoldable pub inverse_shapes : {N S : Type 0} ⦃e : Eq N⦄ → Dict S (List N) → Dict N S → Dict N S
inverse_shapes [] node_shapes = node_shapes
inverse_shapes ((s, ns) ∷ d) node_shapes = inverse_shapes d (put_nodes s ns node_shapes)

-- The floating-point arithmetic on the capacities of the nodes, any of which may raise: the variance
-- of a class for the requested resources, from its nodes, the ratio of read and write bandwidth of a
-- shape, and the shape of the average of some nodes. A message is made of two variances.
pub record ClassArithmetic (N S R F M : Type 0) : Type 0 where
  pub less : F → F → Bool
  pub variance : R → List N → Outcome F
  pub read_write_ratio : S → Outcome (Option F)
  pub average_shape : List N → Outcome S
  pub is_empty_shape : S → Bool
  pub message : F → F → M

module _ {N S R F M : Type 0} ⦃e : Eq N⦄ ⦃es : Eq S⦄ (a : ClassArithmetic N S R F M) where
  -- A shape without a ratio is in neither list.
  abbrev pub place_shape : F → S → Option F → List S × List S → List S × List S
  place_shape merge_threshold s none p = p
  place_shape merge_threshold s (some ratio) p =
      if a.less merge_threshold ratio then (s ∷ p.0, p.1) else (p.0, s ∷ p.1)

  -- The shapes above and below the threshold.
  unfoldable pub split_shapes : F → Dict S (List N) → Outcome (List S × List S)
  split_shapes merge_threshold [] = ok ([], [])
  split_shapes merge_threshold ((s, ns) ∷ d) = a.read_write_ratio s >>= λ ratio.
      split_shapes merge_threshold d >>= λ p. ok (place_shape merge_threshold s ratio p)

  abbrev pub nodes_of : Dict S (List N) → List S → List N
  nodes_of d [] = []
  nodes_of d (s ∷ shapes) = get_or_empty s d ++ nodes_of d shapes

  unfoldable pub create_new_shape : Dict S (List N) → List S → Outcome (S × List N)
  create_new_shape d shapes = a.average_shape (nodes_of d shapes) >>= λ s. ok (s, nodes_of d shapes)

  abbrev pub put_shape : S × List N → Dict S (List N) → Dict S (List N)
  put_shape c d = if a.is_empty_shape c.0 then d else put c.0 c.1 d

  unfoldable pub merge_shapes : F → Dict S (List N) → Outcome (Dict S (List N))
  merge_shapes merge_threshold d =
      if ltb (length d) 2
      then ok d
      else (split_shapes merge_threshold d >>= λ p. create_new_shape d p.0 >>= λ above.
          create_new_shape d p.1 >>= λ below. ok (put_shape below (put_shape above [])))

  -- The shape of each node and the nodes of each shape, after merging where it is configured.
  unfoldable pub classes_of : Option F → Dict N S → Outcome (Dict N S × Dict S (List N))
  classes_of none node_shapes = ok (node_shapes, reverse_node_shapes node_shapes [])
  classes_of (some merge_threshold) node_shapes =
      merge_shapes merge_threshold (reverse_node_shapes node_shapes []) >>= λ d.
      ok (inverse_shapes d [], d)

  unfoldable pub class_variances : R → Dict S (List N) → Outcome (Dict S F)
  class_variances requested [] = ok []
  class_variances requested ((s, ns) ∷ d) =
      a.variance requested ns >>= λ v. class_variances requested d >>= λ vs. ok ((s, v) ∷ vs)

  -- The messages of the nodes that are not accepted. A node without a shape raises a `KeyError`, and
  -- so does a shape without a variance.
  unfoldable pub fail_others : Dict N S → Dict S F → F → List N → Dict N M → Outcome (Dict N M)
  fail_others node_shapes variances best [] failed = ok failed
  fail_others node_shapes variances best (n ∷ names) failed =
      from_option (get n node_shapes) Error.key_error >>= λ s.
      from_option (get s variances) Error.key_error >>= λ v.
      fail_others node_shapes variances best names (put n (a.message best v) failed)

  unfoldable pub app_fit_nodes :
      {A : Type 0} ⦃ea : Eq A⦄
      → Option F
      → Dict N S
      → Dict A R
      → A
      → List N
      → Outcome (List N × Dict N M)
  app_fit_nodes merge_threshold node_shapes apps_spec app_name names =
      classes_of merge_threshold node_shapes >>= λ classes.
      from_option (get app_name apps_spec) Error.key_error >>= λ requested.
      class_variances requested classes.1 >>= λ variances.
      choose_class classes.1 names (sorted a.less variances) >>= λ chosen.
      fail_others classes.0 variances chosen.0.1 (difference names chosen.1) [] >>= λ failed.
      ok (chosen.1, failed)
