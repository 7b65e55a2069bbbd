-- ===== src/Metrics/Merge/Merged.antt =====
-- A merged metric has, at the end of each path, its operation's result for the values found there.
use mathlib.Core.Path.{subst}
use workload_collocation_age.Base.{
  ℕ, zero, suc, ◌≡◌, refl, sym, ap, ◌∙◌, Bool, true, false, Option, none, some, List, [], ◌∷◌, ◌++◌,
  length, All, arith, if◌then◌else◌, Outcome, ok, ◌>>=◌, >>=-eq-ok, ok-injective, String,
  append-nil, append_assoc,
}
use workload_collocation_age.Base.Eq.{◌=?◌}
use workload_collocation_age.Base.Dict.{get}
use workload_collocation_age.Metrics.Metadata.{MetricValue}
use workload_collocation_age.Metrics.Tree.{
  LevelKey, LevelKey_eq, Tree, leaf, level, through, Items, at_path, child, IsDict,
}
use workload_collocation_age.Metrics.Merge.{
  Leveled, list_items, list_leveled_metrics, list_all, apply_operation, operation_on_leveled_metric,
  empty_level, merge_values, found_first,
}
use workload_collocation_age.Metrics.Merge.Listed.{
  leaf_at, leaf_at-empty_level, add_found, list_items-leaf_at,
}

-- What a path leads to in each of the trees where it leads to something.
abbrev pub all_found : List LevelKey → List (Tree MetricValue) → List (Tree MetricValue)
all_found path [] = []
all_found path (t ∷ ts) = found_first (at_path path t) (all_found path ts)

abbrev pub on_found :
    (List MetricValue → MetricValue)
    → Option (List (Tree MetricValue))
    → Outcome (Option (Tree MetricValue))
on_found operation none = ok none
on_found operation (some ts) = apply_operation operation ts >>= λ t. ok (some t)

abbrev pub nonempty : List (Tree MetricValue) → Option (List (Tree MetricValue))
nonempty [] = none
nonempty (t ∷ ts) = some (t ∷ ts)

add_all :
    Option (List (Tree MetricValue)) → List (Tree MetricValue) → Option (List (Tree MetricValue))
add_all o [] = o
add_all o (t ∷ ts) = add_all (add_found o (some t)) ts

add_all-some : (xs ts : List (Tree MetricValue)) → add_all (some xs) ts ≡ some (xs ++ ts)
unfolding add_all
add_all-some xs [] = ap some (sym (append-nil xs))
add_all-some xs (t ∷ ts) = add_all-some (xs ++ t ∷ []) ts ∙ ap some (append_assoc xs (t ∷ []) ts)

add_all-none : (ts : List (Tree MetricValue)) → add_all none ts ≡ nonempty ts
unfolding add_all
add_all-none [] = refl
add_all-none (t ∷ ts) = add_all-some (t ∷ []) ts

add_all-found :
    (o : Option (List (Tree MetricValue))) (found : Option (Tree MetricValue))
    (ts : List (Tree MetricValue))
    → add_all (add_found o found) ts ≡ add_all o (found_first found ts)
unfolding add_all
add_all-found none none ts = refl
add_all-found none (some t) ts = refl
add_all-found (some xs) none ts = refl
add_all-found (some xs) (some t) ts = refl

list_all-leaf_at :
    (n : ℕ) (ts : List (Tree MetricValue)) (summed : Leveled n) {r : Leveled n} (k : LevelKey)
    (path : List LevelKey)
    → All IsDict ts
    → list_all n summed ts ≡ ok r
    → length path ≡ n
    → leaf_at n (k ∷ path) r ≡ add_all (leaf_at n (k ∷ path) summed) (all_found (k ∷ path) ts)
unfolding list_all list_leveled_metrics add_all IsDict
list_all-leaf_at n [] summed k path dicts h same = ap (leaf_at n (k ∷ path)) (sym (ok-injective h))
list_all-leaf_at n (leaf a ∷ ts) summed k path dicts h same = absurd (cc h)
list_all-leaf_at n (level is ∷ ts) summed k path (dict, dicts) h same =
    let (s, first, second) = >>=-eq-ok (list_items n summed is) _ h in
    list_all-leaf_at n ts s k path dicts second same
    ∙ ap (λ o. add_all o (all_found (k ∷ path) ts))
        (list_items-leaf_at n is summed k path dict first same)
    ∙ add_all-found (leaf_at n (k ∷ path) summed) (at_path (k ∷ path) (level is))
        (all_found (k ∷ path) ts)

-- The first item of a level is found under its key, the others under theirs.
on_found-first :
    (operation : List MetricValue → MetricValue) (b : Bool) (m o : Option (List (Tree MetricValue)))
    (t : Tree MetricValue) (later : Option (Tree MetricValue)) (path : List LevelKey)
    → on_found operation m ≡ ok (at_path path t)
    → on_found operation o ≡ ok (through (at_path path) later)
    → on_found operation (if b then m else o)
      ≡ ok (through (at_path path) (if b then some t else later))
on_found-first operation true m o t later path here there = here
on_found-first operation false m o t later path here there = there

through-if :
    {A B : Type 0} (f : A → Option B) (b : Bool) (x y : Option A)
    → through f (if b then x else y) ≡ (if b then through f x else through f y)
through-if f true x y = refl
through-if f false x y = refl

operation-at_path :
    (n : ℕ) (operation : List MetricValue → MetricValue) (d : Leveled n) {is : Items MetricValue}
    (k : LevelKey) (path : List LevelKey)
    → operation_on_leveled_metric n operation d ≡ ok is
    → length path ≡ n
    → on_found operation (leaf_at n (k ∷ path) d) ≡ ok (at_path (k ∷ path) (level is))
unfolding operation_on_leveled_metric
operation-at_path zero operation d k (i ∷ path) h same = absurd (omega (arith, same))
operation-at_path zero operation [] k [] h same =
    ap (λ is. ok (at_path (k ∷ []) (level is))) (ok-injective h)
operation-at_path zero operation ((j, ts) ∷ d) k [] h same =
    let (t, here, h') = >>=-eq-ok (apply_operation operation ts) _ h in
    let (is, rest, whole) = >>=-eq-ok (operation_on_leveled_metric zero operation d) _ h' in
    subst
      (λ is.
        on_found operation (leaf_at zero (k ∷ []) ((j, ts) ∷ d)) ≡ ok (at_path (k ∷ []) (level is)))
      (ok-injective whole)
      (on_found-first operation (j =? k) (some ts) (get k d) t (child k is) []
        (ap (λ m. m >>= λ t. ok (some t)) here) (operation-at_path zero operation d k [] rest refl))
operation-at_path (suc n) operation [] k path h same =
    ap (λ is. ok (at_path (k ∷ path) (level is))) (ok-injective h)
operation-at_path (suc n) operation ((j, s) ∷ d) k [] h same = absurd (omega (arith, same))
operation-at_path (suc n) operation ((j, s) ∷ d) k (i ∷ path) h same =
    let (t, here, h') = >>=-eq-ok (operation_on_leveled_metric n operation s) _ h in
    let (is, rest, whole) = >>=-eq-ok (operation_on_leveled_metric (suc n) operation d) _ h' in
    subst
      (λ is.
        on_found operation (leaf_at (suc n) (k ∷ i ∷ path) ((j, s) ∷ d))
        ≡ ok (at_path (k ∷ i ∷ path) (level is)))
      (ok-injective whole)
      (ap (on_found operation) (through-if (leaf_at n (i ∷ path)) (j =? k) (some s) (get k d))
        ∙ on_found-first operation (j =? k) (leaf_at n (i ∷ path) s)
            (leaf_at (suc n) (k ∷ i ∷ path) d) (level t) (child k is) (i ∷ path)
            (operation-at_path n operation s i path here (omega (arith, same)))
            (operation-at_path (suc n) operation d k (i ∷ path) rest same))

all_found-nil : (ts : List (Tree MetricValue)) → all_found [] ts ≡ ts
all_found-nil [] = refl
all_found-nil (t ∷ ts) = ap (λ all. t ∷ all) (all_found-nil ts)

-- Merging gives at a path of full length the operation's result for the values found there, in
-- the order of the measurements, and nothing where none was found.
pub merge_values-at_path :
    (levels : List String) (operation : List MetricValue → MetricValue) (t : Tree MetricValue)
    (ts : List (Tree MetricValue)) (path : List LevelKey) {r : Tree MetricValue}
    → All IsDict (t ∷ ts)
    → merge_values levels operation (t ∷ ts) ≡ ok r
    → length path ≡ length levels
    → on_found operation (nonempty (all_found path (t ∷ ts))) ≡ ok (at_path path r)
unfolding merge_values
merge_values-at_path [] operation t ts [] dicts h same =
    ap (λ all. on_found operation (some (t ∷ all))) (all_found-nil ts)
    ∙ ap (λ m. m >>= λ t. ok (some t)) h
merge_values-at_path [] operation t ts (k ∷ path) dicts h same = absurd (omega (arith, same))
merge_values-at_path (l ∷ levels) operation t ts [] dicts h same = absurd (omega (arith, same))
merge_values-at_path (l ∷ levels) operation t ts (k ∷ path) dicts h same =
    let n = length levels in
    let exact : length path ≡ n = omega (arith, same) in
    let (summed, listing, h') = >>=-eq-ok (list_all n (empty_level n) (t ∷ ts)) _ h in
    let (is, operated, whole) = >>=-eq-ok (operation_on_leveled_metric n operation summed) _ h' in
    ap (on_found operation) (
      sym (add_all-none (all_found (k ∷ path) (t ∷ ts)))
      ∙ ap (λ o. add_all o (all_found (k ∷ path) (t ∷ ts))) (sym (leaf_at-empty_level n (k ∷ path)))
      ∙ sym (list_all-leaf_at n (t ∷ ts) (empty_level n) k path dicts listing exact))
    ∙ operation-at_path n operation summed k path operated exact
    ∙ ap (λ r. ok (at_path (k ∷ path) r)) (ok-injective whole)
