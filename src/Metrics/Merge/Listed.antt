-- ===== src/Metrics/Merge/Listed.antt =====
-- The aggregate of leveled metrics holds, at the end of each path, the list of the values found there.
use mathlib.Core.Path.{subst}
use workload_collocation_age.Base.{
  ℕ, zero, suc, ◌≡◌, refl, sym, ap, ◌∙◌, Bool, true, false, Option, none, some, List, [], ◌∷◌, ◌++◌,
  length, arith, if◌then◌else◌, ok, >>=-eq-ok, ok-injective,
}
use workload_collocation_age.Base.Eq.{◌=?◌}
use workload_collocation_age.Base.Dict.{get, put, get-put}
use workload_collocation_age.Metrics.Metadata.{MetricValue}
use workload_collocation_age.Metrics.Tree.{
  LevelKey, LevelKey_eq, same_key_iff, Tree, leaf, level, through, Items, no_items, item, at_path,
  child, IsDict, AreDicts,
}
use workload_collocation_age.Metrics.Merge.{Leveled, list_items, or_empty, listed, empty_level}

-- The list at the end of a path in an aggregate.
abbrev pub leaf_at : (n : ℕ) → List LevelKey → Leveled n → Option (List (Tree MetricValue))
leaf_at zero [] d = none
leaf_at (suc n) [] d = none
leaf_at zero (k ∷ []) d = get k d
leaf_at zero (k ∷ (j ∷ path)) d = none
leaf_at (suc n) (k ∷ path) d = through (leaf_at n path) (get k d)

-- A list with one more value, where there is one.
abbrev pub add_found :
    Option (List (Tree MetricValue)) → Option (Tree MetricValue) → Option (List (Tree MetricValue))
add_found o none = o
add_found none (some t) = some (t ∷ [])
add_found (some ts) (some t) = some (ts ++ t ∷ [])

pub leaf_at-empty_level : (n : ℕ) (path : List LevelKey) → leaf_at n path (empty_level n) ≡ none
leaf_at-empty_level zero [] = refl
leaf_at-empty_level zero (k ∷ []) = refl
leaf_at-empty_level zero (k ∷ (j ∷ path)) = refl
leaf_at-empty_level (suc n) [] = refl
leaf_at-empty_level (suc n) (k ∷ path) = refl

leaf_at-or_empty :
    (n : ℕ) (path : List LevelKey) (o : Option (Leveled n))
    → leaf_at n path (or_empty n o) ≡ through (leaf_at n path) o
leaf_at-or_empty n path none = leaf_at-empty_level n path
leaf_at-or_empty n path (some s) = refl

leaf_at-put :
    (n : ℕ) (j k : LevelKey) (path : List LevelKey) (s : Leveled n) (d : Leveled (suc n))
    → leaf_at (suc n) (k ∷ path) (put j s d)
      ≡ (if j =? k then leaf_at n path s else leaf_at (suc n) (k ∷ path) d)
leaf_at-put n j k path s d = ap (through (leaf_at n path)) (get-put j k s d) ∙ choose (j =? k)
  where
    choose :
        (b : Bool)
        → through (leaf_at n path) (if b then some s else get k d)
          ≡ (if b then leaf_at n path s else leaf_at (suc n) (k ∷ path) d)
    choose true = refl
    choose false = refl

add_found-listed :
    (o : Option (List (Tree MetricValue))) (t : Tree MetricValue)
    → some (listed o ++ t ∷ []) ≡ add_found o (some t)
add_found-listed none t = refl
add_found-listed (some ts) t = refl

-- A value added at a key in front of the other values of its level, whose keys differ.
add_found-first :
    (b : Bool) (o o' : Option (List (Tree MetricValue))) (t : Tree MetricValue)
    (later : Option (Tree MetricValue)) (path : List LevelKey)
    → (b ≡ true → (o ≡ o') × (later ≡ none))
    → add_found (if b then add_found o (at_path path t) else o') (through (at_path path) later)
      ≡ add_found o' (through (at_path path) (if b then some t else later))
add_found-first true o o' t later path fresh =
    let (same, missing) = fresh refl in rw (missing, same) refl
add_found-first false o o' t later path fresh = refl

pub list_items-leaf_at :
    (n : ℕ) (is : Items MetricValue) (aggregated : Leveled n) {r : Leveled n} (k : LevelKey)
    (path : List LevelKey)
    → AreDicts is
    → list_items n aggregated is ≡ ok r
    → length path ≡ n
    → leaf_at n (k ∷ path) r
      ≡ add_found (leaf_at n (k ∷ path) aggregated) (at_path (k ∷ path) (level is))
unfolding list_items AreDicts IsDict
list_items-leaf_at zero no_items aggregated k path dicts h same =
    ap (leaf_at zero (k ∷ path)) (sym (ok-injective h))
list_items-leaf_at (suc n) no_items aggregated k path dicts h same =
    ap (leaf_at (suc n) (k ∷ path)) (sym (ok-injective h))
list_items-leaf_at zero (item j value rest) aggregated k (i ∷ path) dicts h same =
    absurd (omega (arith, same))
list_items-leaf_at zero (item j value rest) aggregated k [] (fresh, _, others) h same =
    list_items-leaf_at zero rest (put j (listed (get j aggregated) ++ value ∷ []) aggregated) k []
      others h refl
    ∙ ap (λ o. add_found o (through (at_path []) (child k rest)))
        (get-put j k (listed (get j aggregated) ++ value ∷ []) aggregated
          ∙ ap (λ o. if j =? k then o else get k aggregated)
              (add_found-listed (get j aggregated) value))
    ∙ add_found-first (j =? k) (get j aggregated) (get k aggregated) value (child k rest) [] (λ h.
      let e = (same_key_iff j k).0 h in
      (ap (λ i. get i aggregated) e, subst (λ i. child i rest ≡ none) e fresh))
list_items-leaf_at (suc n) (item j (leaf a) rest) aggregated k path dicts h same = absurd (cc h)
list_items-leaf_at (suc n) (item j (level is) rest) aggregated k [] dicts h same =
    absurd (omega (arith, same))
list_items-leaf_at (suc n) (item j (level is) rest) aggregated k (i ∷ path) (fresh, inner, others) h
      same =
    let (s, first, second) = >>=-eq-ok (list_items n (or_empty n (get j aggregated)) is) _ h in
    list_items-leaf_at (suc n) rest (put j s aggregated) k (i ∷ path) others second same
    ∙ ap (λ o. add_found o (through (at_path (i ∷ path)) (child k rest)))
        (leaf_at-put n j k (i ∷ path) s aggregated
          ∙ ap (λ o. if j =? k then o else leaf_at (suc n) (k ∷ i ∷ path) aggregated)
              (list_items-leaf_at n is (or_empty n (get j aggregated)) i path inner first
                  (omega (arith, same))
                ∙ ap (λ o. add_found o (at_path (i ∷ path) (level is)))
                    (leaf_at-or_empty n (i ∷ path) (get j aggregated))))
    ∙ add_found-first (j =? k) (leaf_at (suc n) (j ∷ i ∷ path) aggregated)
        (leaf_at (suc n) (k ∷ i ∷ path) aggregated) (level is) (child k rest) (i ∷ path)
        (λ h.
          let e = (same_key_iff j k).0 h in
          (
            ap (λ j. leaf_at (suc n) (j ∷ i ∷ path) aggregated) e,
            subst (λ i. child i rest ≡ none) e fresh,
          ))
