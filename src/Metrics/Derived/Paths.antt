-- ===== src/Metrics/Derived/Paths.antt =====
-- An operation on two leveled dictionaries acts on the values that a path leads to in both.
use mathlib.Core.Path.{subst}
use workload_collocation_age.Base.{
  ℕ, zero, suc, ◌≡◌, refl, sym, ap, ◌∙◌, ◌⊎◌, inl, inr, Bool, true, false, Option, none, some, List,
  [], ◌∷◌, length, arith, if◌then◌else◌, Option-cases, Outcome, ok, err, Error, ◌>>=◌, from_option,
  >>=-eq-ok, ok-injective,
}
use workload_collocation_age.Base.Eq.{◌=?◌}
use workload_collocation_age.Metrics.Metadata.{MetricValue}
use workload_collocation_age.Metrics.Tree.{
  LevelKey, LevelKey_eq, same_key_iff, Tree, leaf, level, Items, no_items, item, child, through,
  at_path, AreDicts,
}
use workload_collocation_age.Metrics.Derived.{operation_on_leveled_dicts, subscript, kept}

abbrev pub value_of : Outcome (Tree MetricValue) → Option (Tree MetricValue)
value_of (ok t) = some t
value_of (err e) = none

-- The result for two values, where both are there and the operation has one.
abbrev pub result_of :
    (Tree MetricValue → Tree MetricValue → Outcome (Tree MetricValue))
    → Option (Tree MetricValue)
    → Option (Tree MetricValue)
    → Option (Tree MetricValue)
result_of operation none y = none
result_of operation (some x) none = none
result_of operation (some x) (some y) = value_of (operation x y)

module _ (operation : Tree MetricValue → Tree MetricValue → Outcome (Tree MetricValue)) where
  kept-cases :
      (m : Outcome (Tree MetricValue)) (k : LevelKey) (rest : Outcome (Items MetricValue))
      {r : Items MetricValue}
      → kept m k rest ≡ ok r
      → ((t : Tree MetricValue) × (is : Items MetricValue) × (value_of m ≡ some t)
          × (rest ≡ ok is)
          × (item k t is ≡ r))
        ⊎ ((value_of m ≡ none) × (rest ≡ ok r))
  kept-cases (ok t) k rest h =
      let (is, others, whole) = >>=-eq-ok rest _ h in inl (t, is, refl, others, ok-injective whole)
  kept-cases (err Error.zero_division) k rest h = inr (refl, h)
  kept-cases (err Error.type_error) k rest h = absurd (cc h)
  kept-cases (err Error.value_error) k rest h = absurd (cc h)
  kept-cases (err Error.invalid_allocations) k rest h = absurd (cc h)
  kept-cases (err Error.assertion_error) k rest h = absurd (cc h)
  kept-cases (err Error.index_error) k rest h = absurd (cc h)
  kept-cases (err Error.key_error) k rest h = absurd (cc h)
  kept-cases (err Error.attribute_error) k rest h = absurd (cc h)
  kept-cases (err Error.missing_measurement) k rest h = absurd (cc h)
  kept-cases (err Error.data_missing) k rest h = absurd (cc h)
  kept-cases (err Error.plain_exception) k rest h = absurd (cc h)
  kept-cases (err Error.unbound_local) k rest h = absurd (cc h)
  kept-cases (err Error.missing_allocation) k rest h = absurd (cc h)
  kept-cases (err Error.out_of_closids) k rest h = absurd (cc h)
  kept-cases (err Error.os_error) k rest h = absurd (cc h)
  kept-cases (err Error.uncore_event_config) k rest h = absurd (cc h)

  value_of-subscript :
      (a b : Tree MetricValue) (k : LevelKey)
      → value_of (subscript b k >>= operation a) ≡ result_of operation (some a) (at_path (k ∷ []) b)
  value_of-subscript a (leaf v) k = refl
  value_of-subscript a (level is) k = here (child k is)
    where
      here :
          (o : Option (Tree MetricValue))
          → value_of (from_option o Error.key_error >>= operation a)
            ≡ result_of operation (some a) (through (at_path []) o)
      here none = refl
      here (some y) = refl

  at_path-subscript :
      (b : Tree MetricValue) (k : LevelKey) (path : List LevelKey) {s : Tree MetricValue}
      → subscript b k ≡ ok s
      → at_path (k ∷ path) b ≡ at_path path s
  at_path-subscript (leaf v) k path h = absurd (cc h)
  at_path-subscript (level is) k path h = elim (Option-cases (child k is)) [
    | inl missing ↦ absurd (cc (rw missing at h))
    | inr (t, found) ↦
        ap (through (at_path path)) found ∙ ap (at_path path) (ok-injective (rw found at h))
  ]

  -- A level whose first item has the result for its key, and the others for theirs.
  first_item :
      (c : Bool) (t a : Tree MetricValue) (later later_a y : Option (Tree MetricValue))
      (path : List LevelKey)
      → (c ≡ true → at_path path t ≡ result_of operation (at_path path a) y)
      → through (at_path path) later ≡ result_of operation (through (at_path path) later_a) y
      → through (at_path path) (if c then some t else later)
        ≡ result_of operation (through (at_path path) (if c then some a else later_a)) y
  first_item true t a later later_a y path here there = here refl
  first_item false t a later later_a y path here there = there

  -- A level without the item for which there is no result.
  dropped_item :
      (c : Bool) (a : Tree MetricValue) (later y : Option (Tree MetricValue))
      → (c ≡ true → (later ≡ none) × (result_of operation (some a) y ≡ none))
      → result_of operation (through (at_path []) later) y
        ≡ result_of operation (through (at_path []) (if c then some a else later)) y
  dropped_item true a later y none_here =
      let (missing, no_result) = none_here refl in rw missing (sym no_result)
  dropped_item false a later y none_here = refl

  -- A result found at a path of full length is the operation's for the values found there in
  -- both dictionaries. Nothing is found where the first has no value or the operation divides by 0.
  pub operation_on_leveled_dicts-at_path :
      (n : ℕ) (is : Items MetricValue) (b : Tree MetricValue) {r : Items MetricValue} (k : LevelKey)
      (path : List LevelKey)
      → AreDicts is
      → operation_on_leveled_dicts operation n is b ≡ ok r
      → length path ≡ n
      → at_path (k ∷ path) (level r)
        ≡ result_of operation (at_path (k ∷ path) (level is)) (at_path (k ∷ path) b)
  unfolding operation_on_leveled_dicts AreDicts
  operation_on_leveled_dicts-at_path zero no_items b k path dicts h same =
      ap (λ r. at_path (k ∷ path) (level r)) (sym (ok-injective h))
  operation_on_leveled_dicts-at_path (suc n) no_items b k path dicts h same =
      ap (λ r. at_path (k ∷ path) (level r)) (sym (ok-injective h))
  operation_on_leveled_dicts-at_path zero (item j a others) b k (i ∷ path) dicts h same =
      absurd (omega (arith, same))
  operation_on_leveled_dicts-at_path zero (item j a others) b {r} k [] (fresh, _, dicts) h same =
      elim (kept-cases (subscript b j >>= operation a) j
        (operation_on_leveled_dicts operation zero others b) h) [
          | inl (t, is, value, rest, whole) ↦
              subst
                (λ r.
                  at_path (k ∷ []) (level r)
                  ≡ result_of operation (at_path (k ∷ []) (level (item j a others)))
                      (at_path (k ∷ []) b))
                whole
                (first_item (j =? k) t a (child k is) (child k others) (at_path (k ∷ []) b) []
                  (λ e.
                    sym value
                    ∙ value_of-subscript a b j
                    ∙ ap (λ k. result_of operation (some a) (at_path (k ∷ []) b))
                        ((same_key_iff j k).0 e))
                  (operation_on_leveled_dicts-at_path zero others b k [] dicts rest refl))
          | inr (no_value, rest) ↦
              operation_on_leveled_dicts-at_path zero others b k [] dicts rest refl
              ∙ dropped_item (j =? k) a (child k others) (at_path (k ∷ []) b) (λ c.
                let e = (same_key_iff j k).0 c in
                (
                  subst (λ k. child k others ≡ none) e fresh,
                  ap (λ k. result_of operation (some a) (at_path (k ∷ []) b)) (sym e)
                      ∙ sym (value_of-subscript a b j)
                      ∙ no_value,
                ))
        ]
  operation_on_leveled_dicts-at_path (suc n) (item j (leaf v) others) b k path dicts h same =
      let (s, _, failed) = >>=-eq-ok (subscript b j) _ h in absurd (cc failed)
  operation_on_leveled_dicts-at_path (suc n) (item j (level is) others) b k [] dicts h same =
      absurd (omega (arith, same))
  operation_on_leveled_dicts-at_path (suc n) (item j (level is) others) b k (i ∷ path)
        (fresh, inner, dicts) h same =
      let (sub_b, below, h') = >>=-eq-ok (subscript b j) _ h in
      let (s, first, h'') = >>=-eq-ok (operation_on_leveled_dicts operation n is sub_b) _ h' in
      let (result, rest, whole) =
        >>=-eq-ok (operation_on_leveled_dicts operation (suc n) others b) _ h'' in
      subst
        (λ r.
          at_path (k ∷ i ∷ path) (level r)
          ≡ result_of operation (at_path (k ∷ i ∷ path) (level (item j (level is) others)))
              (at_path (k ∷ i ∷ path) b))
        (ok-injective whole)
        (first_item (j =? k) (level s) (level is) (child k result) (child k others)
          (at_path (k ∷ i ∷ path) b) (i ∷ path)
          (λ e.
            operation_on_leveled_dicts-at_path n is sub_b i path inner first (omega (arith, same))
            ∙ ap (result_of operation (at_path (i ∷ path) (level is))) (
                sym (at_path-subscript b j (i ∷ path) below)
                ∙ ap (λ k. at_path (k ∷ i ∷ path) b) ((same_key_iff j k).0 e)))
          (operation_on_leveled_dicts-at_path (suc n) others b k (i ∷ path) dicts rest same))
