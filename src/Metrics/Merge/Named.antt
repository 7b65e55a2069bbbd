-- ===== src/Metrics/Merge/Named.antt =====
-- `merge_measurements` merges every metric that some measurement contains, and no other.
use mathlib.Core.Path.{subst}
use workload_collocation_age.Base.{
  ◌≡◌, refl, sym, ap, ◌∙◌, ◌⊎◌, inl, inr, Bool, true, false, ◌||◌, Option, none, some, List, [],
  ◌∷◌, ◌++◌, length, All, arith, if◌then◌else◌, Bool-cases, ok, >>=-eq-ok, ok-injective, String,
}
use workload_collocation_age.Base.Eq.{◌=?◌, String_eq}
use workload_collocation_age.Base.Dict.{get, put, get-put, keys, has, has-false, has-some}
use workload_collocation_age.Metrics.Metadata.{MetricValue, Metadata}
use workload_collocation_age.Metrics.Tree.{LevelKey, Tree, Measurements, through, at_path, IsDict}
use workload_collocation_age.Metrics.Merge.{
  levels_of, operation_of, named, merge_values, found_first, merge_named, merge_measurements,
  add_names, all_metrics_names,
}
use workload_collocation_age.Metrics.Merge.Merged.{
  all_found, on_found, nonempty, merge_values-at_path,
}
use workload_collocation_age.Scheduler.Filter.{is_in}
use workload_collocation_age.Scheduler.Filter.Partition.{is_in-append}

-- What is measured under a name, by the end of a path.
abbrev pub measured : String → List LevelKey → Measurements MetricValue → Option (Tree MetricValue)
measured name path m = through (at_path path) (get name m)

-- All the dictionaries of a measurement have distinct keys.
abbrev pub AreTrees : Measurements MetricValue → Type 0
AreTrees [] = Unit
AreTrees ((n, t) ∷ m) = IsDict t × AreTrees m

get-IsDict :
    (m : Measurements MetricValue) (n : String) {t : Tree MetricValue}
    → AreTrees m
    → get n m ≡ some t
    → IsDict t
get-IsDict [] n all h = absurd (cc h)
get-IsDict ((j, u) ∷ m) n {t} all h = elim (Bool-cases (j =? n)) [
  | inl same ↦ let e : u ≡ t = cc (rw same at h) in subst IsDict e all.0
  | inr other ↦ get-IsDict m n all.1 (rw other at h)
]

found_first-IsDict :
    (o : Option (Tree MetricValue)) (ts : List (Tree MetricValue))
    → ((t : Tree MetricValue) → o ≡ some t → IsDict t)
    → All IsDict ts
    → All IsDict (found_first o ts)
found_first-IsDict none ts dict dicts = dicts
found_first-IsDict (some t) ts dict dicts = (dict t refl, dicts)

named-IsDict :
    (n : String) (ms : List (Measurements MetricValue)) → All AreTrees ms → All IsDict (named n ms)
unfolding named
named-IsDict n [] all = tt
named-IsDict n (m ∷ ms) (first, all) =
    found_first-IsDict (get n m) (named n ms) (λ t. get-IsDict m n first) (named-IsDict n ms all)

first_out : (b c : Bool) → (b || c) ≡ false → b ≡ false
first_out b c h = ground arith

merge_named-out :
    (md : Metadata) (ms : List (Measurements MetricValue)) (names : List String)
    (summed : Measurements MetricValue) {r : Measurements MetricValue} (n : String)
    → merge_named md ms names summed ≡ ok r
    → is_in n names ≡ false
    → get n r ≡ get n summed
unfolding merge_named
merge_named-out md ms [] summed n h out = ap (get n) (sym (ok-injective h))
merge_named-out md ms (j ∷ names) summed n h out =
    let (t, first, rest) =
      >>=-eq-ok (merge_values (levels_of md j) (operation_of md j) (named j ms)) _ h in
    merge_named-out md ms names (put j t summed) n rest (ground arith)
    ∙ get-put j n t summed
    ∙ ap (λ b. if b then some t else get n summed) (first_out (j =? n) (is_in n names) out)

merge_named-in :
    (md : Metadata) (ms : List (Measurements MetricValue)) (names : List String)
    (summed : Measurements MetricValue) {r : Measurements MetricValue} (n : String)
    → merge_named md ms names summed ≡ ok r
    → is_in n names ≡ true
    → (t : Tree MetricValue) × (merge_values (levels_of md n) (operation_of md n) (named n ms)
        ≡ ok t)
      × (get n r ≡ some t)
unfolding merge_named
merge_named-in md ms [] summed n h inside = absurd (cc inside)
merge_named-in md ms (j ∷ names) summed n h inside =
    let (t, first, rest) =
      >>=-eq-ok (merge_values (levels_of md j) (operation_of md j) (named j ms)) _ h in
    elim (Bool-cases (is_in n names)) [
      | inl later ↦ merge_named-in md ms names (put j t summed) n rest later
      | inr last ↦
          let same : (j =? n) ≡ true = ground arith in
          let e = (String_eq.beq_iff j n).0 same in
          (
            t,
            subst (λ n. merge_values (levels_of md n) (operation_of md n) (named n ms) ≡ ok t) e
                first,
            merge_named-out md ms names (put j t summed) n rest last
                ∙ get-put j n t summed
                ∙ ap (λ b. if b then some t else get n summed) same,
          )
    ]

add_names-is_in :
    (n : String) (seen names : List String)
    → is_in n (add_names seen names) ≡ (is_in n seen || is_in n names)
add_names-is_in n seen [] = ground arith
add_names-is_in n seen (j ∷ names) =
    add_names-is_in n (if is_in j seen then seen else seen ++ j ∷ []) names
    ∙ elim (Bool-cases (is_in j seen)) [
      | inl old ↦ rw old (
          ground (
            arith,
            λ (h : (j =? n) ≡ true).
                subst (λ n. is_in n seen ≡ true) ((String_eq.beq_iff j n).0 h) old,
          ))
      | inr new ↦ rw new (ground (arith, is_in-append n seen (j ∷ [])))
    ]

keys-is_in : (n : String) (m : Measurements MetricValue) → is_in n (keys m) ≡ has n m
keys-is_in n [] = refl
keys-is_in n ((j, t) ∷ m) = ground (arith, keys-is_in n m)

-- A name is among the collected ones exactly when it was there before or some measurement has it.
all_metrics_names-out :
    (n : String) (seen : List String) (ms : List (Measurements MetricValue))
    → is_in n (all_metrics_names seen ms) ≡ false
    → (is_in n seen ≡ false) × (named n ms ≡ [])
unfolding all_metrics_names named
all_metrics_names-out n seen [] h = (h, refl)
all_metrics_names-out n seen (m ∷ ms) h =
    let (before, after) = all_metrics_names-out n (add_names seen (keys m)) ms h in
    let missing = has-false n m (ground (arith, add_names-is_in n seen (keys m), keys-is_in n m)) in
    (
      ground (arith, add_names-is_in n seen (keys m)),
      ap (λ o. found_first o (named n ms)) missing ∙ after,
    )

all_metrics_names-in :
    (n : String) (seen : List String) (ms : List (Measurements MetricValue))
    → is_in n (all_metrics_names seen ms) ≡ true
    → (is_in n seen ≡ true)
      ⊎ ((t : Tree MetricValue) × (ts : List (Tree MetricValue)) × (named n ms ≡ t ∷ ts))
unfolding all_metrics_names named
all_metrics_names-in n seen [] h = inl h
all_metrics_names-in n seen (m ∷ ms) h = elim (Bool-cases (has n m)) [
  | inl here ↦
      let (t, found) = has-some n m here in
      inr (t, named n ms, ap (λ o. found_first o (named n ms)) found)
  | inr missing ↦ elim (all_metrics_names-in n (add_names seen (keys m)) ms h) [
    | inl before ↦ inl (ground (arith, add_names-is_in n seen (keys m), keys-is_in n m))
    | inr (t, ts, found) ↦
        inr (t, ts, ap (λ o. found_first o (named n ms)) (has-false n m missing) ∙ found)
  ]
]

-- For every name, known or not, and every path as long as the metric has levels: the merged
-- measurements have there what the metric's operation makes of the values that the measurements
-- with that name have there, in their order, and nothing where none has a value.
pub merge_measurements-measured :
    (md : Metadata) (ms : List (Measurements MetricValue)) (n : String) (path : List LevelKey)
    {r : Measurements MetricValue}
    → All AreTrees ms
    → merge_measurements md ms ≡ ok r
    → length path ≡ length (levels_of md n)
    → on_found (operation_of md n) (nonempty (all_found path (named n ms))) ≡ ok (measured n path r)
unfolding merge_measurements
merge_measurements-measured md ms n path {r} dicts h same =
    let names = all_metrics_names [] ms in
    elim (Bool-cases (is_in n names)) [
      | inl inside ↦
          let (t, merged, stored) = merge_named-in md ms names [] n h inside in
          elim (all_metrics_names-in n [] ms inside) [
            | inl none_before ↦ absurd (cc none_before)
            | inr (u, ts, found) ↦
                ap (λ ts. on_found (operation_of md n) (nonempty (all_found path ts))) found
                ∙ merge_values-at_path (levels_of md n) (operation_of md n) u ts path
                    (subst (All IsDict) found (named-IsDict n ms dicts))
                    (subst (λ ts. merge_values (levels_of md n) (operation_of md n) ts ≡ ok t) found
                      merged)
                    same
                ∙ ap (λ o. ok (through (at_path path) o)) (sym stored)
          ]
      | inr outside ↦
          ap (λ ts. on_found (operation_of md n) (nonempty (all_found path ts)))
            (all_metrics_names-out n [] ms outside).1
          ∙ ap (λ o. ok (through (at_path path) o))
              (sym (merge_named-out md ms names [] n h outside))
    ]
