-- ===== src/Static/Merged.antt =====
-- Merging the allocations of a rule puts them over those that the tasks have.
use mathlib.Core.Path.{subst}
use workload_collocation_age.Base.{
  ◌≡◌, refl, sym, ap, ◌∙◌, inl, inr, Bool, true, false, ◌||◌, Option, none, some, List, [], ◌∷◌,
  All, arith, if◌then◌else◌, Bool-cases, Option-cases, ok, >>=-eq-ok, ok-injective, String,
}
use workload_collocation_age.Base.Eq.{◌=?◌, String_eq}
use workload_collocation_age.Base.Dict.{Dict, get, put, has, get-put, has-some, has-false, has-true}
use workload_collocation_age.Metrics.Tree.{through}
use workload_collocation_age.Scheduler.Filter.{update, is_in}
use workload_collocation_age.Scheduler.Filter.Partition.{has-put}
use workload_collocation_age.Containers.Measured.{AreDistinct, get-update_old, get-update_new}
use workload_collocation_age.Static.{
  AllocationValue, TaskAllocations, rdt_fields, number, text, rdt, rdt_of_fields, convert_value,
  convert, or_no_allocations, merge_new, merge_existing, merge_rules, for_all,
}

abbrev pub or_else : Option AllocationValue → Option AllocationValue → Option AllocationValue
or_else none o = o
or_else (some v) o = some v

-- The value of a type among the allocations of a task.
abbrev pub value_for : String → String → Dict String TaskAllocations → Option AllocationValue
value_for t k d = through (get k) (get t d)

get-none : {V : Type 0} (k : String) (d : Dict String V) → get k d ≡ none → has k d ≡ false
get-none k d missing = by_test (has k d) refl
  where
    by_test : (b : Bool) → has k d ≡ b → has k d ≡ false
    by_test true h = let (v, found) = has-some k d h in absurd (cc (sym missing ∙ found))
    by_test false h = h

get-update :
    (d a : TaskAllocations) (k : String)
    → AreDistinct a
    → get k (update d a) ≡ or_else (get k a) (get k d)
get-update d a k apart = elim (Option-cases (get k a)) [
  | inl missing ↦
      get-update_old d a k (get-none k a missing) ∙ ap (λ o. or_else o (get k d)) (sym missing)
  | inr (v, found) ↦ get-update_new d a k apart found ∙ ap (λ o. or_else o (get k d)) (sym found)
]

put-AreDistinct :
    (k : String) (v : AllocationValue) (a : TaskAllocations)
    → AreDistinct a
    → AreDistinct (put k v a)
put-AreDistinct k v [] apart = (refl, tt)
put-AreDistinct k v ((j, w) ∷ a) (fresh, apart) = elim (Bool-cases (j =? k)) [
  | inl same ↦ rw same (fresh, apart)
  | inr other ↦ rw other (
    (has-put j k v a ∙ ground (arith, String_eq.beq_iff j k, String_eq.beq_iff k j)),
    put-AreDistinct k v a apart,
  )
]

pub convert-AreDistinct :
    (a : TaskAllocations) {b : TaskAllocations} → AreDistinct a → convert a ≡ ok b → AreDistinct b
unfolding convert
convert-AreDistinct a {b} apart h = by_value (get "rdt" a) h
  where
    by_value : (o : Option AllocationValue) → convert_value a o ≡ ok b → AreDistinct b
    by_value none h = subst AreDistinct (ok-injective h) apart
    by_value (some (number n)) h = subst AreDistinct (ok-injective h) apart
    by_value (some (text s)) h = subst AreDistinct (ok-injective h) apart
    by_value (some (rdt r)) h = subst AreDistinct (ok-injective h) apart
    by_value (some (rdt_fields d)) h =
        let (v, converted, whole) = >>=-eq-ok (rdt_of_fields d) _ h in
        subst AreDistinct (ok-injective whole) (put-AreDistinct "rdt" v a apart)

get-for_all :
    (t : String) (ids : List String) (a : TaskAllocations) (d : Dict String TaskAllocations)
    → get t (for_all ids a d) ≡ (if is_in t ids then some a else get t d)
unfolding for_all
get-for_all t [] a d = refl
get-for_all t (i ∷ ids) a d =
    get-for_all t ids a (put i a d)
    ∙ ap (λ o. if is_in t ids then some a else o) (get-put i t a d)
    ∙ choose (is_in t ids) (i =? t)
  where
    choose :
        (b c : Bool)
        → (if b then some a else if c then some a else get t d)
          ≡ (if c || b then some a else get t d)
    choose true true = refl
    choose true false = refl
    choose false true = refl
    choose false false = refl

-- All the values of a dictionary are the same allocations.
abbrev AreAll : TaskAllocations → Dict String TaskAllocations → Type 0
AreAll a d = All (λ p. p.1 ≡ a) d

put-AreAll :
    (a : TaskAllocations) (t : String) (d : Dict String TaskAllocations)
    → AreAll a d
    → AreAll a (put t a d)
put-AreAll a t [] all = (refl, tt)
put-AreAll a t ((j, w) ∷ d) (here, all) = elim (Bool-cases (j =? t)) [
  | inl same ↦ rw same (refl, all)
  | inr other ↦ rw other (here, put-AreAll a t d all)
]

for_all-AreAll :
    (a : TaskAllocations) (ids : List String) (d : Dict String TaskAllocations)
    → AreAll a d
    → AreAll a (for_all ids a d)
unfolding for_all
for_all-AreAll a [] d all = all
for_all-AreAll a (i ∷ ids) d all = for_all-AreAll a ids (put i a d) (put-AreAll a i d all)

get-merge_new :
    (t : String) (existing new merged : Dict String TaskAllocations) (a : TaskAllocations)
    → AreAll a new
    → get t (merge_new existing new merged)
      ≡ (if has t new then some (update (or_no_allocations (get t existing)) a) else get t merged)
unfolding merge_new
get-merge_new t existing [] merged a all = refl
get-merge_new t existing ((j, b) ∷ new) merged a (same, all) =
    get-merge_new t existing new (put j (update (or_no_allocations (get j existing)) b) merged) a
      all
    ∙ ap (λ o. if has t new then some (update (or_no_allocations (get t existing)) a) else o)
        (get-put j t (update (or_no_allocations (get j existing)) b) merged)
    ∙ choose (has t new) (j =? t) (get t merged) (λ h.
      let e = (String_eq.beq_iff j t).0 h in
      ap (λ j. some (update (or_no_allocations (get j existing)) b)) e
      ∙ ap (λ b. some (update (or_no_allocations (get t existing)) b)) same)
  where
    choose :
        (b c : Bool) (z : Option TaskAllocations) {x y : Option TaskAllocations}
        → (c ≡ true → y ≡ x)
        → (if b then x else if c then y else z) ≡ (if (if c then true else b) then x else z)
    choose true true z f = refl
    choose true false z f = refl
    choose false true z f = f refl
    choose false false z f = refl

get-merge_existing :
    (t : String) (existing merged : Dict String TaskAllocations)
    → get t (merge_existing existing merged)
      ≡ (if has t merged then get t merged else get t existing)
unfolding merge_existing
get-merge_existing t [] merged = known (has t merged) refl
  where
    known : (b : Bool) → has t merged ≡ b → get t merged ≡ (if b then get t merged else none)
    known true h = refl
    known false h = has-false t merged h
get-merge_existing t ((j, a) ∷ existing) merged = elim (Bool-cases (has j merged)) [
  | inl old ↦ rw old (
      get-merge_existing t existing merged
      ∙ skip (has t merged) (j =? t) (get t merged) (get t existing) (some a)
          (λ h. subst (λ j. has j merged ≡ true) ((String_eq.beq_iff j t).0 h) old))
  | inr new ↦ rw new (
      get-merge_existing t existing (put j a merged)
      ∙ ap (λ b. if b then get t (put j a merged) else get t existing) (has-put t j a merged)
      ∙ ap (λ o. if j =? t || has t merged then o else get t existing) (get-put j t a merged)
      ∙ stored (j =? t) (has t merged) (get t merged) (get t existing) (some a)
          (λ h. subst (λ j. has j merged ≡ false) ((String_eq.beq_iff j t).0 h) new))
]
  where
    skip :
        (b c : Bool) (x y z : Option TaskAllocations)
        → (c ≡ true → b ≡ true)
        → (if b then x else y) ≡ (if b then x else if c then z else y)
    skip true c x y z f = refl
    skip false true x y z f = absurd (cc (f refl))
    skip false false x y z f = refl

    stored :
        (c b : Bool) (x y z : Option TaskAllocations)
        → (c ≡ true → b ≡ false)
        → (if c || b then (if c then z else x) else y) ≡ (if b then x else if c then z else y)
    stored true true x y z f = absurd (cc (f refl))
    stored true false x y z f = refl
    stored false true x y z f = refl
    stored false false x y z f = refl

has-for_all :
    (t : String) (ids : List String) (a : TaskAllocations) (d : Dict String TaskAllocations)
    → has t (for_all ids a d) ≡ (is_in t ids || has t d)
unfolding for_all
has-for_all t [] a d = refl
has-for_all t (i ∷ ids) a d = has-for_all t ids a (put i a d) ∙ ground (arith, has-put t i a d)

-- Merging the same allocations for some tasks puts them over what these tasks have.
pub value_for-merge_rules :
    (t k : String) (existing : Dict String TaskAllocations) (ids : List String)
    (a : TaskAllocations)
    → AreDistinct a
    → value_for t k (merge_rules existing (for_all ids a []))
      ≡ or_else (if is_in t ids then get k a else none) (value_for t k existing)
unfolding merge_rules
value_for-merge_rules t k existing ids a apart =
    let merged = merge_new existing (for_all ids a []) [] in
    let before = or_no_allocations (get t existing) in
    let found : get t merged ≡ (if is_in t ids || false then some (update before a) else none) =
      get-merge_new t existing (for_all ids a []) [] a (for_all-AreAll a ids [] tt)
      ∙ ap (λ b. if b then some (update before a) else none) (has-for_all t ids a []) in
    elim (Bool-cases (is_in t ids)) [
      | inl inside ↦
          let here : get t merged ≡ some (update before a) = rw inside at found in
          rw inside (
            ap (through (get k)) (
              get-merge_existing t existing merged
              ∙ ap (λ b. if b then get t merged else get t existing) (has-true t merged here)
              ∙ here)
            ∙ get-update before a k apart
            ∙ ap (or_else (get k a)) (no_allocations (get t existing)))
      | inr outside ↦
          let absent : get t merged ≡ none = rw outside at found in
          rw outside (
            ap (through (get k)) (
              get-merge_existing t existing merged
              ∙ ap (λ b. if b then get t merged else get t existing) (get-none t merged absent)))
    ]
  where
    no_allocations : (o : Option TaskAllocations) → get k (or_no_allocations o) ≡ through (get k) o
    no_allocations none = refl
    no_allocations (some e) = refl
