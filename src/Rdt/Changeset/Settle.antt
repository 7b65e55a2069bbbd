-- ===== src/Rdt/Changeset/Settle.antt =====
-- Once its target has been reached, an allocation asks for no more changes.
use workload_collocation_age.Base.{
  Bool, true, false, [], ◌∷◌, ◌++◌, append_assoc, Option, none, some, ◌≡◌, refl, sym, ap, ◌∙◌,
  arith, inl, inr, ok, Bool-cases, ok-injective,
}
use mathlib.Core.Path.{subst}
use workload_collocation_age.Base.Eq.{Text_eq, ◌=?◌}
use workload_collocation_age.Base.Dict.{Dict, get, has}
use workload_collocation_age.Base.Text.{Text, drop_while}
use workload_collocation_age.Rdt.Schemata.{parse_row}
use workload_collocation_age.Rdt.Schemata.Sound.{Distinct, Distinct-has, parse_row-IsRow}
use workload_collocation_age.Rdt.Allocation.{RdtAllocationValue, or_else, get_resgroup_name, copy}
use workload_collocation_age.Rdt.Changeset.{
  is_equal, is_blank_or_zero, is_rdt_suballocation_changed, merged, merge_same_group,
  calculate_changeset,
}
use workload_collocation_age.Rdt.Changeset.Changed.{AllSame, is_rdt_suballocation_changed_iff}
use workload_collocation_age.Rdt.Changeset.Merge.{
  IsUnchanged, compare_rows_empty, same_group, merge_inv,
}

get-middle :
    (k v : Text) (pre d : Dict Text Text) → has k pre ≡ false → get k (pre ++ (k, v) ∷ d) ≡ some v
get-middle k v [] d h = ground (arith, Text_eq.beq_iff k k)
get-middle k v ((j, w) ∷ pre) d h = ground (arith, get-middle k v pre d)

is_equal_refl : (v : Text) → is_equal v v ≡ true
is_equal_refl v = let w : Text = drop_while is_blank_or_zero v in (Text_eq.beq_iff w w).1 refl

AllSame-suffix : (new pre : Dict Text Text) → Distinct (pre ++ new) → AllSame new (pre ++ new)
AllSame-suffix [] pre h = tt
AllSame-suffix ((k, v) ∷ new) pre h = (
  rw (get-middle k v pre new (Distinct-has k v pre new h)) (is_equal_refl v),
  subst (AllSame new) (append_assoc pre ((k, v) ∷ []) new) (
      AllSame-suffix new (pre ++ (k, v) ∷ [])
        (subst Distinct (sym (append_assoc pre ((k, v) ∷ []) new)) h)),
)

-- The row is missing, or it can be parsed.
abbrev pub Parses : Option Text → Type 0
Parses none = Unit
Parses (some row) = (d : Dict Text Text) × (parse_row row ≡ ok d)

IsUnchanged-self : (row : Option Text) → Parses row → IsUnchanged row row
IsUnchanged-self none p = unfold is_rdt_suballocation_changed in refl
IsUnchanged-self (some row) (d, p) =
    (is_rdt_suballocation_changed_iff row row d d p p).1
      (AllSame-suffix d [] ((parse_row-IsRow row p).distinct))

-- The merged row, compared with the new one.
IsUnchanged-merged :
    (new current : Option Text) (b : Bool)
    → Parses new
    → is_rdt_suballocation_changed current new ≡ ok b
    → IsUnchanged (or_else new current) new
unfolding is_rdt_suballocation_changed
IsUnchanged-merged none current b p h = refl
IsUnchanged-merged (some (c ∷ row)) current b p h = IsUnchanged-self (some (c ∷ row)) p
IsUnchanged-merged (some []) none b p h = absurd (cc h)
IsUnchanged-merged (some []) (some current) b p h = h ∙ ap ok (compare_rows_empty current b h)

unchanged_both :
    (new current : RdtAllocationValue)
    → get_resgroup_name current ≡ get_resgroup_name new
    → IsUnchanged current.rdt_allocation.l3 new.rdt_allocation.l3
    → IsUnchanged current.rdt_allocation.mb new.rdt_allocation.mb
    → (t : RdtAllocationValue) × (calculate_changeset new (some current) ≡ ok (t, none))
unfolding merge_same_group merged
unchanged_both new current e p q =
    ((merged new current false false).0, same_group new current e ∙ rw (p, q))

settles_self :
    (new : RdtAllocationValue)
    → Parses new.rdt_allocation.l3
    → Parses new.rdt_allocation.mb
    → (t : RdtAllocationValue) × (calculate_changeset new (some new) ≡ ok (t, none))
settles_self new p q =
    unchanged_both new new refl (IsUnchanged-self new.rdt_allocation.l3 p)
      (IsUnchanged-self new.rdt_allocation.mb q)

settles_merged :
    (new current : RdtAllocationValue) (a b : Bool)
    → get_resgroup_name current ≡ get_resgroup_name new
    → Parses new.rdt_allocation.l3
    → Parses new.rdt_allocation.mb
    → is_rdt_suballocation_changed current.rdt_allocation.l3 new.rdt_allocation.l3 ≡ ok a
    → is_rdt_suballocation_changed current.rdt_allocation.mb new.rdt_allocation.mb ≡ ok b
    → (t : RdtAllocationValue) × (calculate_changeset new (some (merged new current a b).0)
        ≡ ok (t, none))
unfolding merged copy get_resgroup_name
settles_merged new current a b e p q x y =
    unchanged_both new (merged new current a b).0 e
      (IsUnchanged-merged new.rdt_allocation.l3 current.rdt_allocation.l3 a p x)
      (IsUnchanged-merged new.rdt_allocation.mb current.rdt_allocation.mb b q y)

other_group :
    (new current : RdtAllocationValue) {target : RdtAllocationValue}
    {cs : Option RdtAllocationValue}
    → (get_resgroup_name current =? get_resgroup_name new) ≡ false
    → calculate_changeset new (some current) ≡ ok (target, cs)
    → new ≡ target
unfolding calculate_changeset
other_group new current e h = ap (λ t. t.0) (ok-injective (rw e at h))

root_group :
    (new : RdtAllocationValue) {target : RdtAllocationValue} {cs : Option RdtAllocationValue}
    → calculate_changeset new none ≡ ok (target, cs)
    → new ≡ target
unfolding calculate_changeset
root_group new h = ap (λ t. t.0) (ok-injective h)

-- Where both rows of the new value are absent, empty or parse, and its changeset against a current
-- value, or none, returns: the target, taken as the current value, yields an empty second changeset.
pub calculate_changeset-settles :
    (new : RdtAllocationValue) (current : Option RdtAllocationValue) {target : RdtAllocationValue}
    {cs : Option RdtAllocationValue}
    → Parses new.rdt_allocation.l3
    → Parses new.rdt_allocation.mb
    → calculate_changeset new current ≡ ok (target, cs)
    → (t : RdtAllocationValue) × (calculate_changeset new (some target) ≡ ok (t, none))
calculate_changeset-settles new none p q h =
    subst (λ v. (t : RdtAllocationValue) × (calculate_changeset new (some v) ≡ ok (t, none)))
      (root_group new h) (settles_self new p q)
calculate_changeset-settles new (some current) p q h =
    elim (Bool-cases (get_resgroup_name current =? get_resgroup_name new)) [
      | inl same ↦
          let e = (Text_eq.beq_iff (get_resgroup_name current) (get_resgroup_name new)).0 same in
          let (a, b, x, y, r) = merge_inv new current (sym (same_group new current e) ∙ h) in
          subst (λ v. (t : RdtAllocationValue) × (calculate_changeset new (some v) ≡ ok (t, none)))
            (ap (λ t. t.0) r) (settles_merged new current a b e p q x y)
      | inr other ↦
          subst (λ v. (t : RdtAllocationValue) × (calculate_changeset new (some v) ≡ ok (t, none)))
            (other_group new current other h) (settles_self new p q)
    ]
