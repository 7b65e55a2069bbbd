-- ===== src/Rdt/Changeset/Merge.antt =====
-- The changeset of an allocation: when it is empty, and that it settles.
use workload_collocation_age.Base.{
  Bool, true, false, [], ◌∷◌, Option, none, some, ◌≡◌, refl, sym, ap, ◌∙◌, ◌↔◌, inl, inr, ok,
  Outcome-cases, >>=-eq-ok, ok-injective,
}
use workload_collocation_age.Base.Eq.{Text_eq}
use workload_collocation_age.Base.Text.{Text}
use workload_collocation_age.Rdt.Schemata.{parse_row}
use workload_collocation_age.Rdt.Allocation.{RdtAllocationValue, is_set, get_resgroup_name}
use workload_collocation_age.Rdt.Changeset.{
  is_subset, some_differs, compare_rows, is_rdt_suballocation_changed, keep_if, merged,
  merge_same_group, calculate_changeset,
}

-- The part of the row in question is the same now and then.
abbrev pub IsUnchanged : Option Text → Option Text → Type 0
IsUnchanged current new = is_rdt_suballocation_changed current new ≡ ok false

pub compare_rows_empty : (current : Text) (b : Bool) → compare_rows current [] ≡ ok b → b ≡ false
unfolding compare_rows parse_row some_differs is_subset
compare_rows_empty current b h = elim (Outcome-cases (parse_row current)) [
  | inl (d, e) ↦ sym (ok-injective (rw e at h))
  | inr (x, e) ↦ absurd (cc (rw e at h))
]

-- A changed row is not empty.
pub changed-is_set :
    (current new : Option Text) (b : Bool)
    → is_rdt_suballocation_changed current new ≡ ok b
    → is_set (keep_if b new) ≡ b
unfolding is_rdt_suballocation_changed
changed-is_set current new false h = refl
changed-is_set current none true h = cc h
changed-is_set none (some new) true h = cc h
changed-is_set (some current) (some []) true h = absurd (cc (compare_rows_empty current true h))
changed-is_set (some current) (some (c ∷ new)) true h = refl

pub merged-none :
    (new current : RdtAllocationValue) (a b : Bool)
    → is_set (keep_if a new.rdt_allocation.l3) ≡ a
    → is_set (keep_if b new.rdt_allocation.mb) ≡ b
    → ((merged new current a b).1 ≡ none) ↔ ((a ≡ false) × (b ≡ false))
unfolding merged
merged-none new current true b p q = rw p (λ h. absurd (cc h), λ h. absurd (cc (h.0)))
merged-none new current false true p q = rw q (λ h. absurd (cc h), λ h. absurd (cc (h.1)))
merged-none new current false false p q = (λ h. (refl, refl), λ h. refl)

pub merge_inv :
    (new current : RdtAllocationValue) {r : RdtAllocationValue × Option RdtAllocationValue}
    → merge_same_group new current ≡ ok r
    → (a : Bool) × (b : Bool) × (is_rdt_suballocation_changed current.rdt_allocation.l3
          new.rdt_allocation.l3
        ≡ ok a)
      × (is_rdt_suballocation_changed current.rdt_allocation.mb new.rdt_allocation.mb ≡ ok b)
      × (merged new current a b ≡ r)
unfolding merge_same_group
merge_inv new current h =
    let l3 = is_rdt_suballocation_changed current.rdt_allocation.l3 new.rdt_allocation.l3 in
    let mb = is_rdt_suballocation_changed current.rdt_allocation.mb new.rdt_allocation.mb in
    let (a, p, h1) = >>=-eq-ok l3 _ h in
    let (b, q, h2) = >>=-eq-ok mb _ h1 in (a, b, p, q, ok-injective h2)

pub same_group :
    (new current : RdtAllocationValue)
    → get_resgroup_name current ≡ get_resgroup_name new
    → calculate_changeset new (some current) ≡ merge_same_group new current
unfolding calculate_changeset
same_group new current e =
    rw ((Text_eq.beq_iff (get_resgroup_name current) (get_resgroup_name new)).1 e)

-- Within one group the changeset is empty exactly when neither the cache row nor the bandwidth row
-- has changed.
pub calculate_changeset-none :
    (new current : RdtAllocationValue) {target : RdtAllocationValue}
    {cs : Option RdtAllocationValue}
    → get_resgroup_name current ≡ get_resgroup_name new
    → calculate_changeset new (some current) ≡ ok (target, cs)
    → (cs ≡ none) ↔ (
        IsUnchanged current.rdt_allocation.l3 new.rdt_allocation.l3
        × IsUnchanged current.rdt_allocation.mb new.rdt_allocation.mb)
calculate_changeset-none new current {target} {cs} e h =
    let (a, b, p, q, r) = merge_inv new current (sym (same_group new current e) ∙ h) in
    let (there, back) =
      merged-none new current a b
        (changed-is_set current.rdt_allocation.l3 new.rdt_allocation.l3 a p)
        (changed-is_set current.rdt_allocation.mb new.rdt_allocation.mb b q) in
    (
      λ n. let (x, y) = there (ap (λ t. t.1) r ∙ n) in (p ∙ ap ok x, q ∙ ap ok y),
      λ u. sym (ap (λ t. t.1) r) ∙ back (ok-injective (sym p ∙ u.0), ok-injective (sym q ∙ u.1)),
    )
