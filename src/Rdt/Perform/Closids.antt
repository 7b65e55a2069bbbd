-- ===== src/Rdt/Perform/Closids.antt =====
-- The limit on the number of resource groups (CLOSids).
use workload_collocation_age.Base.{
  ◌≤◌, true, false, List, [], ◌∷◌, ◌++◌, ◌≡◌, refl, sym, arith, length, All, Bool-cases, inl, inr,
  ap, ◌∙◌, ◌⊎◌, err, Error, ◌>>◌, Outcome, ok, Outcome-cases,
}
use mathlib.Core.Path.{subst}
use workload_collocation_age.Base.Eq.{Text_eq}
use workload_collocation_age.Base.Text.{Text}
use workload_collocation_age.Rdt.Allocation.{
  RdtAllocationValue, RdtGroups, get_resgroup_name, contains, add, validate_groups, validate,
  validate_l3, validate_mb, then_groups,
}
use workload_collocation_age.Rdt.Perform.{validate_all_groups}
use workload_collocation_age.Rdt.Perform.Once.{contains-append}

-- No name stands twice, so the length counts the groups.
abbrev pub IsNodup : List Text → Type 0
IsNodup [] = Unit
IsNodup (n ∷ ns) = (contains n ns ≡ false) × IsNodup ns

-- The counted groups are distinct and within the limit.
pub record WithinLimit (g : RdtGroups) : Type 0 where
  pub nodup : IsNodup g.existing_groups
  pub bounded : length g.existing_groups ≤ g.closids_limit

IsNodup-append :
    (ns : List Text) (m : Text) → IsNodup ns → contains m ns ≡ false → IsNodup (ns ++ m ∷ [])
IsNodup-append [] m h n = (refl, tt)
IsNodup-append (k ∷ ns) m (h, hs) n = ground (
  arith,
  contains-append k m ns,
  IsNodup-append ns m hs,
  Text_eq.beq_iff m k,
  Text_eq.beq_iff k m,
)

IsNodup-add : (m : Text) (ns : List Text) → IsNodup ns → IsNodup (add m ns)
IsNodup-add m ns h = elim (Bool-cases (contains m ns)) [
  | inl old ↦ rw old h
  | inr new ↦ rw new (IsNodup-append ns m h new)
]

contains-add_self : (m : Text) (ns : List Text) → contains m (add m ns) ≡ true
contains-add_self m ns = elim (Bool-cases (contains m ns)) [
  | inl old ↦ rw old old
  | inr new ↦ rw (new, contains-append m m ns, (Text_eq.beq_iff m m).1 refl)
]

contains-add : (n m : Text) (ns : List Text) → contains n ns ≡ true → contains n (add m ns) ≡ true
contains-add n m ns h = ground (arith, contains-append n m ns)

validate_groups-WithinLimit :
    (v : RdtAllocationValue) (g : RdtGroups) {u : Unit}
    → WithinLimit g
    → (validate_groups v g).0 ≡ ok u
    → WithinLimit (validate_groups v g).1
unfolding validate_groups
validate_groups-WithinLimit v g w h = record {
  nodup = IsNodup-add (get_resgroup_name v) g.existing_groups w.nodup;
  bounded = ground arith;
}

-- Where the rows are right the groups are counted, and otherwise nothing is changed.
validate-cases :
    (v : RdtAllocationValue) (g : RdtGroups)
    → (validate v g ≡ validate_groups v g) ⊎ ((e : Error) × (validate v g ≡ (err e, g)))
unfolding validate
validate-cases v g =
    elim (Outcome-cases (validate_l3 v v.rdt_allocation.l3 >> validate_mb v v.rdt_allocation.mb)) [
      | inl (u, e) ↦ inl (ap (λ o. then_groups o v g) e)
      | inr (x, e) ↦ inr (x, ap (λ o. then_groups o v g) e)
    ]

validate-ok :
    (v : RdtAllocationValue) (g : RdtGroups) {u : Unit}
    → (validate v g).0 ≡ ok u
    → validate v g ≡ validate_groups v g
validate-ok v g h = elim (validate-cases v g) [
  | inl counts ↦ counts
  | inr (x, fails) ↦ absurd (cc (sym (ap (λ r. r.0) fails) ∙ h))
]

step_ok :
    (v : RdtAllocationValue) (vs : List RdtAllocationValue) (g : RdtGroups) {u : Unit}
    → (validate v g).0 ≡ ok u
    → validate_all_groups (v ∷ vs) g ≡ validate_all_groups vs (validate_groups v g).1
unfolding validate_all_groups
step_ok v vs g h =
    rw (h, validate_all_groups) (ap (λ r. validate_all_groups vs r.1) (validate-ok v g h))

first_ok :
    (v : RdtAllocationValue) (vs : List RdtAllocationValue) (g : RdtGroups) {u : Unit}
    → (validate_all_groups (v ∷ vs) g).0 ≡ ok u
    → (validate v g).0 ≡ ok tt
unfolding validate_all_groups
first_ok v vs g h = elim (Outcome-cases (validate v g).0) [
  | inl (u, e) ↦ e
  | inr (x, e) ↦ absurd (cc (rw (e, validate_all_groups) at h))
]

kept_by_groups :
    (n : Text) (v : RdtAllocationValue) (g : RdtGroups)
    → contains n g.existing_groups ≡ true
    → contains n (validate_groups v g).1.existing_groups ≡ true
unfolding validate_groups
kept_by_groups n v g c = contains-add n (get_resgroup_name v) g.existing_groups c

kept_by_one :
    (n : Text) (v : RdtAllocationValue) (g : RdtGroups)
    → contains n g.existing_groups ≡ true
    → contains n (validate v g).1.existing_groups ≡ true
kept_by_one n v g c = elim (validate-cases v g) [
  | inl counts ↦ rw counts (kept_by_groups n v g c)
  | inr (x, fails) ↦ rw fails c
]

counted :
    (n : Text) (vs : List RdtAllocationValue) (g : RdtGroups)
    → contains n g.existing_groups ≡ true
    → contains n (validate_all_groups vs g).1.existing_groups ≡ true
counted n [] g c = unfold validate_all_groups in c
counted n (v ∷ vs) g c = elim (Outcome-cases (validate v g).0) [
  | inl (u, e) ↦
      rw (step_ok v vs g e) (counted n vs (validate_groups v g).1 (kept_by_groups n v g c))
  | inr (x, e) ↦ unfold validate_all_groups in rw (e, validate_all_groups) (kept_by_one n v g c)
]

counted_self :
    (v : RdtAllocationValue) (g : RdtGroups)
    → contains (get_resgroup_name v) (validate_groups v g).1.existing_groups ≡ true
unfolding validate_groups
counted_self v g = contains-add_self (get_resgroup_name v) g.existing_groups

abbrev Accepts : List RdtAllocationValue → Outcome (Unit {0}) × RdtGroups → Type 0
Accepts vs r =
    WithinLimit r.1 × All (λ v. contains (get_resgroup_name v) r.1.existing_groups ≡ true) vs

-- From counted groups that are distinct and within the limit, where every value is validated without
-- an error: the counted groups are still distinct and within the limit, and the group of each value
-- is among them.
pub validate_all_groups-WithinLimit :
    (vs : List RdtAllocationValue) (g : RdtGroups)
    → WithinLimit g
    → (validate_all_groups vs g).0 ≡ ok tt
    → WithinLimit (validate_all_groups vs g).1
      × All
          (λ v. contains (get_resgroup_name v) (validate_all_groups vs g).1.existing_groups ≡ true)
          vs
validate_all_groups-WithinLimit [] g w h = unfold validate_all_groups in (w, tt)
validate_all_groups-WithinLimit (v ∷ vs) g w h =
    let e = first_ok v vs g h in
    let g' = (validate_groups v g).1 in
    let (w', c) =
      validate_all_groups-WithinLimit vs g' (validate_groups-WithinLimit v g w (groups_ok e))
        (rw (step_ok v vs g e) at h) in
    subst (Accepts (v ∷ vs)) (sym (step_ok v vs g e))
      (w', (counted (get_resgroup_name v) vs g' (counted_self v g), c))
  where
    groups_ok : (validate v g).0 ≡ ok tt → (validate_groups v g).0 ≡ ok tt
    groups_ok e = sym (ap (λ r. r.0) (validate-ok v g e)) ∙ e
