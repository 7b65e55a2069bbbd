-- ===== src/Rdt/Changeset/Changed.antt =====
-- When a row counts as changed.
use workload_collocation_age.Base.{
  true, false, [], ◌∷◌, Option, none, some, ◌≡◌, refl, arith, ◌↔◌, inl, inr, ok, Option-cases,
}
use workload_collocation_age.Base.Eq.{Text_eq}
use workload_collocation_age.Base.Dict.{Dict, get, has-some, has-true}
use workload_collocation_age.Base.Text.{Text}
use workload_collocation_age.Rdt.Schemata.{parse_row}
use workload_collocation_age.Rdt.Changeset.{
  is_equal, is_subset, differs_from, some_differs, compare_rows, is_rdt_suballocation_changed,
}

-- Two values of a domain say the same: leading zeros and blanks do not count.
abbrev pub SameValue : Option Text → Text → Type 0
SameValue none v = ⊥
SameValue (some w) v = is_equal w v ≡ true

-- Every domain of the new row has the value that it has now.
abbrev pub AllSame : Dict Text Text → Dict Text Text → Type 0
AllSame [] current = Unit
AllSame ((k, v) ∷ new) current = SameValue (get k current) v × AllSame new current

same_of_not_differs : (w v : Text) → differs_from (some w) v ≡ false → is_equal w v ≡ true
same_of_not_differs w v h = ground arith

first_same :
    (k v : Text) (new current : Dict Text Text)
    → some_differs ((k, v) ∷ new) current ≡ false
    → differs_from (get k current) v ≡ false
unfolding some_differs
first_same k v new current h = ground arith

some_differs_sound :
    (new current : Dict Text Text)
    → is_subset new current ≡ true
    → some_differs new current ≡ false
    → AllSame new current
unfolding is_subset some_differs
some_differs_sound [] current s h = tt
some_differs_sound ((k, v) ∷ new) current s h =
    let (w, e) = has-some k current (ground arith) in
    (
      rw e (same_of_not_differs w v (rw e at (first_same k v new current h))),
      some_differs_sound new current (ground arith) (ground arith),
    )

some_differs_complete :
    (new current : Dict Text Text)
    → AllSame new current
    → (is_subset new current ≡ true) × (some_differs new current ≡ false)
unfolding is_subset some_differs
some_differs_complete [] current h = (refl, refl)
some_differs_complete ((k, v) ∷ new) current (h, hs) =
    let (s, d) = some_differs_complete new current hs in
    elim (Option-cases (get k current)) [
      | inl e ↦ absurd (rw e at h)
      | inr (w, e) ↦
          let f : is_equal w v ≡ true = rw e at h in (rw (has-true k current e, s), rw (e, d, f))
    ]

-- Where both rows parse, the function says "unchanged" exactly when every domain of the new row
-- has the value that it has in the current row, up to leading zeros and blanks. A domain that
-- only the new row has makes it raise.
pub is_rdt_suballocation_changed_iff :
    (current new : Text) (c n : Dict Text Text)
    → parse_row current ≡ ok c
    → parse_row new ≡ ok n
    → (is_rdt_suballocation_changed (some current) (some new) ≡ ok false) ↔ AllSame n c
unfolding is_rdt_suballocation_changed compare_rows
is_rdt_suballocation_changed_iff current new c n pc pn =
    rw (pc, pn)
      (
        λ h. some_differs_sound n c (ground arith) (ground arith),
        λ a. let (s, d) = some_differs_complete n c a in rw (s, d),
      )
