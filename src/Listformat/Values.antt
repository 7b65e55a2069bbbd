-- ===== src/Listformat/Values.antt =====
-- `ListFormatBasedAllocationValue` of wca/cgroups_allocations.py, and its subclass for CPU sets.
use mathlib.Core.Path.{subst}
use workload_collocation_age.Base.{
  ℕ, ◌≡◌, refl, ap, inl, inr, Bool, true, Option, none, some, List, [], ◌∷◌, map, leb,
  if◌then◌else◌, Bool-cases, Outcome, ok, err, Error, ◌>>=◌, guard, on_value_error, >>=-eq-ok,
  ok-injective,
}
use workload_collocation_age.Base.Eq.{Text_eq, ◌=?◌}
use workload_collocation_age.Base.Text.{Text}
use workload_collocation_age.Allocations.{Settling}
use workload_collocation_age.Listformat.{decode_listformat, is_blank}

-- `__eq__` compares the decoded sets.
unfoldable pub is_same_set : Text → Text → Outcome Bool
is_same_set v w = decode_listformat v >>= λ s. decode_listformat w >>= λ t. ok (s =? t)

-- Without a current value there is a change.
unfoldable pub calculate_changeset : Text → Option Text → Outcome (Text × Option Text)
calculate_changeset new none = ok (new, some new)
calculate_changeset new (some current) =
    is_same_set new current >>= λ equal. ok (if equal then (current, none) else (new, some new))

abbrev pub first_of : List ℕ → Outcome ℕ
first_of [] = err Error.index_error
first_of (n ∷ set) = ok n

abbrev pub last_of : ℕ → List ℕ → ℕ
last_of n [] = n
last_of n (m ∷ set) = last_of m set

-- The least element is not below the least value, 0; the empty text passes.
unfoldable pub validate : ℕ → Text → Outcome (Unit {0})
validate max_value value =
    on_value_error (decode_listformat value) Error.invalid_allocations >>= λ set.
    (if is_blank value
      then ok tt
      else first_of set
        >>= (λ least. guard (leb (last_of least set) max_value) Error.invalid_allocations))

-- The CPUs are set in the subcgroups, or in the cgroup itself where it has none.
unfoldable pub perform_allocations : {G : Type 0} → Text → G → List G → Outcome (List (G × List ℕ))
perform_allocations value cgroup [] = decode_listformat value >>= λ cpus. ok ((cgroup, cpus) ∷ [])
perform_allocations value cgroup (g ∷ subcgroups) =
    decode_listformat value >>= λ cpus. ok (map (λ h. (h, cpus)) (g ∷ subcgroups))

is_same_set-decoded :
    (v w : Text) {b : Bool} → is_same_set v w ≡ ok b → (s : List ℕ) × (decode_listformat v ≡ ok s)
unfolding is_same_set
is_same_set-decoded v w h =
    let (s, decoded, rest) = >>=-eq-ok (decode_listformat v) _ h in (s, decoded)

is_same_set_self : (v : Text) (s : List ℕ) → decode_listformat v ≡ ok s → is_same_set v v ≡ ok true
unfolding is_same_set
is_same_set_self v s decoded = rw decoded (ap ok ((Text_eq.beq_iff s s).1 refl))

-- Where the changeset against a current value returns: once its target is the current value, a list-format value has no changeset.
pub calculate_changeset-repeated :
    (new current : Text) {target : Text} {changeset : Option Text}
    → calculate_changeset new (some current) ≡ ok (target, changeset)
    → (again : Text) × (calculate_changeset new (some target) ≡ ok (again, none))
unfolding calculate_changeset
calculate_changeset-repeated new current h =
    let (equal, compared, rest) = >>=-eq-ok (is_same_set new current) _ h in
    elim (Bool-cases equal) [
      | inl same ↦
          subst (λ t. (again : Text) × (calculate_changeset new (some t) ≡ ok (again, none)))
            (ap (λ p. p.0) (ok-injective (rw same at rest))) (current, (rw (compared, same) refl))
      | inr other ↦
          let (s, decoded) = is_same_set-decoded new current compared in
          subst (λ t. (again : Text) × (calculate_changeset new (some t) ≡ ok (again, none)))
            (ap (λ p. p.0) (ok-injective (rw other at rest)))
            (new, (rw (is_same_set_self new s decoded) refl))
    ]

-- So such values are fit for the dictionaries of allocations, where they can be decoded.
pub listformat_settling : Settling (λ (v c : Text). calculate_changeset v (some c))
unfolding calculate_changeset
listformat_settling = record {
  Accepts = λ v. (s : List ℕ) × (decode_listformat v ≡ ok s);
  settles = λ v c accepted h. calculate_changeset-repeated v c h;
  same = λ v accepted. (v, (rw (is_same_set_self v accepted.0 accepted.1) refl));
}
