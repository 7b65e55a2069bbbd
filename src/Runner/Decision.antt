-- ===== src/Runner/Decision.antt =====
-- What an iteration of the allocation runner performs and counts.
use mathlib.Core.Path.{subst}
use workload_collocation_age.Base.{
  ℕ, ◌+◌, ◌≡◌, refl, sym, ap, ◌∙◌, inl, inr, Option, some, Bool-cases, Outcome, ok, err, >>=-eq-ok,
  ok-injective, Outcome-cases,
}
use workload_collocation_age.Runner.{
  is_invalid_allocations, Statistics, Iteration, validate_target, validate_new, create_new, attempt,
  handle, iterate,
}

module _ {V : Type 0} (validate : V → Outcome (Unit {0}))
    (diff : V → V → Outcome (V × Option V)) where
  -- The new values exist, pass both validations, and the changeset is theirs.
  pub record IsApproved (current : V) (shares : Outcome (Unit {0})) (created : Outcome V)
      (changeset : V) : Type 0 where
    pub new : V
    pub target : V
    pub shares_valid : shares ≡ ok tt
    pub was_created : created ≡ ok new
    pub valid : validate new ≡ ok tt
    pub difference : diff new current ≡ ok (target, some changeset)

  target_changeset :
      (d : Outcome (V × Option V)) {c : V}
      → (validate_target validate diff d).changeset ≡ some c
      → (t : V) × (d ≡ ok (t, some c))
  unfolding validate_target
  target_changeset (err e) h = absurd (cc h)
  target_changeset (ok (t, o)) h = (t, ap (λ o. ok (t, o)) h)

  valid_changeset :
      (current new : V) (u : Outcome (Unit {0})) {c : V}
      → validate new ≡ u
      → (validate_new validate diff current new u).changeset ≡ some c
      → IsApproved current (ok tt) (ok new) c
  unfolding validate_new
  valid_changeset current new (err e) was h = absurd (cc h)
  valid_changeset current new (ok tt) was h =
      let (t, d) = target_changeset (diff new current) h in
      record {
        new = new;
        target = t;
        shares_valid = refl;
        was_created = refl;
        valid = was;
        difference = d;
      }

  attempt-changeset :
      (current : V) (shares : Outcome (Unit {0})) (created : Outcome V) {c : V}
      → (attempt validate diff current shares created).changeset ≡ some c
      → IsApproved current shares created c
  unfolding attempt create_new
  attempt-changeset current (err e) created h = absurd (cc h)
  attempt-changeset current (ok tt) (err e) h = absurd (cc h)
  attempt-changeset current (ok tt) (ok new) h = valid_changeset current new (validate new) refl h

  handle-performed :
      (number : ℕ) (current : V) (s : Statistics) (changeset : Option V) (outcome : Outcome V)
      {it : Iteration validate diff}
      → handle validate diff number current s changeset outcome ≡ ok it
      → it.performed ≡ changeset
  unfolding handle
  handle-performed number current s changeset (ok target) h =
      ap (λ it. it.performed) (ok-injective (sym h))
  handle-performed number current s changeset (err e) h =
      elim (Bool-cases (is_invalid_allocations e)) [
        | inl invalid ↦ ap (λ it. it.performed) (ok-injective (sym (rw invalid at h)))
        | inr other ↦ absurd (cc (rw other at h))
      ]

  -- What is performed is the changeset of new values that passed both validations.
  pub iterate-performed :
      (number : ℕ) (current : V) (shares : Outcome (Unit {0})) (created : Outcome V)
      (s : Statistics) {it : Iteration validate diff} {c : V}
      → iterate validate diff number current shares created s ≡ ok it
      → it.performed ≡ some c
      → IsApproved current shares created c
  unfolding iterate
  iterate-performed number current shares created s h performed =
      attempt-changeset current shares created
        (sym (handle-performed number current s _ _ h) ∙ performed)

  -- The target was validated and the allocations were counted, or the current values are kept as
  -- the target and one error was counted.
  pub data IsCounted (number : ℕ) (current : V) (s : Statistics) (it : Iteration validate diff)
      : Type 0 where
    accepted :
        validate it.target ≡ ok tt
        → it.statistics ≡ record s { allocations_counter = s.allocations_counter + number }
        → IsCounted number current s it
    rejected :
        it.target ≡ current
        → it.statistics ≡ record s { allocations_errors = s.allocations_errors + 1 }
        → IsCounted number current s it

  target_valid :
      (d : Outcome (V × Option V)) {t : V}
      → (validate_target validate diff d).outcome ≡ ok t
      → validate t ≡ ok tt
  unfolding validate_target
  target_valid (err e) h = absurd (cc h)
  target_valid (ok (t, o)) h =
      let (u, valid, same) = >>=-eq-ok (validate t) _ h in
      subst (λ t. validate t ≡ ok tt) (ok-injective same) valid

  attempt_valid :
      (current : V) (shares : Outcome (Unit {0})) (created : Outcome V) {t : V}
      → (attempt validate diff current shares created).outcome ≡ ok t
      → validate t ≡ ok tt
  unfolding attempt create_new validate_new
  attempt_valid current (err e) created h = absurd (cc h)
  attempt_valid current (ok u) (err e) h = absurd (cc h)
  attempt_valid current (ok u) (ok new) h = elim (Outcome-cases (validate new)) [
    | inl (u', valid) ↦ target_valid (diff new current) (rw valid at h)
    | inr (e, invalid) ↦ absurd (cc (rw invalid at h))
  ]

  handle-IsCounted :
      (number : ℕ) (current : V) (s : Statistics) (changeset : Option V) (outcome : Outcome V)
      {it : Iteration validate diff}
      → ((t : V) → outcome ≡ ok t → validate t ≡ ok tt)
      → handle validate diff number current s changeset outcome ≡ ok it
      → IsCounted number current s it
  unfolding handle
  handle-IsCounted number current s changeset (ok target) valid h =
      subst (λ it. IsCounted number current s it) (ok-injective h)
        (accepted (valid target refl) refl)
  handle-IsCounted number current s changeset (err e) valid h =
      elim (Bool-cases (is_invalid_allocations e)) [
        | inl invalid ↦
            subst (λ it. IsCounted number current s it) (ok-injective (rw invalid at h))
              (rejected refl refl)
        | inr other ↦ absurd (cc (rw other at h))
      ]

  -- An iteration that ends has a valid target and counts its allocations, or keeps the current
  -- values as its target and counts one error.
  pub iterate-IsCounted :
      (number : ℕ) (current : V) (shares : Outcome (Unit {0})) (created : Outcome V)
      (s : Statistics) {it : Iteration validate diff}
      → iterate validate diff number current shares created s ≡ ok it
      → IsCounted number current s it
  unfolding iterate
  iterate-IsCounted number current shares created s h =
      handle-IsCounted number current s _ _ (λ t. attempt_valid current shares created) h
