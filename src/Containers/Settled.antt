-- ===== src/Containers/Settled.antt =====
-- Calls of wca/containers.py that either return, or raise what an action on the system raised.
use workload_collocation_age.Base.{
  ◌≡◌, refl, inl, inr, List, [], ◌∷◌, ◌++◌, Outcome, err, Error, Settles, Settles-bind,
  Outcome-cases,
}
use workload_collocation_age.Containers.{Action, act, act_all}

module _ (perform : List Action → Action → Outcome (Unit {0})) where
  -- Some action, after some others, raises the exception.
  abbrev pub IsRaised : Error → Type 0
  IsRaised e = (done : List Action) × (a : Action) × (perform done a ≡ err e)

  -- The call returns something with the property, or raises what an action raised.
  abbrev pub IsSettled : {A : Type 0} → (A → Type 0) → Outcome A → Type 0
  IsSettled Q m = Settles IsRaised Q m

  pub act-IsSettled :
      (done : List Action) (a : Action) → IsSettled (λ next. Unit {0}) (act perform done a)
  act-IsSettled done a = elim (Outcome-cases (perform done a)) [
    | inl (u, same) ↦ rw same (inl (done ++ a ∷ [], refl, tt))
    | inr (e, raised) ↦ rw raised (inr (e, (done, a, raised), refl))
  ]

  pub act_all-IsSettled :
      (done actions : List Action) → IsSettled (λ next. Unit {0}) (act_all perform done actions)
  unfolding act_all
  act_all-IsSettled done [] = inl (done, refl, tt)
  act_all-IsSettled done (a ∷ actions) =
      Settles-bind IsRaised (λ next. Unit {0}) (act perform done a) _ (act-IsSettled done a)
        (λ next same u. act_all-IsSettled next actions)
