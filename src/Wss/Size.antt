-- ===== src/Wss/Size.antt =====
-- When a cycle of wss.py reports a working set size.
use mathlib.Core.Path.{subst}
use workload_collocation_age.Base.{
  ℕ, ◌+◌, ◌≡◌, refl, sym, ◌∙◌, ◌⊎◌, inl, inr, Bool, false, Option, none, some, arith, ◌==◌,
  Bool-cases, ok, >>=-eq-ok, ok-injective,
}
use workload_collocation_age.Wss.{
  Fraction, Config, Wss, Half, Reading, Report, abs, settle, sample, reset, finish, measure_stable,
  measure, get_measurements,
}
use workload_collocation_age.Wss.Invariant.{IsValid, get_measurements-IsValid}

-- The size in the report, if any, is the kept mean.
pub record IsKept (p : Wss × Report) : Type 0 where
  pub from_mean :
      (p.1.working_set_size_bytes ≡ none) ⊎ (p.1.working_set_size_bytes ≡ p.0.last_stable_wss)

pub finish-mean :
    (c : Config) (referenced : ℕ) (size : Option Half) (w : Wss) (should_reset : Bool)
    → (finish c referenced size w should_reset).0.last_stable_wss ≡ w.last_stable_wss
unfolding finish reset
finish-mean c referenced size w should_reset = ground arith

pub finish-size :
    (c : Config) (referenced : ℕ) (size : Option Half) (w : Wss) (should_reset : Bool)
    → (finish c referenced size w should_reset).1.working_set_size_bytes ≡ size
unfolding finish
finish-size c referenced size w should_reset = refl

finish-IsKept-none :
    (c : Config) (referenced : ℕ) (w : Wss) → IsKept (finish c referenced none w false)
finish-IsKept-none c referenced w = record {
  from_mean = inl (finish-size c referenced none w false);
}

pub measure_stable-IsKept :
    {p : Wss × Report} (c : Config) (t : Fraction) (referenced : ℕ) (membw : Option ℕ) (w : Wss)
    → measure_stable c t referenced membw w ≡ ok p
    → IsKept p
unfolding measure_stable
measure_stable-IsKept c t referenced none w h =
    subst IsKept (ok-injective h) (record { from_mean = inl refl })
measure_stable-IsKept c t referenced (some membw) w h =
    let (s, sampled, h0) =
      >>=-eq-ok (sample c.interval t c.wss_stable_cycles membw referenced w) _ h in
    let (a, settled, h1) = >>=-eq-ok (settle c referenced s) _ h0 in
    let size = finish-size c referenced a.0.last_stable_wss a.0 a.1 in
    let mean = finish-mean c referenced a.0.last_stable_wss a.0 a.1 in
    subst IsKept (ok-injective h1) (record { from_mean = inr (size ∙ sym mean) })

pub measure-IsKept :
    {p : Wss × Report} (c : Config) (threshold : Option Fraction) (r : Reading) (w : Wss)
    → measure c threshold r w ≡ ok p
    → IsKept p
unfolding measure
measure-IsKept c none r w h = subst IsKept (ok-injective h) (finish-IsKept-none c r.referenced w)
measure-IsKept c (some t) r w h = elim (Bool-cases (abs c.wss_stable_cycles == 0)) [
  | inl disabled ↦
      subst IsKept (ok-injective (rw disabled at h)) (finish-IsKept-none c r.referenced w)
  | inr enabled ↦ measure_stable-IsKept c t r.referenced r.membw_counter w (rw enabled at h)
]

-- A reported size is the kept mean, and stands only after a first stable period was passed over.
pub get_measurements-size :
    {c : Config} {w : Wss} {p : Wss × Report} {size : Half} (r : Reading)
    → IsValid c w
    → get_measurements c r w ≡ ok p
    → p.1.working_set_size_bytes ≡ some size
    → (p.0.last_stable_wss ≡ some size) × (p.0.first_wss ≡ false)
unfolding get_measurements
get_measurements-size {c = c} {w = w} {p = p} r v h reported =
    let kept = measure-IsKept c c.wss_membw_threshold r (record w { cycle = w.cycle + 1 }) h in
    elim (get_measurements-IsValid r v) [
      | inl (q, same, v') ↦
          let v'' = subst (λ x. IsValid c x.0) (ok-injective (sym same ∙ h)) v' in ground arith
      | inr (zero, raised) ↦ absurd (cc (sym raised ∙ h))
    ]
