-- ===== src/Wss/Latch.antt =====
-- What a cycle of wss.py does once a stable period is complete, and what a reset leaves.
use workload_collocation_age.Base.{
  ℕ, ◌+◌, ◌≡◌, refl, ap, ◌∙◌, inl, inr, false, Option, none, some, List, [], ◌∷◌, arith, ◌==◌,
  Bool-cases, ok, >>=-eq-ok, ok-injective,
}
use mathlib.Core.Path.{subst}
use workload_collocation_age.Base.Int.{pos}
use workload_collocation_age.Wss.{
  Fraction, Config, Wss, Half, Reading, Report, abs, check_if_known, sample, settle, finish,
  measure_stable, measure, get_measurements, run, is_cyclic_reset,
}

-- The stable period has been counted, and nothing has restarted the count.
pub record IsLatched (c : Config) (w : Wss) : Type 0 where
  pub past : w.stable_cycles_counter ≡ abs c.wss_stable_cycles + 1

-- The check is past its period, so sampling keeps all but the previous values.
pub check_if_known-IsLatched :
    {c : Config} {w : Wss} (t : Fraction) (membw referenced : ℕ) (a p : Option ℕ)
    → IsLatched c w
    → check_if_known c.interval t c.wss_stable_cycles membw referenced a p w ≡ ok w
unfolding check_if_known
check_if_known-IsLatched t membw referenced none p l = refl
check_if_known-IsLatched t membw referenced (some a) none l = refl
check_if_known-IsLatched t membw referenced (some a) (some p) l = ground arith

pub sample-IsLatched :
    {c : Config} {w : Wss} (t : Fraction) (membw referenced : ℕ)
    → IsLatched c w
    → (s : Wss) × (sample c.interval t c.wss_stable_cycles membw referenced w ≡ ok s)
      × IsLatched c s
      × (s.last_stable_wss ≡ w.last_stable_wss)
unfolding sample
sample-IsLatched {w = w} t membw referenced l =
    let same =
      check_if_known-IsLatched t membw referenced w.prev_membw_counter w.prev_referenced l in
    (
      record w { prev_referenced = some referenced; prev_membw_counter = some membw },
      rw same refl,
      record { past = l.past },
      refl,
    )

pub settle-IsLatched :
    {c : Config} {w : Wss} (referenced : ℕ) → IsLatched c w → settle c referenced w ≡ ok (w, false)
unfolding settle
settle-IsLatched referenced l = ground arith

pub finish-quiet :
    (c : Config) (referenced : ℕ) (size : Option Half) (w : Wss)
    → c.wss_reset_cycles ≡ some (pos 0)
    → ((finish c referenced size w false).0 ≡ w)
      × ((finish c referenced size w false).1.cleared ≡ false)
unfolding finish is_cyclic_reset
finish-quiet c referenced size w off = rw off (refl, refl)

-- What a quiet cycle keeps.
pub record IsQuiet (c : Config) (w : Wss) (p : Wss × Report) : Type 0 where
  pub latched : IsLatched c p.0
  pub kept : p.0.last_stable_wss ≡ w.last_stable_wss
  pub uncleared : p.1.cleared ≡ false

-- The cycle that ends early, for want of the bandwidth, is quiet.
early_IsQuiet :
    (c : Config) (w : Wss) (referenced : ℕ)
    → IsLatched c w
    → IsQuiet c w (
      w,
      record { wss_referenced_bytes = referenced; working_set_size_bytes = none; cleared = false },
    )
early_IsQuiet c w referenced l = record { latched = l; kept = refl; uncleared = refl }

pub finish-IsQuiet :
    (c : Config) (w' w : Wss) (referenced : ℕ) (size : Option Half)
    → c.wss_reset_cycles ≡ some (pos 0)
    → IsLatched c w'
    → w'.last_stable_wss ≡ w.last_stable_wss
    → IsQuiet c w (finish c referenced size w' false)
finish-IsQuiet c w' w referenced size off l same =
    let (kept, quiet) = finish-quiet c referenced size w' off in
    record {
      latched = record { past = ap (λ x. x.stable_cycles_counter) kept ∙ l.past };
      kept = ap (λ x. x.last_stable_wss) kept ∙ same;
      uncleared = quiet;
    }

pub measure_stable-IsQuiet :
    {c : Config} {w : Wss} {p : Wss × Report} (t : Fraction) (referenced : ℕ) (membw : Option ℕ)
    → c.wss_reset_cycles ≡ some (pos 0)
    → IsLatched c w
    → measure_stable c t referenced membw w ≡ ok p
    → IsQuiet c w p
unfolding measure_stable
measure_stable-IsQuiet {c = c} {w = w} t referenced none off l h =
    subst (λ x. IsQuiet c w x) (ok-injective h) (early_IsQuiet c w referenced l)
measure_stable-IsQuiet {c = c} {w = w} t referenced (some membw) off l h =
    let (s, sampled, l', same) = sample-IsLatched t membw referenced l in
    let settled = settle-IsLatched referenced l' in
    subst (λ x. IsQuiet c w x) (ok-injective (rw (sampled, settled) at h))
      (finish-IsQuiet c _ w referenced _ off l' same)

pub measure-IsQuiet :
    {c : Config} {w : Wss} {p : Wss × Report} (threshold : Option Fraction) (r : Reading)
    → c.wss_reset_cycles ≡ some (pos 0)
    → IsLatched c w
    → measure c threshold r w ≡ ok p
    → IsQuiet c w p
unfolding measure
measure-IsQuiet {c = c} {w = w} {p = p} none r off l h =
    subst (λ x. IsQuiet c w x) (ok-injective h) (finish-IsQuiet c w w r.referenced none off l refl)
measure-IsQuiet {c = c} {w = w} {p = p} (some t) r off l h =
    elim (Bool-cases (abs c.wss_stable_cycles == 0)) [
      | inl disabled ↦
          subst (λ x. IsQuiet c w x) (ok-injective (rw disabled at h))
            (finish-IsQuiet c w w r.referenced none off l refl)
      | inr enabled ↦ measure_stable-IsQuiet t r.referenced r.membw_counter off l (rw enabled at h)
    ]

pub get_measurements-IsQuiet :
    {c : Config} {w : Wss} {p : Wss × Report} (r : Reading)
    → c.wss_reset_cycles ≡ some (pos 0)
    → IsLatched c w
    → get_measurements c r w ≡ ok p
    → IsQuiet c w p
unfolding get_measurements
get_measurements-IsQuiet {c = c} {w = w} {p = p} r off l h =
    let q =
      measure-IsQuiet {c = c} {w = record w { cycle = w.cycle + 1 }} {p = p} c.wss_membw_threshold r
        off (record { past = l.past }) h in
    record { latched = q.latched; kept = q.kept; uncleared = q.uncleared }

-- Without a cyclic reset, a stable period is caught once: from a state whose counter is past the
-- period, cycles whatever they read change neither the counter nor the kept mean.
pub run-IsLatched :
    {c : Config} (rs : List Reading) {w : Wss} {p : Wss × List Report}
    → c.wss_reset_cycles ≡ some (pos 0)
    → IsLatched c w
    → run c rs w ≡ ok p
    → IsLatched c p.0 × (p.0.last_stable_wss ≡ w.last_stable_wss)
unfolding run
run-IsLatched {c = c} [] {w = w} off l h =
    subst (λ x. IsLatched c x.0 × (x.0.last_stable_wss ≡ w.last_stable_wss)) (ok-injective h)
      (l, refl)
run-IsLatched {c = c} (r ∷ rs) {w = w} off l h =
    let (a, first, h1) = >>=-eq-ok (get_measurements c r w) _ h in
    let (b, others, h2) = >>=-eq-ok (run c rs a.0) _ h1 in
    let q = get_measurements-IsQuiet r off l first in
    let (latched, kept) = run-IsLatched rs off q.latched others in
    subst (λ x. IsLatched c x.0 × (x.0.last_stable_wss ≡ w.last_stable_wss)) (ok-injective h2)
      (latched, kept ∙ q.kept)
