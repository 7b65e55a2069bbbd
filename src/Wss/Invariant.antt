-- ===== src/Wss/Invariant.antt =====
-- The invariant of a `WSS` object, and that a cycle from a state that has it
-- raises at most a division by an interval of 0.
use workload_collocation_age.Base.{
  ℕ, ◌+◌, ◌≤◌, ◌<◌, Bool, true, false, ◌≡◌, refl, inl, inr, Option, none, some, ◌==◌, List, [], ◌∷◌,
  length, ok, err, Error, ◌⊎◌, ◌∙◌, ltb, Settles, Settles-bind, Option-cases, Bool-cases, arith,
  ==_iff, ap, suc,
}
use workload_collocation_age.Wss.{
  Fraction, Config, Wss, Half, Reading, Report, abs, check_stability, count_stable, check_if_known,
  mark_stable, sample, settle, reset, finish, measure_stable, measure, get_measurements, run,
  initial,
}

-- The counter passes the wanted number of cycles by one at most, a positive counter has a
-- remembered first value, and no mean is kept before the first stable period is over.
pub record IsValid (c : Config) (w : Wss) : Type 0 where
  pub bounded : w.stable_cycles_counter ≤ abs c.wss_stable_cycles + 1
  pub remembered : w.first_stable_referenced ≡ none → w.stable_cycles_counter ≡ 0
  pub ignored : w.first_wss ≡ true → w.last_stable_wss ≡ none

-- What a cycle may raise: a division by the interval where that is 0.
abbrev pub IsDivision : Config → Error → Type 0
IsDivision c e = (c.interval ≡ 0) × (e ≡ Error.zero_division)

pub count_stable-IsValid :
    {c : Config} {w : Wss} (t : Fraction) (prev_membw membw prev_referenced referenced : ℕ)
    → w.stable_cycles_counter < abs c.wss_stable_cycles
    → IsValid c w
    → IsValid c (count_stable t prev_membw membw prev_referenced referenced w)
unfolding count_stable
count_stable-IsValid t a b p q less v = ground arith

check_stability-IsValid :
    {c : Config} {w : Wss} (t : Fraction) (prev_membw membw prev_referenced referenced : ℕ)
    → w.stable_cycles_counter < abs c.wss_stable_cycles
    → IsValid c w
    → Settles
        (IsDivision c)
        (IsValid c)
        (check_stability c.interval t prev_membw membw prev_referenced referenced w)
unfolding check_stability
check_stability-IsValid {c = c} {w = w} t a b p q less v = elim (Bool-cases (c.interval == 0)) [
  | inl zero ↦ rw zero (inr (Error.zero_division, ((==_iff c.interval 0).0 zero, refl), refl))
  | inr positive ↦
      rw positive
        (inl (count_stable t a b p q w, refl, count_stable-IsValid {w = w} t a b p q less v))
]

check_if_known-IsValid :
    {c : Config} {w : Wss} (t : Fraction) (membw referenced : ℕ) (a p : Option ℕ)
    → IsValid c w
    → Settles
        (IsDivision c)
        (IsValid c)
        (check_if_known c.interval t c.wss_stable_cycles membw referenced a p w)
unfolding check_if_known
check_if_known-IsValid {w = w} t membw referenced none p v = inl (w, refl, v)
check_if_known-IsValid {w = w} t membw referenced (some a) none v = inl (w, refl, v)
check_if_known-IsValid {c = c} {w = w} t membw referenced (some a) (some p) v =
    elim (Bool-cases (ltb w.stable_cycles_counter (abs c.wss_stable_cycles))) [
      | inl counting ↦
          rw counting
            (check_stability-IsValid {c = c} {w = w} t a membw p referenced (ground arith) v)
      | inr over ↦ rw over (inl (w, refl, v))
    ]

sample-IsValid :
    {c : Config} {w : Wss} (t : Fraction) (membw referenced : ℕ)
    → IsValid c w
    → Settles
        (IsDivision c)
        (IsValid c)
        (sample c.interval t c.wss_stable_cycles membw referenced w)
unfolding sample
sample-IsValid {c = c} {w = w} t membw referenced v =
    Settles-bind (IsDivision c) (IsValid c)
      (check_if_known c.interval t c.wss_stable_cycles membw referenced w.prev_membw_counter
        w.prev_referenced w)
      _ (check_if_known-IsValid t membw referenced w.prev_membw_counter w.prev_referenced v)
      (λ checked same u. inl (
        record checked { prev_referenced = some referenced; prev_membw_counter = some membw },
        refl,
        record { bounded = u.bounded; remembered = u.remembered; ignored = u.ignored },
      ))

pub mark_stable-IsValid :
    {c : Config} {w : Wss} (n referenced : ℕ)
    → w.stable_cycles_counter ≡ abs c.wss_stable_cycles
    → w.first_stable_referenced ≡ some n
    → IsValid c w
    → IsValid c (mark_stable c n referenced w).0
unfolding mark_stable
mark_stable-IsValid n referenced complete known v = ground arith

pub settle-IsValid :
    {c : Config} {w : Wss} (referenced : ℕ)
    → 0 < abs c.wss_stable_cycles
    → IsValid c w
    → (p : Wss × Bool) × (settle c referenced w ≡ ok p) × IsValid c p.0
unfolding settle
settle-IsValid {c = c} {w = w} referenced enabled v =
    elim (Bool-cases (w.stable_cycles_counter == abs c.wss_stable_cycles)) [
      | inl complete ↦ elim (Option-cases w.first_stable_referenced) [
        | inl unknown ↦ ground arith
        | inr (n, known) ↦
            let counted = (==_iff w.stable_cycles_counter (abs c.wss_stable_cycles)).0 complete in
            (
              mark_stable c n referenced w,
              (rw (complete, known)),
              mark_stable-IsValid n referenced counted known v,
            )
      ]
      | inr going ↦ ((w, false), (rw going), v)
    ]

pub finish-IsValid :
    {c : Config} {w : Wss} (referenced : ℕ) (size : Option Half) (should_reset : Bool)
    → IsValid c w
    → IsValid c (finish c referenced size w should_reset).0
unfolding finish reset
finish-IsValid referenced size should_reset v = ground arith

-- What a cycle leaves is valid.
abbrev LeavesValid : Config → Wss × Report → Type 0
LeavesValid c p = IsValid c p.0

measure_stable-IsValid :
    {c : Config} {w : Wss} (t : Fraction) (referenced : ℕ) (membw : Option ℕ)
    → 0 < abs c.wss_stable_cycles
    → IsValid c w
    → Settles (IsDivision c) (LeavesValid c) (measure_stable c t referenced membw w)
unfolding measure_stable
measure_stable-IsValid t referenced none enabled v = inl (_, refl, v)
measure_stable-IsValid {c = c} {w = w} t referenced (some membw) enabled v =
    Settles-bind (IsDivision c) (LeavesValid c)
      (sample c.interval t c.wss_stable_cycles membw referenced w) _
      (sample-IsValid t membw referenced v)
      (λ sampled same u.
        let (p, settled, v') = settle-IsValid {c = c} {w = sampled} referenced enabled u in
        inl (
          finish c referenced p.0.last_stable_wss p.0 p.1,
          (rw settled refl),
          finish-IsValid referenced p.0.last_stable_wss p.1 v',
        ))

measure-IsValid :
    {c : Config} {w : Wss} (threshold : Option Fraction) (r : Reading)
    → IsValid c w
    → Settles (IsDivision c) (LeavesValid c) (measure c threshold r w)
unfolding measure
measure-IsValid none r v = inl (_, refl, finish-IsValid r.referenced none false v)
measure-IsValid {c = c} {w = w} (some t) r v = elim (Bool-cases (abs c.wss_stable_cycles == 0)) [
  | inl off ↦
      rw off
        (inl (finish c r.referenced none w false, refl, finish-IsValid r.referenced none false v))
  | inr on ↦ rw on (measure_stable-IsValid t r.referenced r.membw_counter (ground arith) v)
]

-- A cycle that starts in a valid state returns and ends in a valid state, unless the interval is 0
-- and the cycle raises a division by zero.
pub get_measurements-IsValid :
    {c : Config} {w : Wss} (r : Reading)
    → IsValid c w
    → ((p : Wss × Report) × (get_measurements c r w ≡ ok p) × IsValid c p.0)
      ⊎ ((c.interval ≡ 0) × (get_measurements c r w ≡ err Error.zero_division))
unfolding get_measurements
get_measurements-IsValid {c = c} {w = w} r v =
    elim (measure-IsValid {c = c} {w = record w { cycle = w.cycle + 1 }} c.wss_membw_threshold r
      (record { bounded = v.bounded; remembered = v.remembered; ignored = v.ignored })) [
        | inl returned ↦ inl returned
        | inr (e, (zero, division), raised) ↦ inr (zero, raised ∙ ap err division)
      ]

pub run-IsValid :
    {c : Config} (rs : List Reading) {w : Wss}
    → 0 < c.interval
    → IsValid c w
    → (p : Wss × List Report) × (run c rs w ≡ ok p) × IsValid c p.0 × (length p.1 ≡ length rs)
unfolding run
run-IsValid [] positive v = ((_, []), refl, v, refl)
run-IsValid {c = c} (r ∷ rs) {w = w} positive v = elim (get_measurements-IsValid r v) [
  | inl (p, first, v1) ↦
      let (q, others, v2, same) = run-IsValid rs positive v1 in
      ((q.0, p.1 ∷ q.1), rw (first, others), v2, ap suc same)
  | inr (zero, raised) ↦ absurd (omega arith)
]

pub initial-IsValid : {c : Config} → IsValid c initial
initial-IsValid = ground arith

-- Where the interval is positive, from the initial state every sequence of cycles returns, in a valid
-- state and with a report for each cycle.
pub run_total :
    (c : Config) (rs : List Reading)
    → 0 < c.interval
    → (p : Wss × List Report) × (run c rs initial ≡ ok p) × IsValid c p.0 × (length p.1 ≡ length rs)
run_total c rs positive = run-IsValid rs positive initial-IsValid
