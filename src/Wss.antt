-- ===== src/Wss.antt =====
-- The working set size heuristic of wca/wss.py: `_check_stability` and `get_measurements`.
-- Bytes are natural numbers and the threshold is an exact fraction. Reading /proc, the clock and
-- the overhead metric are outside: a cycle is given the referenced bytes and the counter it read.
pub mod Invariant
pub mod Latch
pub mod Size
mod Tests
use workload_collocation_age.Base.{
  ℕ, ◌+◌, ◌-◌, ◌*◌, ◌%◌, List, [], ◌∷◌, Bool, true, false, ◌&&◌, ◌||◌, not, Option, none, some, ltb,
  leb, ◌==◌, if◌then◌else◌, Outcome, ok, err, Error, ◌>>=◌, ◌>>◌, guard, from_option,
}
use workload_collocation_age.Base.Int.{ℤ, pos, negsuc, sub_ℕ, scale, ltb_ℤ, pos_part, neg_part}

-- The threshold `wss_membw_threshold`, numerator over denominator.
pub record Fraction : Type 0 where
  pub numerator : ℕ
  pub denominator : ℕ

pub record Config : Type 0 where
  pub interval : ℕ
  pub wss_reset_cycles : Option ℤ
  pub wss_stable_cycles : ℤ
  pub wss_membw_threshold : Option Fraction

-- A quotient by two, given by its numerator.
pub data Half : Type 0 where
  half : ℕ → Half

-- The fields of a `WSS` object that change.
pub record Wss : Type 0 where
  pub cycle : ℕ
  pub prev_referenced : Option ℕ
  pub prev_membw_counter : Option ℕ
  pub stable_cycles_counter : ℕ
  pub first_stable_referenced : Option ℕ
  pub last_stable_wss : Option Half
  pub first_wss : Bool

abbrev pub initial : Wss
initial = record {
  cycle = 0;
  prev_referenced = none;
  prev_membw_counter = none;
  stable_cycles_counter = 0;
  first_stable_referenced = none;
  last_stable_wss = none;
  first_wss = true;
}

-- What a cycle reads: the bytes of `_get_referenced`, and the bandwidth counter where there is one.
pub record Reading : Type 0 where
  pub referenced : ℕ
  pub membw_counter : Option ℕ

-- What a cycle returns, and whether it cleared the referenced pages.
pub record Report : Type 0 where
  pub wss_referenced_bytes : ℕ
  pub working_set_size_bytes : Option Half
  pub cleared : Bool

unfoldable pub abs : ℤ → ℕ
abs z = pos_part z + neg_part z

-- Not a decrease, or one of less than a fiftieth.
unfoldable pub is_tolerated : ℕ → ℕ → Bool
is_tolerated prev_referenced curr_referenced =
    leb prev_referenced curr_referenced
    || ltb ((prev_referenced - curr_referenced) * 50) curr_referenced

-- The growth, which is 0 for a tolerated decrease, lies below the threshold's share of the traffic.
unfoldable pub is_below : Fraction → ℕ → ℕ → ℕ → ℕ → Bool
is_below t prev_membw curr_membw prev_referenced curr_referenced =
    ltb_ℤ (pos ((curr_referenced - prev_referenced) * t.denominator))
      (scale (sub_ℕ curr_membw prev_membw) t.numerator)

unfoldable pub count_stable : Fraction → ℕ → ℕ → ℕ → ℕ → Wss → Wss
count_stable t prev_membw curr_membw prev_referenced curr_referenced w =
    if is_tolerated prev_referenced curr_referenced
      && is_below t prev_membw curr_membw prev_referenced curr_referenced
    then (record w {
      stable_cycles_counter = w.stable_cycles_counter + 1;
      first_stable_referenced =
          if w.stable_cycles_counter == 0 then some curr_referenced else w.first_stable_referenced;
    })
    else (record w { stable_cycles_counter = 0 })

-- The rates in the arguments of the log call are divided by the interval, whatever the log level:
-- an interval of 0 raises a `ZeroDivisionError` after the count.
unfoldable pub check_stability : ℕ → Fraction → ℕ → ℕ → ℕ → ℕ → Wss → Outcome Wss
check_stability interval t prev_membw curr_membw prev_referenced curr_referenced w =
    guard (not (interval == 0)) Error.zero_division
    >> ok (count_stable t prev_membw curr_membw prev_referenced curr_referenced w)

-- The check is made while the period of stability is not complete and there are earlier values.
unfoldable pub check_if_known : ℕ → Fraction → ℤ → ℕ → ℕ → Option ℕ → Option ℕ → Wss → Outcome Wss
check_if_known interval t cycles membw referenced (some prev_membw) (some prev_referenced) w =
    if ltb w.stable_cycles_counter (abs cycles)
    then check_stability interval t prev_membw membw prev_referenced referenced w
    else ok w
check_if_known interval t cycles membw referenced none prev_referenced w = ok w
check_if_known interval t cycles membw referenced (some prev_membw) none w = ok w

unfoldable pub sample : ℕ → Fraction → ℤ → ℕ → ℕ → Wss → Outcome Wss
sample interval t cycles membw referenced w =
    check_if_known interval t cycles membw referenced w.prev_membw_counter w.prev_referenced w
    >>= λ checked.
        ok (record checked { prev_referenced = some referenced; prev_membw_counter = some membw })

abbrev pub is_zero : Option ℤ → Bool
is_zero none = false
is_zero (some (pos n)) = n == 0
is_zero (some (negsuc n)) = false

-- The end of a stable period: the first one is ignored, and of later ones the mean is kept.
-- The flag asks for a reset.
unfoldable pub mark_stable : Config → ℕ → ℕ → Wss → Wss × Bool
mark_stable c first_stable referenced w = (
  (record w {
    first_wss = false;
    last_stable_wss =
        if w.first_wss then w.last_stable_wss else some (half (first_stable + referenced));
    stable_cycles_counter = w.stable_cycles_counter + 1;
  }),
  is_zero c.wss_reset_cycles && ltb_ℤ (pos 0) c.wss_stable_cycles,
)

-- The mean of `None` raises a `TypeError`.
unfoldable pub settle : Config → ℕ → Wss → Outcome (Wss × Bool)
settle c referenced w =
    if w.stable_cycles_counter == abs c.wss_stable_cycles
    then from_option w.first_stable_referenced Error.type_error
      >>= (λ first_stable. ok (mark_stable c first_stable referenced w))
    else ok (w, false)

-- `wss_reset_cycles is not None and wss_reset_cycles > 0 and cycle % wss_reset_cycles == 0`
unfoldable pub is_cyclic_reset : Option ℤ → ℕ → Bool
is_cyclic_reset none cycle = false
is_cyclic_reset (some (pos n)) cycle = ltb 0 n && cycle % n == 0
is_cyclic_reset (some (negsuc n)) cycle = false

unfoldable pub reset : Wss → Wss
reset w = record w { stable_cycles_counter = 0; prev_referenced = none }

unfoldable pub finish : Config → ℕ → Option Half → Wss → Bool → Wss × Report
finish c referenced size w should_reset =
    let cleared = is_cyclic_reset c.wss_reset_cycles w.cycle || should_reset in
    (
      if cleared then reset w else w,
      record {
        wss_referenced_bytes = referenced;
        working_set_size_bytes = size;
        cleared = cleared;
      },
    )

-- The cycle with stability checks, which ends early where the bandwidth is missing.
unfoldable pub measure_stable : Config → Fraction → ℕ → Option ℕ → Wss → Outcome (Wss × Report)
measure_stable c t referenced none w = ok (
  w,
  record { wss_referenced_bytes = referenced; working_set_size_bytes = none; cleared = false },
)
measure_stable c t referenced (some membw) w =
    sample c.interval t c.wss_stable_cycles membw referenced w >>= λ sampled.
    settle c referenced sampled >>= λ p. ok (finish c referenced p.0.last_stable_wss p.0 p.1)

unfoldable pub measure : Config → Option Fraction → Reading → Wss → Outcome (Wss × Report)
measure c none r w = ok (finish c r.referenced none w false)
measure c (some t) r w =
    if abs c.wss_stable_cycles == 0
    then ok (finish c r.referenced none w false)
    else measure_stable c t r.referenced r.membw_counter w

unfoldable pub get_measurements : Config → Reading → Wss → Outcome (Wss × Report)
get_measurements c r w = measure c c.wss_membw_threshold r (record w { cycle = w.cycle + 1 })

-- The cycles of one `WSS` object, one after the other.
unfoldable pub run : Config → List Reading → Wss → Outcome (Wss × List Report)
run c [] w = ok (w, [])
run c (r ∷ rs) w = get_measurements c r w >>= λ p. run c rs p.0 >>= λ q. ok (q.0, p.1 ∷ q.1)
