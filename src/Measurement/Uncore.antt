-- ===== src/Measurement/Uncore.antt =====
-- `_parse_uncore_event_input`, `_get_event_if_known` and `_prepare_events` of
-- wca/runners/measurement.py, with `Event` and the known events of wca/perf_uncore.py.
use workload_collocation_age.Base.{
  ℕ, zero, suc, Bool, true, false, not, ◌&&◌, ◌||◌, Option, none, some, List, [], ◌∷◌, ◌++◌, ◌==◌,
  if◌then◌else◌, Outcome, ok, err, Error, ◌>>=◌, ◌>>◌, guard, from_option, map_outcome,
}
use workload_collocation_age.Base.Eq.{◌=?◌, Text_eq}
use workload_collocation_age.Base.Int.{ℤ, pos, negsuc}
use workload_collocation_age.Base.Dict.{Dict, get}
use workload_collocation_age.Base.Text.{Text, codes, split, int}
use workload_collocation_age.Metrics.Names.{MetricName, value}
use workload_collocation_age.Resctrl.{contains}
use workload_collocation_age.Scheduler.Filter.{is_in}

-- The arguments of an event. How `__post_init__` packs them into `config` is not modelled.
pub record Event : Type 0 where
  pub name : Text
  pub event : ℤ
  pub umask : ℤ
  pub config : ℤ
  pub config1 : ℤ

abbrev pub known_event : MetricName → ℕ → ℕ → Text × Event
known_event n event umask = (
  codes (value n),
  record {
    name = codes (value n);
    event = pos event;
    umask = pos umask;
    config = pos 0;
    config1 = pos 0;
  },
)

unfoldable pub uncore_imc_events : Dict Text Event
uncore_imc_events =
    known_event MetricName.platform_pmm_bandwidth_reads 227 0
    ∷ known_event MetricName.platform_pmm_bandwidth_writes 231 0
    ∷ known_event MetricName.platform_cas_count_reads 4 3
    ∷ known_event MetricName.platform_cas_count_writes 4 12
    ∷ known_event MetricName.platform_rpq_occupancy 128 0
    ∷ known_event MetricName.platform_rpq_inserts 16 0
    ∷ known_event MetricName.platform_imc_clockticks 0 0
    ∷ []

unfoldable pub uncore_upi_events : Dict Text Event
uncore_upi_events =
    known_event MetricName.platform_upi_rxl_flits 3 15
    ∷ known_event MetricName.platform_upi_txl_flits 2 15
    ∷ []

-- The result of parsing: the type of the PMU beside the event.
pub record Parsed : Type 0 where
  pub event_type : Text
  pub event : Event

abbrev pub available_types : List Text
available_types = codes "uncore_imc" ∷ codes "uncore_cha" ∷ codes "uncore_upi" ∷ []

abbrev pub nth : {A : Type 0} → ℕ → List A → Option A
nth n [] = none
nth zero (x ∷ xs) = some x
nth (suc n) (x ∷ xs) = nth n xs

abbrev pub with_event : ℤ → Event → Event
with_event v e = record {
  name = e.name;
  event = v;
  umask = e.umask;
  config = e.config;
  config1 = e.config1;
}

abbrev pub with_umask : ℤ → Event → Event
with_umask v e = record {
  name = e.name;
  event = e.event;
  umask = v;
  config = e.config;
  config1 = e.config1;
}

abbrev pub with_config : ℤ → Event → Event
with_config v e = record {
  name = e.name;
  event = e.event;
  umask = e.umask;
  config = v;
  config1 = e.config1;
}

abbrev pub with_config1 : ℤ → Event → Event
with_config1 v e = record {
  name = e.name;
  event = e.event;
  umask = e.umask;
  config = e.config;
  config1 = v;
}

-- One `key=value`: the number is hexadecimal.
unfoldable pub set_key : Text → Text → Event → Outcome Event
set_key key text e =
    if key =? codes "event"
    then map_outcome (λ v. with_event v e) (int 16 text)
    else if key =? codes "umask"
    then map_outcome (λ v. with_umask v e) (int 16 text)
    else if key =? codes "config"
    then map_outcome (λ v. with_config v e) (int 16 text)
    else if key =? codes "config1"
    then map_outcome (λ v. with_config1 v e) (int 16 text)
    else err Error.uncore_event_config

unfoldable pub set_keys : List Text → Event → Outcome Event
set_keys [] e = ok e
set_keys (key_and_value ∷ rest) e =
    from_option (nth 0 (split b'=' key_and_value)) Error.index_error >>= λ key.
    from_option (nth 1 (split b'=' key_and_value)) Error.index_error >>= λ text.
    set_key key text e >>= set_keys rest

abbrev pub is_empty_text : Text → Bool
is_empty_text [] = true
is_empty_text (c ∷ s) = false

-- name/type/key=value,...: the name, the type of the PMU, and the values of the keys.
unfoldable pub parse_parts : List Text → Outcome Parsed
parse_parts (event_name ∷ (event_type ∷ (keys_and_values ∷ others))) =
    guard (is_in event_type available_types) Error.uncore_event_config
    >> (guard
          (contains keys_and_values (codes "event=") || contains keys_and_values (codes "config="))
          Error.uncore_event_config
        >> (guard (not (is_empty_text event_name)) Error.assertion_error
            >> (set_keys (split b',' keys_and_values) (record {
              name = event_name;
              event = pos 0;
              umask = pos 0;
              config = pos 0;
              config1 = pos 0;
            })
                >>= (λ e. ok (record { event_type = event_type; event = e })))))
parse_parts configuration = err Error.assertion_error

unfoldable pub parse_uncore_event_input : Text → Outcome Parsed
parse_uncore_event_input event =
    guard (not (is_empty_text event)) Error.assertion_error >> parse_parts (split b'/' event)

abbrev pub is_zero : ℤ → Bool
is_zero (pos n) = n == 0
is_zero (negsuc n) = false

-- `Event(...)`: a value of `config` excludes the two others.
unfoldable pub init_event : Parsed → Outcome Parsed
init_event p =
    guard (is_zero p.event.config || (is_zero p.event.event && is_zero p.event.umask))
      Error.assertion_error
    >> ok p

abbrev pub in_tables : Option Event → Option Event → Option Parsed
in_tables (some e) upi = some (record { event_type = codes "uncore_imc"; event = e })
in_tables none (some e) = some (record { event_type = codes "uncore_upi"; event = e })
in_tables none none = none

-- For a known name the rest of the configuration is ignored.
unfoldable pub get_event_if_known : Text → Outcome (Option Parsed)
get_event_if_known event =
    guard (not (is_empty_text event)) Error.assertion_error
    >> (from_option (nth 0 (split b'/' event)) Error.index_error
        >>= (λ name. ok (in_tables (get name uncore_imc_events) (get name uncore_upi_events))))

abbrev pub or_parsed : Text → Option Parsed → Outcome Parsed
or_parsed event none = parse_uncore_event_input event >>= init_event
or_parsed event (some p) = ok p

-- The events by the type of their PMU. The metadata of unknown events are added elsewhere.
pub record Events : Type 0 where
  pub imc : List Event
  pub cha : List Event
  pub upi : List Event

abbrev pub add_event : Parsed → Events → Events
add_event p e =
    if p.event_type =? codes "uncore_imc"
    then record { imc = e.imc ++ p.event ∷ []; cha = e.cha; upi = e.upi }
    else if p.event_type =? codes "uncore_cha"
    then record { imc = e.imc; cha = e.cha ++ p.event ∷ []; upi = e.upi }
    else if p.event_type =? codes "uncore_upi"
    then record { imc = e.imc; cha = e.cha; upi = e.upi ++ p.event ∷ [] }
    else e

unfoldable pub prepare_events : List Text → Events → Outcome Events
prepare_events [] e = ok e
prepare_events (event ∷ uncore_events) e = get_event_if_known event >>= λ known.
    or_parsed event known >>= λ p. prepare_events uncore_events (add_event p e)
