-- ===== src/Rdt/Domains.antt =====
-- `_validate_domains` and `validate_l3_string` of wca/resctrl_allocations.py.
use workload_collocation_age.Base.{
  ℕ, List, [], ◌∷◌, ◌≡◌, ◌<◌, refl, arith, ◌&&◌, Outcome, ok, Error, All, each, ◌>>=◌, ◌>>◌, guard,
  on_value_error, from_option, Option, ◌↔◌, Outcome-cases, inl, inr,
}
use workload_collocation_age.Base.Int.{pos, negsuc, leb_ℤ, ltb_ℤ}
use workload_collocation_age.Base.Dict.{keys, values}
use workload_collocation_age.Base.Text.{Text, codes, int, starts_with}
use workload_collocation_age.Rdt.Schemata.{parse_row}
use workload_collocation_age.Rdt.Mask.{check_cbm_mask}

-- One round of the loop. `except ValueError` turns only the failure of `int` into the error.
unfoldable pub validate_domain : ℕ → Text → Outcome (Unit {0})
validate_domain platform_sockets domain = do
  domain_int ← on_value_error (int 10 domain) Error.invalid_allocations
  guard (leb_ℤ (pos 0) domain_int && ltb_ℤ domain_int (pos platform_sockets))
      Error.invalid_allocations

unfoldable pub validate_domains : List Text → ℕ → Outcome (Unit {0})
validate_domains domains platform_sockets = each (validate_domain platform_sockets) domains

-- The platform's values may be missing.
unfoldable pub validate_l3_string : Text → ℕ → Option Text → Option Text → Outcome (Unit {0})
validate_l3_string l3 platform_sockets rdt_cbm_mask rdt_min_cbm_bits = do
  cbm_mask ← from_option rdt_cbm_mask Error.assertion_error
  min_cbm_bits ← from_option rdt_min_cbm_bits Error.assertion_error
  guard (starts_with l3 (codes "L3:")) Error.invalid_allocations
  domains ← parse_row l3
  validate_domains (keys domains) platform_sockets
  each (λ mask_value. check_cbm_mask mask_value cbm_mask min_cbm_bits) (values domains)

-- The text is a decimal number below the number of sockets.
abbrev pub IsSocket : ℕ → Text → Type 0
IsSocket sockets domain = (n : ℕ) × (int 10 domain ≡ ok (pos n)) × (n < sockets)

validate_domain_sound :
    (sockets : ℕ) (domain : Text) → validate_domain sockets domain ≡ ok tt → IsSocket sockets domain
unfolding validate_domain
validate_domain_sound sockets domain h = elim (Outcome-cases (int 10 domain)) [
  | inl (pos n, e) ↦ (n, e, ground arith)
  | inl (negsuc n, e) ↦ absurd (ground arith)
  | inr (Error.value_error, e) ↦ absurd (ground arith)
  | inr (x, e) ↦ absurd (ground arith)
]

validate_domain_complete :
    (sockets : ℕ) (domain : Text) → IsSocket sockets domain → validate_domain sockets domain ≡ ok tt
unfolding validate_domain
validate_domain_complete sockets domain (n, e, h) = ground arith

each_sound :
    (sockets : ℕ) (domains : List Text)
    → each (validate_domain sockets) domains ≡ ok tt
    → All (IsSocket sockets) domains
each_sound sockets [] h = tt
each_sound sockets (d ∷ ds) h = elim (Outcome-cases (validate_domain sockets d)) [
  | inl (u, e) ↦ (validate_domain_sound sockets d e, each_sound sockets ds (ground arith))
  | inr (x, e) ↦ absurd (ground arith)
]

each_complete :
    (sockets : ℕ) (domains : List Text)
    → All (IsSocket sockets) domains
    → each (validate_domain sockets) domains ≡ ok tt
each_complete sockets [] h = refl
each_complete sockets (d ∷ ds) (h, hs) =
    rw (validate_domain_complete sockets d h) (each_complete sockets ds hs)

-- The domains pass exactly when each is a number below the number of sockets.
pub validate_domains_iff :
    (domains : List Text) (sockets : ℕ)
    → (validate_domains domains sockets ≡ ok tt) ↔ All (IsSocket sockets) domains
unfolding validate_domains
validate_domains_iff domains sockets = (each_sound sockets domains, each_complete sockets domains)
