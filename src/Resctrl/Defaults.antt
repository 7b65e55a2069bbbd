-- ===== src/Resctrl/Defaults.antt =====
-- The default rows for the root group pass the validation of RDT allocations.
use mathlib.Core.Path.{subst}
use workload_collocation_age.Base.{
  ℕ, zero, suc, ◌+◌, ◌≤◌, ◌<◌, ◌≡◌, refl, sym, ap, ◌∙◌, ◌≢◌, inl, inr, Bool, true, false, some, [],
  ◌∷◌, ◌++◌, map, All, arith, Bool-cases, ok, ◌>>=◌, ◌>>◌, ok-injective, each,
}
use workload_collocation_age.Base.Eq.{◌=?◌, Text_eq}
use workload_collocation_age.Base.Int.{pos}
use workload_collocation_age.Base.Dict.{Dict, has, keys, values}
use workload_collocation_age.Base.Text.{Text, codes, has_char, int, join}
use workload_collocation_age.Base.Decimal.{show, show-ne-nil, show-has_char, int-show}
use workload_collocation_age.Rdt.Schemata.{parse_row}
use workload_collocation_age.Rdt.Schemata.Sound.{Distinct, IsEntry, LacksSeparator}
use workload_collocation_age.Rdt.Schemata.RoundTrip.{render, render_domain, parse_row-render}
use workload_collocation_age.Rdt.Mask.{check_cbm_mask}
use workload_collocation_age.Rdt.Domains.{
  IsSocket, validate_domains, validate_domains_iff, validate_l3_string,
}
use workload_collocation_age.Resctrl.{domain_items, get_max_rdt_values}

-- The row of `domain_items` as a dictionary.
abbrev pub domains_from : Text → ℕ → ℕ → Dict Text Text
domains_from mask i zero = []
domains_from mask i (suc n) = (show i, mask) ∷ domains_from mask (suc i) n

domain_items-render :
    (mask : Text) (i n : ℕ) → domain_items mask i n ≡ map render_domain (domains_from mask i n)
unfolding domain_items render_domain
domain_items-render mask i zero = refl
domain_items-render mask i (suc n) =
    ap (λ rest. (show i ++ b'=' ∷ mask) ∷ rest) (domain_items-render mask (suc i) n)

show-injective : (i j : ℕ) → show i ≡ show j → i ≡ j
show-injective i j h =
    let e : pos i ≡ pos j = ok-injective (sym (int-show i) ∙ ap (int 10) h ∙ int-show j) in cc

has-domains_from : (mask : Text) (i j n : ℕ) → j < i → has (show j) (domains_from mask i n) ≡ false
has-domains_from mask i j zero h = refl
has-domains_from mask i j (suc n) h = elim (Bool-cases (show i =? show j)) [
  | inl same ↦
      let e : i ≡ j = show-injective i j ((Text_eq.beq_iff (show i) (show j)).0 same) in
      absurd (omega (arith, e, h))
  | inr other ↦ rw other (has-domains_from mask (suc i) j n (omega (arith, h)))
]

module _ (mask : Text) (some_mask : mask ≢ []) where
  domains_from-entries : (i n : ℕ) → All IsEntry (domains_from mask i n)
  domains_from-entries i zero = tt
  domains_from-entries i (suc n) = (
    (show-ne-nil i, show-has_char b'=' i (omega arith), some_mask),
    domains_from-entries (suc i) n,
  )

  domains_from-distinct : (i n : ℕ) → Distinct (domains_from mask i n)
  domains_from-distinct i zero = tt
  domains_from-distinct i (suc n) =
      (has-domains_from mask (suc i) i n (omega arith), domains_from-distinct (suc i) n)

  domains_from-Lacks :
      (i n : ℕ) → has_char b';' mask ≡ false → All LacksSeparator (domains_from mask i n)
  domains_from-Lacks i zero h = tt
  domains_from-Lacks i (suc n) h =
      ((show-has_char b';' i (omega arith), h), domains_from-Lacks (suc i) n h)

  domains_from-IsSocket :
      (sockets i n : ℕ) → i + n ≤ sockets → All (IsSocket sockets) (keys (domains_from mask i n))
  domains_from-IsSocket sockets i zero h = tt
  domains_from-IsSocket sockets i (suc n) h = (
    (i, int-show i, omega (arith, h)),
    domains_from-IsSocket sockets (suc i) n (omega (arith, h)),
  )

  each-values :
      (cbm min : Text) (i n : ℕ)
      → check_cbm_mask mask cbm min ≡ ok tt
      → each (λ v. check_cbm_mask v cbm min) (values (domains_from mask i n)) ≡ ok tt
  each-values cbm min i zero h = refl
  each-values cbm min i (suc n) h = rw h (each-values cbm min (suc i) n h)

  -- The row for the default cache allocation is read as one entry for each socket.
  parse_row-domain_items :
      (sockets : ℕ)
      → has_char b';' mask ≡ false
      → parse_row (codes "L3:" ++ join b';' (domain_items mask 0 (suc sockets)))
        ≡ ok (domains_from mask 0 (suc sockets))
  unfolding render
  parse_row-domain_items sockets h =
      ap (λ items. parse_row (codes "L3:" ++ join b';' items))
        (domain_items-render mask 0 (suc sockets))
      ∙ parse_row-render (codes "L3") (domains_from mask 0 (suc sockets)) refl (λ e. cc e)
          (record {
            entries = domains_from-entries 0 (suc sockets);
            distinct = domains_from-distinct 0 (suc sockets);
          })
          (domains_from-Lacks 0 (suc sockets) h)

  -- For a platform with a socket at least, whose own mask is a text without a semicolon that passes
  -- `check_cbm_mask`: the default row for the cache passes `validate_l3_string` on the platform.
  pub get_max_rdt_values-validate_l3_string :
      (sockets : ℕ) (min : Text) (mb : Bool) {row : Text}
      → has_char b';' mask ≡ false
      → check_cbm_mask mask mask min ≡ ok tt
      → (get_max_rdt_values mask (suc sockets) mb true).0 ≡ some row
      → validate_l3_string row (suc sockets) (some mask) (some min) ≡ ok tt
  unfolding get_max_rdt_values validate_l3_string
  get_max_rdt_values-validate_l3_string sockets min mb {row} h own same =
      let items = domains_from mask 0 (suc sockets) in
      let whole_row : codes "L3:" ++ join b';' (domain_items mask 0 (suc sockets)) ≡ row =
        cc same in
      subst (λ row. validate_l3_string row (suc sockets) (some mask) (some min) ≡ ok tt) whole_row
        (ap
            (λ m. m >>= λ domains.
              validate_domains (keys domains) (suc sockets)
              >> each (λ v. check_cbm_mask v mask min) (values domains))
            (parse_row-domain_items sockets h)
          ∙ ap (λ m. m >> each (λ v. check_cbm_mask v mask min) (values items))
              ((validate_domains_iff (keys items) (suc sockets)).1
                (domains_from-IsSocket (suc sockets) 0 (suc sockets) (omega arith)))
          ∙ each-values mask min 0 (suc sockets) own)
