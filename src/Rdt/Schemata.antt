-- ===== src/Rdt/Schemata.antt =====
-- `_parse_schemata_file_row` of wca/resctrl_allocations.py: rows such as `L3:0=ff;1=f0`.
pub mod Filled
pub mod RoundTrip
pub mod Sound
use workload_collocation_age.Base.{
  Bool, true, false, List, [], ◌∷◌, ◌≡◌, refl, if◌then◌else◌, Outcome, ok, err, Error,
}
use workload_collocation_age.Base.Eq.{Text_eq}
use workload_collocation_age.Base.Dict.{Dict, put, has}
use workload_collocation_age.Base.Text.{Text, codes, split, has_char, before, after, after_first}

abbrev pub is_empty : Text → Bool
is_empty [] = true
is_empty (c ∷ s) = false

-- One round of the loop: the new entry of `domains`, or the exception.
unfoldable pub parse_domain : Text → Dict Text Text → Outcome (Dict Text Text)
parse_domain part domains =
    if is_empty part
    then err Error.value_error
    else if has_char b'=' part
    then (let domain_id = before b'=' part in
        let value = after b'=' part in
        if is_empty domain_id
        then err Error.value_error
        else if is_empty value
        then err Error.value_error
        else if has domain_id domains
        then err Error.value_error
        else ok (put domain_id value domains))
    else err Error.value_error

unfoldable pub parse_domains : List Text → Dict Text Text → Outcome (Dict Text Text)
parse_domains [] domains = ok domains
parse_domains (part ∷ parts) domains = elim (parse_domain part domains) [
  | ok d ↦ parse_domains parts d
  | err e ↦ err e
]

unfoldable pub parse_row : Text → Outcome (Dict Text Text)
unfolding parse_domains parse_domain
parse_row [] = ok []
parse_row (c ∷ line) = parse_domains (split b';' (after_first b':' (c ∷ line))) []
