-- ===== src/Listformat/Tests.antt =====
-- Tests of the list format, and its round trip at a concrete set.
use workload_collocation_age.Base.{some, ◌≡◌, refl, none, [], ◌∷◌, arith, ok, err, Error}
use workload_collocation_age.Listformat.Values.{
  validate, calculate_changeset, is_same_set, calculate_changeset-repeated,
}
use workload_collocation_age.Base.Text.{Text, codes, int, strip}
use workload_collocation_age.Listformat.{
  add, add_range, boundary, add_boundaries, add_ranges, decode_listformat, encode_listformat,
}
use workload_collocation_age.Listformat.RoundTrip.{IsAscending, decode_listformat-encode_listformat}

-- A range with two dashes is passed over without an error.
test_decode :
    (decode_listformat (codes "0-2,4") ≡ ok (0 ∷ 1 ∷ 2 ∷ 4 ∷ []))
    × (decode_listformat (codes "3,1,3") ≡ ok (1 ∷ 3 ∷ []))
    × (decode_listformat (codes "1-2-3") ≡ ok [])
    × (decode_listformat (codes "x") ≡ err Error.value_error)
unfolding decode_listformat add_ranges add_boundaries boundary add_range add int strip
test_decode = (refl, refl, refl, refl)

decode_listformat-encode_listformat_example :
    decode_listformat (encode_listformat (0 ∷ 2 ∷ 15 ∷ [])) ≡ ok (0 ∷ 2 ∷ 15 ∷ [])
unfolding IsAscending
decode_listformat-encode_listformat_example =
    decode_listformat-encode_listformat (0 ∷ 2 ∷ 15 ∷ [])
      ((omega arith, (omega arith, tt)), ((omega arith, tt), (tt, tt)))

test_values :
    (validate 3 (codes "0-2") ≡ ok tt)
    × (validate 3 (codes "2-4") ≡ err Error.invalid_allocations)
    × (validate 3 (codes "1-2-3") ≡ err Error.index_error)
    × (calculate_changeset (codes "0-2") (some (codes "0,1,2")) ≡ ok (codes "0,1,2", none))
unfolding validate calculate_changeset is_same_set decode_listformat add_ranges add_boundaries
    boundary add_range add int strip
test_values = (refl, refl, refl, refl)

calculate_changeset-repeated_example :
    (again : Text) × (calculate_changeset (codes "0-2") (some (codes "0,1,2")) ≡ ok (again, none))
calculate_changeset-repeated_example =
    calculate_changeset-repeated (codes "0-2") (codes "0,1,2") {changeset = none} (test_values.3)
