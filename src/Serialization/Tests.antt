-- ===== src/Serialization/Tests.antt =====
-- The templates of lsp/serialization.h on concrete types and values. `double` is a type that holds every integer.
use lsp_framework.Base.{
  ◌≡◌, refl, true, Option, some, [], ◌∷◌, Bytes, codes, bytes_eq, eq_of_bytes_eq, ◌⊎◌, inr, ok, err,
  ℤ, pos, negsuc, not,
}
use lsp_framework.Json.Value.{
  Value, Decimals, invalid_argument, integer, string, array, nil, cons, unexpected,
}
use lsp_framework.Serialization.{
  string_type, int_type, long_type, long_long_to_json, number_from_json,
}
use lsp_framework.Serialization.Templates.{vector_of, tuple_of, with_element, no_elements}
use lsp_framework.Serialization.Variants.{
  Alternatives, last_alternative, with_alternative, variant_of,
}
use lsp_framework.Serialization.Maps.{uri_key, map_of}
use lsp_framework.Serialization.Enumerations.{Enumeration, assign_value, value, has_custom_value}
use lsp_framework.Serialization.RoundTrip.{
  RoundTrips, vector_of-RoundTrips, tuple_of-RoundTrips, variant_of-RoundTrips,
}
use lsp_framework.Serialization.Integers.{number_from_json-long_long_to_json}
use lsp_framework.Serialization.Known.{is_one_of, value-assign_value}
use lsp_framework.Serialization.Entries.{AreDocuments, uri_map-RoundTrips}
use lsp_framework.Uri.Sample.{address, address-IsWellFormed, address-IsCanonical}

abbrev whole : Decimals ℤ
whole = record {
  stod = λ s. invalid_argument;
  to_string = λ d. [];
  of_int = λ i. i;
  to_int = λ d. d;
}

-- std::variant<int, std::string>
abbrev int_or_string : Alternatives ℤ (ℤ ⊎ Bytes)
int_or_string = with_alternative (int_type whole) (last_alternative string_type)

variant_of-RoundTrips_example : RoundTrips (variant_of int_or_string) (inr (codes "a"))
variant_of-RoundTrips_example =
    variant_of-RoundTrips (int_type whole) (last_alternative string_type) (inr (codes "a"))
      (refl, (0, refl, refl))

vector_of-RoundTrips_example : RoundTrips (vector_of (int_type whole)) (pos 1 ∷ negsuc 4 ∷ [])
vector_of-RoundTrips_example =
    vector_of-RoundTrips (int_type whole) (pos 1 ∷ negsuc 4 ∷ []) ((refl, refl), ((refl, refl), tt))

tuple_back :
    RoundTrips
      (tuple_of (with_element (int_type whole) (with_element string_type no_elements)))
      (pos 1, (codes "a", tt))
tuple_back =
    tuple_of-RoundTrips (int_type whole) (with_element string_type no_elements) (pos 1)
      (codes "a", tt) (refl, refl) (refl, refl)

long_long_back :
    number_from_json whole (long_long_to_json whole (pos 3000000000)) (pos 0) ≡ ok (pos 3000000000)
long_long_back = number_from_json-long_long_to_json whole (pos 3000000000) (pos 0) refl

-- A long below the least `json::Integer` wraps around.
long_wraps : (long_type whole).to_json (negsuc 2147483648) ≡ integer (pos 2147483647)
long_wraps = refl

-- A tuple is accepted for one element that fits, and then not read.
tuple_one_fits :
    (let t = tuple_of (with_element (int_type whole) (with_element string_type no_elements)) in
      let json : Value ℤ = array (cons (string (codes "x")) (cons (string (codes "y")) nil)) in
      (t.can_deserialize json ≡ true) × (t.from_json json t.initial ≡ err unexpected))
tuple_one_fits = (refl, refl)

abbrev kinds : Option (Enumeration Bytes)
kinds = some (record { index = 0; custom_value = codes "z" })

abbrev plain : Enumeration Bytes
plain = record { index = 0; custom_value = codes "z" }

value-assign_value_example :
    (value bytes_eq
        (codes "a" ∷ codes "b" ∷ [])
        (assign_value bytes_eq (codes "a" ∷ codes "b" ∷ []) plain (codes "b"))
      ≡ some (codes "b"))
    × (has_custom_value bytes_eq
          (codes "a" ∷ codes "b" ∷ [])
          (assign_value bytes_eq (codes "a" ∷ codes "b" ∷ []) plain (codes "b"))
        ≡ not (is_one_of bytes_eq (codes "b") (codes "a" ∷ codes "b" ∷ [])))
value-assign_value_example =
    value-assign_value bytes_eq eq_of_bytes_eq (codes "a" ∷ codes "b" ∷ []) plain (codes "b")

documents : AreDocuments (int_type whole) [] ((address, pos 1) ∷ [])
unfolding AreDocuments
documents = ((address-IsWellFormed, address-IsCanonical), (refl, refl), tt, tt)

uri_map-RoundTrips_example : RoundTrips (map_of uri_key (int_type whole)) ((address, pos 1) ∷ [])
uri_map-RoundTrips_example = uri_map-RoundTrips (int_type whole) ((address, pos 1) ∷ []) documents
