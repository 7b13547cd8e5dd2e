-- ===== src/Lspgen/Tests.antt =====
-- Texts, types and a small meta model that lspgen/lspgen.cpp reads.
use lsp_framework.Base.{err, ◌≢◌, ℕ, ◌≡◌, refl, true, false, some, [], ◌∷◌, Bytes, codes, ok, pos}
use lsp_framework.Json.Value.{
  get, contains, Value, Fields, Decimals, string, array, object, nil, cons, field, end,
  invalid_argument,
}
use lsp_framework.Lspgen.Text.{
  replace_from, replace_string, cut, split_from, split_string_view, join_strings,
  uncapitalize_string,
}
use lsp_framework.Lspgen.Types.{
  string_kind, base, reference, no_types, property, no_properties, sort_properties, insert_property,
  merge_literals,
}
use lsp_framework.Lspgen.Declarations.{
  types_from_json, properties_from_json, create, create_from_json, depth, depth_fields, both,
}
use lsp_framework.Lspgen.Readers.{
  enum_values_from_json, enumeration_from_json, structure_from_json, alias_from_json,
  member_type_name, message_from_json,
}
use lsp_framework.Lspgen.MetaModel.{
  MetaModel, empty, type_for_name, insert_type, each_object, add_type_alias, extract_model,
  enumeration_sort, structure_sort, alias_sort, Declaration,
}
use lsp_framework.Lspgen.Resolved.{name_of}
use lsp_framework.Lspgen.Extracted.{extract_model-Resolved}
use lsp_framework.Lspgen.Total.{extract_model-ne-out_of_fuel}
use lsp_framework.Exceptions.{out_of_fuel}

replace_string_run : replace_string (codes "a/b/c") (codes "/") (codes "::") ≡ codes "a::b::c"
unfolding replace_string replace_from cut
replace_string_run = refl

split_string_view_run :
    join_strings
      (split_string_view (codes "Text//Document/") (codes "/") true)
      (codes "_")
      uncapitalize_string
    ≡ codes "text_document"
unfolding split_string_view split_from cut
split_string_view_run = refl

-- The optional property a and the property b change places.
sort_properties_run :
    sort_properties (
      property
        (codes "a")
        (base string_kind)
        true
        []
        (property (codes "b") (base string_kind) false [] no_properties))
    ≡ property
        (codes "b")
        (base string_kind)
        false
        []
        (property (codes "a") (base string_kind) true [] no_properties)
unfolding sort_properties insert_property
sort_properties_run = refl

-- Literals that differ only in which properties are optional stay apart.
merge_literals_run :
    merge_literals
      (property
        (codes "a")
        (base string_kind)
        false
        []
        (property (codes "b") (base string_kind) true [] no_properties))
      (property
          (codes "b")
          (base string_kind)
          false
          []
          (property (codes "a") (base string_kind) true [] no_properties)
        ∷ [])
    ≡ property
        (codes "a")
        (base string_kind)
        false
        []
        (property (codes "b") (base string_kind) true [] no_properties)
      ∷ property
          (codes "b")
          (base string_kind)
          false
          []
          (property (codes "a") (base string_kind) true [] no_properties)
      ∷ []
unfolding merge_literals
merge_literals_run = refl

abbrev no_decimals : Decimals ℕ
no_decimals = record {
  stod = λ s. invalid_argument;
  to_string = λ d. [];
  of_int = λ i. 0;
  to_int = λ d. pos 0;
}

abbrev one_field : Bytes → Value ℕ → Fields ℕ
one_field k v = field k v end

abbrev string_type : Value ℕ
string_type = object (
    field (codes "kind") (string (codes "base"))
      (one_field (codes "name") (string (codes "string"))))

-- An enumeration E, a structure S with a property of that type, and a request m with params of a type of its own.
abbrev meta_model : Fields ℕ
meta_model = field (codes "metaData") (object (one_field (codes "version") (string (codes "3")))) (
    field (codes "enumerations")
      (array (
        cons
          (object (
            field (codes "name") (string (codes "E"))
              (field (codes "type") string_type (one_field (codes "values") (array nil)))))
          nil))
      (field (codes "structures")
        (array (
          cons
            (object (
              field (codes "name") (string (codes "S")) (
                one_field (codes "properties") (
                  array (
                    cons
                      (object (
                        field (codes "name") (string (codes "e")) (
                          one_field (codes "type") (
                            object (
                              field (codes "kind") (string (codes "reference"))
                                (one_field (codes "name") (string (codes "E"))))))))
                      nil)))))
            nil))
        (field (codes "typeAliases") (array nil) (
          field (codes "requests")
            (array (
              cons
                (object (
                  field (codes "method") (string (codes "m")) (
                    field (codes "messageDirection") (string (codes "both"))
                      (one_field (codes "params") string_type))))
                nil))
            (one_field (codes "notifications") (array nil))))))

abbrev read_model : MetaModel ℕ
read_model = record {
  version = codes "3";
  type_names = codes "E" ∷ codes "S" ∷ codes "mParams" ∷ [];
  types_by_name =
      (codes "E", record { sort = enumeration_sort; index = 0 })
      ∷ (codes "S", record { sort = structure_sort; index = 0 })
      ∷ (codes "mParams", record { sort = alias_sort; index = 0 })
      ∷ [];
  enumerations =
      record {
        name = codes "E";
        ty = base string_kind;
        values = [];
        documentation = [];
        supports_custom_values = false;
      }
      ∷ [];
  structures =
      record {
        name = codes "S";
        properties = property (codes "e") (reference (codes "E")) false [] no_properties;
        extends = no_types;
        mixins = no_types;
        documentation = [];
      }
      ∷ [];
  type_aliases = record { name = codes "mParams"; ty = base string_kind; documentation = [] } ∷ [];
  requests =
      (
        codes "m",
        record {
          documentation = [];
          direction = both;
          params_type_name = codes "mParams";
          result_type_name = [];
          partial_result_type_name = [];
          error_data_type_name = [];
          registration_options_type_name = [];
        },
      )
      ∷ [];
  notifications = [];
}

extract_model_run : extract_model no_decimals meta_model empty ≡ ok read_model
unfolding extract_model get contains insert_type each_object add_type_alias create create_from_json
    depth depth_fields types_from_json properties_from_json enum_values_from_json
    enumeration_from_json structure_from_json alias_from_json member_type_name message_from_json
    sort_properties insert_property
extract_model_run = refl

extract_model-Resolved_example :
    (d : Declaration ℕ) × (type_for_name read_model (codes "mParams") ≡ ok (some d))
    × (name_of d ≡ codes "mParams")
extract_model-Resolved_example =
    extract_model-Resolved no_decimals meta_model read_model (codes "mParams") extract_model_run
      refl

extract_model-ne-out_of_fuel_example : extract_model no_decimals meta_model empty ≢ err out_of_fuel
extract_model-ne-out_of_fuel_example = extract_model-ne-out_of_fuel no_decimals meta_model empty
