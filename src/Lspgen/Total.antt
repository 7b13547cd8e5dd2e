-- ===== src/Lspgen/Total.antt =====
-- `MetaModel::extract` of lspgen/lspgen.cpp returns or throws, whatever it reads.
use lsp_framework.Base.{
  ℕ, ◌≢◌, not, ◌++◌, Bytes, codes, bytes_eq, err, Bool-cases, inl, inr, length, arith,
}
use lsp_framework.Exceptions.{Throws, out_of_fuel}
use lsp_framework.Json.Value.{Items, Fields, Decimals, nil, cons, contains, as_object}
use lsp_framework.Lspgen.Text.{capitalize_string}
use lsp_framework.Lspgen.Declarations.{
  object_member, array_member, member_type, extract_structure_properties, depth_items,
  create_from_json,
}
use lsp_framework.Lspgen.Readers.{
  enum_values_from_json, custom_values, message_from_json, enumeration_from_json, optional_types,
  structure_from_json, alias_from_json,
}
use lsp_framework.Lspgen.MetaModel.{
  Sort, enumeration_sort, structure_sort, alias_sort, MetaModel, has_key, insert_type, each_object,
  each_of, extract_request, extract_notification, extract_meta_data, extract_enumeration,
  extract_structure, extract_alias, add_type_alias, extract_request_types,
  extract_notification_types, extract_types, extract_messages, extract_model,
}
use lsp_framework.Lspgen.Fuel.{
  Ends, Ends-bind, Ends-ne, as_object-Ends, string_member-bind, object_member-Ends,
  array_member-Ends, extract_documentation-bind,
}
use lsp_framework.Lspgen.Terminates.{
  types_from_json-Ends, extract_structure_properties-Ends, create_from_json-Ends,
}
use lsp_framework.Lspgen.Members.{
  enum_values_from_json-Ends, custom_values-Ends, message_from_json-Ends,
}

module _ {D : Type 0} where
  insert_type-Ends :
      (name : Bytes) (sort : Sort) (i : ℕ) (m : MetaModel D) → Ends (insert_type name sort i m)
  unfolding insert_type
  insert_type-Ends name sort i m = elim (Bool-cases (has_key name m.types_by_name)) [
    | inl q ↦ rw q (tt)
    | inr q ↦ rw q (tt)
  ]

  each_object-Ends :
      (f : Fields D → MetaModel D → Throws (MetaModel D)) (vs : Items D) (m : MetaModel D)
      → ((j : Fields D) (k : MetaModel D) → Ends (f j k))
      → Ends (each_object f vs m)
  unfolding each_object
  each_object-Ends f nil m h = tt
  each_object-Ends f (cons v vs) m h =
      Ends-bind (as_object v) _ (as_object-Ends v)
        λ json e. Ends-bind (f json m) _ (h json m) λ m' e'. each_object-Ends f vs m' h

  each_of-Ends :
      (key : Bytes) (f : Fields D → MetaModel D → Throws (MetaModel D)) (json : Fields D)
      (m : MetaModel D)
      → ((j : Fields D) (k : MetaModel D) → Ends (f j k))
      → Ends (each_of key f json m)
  each_of-Ends key f json m h =
      Ends-bind (array_member key json) _ (array_member-Ends key json)
        λ vs e. each_object-Ends f vs m h

  extract_meta_data-Ends : (json : Fields D) (m : MetaModel D) → Ends (extract_meta_data json m)
  extract_meta_data-Ends json m =
      Ends-bind (object_member (codes "metaData") json) _
        (object_member-Ends (codes "metaData") json)
        λ j e. string_member-bind (codes "version") j _ λ version. tt

  extract_request-Ends : (json : Fields D) (m : MetaModel D) → Ends (extract_request json m)
  extract_request-Ends json m = string_member-bind (codes "method") json _ λ method.
      elim (Bool-cases (has_key method m.requests)) [
        | inl q ↦ rw q (tt)
        | inr q ↦
            rw q
              (Ends-bind (message_from_json json) _ (message_from_json-Ends json) λ message e'. tt)
      ]

  extract_notification-Ends :
      (json : Fields D) (m : MetaModel D) → Ends (extract_notification json m)
  extract_notification-Ends json m = string_member-bind (codes "method") json _ λ method.
      elim (Bool-cases (has_key method m.notifications)) [
        | inl q ↦ rw q (tt)
        | inr q ↦
            rw q
              (Ends-bind (message_from_json json) _ (message_from_json-Ends json) λ message e'. tt)
      ]

  extract_messages-Ends : (json : Fields D) (m : MetaModel D) → Ends (extract_messages json m)
  extract_messages-Ends json m =
      Ends-bind _ _ (each_of-Ends (codes "requests") extract_request json m extract_request-Ends)
        λ m1 e.
          each_of-Ends (codes "notifications") extract_notification json m1
            extract_notification-Ends

module _ {D : Type 0} (dec : Decimals D) where
  own_type-Ends : (json : Fields D) → Ends (member_type (create_from_json dec) (codes "type") json)
  own_type-Ends json =
      Ends-bind (object_member (codes "type") json) _ (object_member-Ends (codes "type") json)
        λ o e. create_from_json-Ends dec o

  extract_enumeration-Ends :
      (json : Fields D) (m : MetaModel D) → Ends (extract_enumeration dec json m)
  unfolding enumeration_from_json
  extract_enumeration-Ends json m =
      Ends-bind (enumeration_from_json dec json) _
        (string_member-bind (codes "name") json _ λ name.
          Ends-bind (member_type (create_from_json dec) (codes "type") json) _ (own_type-Ends json)
            λ t e1.
              Ends-bind (array_member (codes "values") json) _
                (array_member-Ends (codes "values") json)
                λ vs e2.
                  Ends-bind (enum_values_from_json vs) _ (enum_values_from_json-Ends vs)
                    λ values e3. extract_documentation-bind json _ λ doc.
                      Ends-bind (custom_values json) _ (custom_values-Ends json) λ custom e5. tt)
        λ x e'. insert_type-Ends x.name enumeration_sort (length m.enumerations) _

  optional_types-Ends : (key : Bytes) (json : Fields D) → Ends (optional_types dec key json)
  optional_types-Ends key json = elim (Bool-cases (contains key json)) [
    | inl q ↦ rw q (
        Ends-bind (array_member key json) _ (array_member-Ends key json) λ vs e.
          types_from_json-Ends (create_from_json dec) (depth_items vs) vs
            (λ j lt. create_from_json-Ends dec j) (omega arith))
    | inr q ↦ rw q tt
  ]

  extract_structure-Ends : (json : Fields D) (m : MetaModel D) → Ends (extract_structure dec json m)
  unfolding structure_from_json
  extract_structure-Ends json m =
      Ends-bind (structure_from_json dec json) _
        (string_member-bind (codes "name") json _ λ name.
          Ends-bind (array_member (codes "properties") json) _
            (array_member-Ends (codes "properties") json)
            λ vs e1.
              Ends-bind (extract_structure_properties (create_from_json dec) vs) _
                (extract_structure_properties-Ends (create_from_json dec) (depth_items vs) vs
                  (λ j lt. create_from_json-Ends dec j) (omega arith))
                λ ps e2.
                  Ends-bind (optional_types dec (codes "extends") json) _
                    (optional_types-Ends (codes "extends") json)
                    λ extends e3.
                      Ends-bind (optional_types dec (codes "mixins") json) _
                        (optional_types-Ends (codes "mixins") json)
                        λ mixins e4. extract_documentation-bind json _ λ doc. tt)
        λ x e'. insert_type-Ends x.name structure_sort (length m.structures) _

  extract_alias-Ends : (json : Fields D) (m : MetaModel D) → Ends (extract_alias dec json m)
  unfolding alias_from_json
  extract_alias-Ends json m =
      Ends-bind (alias_from_json dec json) _
        (string_member-bind (codes "name") json _ λ name.
          Ends-bind (member_type (create_from_json dec) (codes "type") json) _ (own_type-Ends json)
            λ t e1. extract_documentation-bind json _ λ doc. tt)
        λ x e'. insert_type-Ends x.name alias_sort (length m.type_aliases) _

  add_type_alias-Ends :
      (json : Fields D) (key base : Bytes) (m : MetaModel D)
      → Ends (add_type_alias dec json key base m)
  unfolding add_type_alias
  add_type_alias-Ends json key base m = elim (Bool-cases (not (contains key json))) [
    | inl q ↦ rw q tt
    | inr q ↦ rw q (
        Ends-bind (object_member key json) _ (object_member-Ends key json) λ j e.
          string_member-bind (codes "kind") j _ λ kind.
            elim (Bool-cases (bytes_eq kind (codes "reference"))) [
              | inl q ↦ rw q tt
              | inr q ↦ rw q (
                  Ends-bind (create_from_json dec j) _ (create_from_json-Ends dec j) λ t e2.
                    extract_documentation-bind j _ λ doc.
                      insert_type-Ends (base ++ capitalize_string key) alias_sort
                        (length m.type_aliases) _)
            ])
  ]

  extract_request_types-Ends :
      (json : Fields D) (m : MetaModel D) → Ends (extract_request_types dec json m)
  extract_request_types-Ends json m = string_member-bind (codes "method") json _ λ method.
      Ends-bind _ _ (add_type_alias-Ends json (codes "result") method m) λ m1 e1.
        Ends-bind _ _ (add_type_alias-Ends json (codes "params") method m1) λ m2 e2.
          Ends-bind _ _ (add_type_alias-Ends json (codes "partialResult") method m2) λ m3 e3.
            Ends-bind _ _ (add_type_alias-Ends json (codes "errorData") method m3)
              λ m4 e4. add_type_alias-Ends json (codes "registrationOptions") method m4

  extract_notification_types-Ends :
      (json : Fields D) (m : MetaModel D) → Ends (extract_notification_types dec json m)
  extract_notification_types-Ends json m = string_member-bind (codes "method") json _ λ method.
      Ends-bind _ _ (add_type_alias-Ends json (codes "params") method m)
        λ m1 e1. add_type_alias-Ends json (codes "registrationOptions") method m1

  extract_types-Ends : (json : Fields D) (m : MetaModel D) → Ends (extract_types dec json m)
  extract_types-Ends json m =
      Ends-bind _ _
        (each_of-Ends (codes "enumerations") (extract_enumeration dec) json m
          extract_enumeration-Ends)
        λ m1 e1.
          Ends-bind _ _
            (each_of-Ends (codes "structures") (extract_structure dec) json m1
              extract_structure-Ends)
            λ m2 e2.
              Ends-bind _ _
                (each_of-Ends (codes "typeAliases") (extract_alias dec) json m2 extract_alias-Ends)
                λ m3 e3.
                  Ends-bind _ _
                    (each_of-Ends (codes "requests") (extract_request_types dec) json m3
                      extract_request_types-Ends)
                    λ m4 e4.
                      each_of-Ends (codes "notifications") (extract_notification_types dec) json m4
                        extract_notification_types-Ends

  -- Whatever the JSON of the meta model, the reading of it ends before its fuel: it gives a model or throws.
  pub extract_model-ne-out_of_fuel :
      (json : Fields D) (m : MetaModel D) → extract_model dec json m ≢ err out_of_fuel
  unfolding extract_model
  extract_model-ne-out_of_fuel json m = Ends-ne (extract_model dec json m) (
      Ends-bind (extract_meta_data json m) _ (extract_meta_data-Ends json m) λ m1 e1.
        Ends-bind (extract_types dec json m1) _ (extract_types-Ends json m1)
          λ m2 e2. extract_messages-Ends json m2)
