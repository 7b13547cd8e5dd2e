-- ===== src/Lspgen/Readers.antt =====
-- The member functions `extract` of the declarations in lspgen/lspgen.cpp.
use lsp_framework.Base.{
  Bool, false, not, List, [], ◌∷◌, ◌++◌, Bytes, codes, bytes_eq, if◌then◌else◌, ok, err, ◌>>=◌,
}
use lsp_framework.Exceptions.{Throws, std_exception}
use lsp_framework.Json.Value.{Items, Fields, Decimals, nil, cons, get, contains, as_object}
use lsp_framework.Lspgen.Text.{capitalize_string}
use lsp_framework.Lspgen.Types.{Types, no_types}
use lsp_framework.Lspgen.Declarations.{
  string_member, object_member, array_member, boolean_member, extract_documentation, member_type,
  types_from_json, extract_structure_properties, create_from_json, EnumValue, Enumeration,
  Structure, TypeAlias, Direction, client_to_server, server_to_client, both, Message,
}

abbrev pub direction_from_string : Bytes → Throws Direction
direction_from_string s =
    if bytes_eq s (codes "clientToServer")
    then ok client_to_server
    else if bytes_eq s (codes "serverToClient")
    then ok server_to_client
    else if bytes_eq s (codes "both")
    then ok both
    else err (std_exception (codes "Invalid message direction: " ++ s))

module _ {D : Type 0} where
  abbrev pub enum_value_from_json : Fields D → Throws (EnumValue D)
  enum_value_from_json json = do
    name ← string_member (codes "name") json
    value ← get (codes "value") json
    doc ← extract_documentation json
    ok (record { name = name; value = value; documentation = doc })

  unfoldable pub enum_values_from_json : Items D → Throws (List (EnumValue D))
  enum_values_from_json nil = ok []
  enum_values_from_json (cons v vs) = do
    json ← as_object v
    e ← enum_value_from_json json
    es ← enum_values_from_json vs
    ok (e ∷ es)

  abbrev pub custom_values : Fields D → Throws Bool
  custom_values json =
      if contains (codes "supportsCustomValues") json
      then boolean_member (codes "supportsCustomValues") json
      else ok false

  -- The type of a member that is no reference has a name of its own.
  unfoldable pub member_type_name : Fields D → Bytes → Throws Bytes
  member_type_name json key = if not (contains key json) then ok [] else do
    t ← object_member key json
    kind ← string_member (codes "kind") t
    if bytes_eq kind (codes "reference")
        then string_member (codes "name") t
        else do method ← string_member (codes "method") json; ok (method ++ capitalize_string key)

  unfoldable pub message_from_json : Fields D → Throws Message
  message_from_json json = do
    doc ← extract_documentation json
    s ← string_member (codes "messageDirection") json
    direction ← direction_from_string s
    params ← member_type_name json (codes "params")
    result ← member_type_name json (codes "result")
    partial_result ← member_type_name json (codes "partialResult")
    error_type ← member_type_name json (codes "errorData")
    options ← member_type_name json (codes "registrationOptions")
    ok (record {
      documentation = doc;
      direction = direction;
      params_type_name = params;
      result_type_name = result;
      partial_result_type_name = partial_result;
      error_data_type_name = error_type;
      registration_options_type_name = options;
    })

module _ {D : Type 0} (dec : Decimals D) where
  unfoldable pub enumeration_from_json : Fields D → Throws (Enumeration D)
  enumeration_from_json json = do
    name ← string_member (codes "name") json
    t ← member_type (create_from_json dec) (codes "type") json
    vs ← array_member (codes "values") json
    values ← enum_values_from_json vs
    doc ← extract_documentation json
    custom ← custom_values json
    ok (record {
      name = name;
      ty = t;
      values = values;
      documentation = doc;
      supports_custom_values = custom;
    })

  -- The types under a key, or none.
  abbrev pub optional_types : Bytes → Fields D → Throws Types
  optional_types key json =
      if contains key json
      then (do vs ← array_member key json; types_from_json (create_from_json dec) vs)
      else ok no_types

  unfoldable pub structure_from_json : Fields D → Throws Structure
  structure_from_json json = do
    name ← string_member (codes "name") json
    vs ← array_member (codes "properties") json
    properties ← extract_structure_properties (create_from_json dec) vs
    extends ← optional_types (codes "extends") json
    mixins ← optional_types (codes "mixins") json
    doc ← extract_documentation json
    ok (record {
      name = name;
      properties = properties;
      extends = extends;
      mixins = mixins;
      documentation = doc;
    })

  unfoldable pub alias_from_json : Fields D → Throws TypeAlias
  alias_from_json json = do
    name ← string_member (codes "name") json
    t ← member_type (create_from_json dec) (codes "type") json
    doc ← extract_documentation json
    ok (record { name = name; ty = t; documentation = doc })
