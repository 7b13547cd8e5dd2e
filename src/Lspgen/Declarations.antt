-- ===== src/Lspgen/Declarations.antt =====
-- How lspgen/lspgen.cpp reads types, enumerations, structures, aliases and messages from the JSON of the meta model.
use lsp_framework.Base.{
  ℕ, zero, suc, ◌+◌, Bool, false, List, [], Bytes, codes, if◌then◌else◌, ok, err, ◌>>=◌,
}
use lsp_framework.Exceptions.{Throws, out_of_fuel}
use lsp_framework.Json.Value.{
  Value, Items, Fields, Decimals, array, object, nil, cons, end, field, get, contains, as_string,
  as_object, as_array, as_number,
}
use lsp_framework.Serialization.{as_boolean}
use lsp_framework.Lspgen.Types.{
  Ty, base, reference, array_type, map_type, and_type, tuple_type, structure_literal,
  string_literal, integer_literal, boolean_literal, Types, no_types, more_types, Properties,
  no_properties, property, Category, base_category, reference_category, array_category,
  map_category, and_category, or_category, tuple_category, structure_category, string_category,
  integer_category, boolean_category, category_from_string, kind_from_string, sort_properties,
  merged, literals_of, as_types, others_then, or_type_of,
}

-- The nesting of a value.
unfoldable mutual
  pub depth : {D : Type 0} → Value D → ℕ
  depth (array xs) = suc (depth_items xs)
  depth (object fs) = suc (depth_fields fs)
  depth _ = 0

  pub depth_items : {D : Type 0} → Items D → ℕ
  depth_items nil = 0
  depth_items (cons x xs) = depth x + depth_items xs

  pub depth_fields : {D : Type 0} → Fields D → ℕ
  depth_fields end = 0
  depth_fields (field k v fs) = depth v + depth_fields fs

module _ {D : Type 0} where
  abbrev pub string_member : Bytes → Fields D → Throws Bytes
  string_member k json = do v ← get k json; as_string v

  abbrev pub object_member : Bytes → Fields D → Throws (Fields D)
  object_member k json = do v ← get k json; as_object v

  abbrev pub array_member : Bytes → Fields D → Throws (Items D)
  array_member k json = do v ← get k json; as_array v

  abbrev pub boolean_member : Bytes → Fields D → Throws Bool
  boolean_member k json = do v ← get k json; as_boolean v

  abbrev pub extract_documentation : Fields D → Throws Bytes
  extract_documentation json =
      if contains (codes "documentation") json
      then string_member (codes "documentation") json
      else ok []

  abbrev pub is_optional : Fields D → Throws Bool
  is_optional json =
      if contains (codes "optional") json then boolean_member (codes "optional") json else ok false

  -- `create` stands for `Type::createFromJson`.
  module _ (create : Fields D → Throws Ty) where
    unfoldable pub types_from_json : Items D → Throws Types
    types_from_json nil = ok no_types
    types_from_json (cons v vs) = do
      json ← as_object v
      t ← create json
      ts ← types_from_json vs
      ok (more_types t ts)

    abbrev pub member_type : Bytes → Fields D → Throws Ty
    member_type k json = do o ← object_member k json; create o

    unfoldable pub properties_from_json : Items D → Throws Properties
    properties_from_json nil = ok no_properties
    properties_from_json (cons v vs) = do
      json ← as_object v
      name ← string_member (codes "name") json
      t ← member_type (codes "type") json
      optional ← is_optional json
      doc ← extract_documentation json
      ps ← properties_from_json vs
      ok (property name t optional doc ps)

    abbrev pub extract_structure_properties : Items D → Throws Properties
    extract_structure_properties vs = do ps ← properties_from_json vs; ok (sort_properties ps)

    abbrev pub item_types : Fields D → Throws Types
    item_types json = do vs ← array_member (codes "items") json; types_from_json vs

    -- The member functions `extract` of the classes derived from `Type`.
    abbrev pub extract : Decimals D → Category → Fields D → Throws Ty
    extract dec base_category json = do
      s ← string_member (codes "name") json
      k ← kind_from_string s
      ok (base k)
    extract dec reference_category json = do s ← string_member (codes "name") json; ok (reference s)
    extract dec array_category json = do t ← member_type (codes "element") json; ok (array_type t)
    extract dec map_category json = do
      k ← member_type (codes "key") json
      v ← member_type (codes "value") json
      ok (map_type k v)
    extract dec and_category json = do ts ← item_types json; ok (and_type ts)
    extract dec or_category json = do
      ts ← item_types json
      or_type_of (others_then ts (as_types (merged (literals_of ts))))
    extract dec tuple_category json = do ts ← item_types json; ok (tuple_type ts)
    extract dec structure_category json = do
      value ← object_member (codes "value") json
      vs ← array_member (codes "properties") value
      ps ← extract_structure_properties vs
      ok (structure_literal ps)
    extract dec string_category json = do
      s ← string_member (codes "value") json
      ok (string_literal s)
    extract dec integer_category json = do
      v ← get (codes "value") json
      d ← as_number dec v
      ok (integer_literal (dec.to_int d))
    extract dec boolean_category json = do
      b ← boolean_member (codes "value") json
      ok (boolean_literal b)

module _ {D : Type 0} (dec : Decimals D) where
  -- `Type::createFromJson`, to a depth.
  unfoldable pub create : ℕ → Fields D → Throws Ty
  create zero json = err out_of_fuel
  create (suc fuel) json = do
    s ← string_member (codes "kind") json
    c ← category_from_string s
    extract (create fuel) dec c json

  -- The nesting of the JSON is deep enough.
  unfoldable pub create_from_json : Fields D → Throws Ty
  create_from_json json = create (suc (depth_fields json)) json

pub record EnumValue (D : Type 0) : Type 0 where
  pub name : Bytes
  pub value : Value D
  pub documentation : Bytes

pub record Enumeration (D : Type 0) : Type 0 where
  pub name : Bytes
  pub ty : Ty
  pub values : List (EnumValue D)
  pub documentation : Bytes
  pub supports_custom_values : Bool

pub record Structure : Type 0 where
  pub name : Bytes
  pub properties : Properties
  pub extends : Types
  pub mixins : Types
  pub documentation : Bytes

pub record TypeAlias : Type 0 where
  pub name : Bytes
  pub ty : Ty
  pub documentation : Bytes

pub data Direction : Type 0 where
  client_to_server server_to_client both : Direction

pub record Message : Type 0 where
  pub documentation : Bytes
  pub direction : Direction
  pub params_type_name : Bytes
  pub result_type_name : Bytes
  pub partial_result_type_name : Bytes
  pub error_data_type_name : Bytes
  pub registration_options_type_name : Bytes
