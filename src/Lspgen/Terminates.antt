-- ===== src/Lspgen/Terminates.antt =====
-- `Type::createFromJson` of lspgen/lspgen.cpp: the recursion ends, as the JSON is nested only so deep.
use lsp_framework.Base.{ℕ, zero, suc, ◌+◌, ◌≤◌, ◌<◌, ◌≡◌, refl, Bytes, codes, arith}
use lsp_framework.Exceptions.{Throws}
use lsp_framework.Json.Value.{Value, Items, Fields, Decimals, nil, cons, get, as_object, as_number}
use lsp_framework.Lspgen.Types.{
  Ty, Category, base_category, reference_category, array_category, map_category, and_category,
  or_category, tuple_category, structure_category, string_category, integer_category,
  boolean_category, category_from_string, kind_from_string, as_types, merged, literals_of,
  others_then,
}
use lsp_framework.Lspgen.Declarations.{
  depth, depth_items, depth_fields, object_member, array_member, boolean_member, is_optional,
  types_from_json, member_type, properties_from_json, extract_structure_properties, item_types,
  extract, create, create_from_json,
}
use lsp_framework.Lspgen.Fuel.{
  Ends, Ends-bind, get-Ends, as_object-Ends, as_object-depth, string_member-bind,
  object_member-Ends, array_member-Ends, boolean_member-Ends, extract_documentation-bind,
  is_optional-Ends, object_member-depth, array_member-depth, category_from_string-Ends,
  kind_from_string-Ends, or_type_of-Ends, as_number-Ends,
}

module _ {D : Type 0} where
  -- Reading a type ends for every object less deep than `n`.
  abbrev EndsBelow : ℕ → (Fields D → Throws Ty) → Type 0
  EndsBelow n create = (json : Fields D) → depth_fields json < n → Ends (create json)

  depth_items-cons :
      (v : Value D) (vs : Items D) → depth_items (cons v vs) ≡ depth v + depth_items vs
  unfolding depth
  depth_items-cons v vs = refl

  pub types_from_json-Ends :
      (create : Fields D → Throws Ty) (n : ℕ) (vs : Items D)
      → EndsBelow n create
      → depth_items vs ≤ n
      → Ends (types_from_json create vs)
  unfolding types_from_json
  types_from_json-Ends create n nil h le = tt
  types_from_json-Ends create n (cons v vs) h le =
      let sum = depth_items-cons v vs in
      Ends-bind (as_object v) _ (as_object-Ends v) λ json got.
        let deep = as_object-depth v json got in
        Ends-bind (create json) _ (h json (omega arith)) λ t e.
          Ends-bind (types_from_json create vs) _ (types_from_json-Ends create n vs h (omega arith))
            λ ts e'. tt

  pub member_type-Ends :
      (create : Fields D → Throws Ty) (n : ℕ) (k : Bytes) (json : Fields D)
      → EndsBelow n create
      → depth_fields json ≤ n
      → Ends (member_type create k json)
  member_type-Ends create n k json h le =
      Ends-bind (object_member k json) _ (object_member-Ends k json)
        λ o got. let deep = object_member-depth k json o got in h o (omega arith)

  properties_from_json-Ends :
      (create : Fields D → Throws Ty) (n : ℕ) (vs : Items D)
      → EndsBelow n create
      → depth_items vs ≤ n
      → Ends (properties_from_json create vs)
  unfolding properties_from_json
  properties_from_json-Ends create n nil h le = tt
  properties_from_json-Ends create n (cons v vs) h le =
      let sum = depth_items-cons v vs in
      Ends-bind (as_object v) _ (as_object-Ends v) λ json got.
        let deep = as_object-depth v json got in
        string_member-bind (codes "name") json _ λ name.
          Ends-bind (member_type create (codes "type") json) _
            (member_type-Ends create n (codes "type") json h (omega arith))
            λ t e2. Ends-bind (is_optional json) _ (is_optional-Ends json) λ optional e3.
              extract_documentation-bind json _ λ doc.
                Ends-bind (properties_from_json create vs) _
                  (properties_from_json-Ends create n vs h (omega arith)) λ ps e5. tt

  pub extract_structure_properties-Ends :
      (create : Fields D → Throws Ty) (n : ℕ) (vs : Items D)
      → EndsBelow n create
      → depth_items vs ≤ n
      → Ends (extract_structure_properties create vs)
  extract_structure_properties-Ends create n vs h le =
      Ends-bind (properties_from_json create vs) _ (properties_from_json-Ends create n vs h le)
        λ ps e. tt

  item_types-Ends :
      (create : Fields D → Throws Ty) (json : Fields D)
      → EndsBelow (depth_fields json) create
      → Ends (item_types create json)
  item_types-Ends create json h =
      Ends-bind (array_member (codes "items") json) _ (array_member-Ends (codes "items") json)
        λ vs got.
          let deep = array_member-depth (codes "items") json vs got in
          types_from_json-Ends create (depth_fields json) vs h (omega arith)

  extract-Ends :
      (create : Fields D → Throws Ty) (dec : Decimals D) (c : Category) (json : Fields D)
      → EndsBelow (depth_fields json) create
      → Ends (extract create dec c json)
  extract-Ends create dec base_category json h =
      string_member-bind (codes "name") json _
        λ s. Ends-bind (kind_from_string s) _ (kind_from_string-Ends s) λ k e'. tt
  extract-Ends create dec reference_category json h =
      string_member-bind (codes "name") json _ λ s. tt
  extract-Ends create dec array_category json h =
      Ends-bind (member_type create (codes "element") json) _
        (member_type-Ends create (depth_fields json) (codes "element") json h (omega arith))
        λ t e. tt
  extract-Ends create dec map_category json h =
      Ends-bind (member_type create (codes "key") json) _
        (member_type-Ends create (depth_fields json) (codes "key") json h (omega arith))
        λ k e.
          Ends-bind (member_type create (codes "value") json) _
            (member_type-Ends create (depth_fields json) (codes "value") json h (omega arith))
            λ v e'. tt
  extract-Ends create dec and_category json h =
      Ends-bind (item_types create json) _ (item_types-Ends create json h) λ ts e. tt
  extract-Ends create dec or_category json h =
      Ends-bind (item_types create json) _ (item_types-Ends create json h)
        λ ts e. or_type_of-Ends (others_then ts (as_types (merged (literals_of ts))))
  extract-Ends create dec tuple_category json h =
      Ends-bind (item_types create json) _ (item_types-Ends create json h) λ ts e. tt
  extract-Ends create dec structure_category json h =
      Ends-bind (object_member (codes "value") json) _ (object_member-Ends (codes "value") json)
        λ value got.
          Ends-bind (array_member (codes "properties") value) _
            (array_member-Ends (codes "properties") value)
            λ vs got'.
              let deep = object_member-depth (codes "value") json value got in
              let deeper = array_member-depth (codes "properties") value vs got' in
              Ends-bind (extract_structure_properties create vs) _
                (extract_structure_properties-Ends create (depth_fields json) vs h (omega arith))
                λ ps e. tt
  extract-Ends create dec string_category json h = string_member-bind (codes "value") json _ λ s. tt
  extract-Ends create dec integer_category json h =
      Ends-bind (get (codes "value") json) _ (get-Ends (codes "value") json)
        λ v e. Ends-bind (as_number dec v) _ (as_number-Ends dec v) λ d e'. tt
  extract-Ends create dec boolean_category json h =
      Ends-bind (boolean_member (codes "value") json) _ (boolean_member-Ends (codes "value") json)
        λ b e. tt

module _ {D : Type 0} (dec : Decimals D) where
  create-Ends : (fuel : ℕ) → EndsBelow fuel (create dec fuel)
  unfolding create
  create-Ends zero json lt = absurd (omega arith)
  create-Ends (suc fuel) json lt = string_member-bind (codes "kind") json _ λ s.
      Ends-bind (category_from_string s) _ (category_from_string-Ends s) λ c e'.
        extract-Ends (create dec fuel) dec c json (λ o lt'. create-Ends fuel o (omega arith))

  pub create_from_json-Ends : (json : Fields D) → Ends (create_from_json dec json)
  unfolding create_from_json
  create_from_json-Ends json = create-Ends (suc (depth_fields json)) json (omega arith)
