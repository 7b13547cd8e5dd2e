-- ===== src/Lspgen/Members.antt =====
-- The members of declarations and the messages that lspgen/lspgen.cpp reads: the reading ends.
use lsp_framework.Base.{not, Bytes, codes, bytes_eq, Bool-cases, inl, inr}
use lsp_framework.Json.Value.{Items, Fields, nil, cons, get, contains, as_object}
use lsp_framework.Lspgen.Declarations.{object_member}
use lsp_framework.Lspgen.Readers.{
  enum_value_from_json, enum_values_from_json, custom_values, direction_from_string,
  member_type_name, message_from_json,
}
use lsp_framework.Lspgen.Fuel.{
  Ends, Ends-bind, get-Ends, as_object-Ends, string_member-Ends, string_member-bind,
  object_member-Ends, boolean_member-Ends, extract_documentation-bind,
}

direction_from_string-Ends : (s : Bytes) → Ends (direction_from_string s)
direction_from_string-Ends s = elim (Bool-cases (bytes_eq s (codes "clientToServer"))) [
  | inl q ↦ rw q (tt)
  | inr q ↦ rw q (elim (Bool-cases (bytes_eq s (codes "serverToClient"))) [
    | inl q ↦ rw q (tt)
    | inr q ↦
        rw q
          (elim (Bool-cases (bytes_eq s (codes "both"))) [ inl q ↦ rw q (tt) | inr q ↦ rw q (tt) ])
  ])
]

module _ {D : Type 0} where
  pub enum_values_from_json-Ends : (vs : Items D) → Ends (enum_values_from_json vs)
  unfolding enum_values_from_json
  enum_values_from_json-Ends nil = tt
  enum_values_from_json-Ends (cons v vs) = Ends-bind (as_object v) _ (as_object-Ends v) λ json e.
      Ends-bind (enum_value_from_json json) _
        (string_member-bind (codes "name") json _ λ name.
          Ends-bind (get (codes "value") json) _ (get-Ends (codes "value") json)
            λ value e2. extract_documentation-bind json _ λ doc. tt)
        λ x e'. Ends-bind (enum_values_from_json vs) _ (enum_values_from_json-Ends vs) λ xs e''. tt

  pub custom_values-Ends : (json : Fields D) → Ends (custom_values json)
  custom_values-Ends json = elim (Bool-cases (contains (codes "supportsCustomValues") json)) [
    | inl q ↦ rw q (boolean_member-Ends (codes "supportsCustomValues") json)
    | inr q ↦ rw q (tt)
  ]

  member_type_name-Ends : (json : Fields D) (key : Bytes) → Ends (member_type_name json key)
  unfolding member_type_name
  member_type_name-Ends json key = elim (Bool-cases (not (contains key json))) [
    | inl q ↦ rw q tt
    | inr q ↦ rw q (
        Ends-bind (object_member key json) _ (object_member-Ends key json) λ t e.
          string_member-bind (codes "kind") t _ λ kind.
            elim (Bool-cases (bytes_eq kind (codes "reference"))) [
              | inl q ↦ rw q (string_member-Ends (codes "name") t)
              | inr q ↦ rw q (string_member-bind (codes "method") json _ λ m. tt)
            ])
  ]

  pub message_from_json-Ends : (json : Fields D) → Ends (message_from_json json)
  unfolding message_from_json
  message_from_json-Ends json = extract_documentation-bind json _ λ doc.
      string_member-bind (codes "messageDirection") json _ λ s.
        Ends-bind (direction_from_string s) _ (direction_from_string-Ends s) λ direction e2.
          Ends-bind (member_type_name json (codes "params")) _
            (member_type_name-Ends json (codes "params"))
            λ a e3.
              Ends-bind (member_type_name json (codes "result")) _
                (member_type_name-Ends json (codes "result"))
                λ b e4.
                  Ends-bind (member_type_name json (codes "partialResult")) _
                    (member_type_name-Ends json (codes "partialResult"))
                    λ c e5.
                      Ends-bind (member_type_name json (codes "errorData")) _
                        (member_type_name-Ends json (codes "errorData"))
                        λ d e6.
                          Ends-bind (member_type_name json (codes "registrationOptions")) _
                            (member_type_name-Ends json (codes "registrationOptions")) λ f e7. tt
