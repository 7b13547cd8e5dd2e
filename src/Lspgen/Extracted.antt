-- ===== src/Lspgen/Extracted.antt =====
-- `MetaModel::extract` of lspgen/lspgen.cpp keeps every name that it has taken resolved.
use mathlib.Core.Path.{subst}
use lsp_framework.Base.{
  ◌≡◌, refl, ap, ◌∙◌, sym, true, not, ◌||◌, some, List, [], ◌∷◌, Bytes, codes, bytes_eq,
  eq_of_bytes_eq, All, if◌then◌else◌, ok, Bool-cases, inl, inr,
}
use lsp_framework.Exceptions.{Throws}
use lsp_framework.Json.Value.{Fields, Decimals, contains}
use lsp_framework.Lspgen.Declarations.{
  string_member, object_member, array_member, extract_documentation, create_from_json,
}
use lsp_framework.Lspgen.Readers.{
  message_from_json, enumeration_from_json, structure_from_json, alias_from_json,
}
use lsp_framework.Lspgen.MetaModel.{
  MetaModel, empty, has_key, find_key, Declaration, type_for_name, each_of, extract_request,
  extract_notification, extract_meta_data, extract_enumeration, extract_structure, extract_alias,
  add_type_alias, extract_request_types, extract_notification_types, extract_types,
  extract_messages, extract_model,
}
use lsp_framework.Lspgen.Resolved.{
  Gives-bind, Gives-any, Gives-ok, name_of, IsNamed, Resolves, add_enumeration-Resolves,
  add_structure-Resolves, add_alias-Resolves, Keeps, each_object-Keeps,
}

module _ {D : Type 0} where
  each_of-Keeps :
      (key : Bytes) (f : Fields D → MetaModel D → Throws (MetaModel D)) (json : Fields D)
      → ((j : Fields D) → Keeps (f j))
      → Keeps (each_of key f json)
  each_of-Keeps key f json k m h =
      Gives-any Resolves (array_member key json) _ λ vs. each_object-Keeps f vs k m h

  extract_meta_data-Keeps : (json : Fields D) → Keeps (extract_meta_data json)
  extract_meta_data-Keeps json m h =
      Gives-any Resolves (object_member (codes "metaData") json) _
        λ j. Gives-any Resolves (string_member (codes "version") j) _ λ version. h

  extract_request-Keeps : (json : Fields D) → Keeps (extract_request json)
  extract_request-Keeps json m h =
      Gives-any Resolves (string_member (codes "method") json) _ λ method.
        elim (Bool-cases (has_key method m.requests)) [
          | inl e ↦ rw e tt
          | inr e ↦ rw e (Gives-any Resolves (message_from_json json) _ λ message. h)
        ]

  extract_notification-Keeps : (json : Fields D) → Keeps (extract_notification json)
  extract_notification-Keeps json m h =
      Gives-any Resolves (string_member (codes "method") json) _ λ method.
        elim (Bool-cases (has_key method m.notifications)) [
          | inl e ↦ rw e tt
          | inr e ↦ rw e (Gives-any Resolves (message_from_json json) _ λ message. h)
        ]

  extract_messages-Keeps : (json : Fields D) → Keeps (extract_messages json)
  extract_messages-Keeps json m h =
      Gives-bind Resolves Resolves (each_of (codes "requests") extract_request json m) _
        (each_of-Keeps (codes "requests") extract_request json extract_request-Keeps m h)
        (each_of-Keeps (codes "notifications") extract_notification json extract_notification-Keeps)

module _ {D : Type 0} (dec : Decimals D) where
  extract_enumeration-Keeps : (json : Fields D) → Keeps (extract_enumeration dec json)
  extract_enumeration-Keeps json m h =
      Gives-any Resolves (enumeration_from_json dec json) _ λ e. add_enumeration-Resolves e m h

  extract_structure-Keeps : (json : Fields D) → Keeps (extract_structure dec json)
  extract_structure-Keeps json m h =
      Gives-any Resolves (structure_from_json dec json) _ λ s. add_structure-Resolves s m h

  extract_alias-Keeps : (json : Fields D) → Keeps (extract_alias dec json)
  extract_alias-Keeps json m h =
      Gives-any Resolves (alias_from_json dec json) _ λ a. add_alias-Resolves a m h

  add_type_alias-Keeps :
      (json : Fields D) (key base : Bytes) → Keeps (add_type_alias dec json key base)
  unfolding add_type_alias
  add_type_alias-Keeps json key base m h = elim (Bool-cases (not (contains key json))) [
    | inl e ↦ rw e h
    | inr e ↦ rw e (
        Gives-any Resolves (object_member key json) _ λ type_json.
          Gives-any Resolves (string_member (codes "kind") type_json) _ λ kind.
            elim (Bool-cases (bytes_eq kind (codes "reference"))) [
              | inl r ↦ rw r h
              | inr r ↦ rw r (
                  Gives-any Resolves (create_from_json dec type_json) _ λ t.
                    Gives-any Resolves (extract_documentation type_json) _
                      λ doc. add_alias-Resolves _ m h)
            ])
  ]

  extract_request_types-Keeps : (json : Fields D) → Keeps (extract_request_types dec json)
  extract_request_types-Keeps json m h =
      Gives-any Resolves (string_member (codes "method") json) _ λ method.
        Gives-bind Resolves Resolves _ _ (add_type_alias-Keeps json (codes "result") method m h)
          λ m1 h1.
            Gives-bind Resolves Resolves _ _
              (add_type_alias-Keeps json (codes "params") method m1 h1)
              λ m2 h2.
                Gives-bind Resolves Resolves _ _
                  (add_type_alias-Keeps json (codes "partialResult") method m2 h2)
                  λ m3 h3.
                    Gives-bind Resolves Resolves _ _
                      (add_type_alias-Keeps json (codes "errorData") method m3 h3)
                      (add_type_alias-Keeps json (codes "registrationOptions") method)

  extract_notification_types-Keeps : (json : Fields D) → Keeps (extract_notification_types dec json)
  extract_notification_types-Keeps json m h =
      Gives-any Resolves (string_member (codes "method") json) _ λ method.
        Gives-bind Resolves Resolves _ _ (add_type_alias-Keeps json (codes "params") method m h)
          (add_type_alias-Keeps json (codes "registrationOptions") method)

  extract_types-Keeps : (json : Fields D) → Keeps (extract_types dec json)
  extract_types-Keeps json m h =
      Gives-bind Resolves Resolves _ _
        (each_of-Keeps (codes "enumerations") (extract_enumeration dec) json
          extract_enumeration-Keeps m h)
        λ m1 h1.
          Gives-bind Resolves Resolves _ _
            (each_of-Keeps (codes "structures") (extract_structure dec) json extract_structure-Keeps
              m1 h1)
            λ m2 h2.
              Gives-bind Resolves Resolves _ _
                (each_of-Keeps (codes "typeAliases") (extract_alias dec) json extract_alias-Keeps m2
                  h2)
                λ m3 h3.
                  Gives-bind Resolves Resolves _ _
                    (each_of-Keeps (codes "requests") (extract_request_types dec) json
                      extract_request_types-Keeps m3 h3)
                    (each_of-Keeps (codes "notifications") (extract_notification_types dec) json
                      extract_notification_types-Keeps)

  extract_model-Keeps : (json : Fields D) → Keeps (extract_model dec json)
  unfolding extract_model
  extract_model-Keeps json m h =
      Gives-bind Resolves Resolves _ _ (extract_meta_data-Keeps json m h) λ m1 h1.
        Gives-bind Resolves Resolves _ _ (extract_types-Keeps json m1 h1)
          (extract_messages-Keeps json)

find_key-has_key :
    {A : Type 0} (P : Bytes → A → Type 0) (k : Bytes) (l : List (Bytes × A))
    → All (λ (j, a). P j a) l
    → has_key k l ≡ true
    → (a : A) × (find_key k l ≡ some a) × P k a
find_key-has_key P k [] h e = absurd cc
find_key-has_key P k ((j, a) ∷ l) (ha, h) e = elim (Bool-cases (bytes_eq j k)) [
  | inl s ↦ (a, rw s refl, subst (λ n. P n a) (eq_of_bytes_eq j k s) ha)
  | inr s ↦
      let (b, found, pb) = find_key-has_key P k l h (ap (λ c. c || has_key k l) (sym s) ∙ e) in
      (b, ap (λ c. if c then some a else find_key k l) s ∙ found, pb)
]

module _ {D : Type 0} where
  type_for_name-Resolves :
      (m : MetaModel D) (name : Bytes)
      → Resolves m
      → has_key name m.types_by_name ≡ true
      → (d : Declaration D) × (type_for_name m name ≡ ok (some d)) × (name_of d ≡ name)
  unfolding type_for_name
  type_for_name-Resolves m name h e =
      let (t, found, named) = find_key-has_key (λ n t. IsNamed m n t) name m.types_by_name h e in
      let (d, at, n) = named in (d, rw (type_for_name, found) (ap (λ x. ok x) at), n)

  -- In the model that is read from a meta model, every name that is taken is resolved to a declaration of that
  -- name.
  pub extract_model-Resolved :
      (dec : Decimals D) (json : Fields D) (m : MetaModel D) (name : Bytes)
      → extract_model dec json empty ≡ ok m
      → has_key name m.types_by_name ≡ true
      → (d : Declaration D) × (type_for_name m name ≡ ok (some d)) × (name_of d ≡ name)
  extract_model-Resolved dec json m name run e =
      type_for_name-Resolves m name
        (Gives-ok Resolves (extract_model dec json empty) m run
          (extract_model-Keeps dec json empty tt))
        e
