-- ===== src/Lspgen/MetaModel.antt =====
-- `MetaModel` of lspgen/lspgen.cpp. A list of declarations grows by one in each round, where the code has made
-- room for all of them before.
use mathlib.Core.Option.{map}
use lsp_framework.Base.{
  ℕ, Bool, false, not, ◌||◌, Option, none, some, List, [], ◌∷◌, ◌++◌, Bytes, codes, bytes_eq,
  if◌then◌else◌, length, get_elem?, ok, err, ◌>>=◌,
}
use lsp_framework.Exceptions.{Throws, std_exception}
use lsp_framework.Json.Value.{Items, Fields, Decimals, nil, cons, contains, as_object}
use lsp_framework.Lspgen.Text.{capitalize_string}
use lsp_framework.Lspgen.Declarations.{
  string_member, object_member, array_member, extract_documentation, create_from_json, Enumeration,
  Structure, TypeAlias, Message,
}
use lsp_framework.Lspgen.Readers.{
  message_from_json, enumeration_from_json, structure_from_json, alias_from_json,
}

pub data Sort : Type 0 where
  enumeration_sort structure_sort alias_sort : Sort

pub record TypeIndex : Type 0 where
  pub sort : Sort
  pub index : ℕ

-- The maps by name are lists of entries.
pub record MetaModel (D : Type 0) : Type 0 where
  pub version : Bytes
  pub type_names : List Bytes
  pub types_by_name : List (Bytes × TypeIndex)
  pub enumerations : List (Enumeration D)
  pub structures : List Structure
  pub type_aliases : List TypeAlias
  pub requests : List (Bytes × Message)
  pub notifications : List (Bytes × Message)

abbrev pub empty : {D : Type 0} → MetaModel D
empty = record {
  version = [];
  type_names = [];
  types_by_name = [];
  enumerations = [];
  structures = [];
  type_aliases = [];
  requests = [];
  notifications = [];
}

abbrev pub has_key : {A : Type 0} → Bytes → List (Bytes × A) → Bool
has_key k [] = false
has_key k ((j, a) ∷ l) = bytes_eq j k || has_key k l

abbrev pub find_key : {A : Type 0} → Bytes → List (Bytes × A) → Option A
find_key k [] = none
find_key k ((j, a) ∷ l) = let later = find_key k l in if bytes_eq j k then some a else later

-- What `typeForName` gives.
pub data Declaration (D : Type 0) : Type 0 where
  enumeration : Enumeration D → Declaration D
  structure : Structure → Declaration D
  alias : TypeAlias → Declaration D

module _ {D : Type 0} where
  -- None for an index out of range.
  abbrev pub declaration_at : MetaModel D → TypeIndex → Option (Declaration D)
  declaration_at m t = elim t.sort [
    | enumeration_sort ↦ map enumeration (get_elem? m.enumerations t.index)
    | structure_sort ↦ map structure (get_elem? m.structures t.index)
    | alias_sort ↦ map alias (get_elem? m.type_aliases t.index)
  ]

  unfoldable pub type_for_name : MetaModel D → Bytes → Throws (Option (Declaration D))
  type_for_name m name = elim (find_key name m.types_by_name) [
    | none ↦ err (std_exception (codes "Type with name '" ++ (name ++ codes "' does not exist")))
    | some index ↦ ok (declaration_at m index)
  ]

  unfoldable pub insert_type : Bytes → Sort → ℕ → MetaModel D → Throws (MetaModel D)
  insert_type name sort i m =
      if has_key name m.types_by_name
      then err (std_exception (codes "Duplicate type '" ++ (name ++ codes "\"")))
      else ok (record m {
        types_by_name = m.types_by_name ++ (name, record { sort = sort; index = i }) ∷ [];
        type_names = m.type_names ++ name ∷ [];
      })

  -- A loop over an array of objects.
  unfoldable pub each_object :
      (Fields D → MetaModel D → Throws (MetaModel D)) → Items D → MetaModel D → Throws (MetaModel D)
  each_object f nil m = ok m
  each_object f (cons v vs) m = do json ← as_object v; m' ← f json m; each_object f vs m'

  abbrev pub each_of :
      Bytes
      → (Fields D → MetaModel D → Throws (MetaModel D))
      → Fields D
      → MetaModel D
      → Throws (MetaModel D)
  each_of key f json m = do vs ← array_member key json; each_object f vs m

  abbrev pub extract_request : Fields D → MetaModel D → Throws (MetaModel D)
  extract_request json m = do
    method ← string_member (codes "method") json
    if has_key method m.requests
        then err (std_exception (codes "Duplicate request method: " ++ method))
        else do
          message ← message_from_json json
          ok (record m { requests = m.requests ++ (method, message) ∷ [] })

  abbrev pub extract_notification : Fields D → MetaModel D → Throws (MetaModel D)
  extract_notification json m = do
    method ← string_member (codes "method") json
    if has_key method m.notifications
        then err (std_exception (codes "Duplicate request method: " ++ method))
        else do
          message ← message_from_json json
          ok (record m { notifications = m.notifications ++ (method, message) ∷ [] })

  abbrev pub extract_meta_data : Fields D → MetaModel D → Throws (MetaModel D)
  extract_meta_data json m = do
    meta_data ← object_member (codes "metaData") json
    version ← string_member (codes "version") meta_data
    ok (record m { version = version })

  abbrev pub add_enumeration : Enumeration D → MetaModel D → Throws (MetaModel D)
  add_enumeration e m =
      insert_type e.name enumeration_sort (length m.enumerations)
        (record m { enumerations = m.enumerations ++ e ∷ [] })

  abbrev pub add_structure : Structure → MetaModel D → Throws (MetaModel D)
  add_structure s m =
      insert_type s.name structure_sort (length m.structures)
        (record m { structures = m.structures ++ s ∷ [] })

  abbrev pub add_alias : TypeAlias → MetaModel D → Throws (MetaModel D)
  add_alias a m =
      insert_type a.name alias_sort (length m.type_aliases)
        (record m { type_aliases = m.type_aliases ++ a ∷ [] })

  abbrev pub extract_messages : Fields D → MetaModel D → Throws (MetaModel D)
  extract_messages json m = do
    m1 ← each_of (codes "requests") extract_request json m
    each_of (codes "notifications") extract_notification json m1

module _ {D : Type 0} (dec : Decimals D) where
  abbrev pub extract_enumeration : Fields D → MetaModel D → Throws (MetaModel D)
  extract_enumeration json m = do e ← enumeration_from_json dec json; add_enumeration e m

  abbrev pub extract_structure : Fields D → MetaModel D → Throws (MetaModel D)
  extract_structure json m = do s ← structure_from_json dec json; add_structure s m

  abbrev pub extract_alias : Fields D → MetaModel D → Throws (MetaModel D)
  extract_alias json m = do a ← alias_from_json dec json; add_alias a m

  unfoldable pub add_type_alias : Fields D → Bytes → Bytes → MetaModel D → Throws (MetaModel D)
  add_type_alias json key type_base_name m = if not (contains key json) then ok m else do
    type_json ← object_member key json
    kind ← string_member (codes "kind") type_json
    if bytes_eq kind (codes "reference") then ok m else do
      t ← create_from_json dec type_json
      doc ← extract_documentation type_json
      add_alias
          (record { name = type_base_name ++ capitalize_string key; ty = t; documentation = doc }) m

  abbrev pub extract_request_types : Fields D → MetaModel D → Throws (MetaModel D)
  extract_request_types json m = do
    method ← string_member (codes "method") json
    m1 ← add_type_alias json (codes "result") method m
    m2 ← add_type_alias json (codes "params") method m1
    m3 ← add_type_alias json (codes "partialResult") method m2
    m4 ← add_type_alias json (codes "errorData") method m3
    add_type_alias json (codes "registrationOptions") method m4

  abbrev pub extract_notification_types : Fields D → MetaModel D → Throws (MetaModel D)
  extract_notification_types json m = do
    method ← string_member (codes "method") json
    m1 ← add_type_alias json (codes "params") method m
    add_type_alias json (codes "registrationOptions") method m1

  abbrev pub extract_types : Fields D → MetaModel D → Throws (MetaModel D)
  extract_types json m = do
    m1 ← each_of (codes "enumerations") extract_enumeration json m
    m2 ← each_of (codes "structures") extract_structure json m1
    m3 ← each_of (codes "typeAliases") extract_alias json m2
    m4 ← each_of (codes "requests") extract_request_types json m3
    each_of (codes "notifications") extract_notification_types json m4

  -- `MetaModel::extract`
  unfoldable pub extract_model : Fields D → MetaModel D → Throws (MetaModel D)
  extract_model json m = do
    m1 ← extract_meta_data json m
    m2 ← extract_types json m1
    extract_messages json m2
