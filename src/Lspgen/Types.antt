-- ===== src/Lspgen/Types.antt =====
-- `Type` of lspgen/lspgen.cpp with its derived classes, and how they are read from JSON. `D` is the type `double`.
use lsp_framework.Base.{
  Bool, true, false, not, ◌&&◌, ◌||◌, List, [], ◌∷◌, ◌++◌, Bytes, codes, bytes_eq, if◌then◌else◌,
  ok, err, ℤ,
}
use lsp_framework.Exceptions.{Throws, std_exception}

pub data Kind : Type 0 where
  boolean_kind string_kind integer_kind uinteger_kind decimal_kind uri_kind : Kind
  document_uri_kind reg_exp_kind null_kind : Kind

mutual
  pub data Ty : Type 0 where
    base : Kind → Ty
    reference : Bytes → Ty
    array_type : Ty → Ty
    map_type : Ty → Ty → Ty
    and_type or_type tuple_type : Types → Ty
    structure_literal : Properties → Ty
    string_literal : Bytes → Ty
    integer_literal : ℤ → Ty
    boolean_literal : Bool → Ty

  pub data Types : Type 0 where
    no_types : Types
    more_types : Ty → Types → Types

  -- A property: name, type, whether it is optional, documentation.
  pub data Properties : Type 0 where
    no_properties : Properties
    property : Bytes → Ty → Bool → Bytes → Properties → Properties

pub data Category : Type 0 where
  base_category reference_category array_category map_category and_category : Category
  or_category tuple_category structure_category string_category : Category
  integer_category boolean_category : Category

-- The loop over a table of names.
abbrev pub lookup : {A : Type 0} → Bytes → List (Bytes × A) → Bytes → Throws A
lookup message [] s = err (std_exception (codes "'" ++ (s ++ message)))
lookup message ((name, a) ∷ table) s =
    let rest = lookup message table s in if bytes_eq name s then ok a else rest

abbrev pub category_from_string : Bytes → Throws Category
category_from_string = lookup (codes "' is not a valid type kind") (
    (codes "base", base_category)
    ∷ (codes "reference", reference_category)
    ∷ (codes "array", array_category)
    ∷ (codes "map", map_category)
    ∷ (codes "and", and_category)
    ∷ (codes "or", or_category)
    ∷ (codes "tuple", tuple_category)
    ∷ (codes "literal", structure_category)
    ∷ (codes "stringLiteral", string_category)
    ∷ (codes "integerLiteral", integer_category)
    ∷ (codes "booleanLiteral", boolean_category)
    ∷ [])

abbrev pub kind_from_string : Bytes → Throws Kind
kind_from_string = lookup (codes "' is not a valid base type") (
    (codes "boolean", boolean_kind)
    ∷ (codes "string", string_kind)
    ∷ (codes "integer", integer_kind)
    ∷ (codes "uinteger", uinteger_kind)
    ∷ (codes "decimal", decimal_kind)
    ∷ (codes "URI", uri_kind)
    ∷ (codes "DocumentUri", document_uri_kind)
    ∷ (codes "RegExp", reg_exp_kind)
    ∷ (codes "null", null_kind)
    ∷ [])

-- Behind the properties that are not optional, in front of those that are: a stable sort.
unfoldable pub insert_property : Bytes → Ty → Bool → Bytes → Properties → Properties
insert_property n t optional doc no_properties = property n t optional doc no_properties
insert_property n t optional doc (property n' t' o' d' ps) =
    let later = property n' t' o' d' (insert_property n t optional doc ps) in
    if not optional || o' then property n t optional doc (property n' t' o' d' ps) else later

unfoldable pub sort_properties : Properties → Properties
sort_properties no_properties = no_properties
sort_properties (property n t o d ps) = insert_property n t o d (sort_properties ps)

abbrev pub same_names : Properties → Properties → Bool
same_names no_properties no_properties = true
same_names (property n t o d ps) (property n' t' o' d' qs) = bytes_eq n n' && same_names ps qs
same_names _ _ = false

abbrev pub merge_optional : Properties → Properties → Properties
merge_optional (property n t o d ps) (property n' t' o' d' qs) =
    property n t (o || o') d (merge_optional ps qs)
merge_optional ps qs = ps

-- The loop that merges neighbours among the structure literals.
unfoldable pub merge_literals : Properties → List Properties → List Properties
merge_literals first [] = first ∷ []
merge_literals first (second ∷ rest) =
    let merged = merge_literals (merge_optional first second) rest in
    let kept = merge_literals second rest in
    if same_names first second then merged else first ∷ kept

abbrev pub merged : List Properties → List Properties
merged [] = []
merged (first ∷ rest) = merge_literals first rest

abbrev pub literals_of : Types → List Properties
literals_of no_types = []
literals_of (more_types (structure_literal ps) ts) = ps ∷ literals_of ts
literals_of (more_types t ts) = literals_of ts

abbrev pub as_types : List Properties → Types
as_types [] = no_types
as_types (ps ∷ rest) = more_types (structure_literal ps) (as_types rest)

-- The other types, and behind them the literals.
abbrev pub others_then : Types → Types → Types
others_then no_types literals = literals
others_then (more_types (structure_literal ps) ts) literals = others_then ts literals
others_then (more_types t ts) literals = more_types t (others_then ts literals)

abbrev pub or_type_of : Types → Throws Ty
or_type_of no_types = err (std_exception (codes "OrType must not be empty!"))
or_type_of ts = ok (or_type ts)
