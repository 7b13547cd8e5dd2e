-- ===== src/Lspgen/Fuel.antt =====
-- The types that lspgen/lspgen.cpp reads: the fuel of `create` is enough.
use mathlib.Core.Path.{subst}
use lsp_framework.Base.{
  suc, ◌+◌, ◌≤◌, ◌<◌, ◌≡◌, ◌≢◌, refl, ap, ◌∙◌, sym, some, List, [], ◌∷◌, Bytes, codes, bytes_eq,
  if◌then◌else◌, ok, err, ◌>>=◌, Bool-cases, Option-cases, inl, inr, ok_injective, some_injective,
  arith,
}
use lsp_framework.Exceptions.{Throws, Exception, out_of_fuel}
use lsp_framework.Json.Value.{
  Value, Items, Fields, Decimals, boolean, integer, decimal, string, array, object, end, field,
  find, get, contains, as_string, as_object, as_array, as_number,
}
use lsp_framework.Serialization.{as_boolean}
use lsp_framework.Lspgen.Types.{
  Types, lookup, category_from_string, kind_from_string, or_type_of, no_types, more_types,
}
use lsp_framework.Lspgen.Declarations.{
  depth, depth_items, depth_fields, string_member, object_member, array_member, boolean_member,
  extract_documentation, is_optional,
}

abbrev IsThrown : Exception → Type 0
IsThrown out_of_fuel = ⊥
IsThrown _ = Unit

-- The computation returns a value or an exception of the program.
abbrev pub Ends : {A : Type 0} → Throws A → Type 0
Ends (ok a) = Unit
Ends (err e) = IsThrown e

pub Ends-bind :
    {A B : Type 0} (m : Throws A) (f : A → Throws B)
    → Ends m
    → ((a : A) → m ≡ ok a → Ends (f a))
    → Ends (m >>= f)
Ends-bind (ok a) f h k = k a refl
Ends-bind (err e) f h k = h

pub Ends-ne : {A : Type 0} (m : Throws A) → Ends m → m ≢ err out_of_fuel
Ends-ne m h e = subst (λ r. Ends r) e h

bind-ok :
    {A B : Type 0} (m : Throws A) (f : A → Throws B) (b : B)
    → (m >>= f) ≡ ok b
    → (a : A) × (m ≡ ok a) × (f a ≡ ok b)
bind-ok (ok a) f b e = (a, refl, e)
bind-ok (err x) f b e = absurd cc

lookup-Ends :
    {A : Type 0} (message : Bytes) (table : List (Bytes × A)) (s : Bytes)
    → Ends (lookup message table s)
lookup-Ends message [] s = tt
lookup-Ends message ((name, a) ∷ table) s = elim (Bool-cases (bytes_eq name s)) [
  | inl e ↦ rw e tt
  | inr e ↦ rw e (lookup-Ends message table s)
]

pub category_from_string-Ends : (s : Bytes) → Ends (category_from_string s)
category_from_string-Ends s = search lookup-Ends

pub kind_from_string-Ends : (s : Bytes) → Ends (kind_from_string s)
kind_from_string-Ends s = search lookup-Ends

pub or_type_of-Ends : (ts : Types) → Ends (or_type_of ts)
or_type_of-Ends no_types = tt
or_type_of-Ends (more_types t ts) = tt

module _ {D : Type 0} where
  find-depth :
      (k : Bytes) (fs : Fields D) (v : Value D) → find k fs ≡ some v → depth v ≤ depth_fields fs
  unfolding find depth
  find-depth k end v e = absurd cc
  find-depth k (field j w fs) v e = elim (Bool-cases (bytes_eq j k)) [
    | inl s ↦
        subst (λ u. depth u ≤ depth w + depth_fields fs)
          (some_injective (ap (λ b. if b then some w else find k fs) (sym s) ∙ e)) (omega arith)
    | inr s ↦
        let h = find-depth k fs v (ap (λ b. if b then some w else find k fs) (sym s) ∙ e) in
        omega arith
  ]

  pub get-Ends : (k : Bytes) (fs : Fields D) → Ends (get k fs)
  unfolding get
  get-Ends k fs = elim (Option-cases (find k fs)) [
    | inl h ↦ rw (get, h) tt
    | inr (v, h) ↦ rw (get, h) tt
  ]

  get-depth :
      (k : Bytes) (fs : Fields D) (v : Value D) → get k fs ≡ ok v → depth v ≤ depth_fields fs
  unfolding get
  get-depth k fs v e = elim (Option-cases (find k fs)) [
    | inl h ↦ absurd cc
    | inr (w, h) ↦ find-depth k fs v (cc)
  ]

  as_string-Ends : (v : Value D) → Ends (as_string v)
  as_string-Ends (string s) = tt
  as_string-Ends _ = tt

  pub as_object-Ends : (v : Value D) → Ends (as_object v)
  as_object-Ends (object fs) = tt
  as_object-Ends _ = tt

  as_array-Ends : (v : Value D) → Ends (as_array v)
  as_array-Ends (array fs) = tt
  as_array-Ends _ = tt

  as_boolean-Ends : (v : Value D) → Ends (as_boolean v)
  as_boolean-Ends (boolean fs) = tt
  as_boolean-Ends _ = tt

  pub as_number-Ends : (dec : Decimals D) (v : Value D) → Ends (as_number dec v)
  as_number-Ends dec (decimal d) = tt
  as_number-Ends dec (integer i) = tt
  as_number-Ends dec _ = tt

  pub as_object-depth :
      (v : Value D) (fs : Fields D) → as_object v ≡ ok fs → depth v ≡ suc (depth_fields fs)
  unfolding depth
  as_object-depth (object gs) fs e = ap (λ x. suc (depth_fields x)) (ok_injective e)
  as_object-depth _ fs e = absurd cc

  as_array-depth :
      (v : Value D) (xs : Items D) → as_array v ≡ ok xs → depth v ≡ suc (depth_items xs)
  unfolding depth
  as_array-depth (array ys) xs e = ap (λ x. suc (depth_items x)) (ok_injective e)
  as_array-depth _ xs e = absurd cc

  pub string_member-Ends : (k : Bytes) (json : Fields D) → Ends (string_member k json)
  string_member-Ends k json = Ends-bind (get k json) _ (get-Ends k json) λ v e. as_string-Ends v

  pub object_member-Ends : (k : Bytes) (json : Fields D) → Ends (object_member k json)
  object_member-Ends k json = Ends-bind (get k json) _ (get-Ends k json) λ v e. as_object-Ends v

  pub array_member-Ends : (k : Bytes) (json : Fields D) → Ends (array_member k json)
  array_member-Ends k json = Ends-bind (get k json) _ (get-Ends k json) λ v e. as_array-Ends v

  pub boolean_member-Ends : (k : Bytes) (json : Fields D) → Ends (boolean_member k json)
  boolean_member-Ends k json = Ends-bind (get k json) _ (get-Ends k json) λ v e. as_boolean-Ends v

  pub extract_documentation-Ends : (json : Fields D) → Ends (extract_documentation json)
  extract_documentation-Ends json = elim (Bool-cases (contains (codes "documentation") json)) [
    | inl e ↦ rw e (string_member-Ends (codes "documentation") json)
    | inr e ↦ rw e tt
  ]

  pub string_member-bind :
      {B : Type 0} (k : Bytes) (json : Fields D) (f : Bytes → Throws B)
      → ((s : Bytes) → Ends (f s))
      → Ends (string_member k json >>= f)
  string_member-bind k json f h =
      Ends-bind (string_member k json) f (string_member-Ends k json) λ s e. h s

  pub extract_documentation-bind :
      {B : Type 0} (json : Fields D) (f : Bytes → Throws B)
      → ((s : Bytes) → Ends (f s))
      → Ends (extract_documentation json >>= f)
  extract_documentation-bind json f h =
      Ends-bind (extract_documentation json) f (extract_documentation-Ends json) λ s e. h s

  pub is_optional-Ends : (json : Fields D) → Ends (is_optional json)
  is_optional-Ends json = elim (Bool-cases (contains (codes "optional") json)) [
    | inl e ↦ rw e (boolean_member-Ends (codes "optional") json)
    | inr e ↦ rw e tt
  ]

  -- A member is less deep than the object.
  pub object_member-depth :
      (k : Bytes) (json fs : Fields D)
      → object_member k json ≡ ok fs
      → depth_fields fs < depth_fields json
  object_member-depth k json fs e =
      let (v, got, o) = bind-ok (get k json) (λ v. as_object v) fs e in
      let h = get-depth k json v got in let g = as_object-depth v fs o in omega arith

  pub array_member-depth :
      (k : Bytes) (json : Fields D) (vs : Items D)
      → array_member k json ≡ ok vs
      → depth_items vs < depth_fields json
  array_member-depth k json vs e =
      let (v, got, o) = bind-ok (get k json) (λ v. as_array v) vs e in
      let h = get-depth k json v got in let g = as_array-depth v vs o in omega arith
