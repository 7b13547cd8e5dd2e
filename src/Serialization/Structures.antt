-- ===== src/Serialization/Structures.antt =====
-- What `canDeserializeTypeFromJson` of lsp/serialization.h demands for a structure, and the comparison of JSON
-- values on which it relies.
use lsp_framework.Base.{
  Bool, true, false, not, ◌&&◌, none, some, List, [], ◌∷◌, Bytes, ◌==◌, bytes_eq, bool_eq,
  if◌then◌else◌, ℤ, pos, negsuc,
}
use lsp_framework.Json.Value.{
  Value, Items, Fields, null, boolean, integer, decimal, string, array, object, nil, cons, end,
  field, find, contains, size,
}

abbrev integer_eq : ℤ → ℤ → Bool
integer_eq (pos m) (pos n) = m == n
integer_eq (negsuc m) (negsuc n) = m == n
integer_eq _ _ = false

-- `same` compares two doubles.
module _ {D : Type 0} (same : D → D → Bool) where
  -- The comparison of the variants, and of the maps whatever their order.
  unfoldable mutual
    unfolding find size

    pub value_eq : Value D → Value D → Bool
    value_eq null null = true
    value_eq (boolean b) (boolean c) = bool_eq b c
    value_eq (integer i) (integer j) = integer_eq i j
    value_eq (decimal d) (decimal e) = same d e
    value_eq (string s) (string t) = bytes_eq s t
    value_eq (array xs) (array ys) = items_eq xs ys
    value_eq (object fs) (object gs) = size fs == size gs && fields_in fs gs
    value_eq _ _ = false

    items_eq : Items D → Items D → Bool
    items_eq nil nil = true
    items_eq (cons x xs) (cons y ys) = value_eq x y && items_eq xs ys
    items_eq _ _ = false

    fields_in : Fields D → Fields D → Bool
    fields_in end gs = true
    fields_in (field k v fs) gs =
        elim (find k gs) [ none ↦ false | some w ↦ value_eq v w ] && fields_in fs gs

  -- The loop over the literal properties: one that the object has must have the value.
  unfoldable pub has_literal_properties : List (Bytes × Value D) → Fields D → Bool
  unfolding find value_eq
  has_literal_properties [] fs = true
  has_literal_properties ((k, v) ∷ ps) fs =
      let rest = has_literal_properties ps fs in
      elim (find k fs) [ none ↦ rest | some w ↦ if not (value_eq w v) then false else rest ]

  unfoldable pub has_required_properties : List Bytes → Fields D → Bool
  unfolding contains
  has_required_properties [] fs = true
  has_required_properties (k ∷ ks) fs =
      let rest = has_required_properties ks fs in if not (contains k fs) then false else rest

  abbrev pub structure_fits : List (Bytes × Value D) → List Bytes → Value D → Bool
  structure_fits literals required (object fs) =
      if has_literal_properties literals fs then has_required_properties required fs else false
  structure_fits literals required _ = false
