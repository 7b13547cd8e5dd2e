-- ===== src/Serialization/Templates.antt =====
-- The templates of lsp/serialization.h and lsp/nullable.h for optional values, vectors and tuples.
use lsp_framework.Base.{
  ℕ, suc, Bool, true, false, not, ◌&&◌, ◌||◌, Option, none, some, List, [], ◌∷◌, ◌++◌, codes, ◌==◌,
  if◌then◌else◌, ok, err, ◌>>=◌,
}
use lsp_framework.Exceptions.{Throws, type_error}
use lsp_framework.Json.Value.{
  Value, Items, null, array, nil, cons, is_null, as_array, length_items, unexpected,
}
use lsp_framework.Serialization.{Serializable}

module _ {D A : Type 0} (s : Serializable D A) where
  -- The value that is there, or a fresh one.
  abbrev pub held : Option A → A
  held none = s.initial
  held (some a) = a

  -- Nullable and NullableVariant
  abbrev pub nullable_to_json : Option A → Value D
  nullable_to_json none = null
  nullable_to_json (some a) = s.to_json a

  abbrev pub nullable_from_json : Value D → Option A → Throws (Option A)
  nullable_from_json v o =
      if is_null v then ok none else (do a ← s.from_json v (held o); ok (some a))

  abbrev pub nullable_of : Serializable D (Option A)
  nullable_of = record {
    initial = none;
    to_json = nullable_to_json;
    from_json = nullable_from_json;
    can_deserialize = λ v. is_null v || s.can_deserialize v;
  }

  -- std::optional and std::unique_ptr
  abbrev pub optional_from_json : Value D → Option A → Throws (Option A)
  optional_from_json v o =
      if is_null v && not (s.can_deserialize v)
      then ok none
      else (do a ← s.from_json v (held o); ok (some a))

  -- The assertion is that the value is there.
  abbrev pub optional_to_json : Option A → Option (Value D)
  optional_to_json none = none
  optional_to_json (some a) = some (s.to_json a)

  unfoldable pub items_of : List A → Items D
  items_of [] = nil
  items_of (a ∷ xs) = cons (s.to_json a) (items_of xs)

  -- The loop appends to the vector.
  unfoldable pub append_items : Items D → List A → Throws (List A)
  append_items nil xs = ok xs
  append_items (cons v vs) xs = do a ← s.from_json v s.initial; append_items vs (xs ++ a ∷ [])

  abbrev pub vector_from_json : Value D → List A → Throws (List A)
  vector_from_json v xs = do vs ← as_array v; append_items vs xs

  -- Only the first element is looked at.
  abbrev pub vector_fits : Value D → Bool
  vector_fits (array nil) = true
  vector_fits (array (cons v vs)) = s.can_deserialize v
  vector_fits _ = false

  abbrev pub vector_of : Serializable D (List A)
  vector_of = record {
    initial = [];
    to_json = λ xs. array (items_of xs);
    from_json = vector_from_json;
    can_deserialize = vector_fits;
  }

-- The parameter pack of a tuple, with what the expansions over it do.
pub record Elements (D T : Type 0) : Type 0 where
  pub size : ℕ
  pub initial : T
  pub to_items : T → Items D
  pub from_items : Items D → T → Throws T
  -- `canDeserializeTupleFromJson` from an index on.
  pub fits_from : Items D → Bool

module _ {D : Type 0} where
  abbrev pub no_elements : Elements D (Unit {0})
  no_elements = record {
    size = 0;
    initial = tt;
    to_items = λ u. nil;
    from_items = λ vs u. ok tt;
    fits_from = λ vs. false;
  }

  module _ {A B : Type 0} (s : Serializable D A) (e : Elements D B) where
    -- array[idx++] out of range is undefined; the size is compared before.
    abbrev pub element_from_items : Items D → A × B → Throws (A × B)
    element_from_items nil (a, b) = err unexpected
    element_from_items (cons v vs) (a, b) = do
      a' ← s.from_json v a
      b' ← e.from_items vs b
      ok (a', b')

    -- One element that fits is enough.
    abbrev pub element_fits_from : Items D → Bool
    element_fits_from nil = false
    element_fits_from (cons v vs) = if s.can_deserialize v then true else e.fits_from vs

    abbrev pub with_element : Elements D (A × B)
    with_element = record {
      size = suc e.size;
      initial = (s.initial, e.initial);
      to_items = λ (a, b). cons (s.to_json a) (e.to_items b);
      from_items = element_from_items;
      fits_from = element_fits_from;
    }

  module _ {T : Type 0} (e : Elements D T) where
    abbrev pub tuple_from_json : Value D → T → Throws T
    tuple_from_json v t = do
      vs ← as_array v
      if not (e.size == length_items vs)
          then err (type_error (codes "Incorrect number of tuple elements"))
          else e.from_items vs t

    abbrev pub tuple_fits : Value D → Bool
    tuple_fits (array vs) = if not (length_items vs == e.size) then false else e.fits_from vs
    tuple_fits _ = false

    abbrev pub tuple_of : Serializable D T
    tuple_of = record {
      initial = e.initial;
      to_json = λ t. array (e.to_items t);
      from_json = tuple_from_json;
      can_deserialize = tuple_fits;
    }
