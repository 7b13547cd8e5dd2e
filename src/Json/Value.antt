-- ===== src/Json/Value.antt =====
-- `Value` and `Object` of lsp/json/json.h. `D` is the type `double`.
-- An object is the list of its entries in the order of the map's iteration; that order is not
-- specified for `std::unordered_map`, and here a new entry comes last.
use lsp_framework.Base.{
  ℕ, zero, suc, Bool, true, false, ◌||◌, Option, none, some, ◌++◌, Bytes, codes, bytes_eq, ℤ, ok,
  err, if◌then◌else◌,
}
use lsp_framework.Exceptions.{Exception, Throws, type_error}

mutual
  pub data Value (D : Type 0) : Type 0 where
    null : Value D
    boolean : Bool → Value D
    integer : ℤ → Value D
    decimal : D → Value D
    string : Bytes → Value D
    array : Items D → Value D
    object : Fields D → Value D

  pub data Items (D : Type 0) : Type 0 where
    nil : Items D
    cons : Value D → Items D → Items D

  pub data Fields (D : Type 0) : Type 0 where
    end : Fields D
    field : Bytes → Value D → Fields D → Fields D

-- What `std::stod` does: a number and the count of the characters read, or an exception.
pub data Stod (D : Type 0) : Type 0 where
  number : D → ℕ → Stod D
  invalid_argument : Stod D
  out_of_range : Stod D

-- The operations on `double` that the sources call: `std::stod`, `std::to_string`, and the
-- conversions from and to an integer.
pub record Decimals (D : Type 0) : Type 0 where
  pub stod : Bytes → Stod D
  pub to_string : D → Bytes
  pub of_int : ℤ → D
  pub to_int : D → ℤ

abbrev pub unexpected : Exception
unexpected = type_error (codes "Unexpected json value")

module _ {D : Type 0} where
  abbrev pub is_null : Value D → Bool
  is_null null = true
  is_null _ = false

  abbrev pub is_string : Value D → Bool
  is_string (string s) = true
  is_string _ = false

  abbrev pub is_number : Value D → Bool
  is_number (integer i) = true
  is_number (decimal d) = true
  is_number _ = false

  abbrev pub is_object : Value D → Bool
  is_object (object fs) = true
  is_object _ = false

  abbrev pub is_array : Value D → Bool
  is_array (array xs) = true
  is_array _ = false

  -- The accessors `string()`, `object()` and `array()`.
  abbrev pub as_string : Value D → Throws Bytes
  as_string (string s) = ok s
  as_string _ = err unexpected

  abbrev pub as_object : Value D → Throws (Fields D)
  as_object (object fs) = ok fs
  as_object _ = err unexpected

  abbrev pub as_array : Value D → Throws (Items D)
  as_array (array xs) = ok xs
  as_array _ = err unexpected

  -- `number()`
  abbrev pub as_number : Decimals D → Value D → Throws D
  as_number dec (decimal d) = ok d
  as_number dec (integer i) = ok (dec.of_int i)
  as_number dec _ = err unexpected

  -- `Object::find`
  unfoldable pub find : Bytes → Fields D → Option (Value D)
  find k end = none
  find k (field j v fs) = if bytes_eq j k then some v else find k fs

  unfoldable pub contains : Bytes → Fields D → Bool
  contains k end = false
  contains k (field j v fs) = bytes_eq j k || contains k fs

  -- `Object::get`
  unfoldable pub get : Bytes → Fields D → Throws (Value D)
  unfolding find
  get k fs = elim (find k fs) [
    | none ↦ err (type_error (codes "Missing key '" ++ (k ++ codes "'")))
    | some v ↦ ok v
  ]

  unfoldable pub size : Fields D → ℕ
  size end = 0
  size (field k v fs) = suc (size fs)

  abbrev pub is_empty : Fields D → Bool
  is_empty end = true
  is_empty (field k v fs) = false

  unfoldable pub append_field : Fields D → Bytes → Value D → Fields D
  append_field end k v = field k v end
  append_field (field j w fs) k v = field j w (append_field fs k v)

  -- `Object::operator[]`: the object afterwards; the key is there in it.
  unfoldable pub index : Bytes → Fields D → Fields D
  unfolding contains append_field
  index k fs = if contains k fs then fs else append_field fs k null

  -- A write through the reference to the value under a key, or to an element of an array.
  unfoldable pub update_field : Bytes → (Value D → Value D) → Fields D → Fields D
  update_field k g end = end
  update_field k g (field j v fs) =
      if bytes_eq j k then field j (g v) fs else field j v (update_field k g fs)

  -- `json[key] = value`
  unfoldable pub assign : Bytes → Value D → Fields D → Fields D
  unfolding index update_field
  assign k v fs = update_field k (λ _. v) (index k fs)

  abbrev pub length_items : Items D → ℕ
  length_items nil = 0
  length_items (cons x xs) = suc (length_items xs)

  unfoldable pub append_item : Items D → Value D → Items D
  append_item nil v = cons v nil
  append_item (cons x xs) v = cons x (append_item xs v)

  unfoldable pub item_at : ℕ → Items D → Option (Value D)
  item_at i nil = none
  item_at zero (cons x xs) = some x
  item_at (suc i) (cons x xs) = item_at i xs

  unfoldable pub update_item : ℕ → (Value D → Value D) → Items D → Items D
  update_item i g nil = nil
  update_item zero g (cons x xs) = cons (g x) xs
  update_item (suc i) g (cons x xs) = cons x (update_item i g xs)
