-- ===== src/Serialization.antt =====
-- lsp/serialization.h: values of C++ types to and from JSON. A type comes with its functions `toJson` and
-- `fromJson` and what `canDeserializeTypeFromJson` answers for it; a template is a function from the
-- types of its arguments. `fromJson` reads into a value that is there before. `D` is the type `double`.
pub mod Templates
pub mod Variants
pub mod Maps
pub mod Enumerations
pub mod Structures
pub mod RoundTrip
pub mod Choice
pub mod Integers
pub mod Known
pub mod Entries
mod Tests
use lsp_framework.Base.{
  ℕ, ◌+◌, ◌-◌, ◌%◌, ◌^◌, Bool, true, false, Option, none, some, Bytes, codes, ltb, leb,
  if◌then◌else◌, ok, err, ◌>>=◌, ℤ, pos, negsuc,
}
use lsp_framework.Exceptions.{Throws}
use lsp_framework.Json.Value.{
  Value, Decimals, null, boolean, integer, decimal, string, unexpected, is_null, is_string,
  is_number, as_string, as_number,
}
use lsp_framework.Json.Parser.Tokens.{fits_integer}
use lsp_framework.Uri.{Uri}
use lsp_framework.Uri.Parse.{parse, to_string}

pub record Serializable (D A : Type 0) : Type 0 where
  -- The value `A{}`.
  pub initial : A
  pub to_json : A → Value D
  pub from_json : Value D → A → Throws A
  pub can_deserialize : Value D → Bool

-- static_cast<json::Integer>(i) of a longer integer: modulo 2^32, with the sign of the highest bit.
abbrev pub wrap_integer : ℤ → ℤ
wrap_integer (pos n) =
    let m = n % 2 ^ 32 in if ltb m (2 ^ 31) then pos m else negsuc (2 ^ 32 - 1 - m)
wrap_integer (negsuc n) =
    let m = n % 2 ^ 32 in if ltb m (2 ^ 31) then negsuc m else pos (2 ^ 32 - 1 - m)

-- i <= std::numeric_limits<json::Integer>::max()
abbrev pub at_most_max : ℤ → Bool
at_most_max (pos n) = leb n (2 ^ 31 - 1)
at_most_max (negsuc n) = true

module _ {D : Type 0} where
  abbrev pub is_boolean : Value D → Bool
  is_boolean (boolean b) = true
  is_boolean _ = false

  -- The accessor `boolean()`.
  abbrev pub as_boolean : Value D → Throws Bool
  as_boolean (boolean b) = ok b
  as_boolean _ = err unexpected

  abbrev pub null_type : Serializable D (Unit {0})
  null_type = record {
    initial = tt;
    to_json = λ u. null;
    from_json = λ v u. ok tt;
    can_deserialize = is_null;
  }

  abbrev pub bool_type : Serializable D Bool
  bool_type = record {
    initial = false;
    to_json = boolean;
    from_json = λ v b. as_boolean v;
    can_deserialize = is_boolean;
  }

  abbrev pub string_type : Serializable D Bytes
  string_type = record {
    initial = codes "";
    to_json = string;
    from_json = λ v s. as_string v;
    can_deserialize = is_string;
  }

module _ {D : Type 0} (dec : Decimals D) where
  -- static_cast<int>(json.number()), and so on for each type of integers; where the number is out of the range of
  -- the type, the conversion is undefined.
  abbrev pub number_from_json : Value D → ℤ → Throws ℤ
  number_from_json v i = do d ← as_number dec v; ok (dec.to_int d)

  abbrev pub integer_type : (ℤ → Value D) → Serializable D ℤ
  integer_type to_json = record {
    initial = pos 0;
    to_json = to_json;
    from_json = number_from_json;
    can_deserialize = is_number;
  }

  -- unsigned int, unsigned long and unsigned long long
  abbrev pub unsigned_to_json : ℤ → Value D
  unsigned_to_json i = if at_most_max i then integer (wrap_integer i) else decimal (dec.of_int i)

  abbrev pub long_to_json : ℤ → Value D
  long_to_json i = if at_most_max i then integer (wrap_integer i) else decimal (dec.of_int i)

  abbrev pub long_long_to_json : ℤ → Value D
  long_long_to_json i = if fits_integer i then integer (wrap_integer i) else decimal (dec.of_int i)

  abbrev pub int_type : Serializable D ℤ
  int_type = integer_type integer

  abbrev pub unsigned_type : Serializable D ℤ
  unsigned_type = integer_type unsigned_to_json

  abbrev pub long_type : Serializable D ℤ
  long_type = integer_type long_to_json

  abbrev pub double_type : Serializable D D
  double_type = record {
    initial = dec.of_int (pos 0);
    to_json = decimal;
    from_json = λ v d. as_number dec v;
    can_deserialize = is_number;
  }
