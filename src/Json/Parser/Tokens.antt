-- ===== src/Json/Parser/Tokens.antt =====
-- The functions of `Parser` that read one token.
use lsp_framework.Base.{
  ℕ, ◌+◌, ◌^◌, Bool, true, false, not, ◌&&◌, ◌||◌, Option, none, some, [], ◌∷◌, ◌++◌, Bytes, codes,
  bytes_eq, ltb, ◌==◌, if◌then◌else◌, length, ok, err, ◌>>=◌, ℤ, negsuc,
}
use lsp_framework.Base.Chars.{is_digit, is_alpha, is_alnum, is_space, FromChars, from_chars_signed}
use lsp_framework.Exceptions.{Exception, Throws, parse_error, std_exception}
use lsp_framework.Json.Value.{
  Value, Decimals, Stod, number, invalid_argument, out_of_range, null, boolean, integer, decimal,
  string,
}
use lsp_framework.Json.Literal.{from_string_literal, quote, backslash}

-- A token with `m_pos` behind it.
pub record Read (A : Type 0) : Type 0 where
  pub token : A
  pub rest : Bytes
  pub at : ℕ

-- The text and offset after `skipWhitespace`.
unfoldable pub skip_whitespace : Bytes → ℕ → Bytes × ℕ
skip_whitespace [] at = ([], at)
skip_whitespace (c ∷ s) at =
    let rest = skip_whitespace s (at + 1) in if is_space c then rest else (c ∷ s, at)

abbrev pub head_is : ℕ → Bytes → Bool
head_is c [] = false
head_is c (d ∷ s) = d == c

-- The loop of `parseString`; `token` is the text from the opening quote on.
unfoldable pub scan_string : Bool → Bytes → ℕ → Bytes → Throws (Read Bytes)
scan_string has_escape [] at token = err (parse_error (codes "Unmatched '\"'") at)
scan_string has_escape (c ∷ s) at token =
    let rest = scan_string (not has_escape && c == backslash) s (at + 1) (token ++ c ∷ []) in
    if c == b'\n'
    then err (parse_error (codes "Unmatched '\"'") at)
    else if not has_escape && c == quote
    then ok (record { token = token ++ c ∷ []; rest = s; at = at + 1 })
    else rest

abbrev literal_token : Read Bytes → Read Bytes
literal_token r = record r { token = from_string_literal r.token }

unfoldable pub parse_string : Bytes → ℕ → Throws (Read Bytes)
parse_string [] at = err (parse_error (codes "String expected") at)
parse_string (c ∷ s) at =
    if not (c == quote)
    then err (parse_error (codes "String expected") at)
    else do r ← scan_string false s (at + 1) (quote ∷ []); ok (literal_token r)

abbrev pub is_decimal_char : ℕ → Bool
is_decimal_char c = c == b'.' || c == b'e' || c == b'E'

abbrev pub is_number_char : ℕ → Bool
is_number_char c = is_alnum c || c == b'-' || c == b'.' || c == b'e' || c == b'E'

-- The longest front of a text whose characters pass a test.
unfoldable pub take_while : (ℕ → Bool) → Bytes → ℕ → Bytes → Read Bytes
take_while test [] at token = record { token = token; rest = []; at = at }
take_while test (c ∷ s) at token =
    let more = take_while test s (at + 1) (token ++ c ∷ []) in
    if test c then more else record { token = token; rest = c ∷ s; at = at }

-- `isDecimal` after the loop.
unfoldable pub has_decimal_char : Bytes → Bool
has_decimal_char [] = false
has_decimal_char (c ∷ s) = is_decimal_char c || has_decimal_char s

abbrev pub invalid_number : Bytes → ℕ → Exception
invalid_number token start =
    parse_error (codes "Invalid number value: '" ++ (token ++ codes "'")) start

-- -2^31 ≤ i < 2^31
abbrev pub fits_integer : ℤ → Bool
fits_integer (ℤ.pos n) = ltb n (2 ^ 31)
fits_integer (negsuc n) = ltb n (2 ^ 31)

module _ {D : Type 0} (dec : Decimals D) where
  decimal_value : Bytes → ℕ → Stod D → Throws (Value D)
  decimal_value token start (number d idx) =
      if ltb idx (length token) then err (invalid_number token start) else ok (decimal d)
  decimal_value token start invalid_argument = err (std_exception (codes "stod"))
  decimal_value token start out_of_range = err (std_exception (codes "stod"))

  integer_of : Bytes → ℕ → Option ℤ → Bytes → Throws (Value D)
  integer_of token start (some i) [] =
      ok (if fits_integer i then integer i else decimal (dec.of_int i))
  integer_of token start (some i) (c ∷ s) = err (invalid_number token start)
  integer_of token start none s = err (invalid_number token start)

  integer_value : Bytes → ℕ → FromChars ℤ → Throws (Value D)
  integer_value token start r = integer_of token start r.value r.rest

  unfoldable pub number_value : Bytes → ℕ → Throws (Value D)
  unfolding decimal_value integer_value integer_of has_decimal_char from_chars_signed
  number_value token start =
      if has_decimal_char token
      then decimal_value token start (dec.stod token)
      else integer_value token start (from_chars_signed (2 ^ 63) token)

  unfoldable pub parse_number : Bytes → ℕ → Throws (Read (Value D))
  parse_number s start =
      let r = take_while is_number_char s start [] in
      do v ← number_value r.token start; ok (record { token = v; rest = r.rest; at = r.at })

  unfoldable pub identifier_value : Bytes → ℕ → Throws (Value D)
  identifier_value token at =
      if bytes_eq token (codes "true")
      then ok (boolean true)
      else if bytes_eq token (codes "false")
      then ok (boolean false)
      else if bytes_eq token (codes "null")
      then ok null
      else err (parse_error (codes "Unexpected '" ++ (token ++ codes "'")) at)

  unfoldable pub parse_identifier : Bytes → ℕ → Throws (Read (Value D))
  parse_identifier s start =
      let r = take_while is_alnum s start [] in
      do v ← identifier_value r.token r.at; ok (record { token = v; rest = r.rest; at = r.at })

  abbrev pub string_token : Read Bytes → Read (Value D)
  string_token r = record { token = string r.token; rest = r.rest; at = r.at }

  -- At the character `c` with `s` behind it.
  unfoldable pub parse_simple_value : ℕ → Bytes → ℕ → Throws (Read (Value D))
  parse_simple_value c s start =
      if c == quote
      then (do r ← parse_string (c ∷ s) start; ok (string_token r))
      else if is_digit c || c == b'-'
      then parse_number (c ∷ s) start
      else if is_alpha c
      then parse_identifier (c ∷ s) start
      else err (parse_error (codes "Unexpected token") start)
