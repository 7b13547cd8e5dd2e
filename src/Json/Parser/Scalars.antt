-- ===== src/Json/Parser/Scalars.antt =====
-- `parseSimpleValue` on the prints of the values that are no containers.
use lsp_framework.Base.{
  ℕ, suc, ◌+◌, ◌^◌, ◌≡◌, ◌≢◌, refl, ◌∙◌, Bool, true, false, ◌||◌, [], ◌∷◌, ◌++◌, Bytes, ◌==◌, codes,
  length, ok, arith, All, append-nil, ℤ, pos, negsuc,
}
use lsp_framework.Base.Chars.{is_digit, is_alpha, is_alnum, is_space, to_string, to_string_unsigned}
use lsp_framework.Base.Numbers.{
  InRange, from_chars_signed-to_string, emit_digits-All, emit_digits_head,
}
use lsp_framework.Json.Value.{Value, Decimals, number, null, boolean, integer, decimal, string}
use lsp_framework.Json.Literal.{to_string_literal, quote}
use lsp_framework.Json.Literal.RoundTrip.{body, to_string_literal-body}
use lsp_framework.Json.Parser.Strings.{parse_string-to_string_literal}
use lsp_framework.Json.Print.{print_bool}
use lsp_framework.Json.Parser.Tokens.{
  is_decimal_char, is_number_char, has_decimal_char, fits_integer, number_value, parse_number,
  identifier_value, parse_identifier, parse_simple_value,
}
use lsp_framework.Json.Parser.Lexing.{StopsAt, take_while-append}

-- What ends a number or an identifier.
abbrev pub EndsToken : Bytes → Type 0
EndsToken = StopsAt is_number_char

EndsToken-StopsAt : (rest : Bytes) → EndsToken rest → StopsAt is_alnum rest
EndsToken-StopsAt [] h = tt
EndsToken-StopsAt (c ∷ s) h = ground arith

abbrev pub StartsNumber : Bytes → Type 0
StartsNumber [] = ⊥
StartsNumber (c ∷ s) = (is_digit c || c == b'-') ≡ true

-- Neither a blank nor a closing bracket.
abbrev pub StartsValue : ℕ → Type 0
StartsValue c = (is_space c ≡ false) × (c ≢ b']') × (c ≢ b'}')

abbrev pub StartsScalar : ℕ → Type 0
StartsScalar c = (c ≢ b'{') × (c ≢ b'[')

module _ {D : Type 0} (dec : Decimals D) where
  parse_number-append :
      (x rest : Bytes) (at : ℕ) (v : Value D)
      → All (λ c. is_number_char c ≡ true) x
      → EndsToken rest
      → ((start : ℕ) → number_value dec x start ≡ ok v)
      → parse_number dec (x ++ rest) at ≡ ok (record { token = v; rest = rest; at = at + length x })
  unfolding parse_number
  parse_number-append x rest at v h stops hv =
      rw (take_while-append is_number_char x rest at [] h stops, hv at)

  -- A text of the form of a number goes to `parseNumber`.
  parse_simple_value-number :
      (c : ℕ) (s : Bytes) (at : ℕ)
      → StartsNumber (c ∷ s)
      → parse_simple_value dec c s at ≡ parse_number dec (c ∷ s) at
  unfolding parse_simple_value
  parse_simple_value-number c s at h = ground arith

  parse_identifier-append :
      (x rest : Bytes) (at : ℕ) (v : Value D)
      → All (λ c. is_alnum c ≡ true) x
      → EndsToken rest
      → ((start : ℕ) → identifier_value dec x start ≡ ok v)
      → parse_identifier dec (x ++ rest) at
        ≡ ok (record { token = v; rest = rest; at = at + length x })
  unfolding parse_identifier
  parse_identifier-append x rest at v h stops hv =
      rw (
        take_while-append is_alnum x rest at [] h (EndsToken-StopsAt rest stops),
        hv (at + length x),
      )

  parse_simple_value-identifier :
      (c : ℕ) (s : Bytes) (at : ℕ)
      → is_alpha c ≡ true
      → parse_simple_value dec c s at ≡ parse_identifier dec (c ∷ s) at
  unfolding parse_simple_value
  parse_simple_value-identifier c s at h = ground arith

abbrev IsPlainDigit : ℕ → Type 0
IsPlainDigit c = (is_number_char c ≡ true) × (is_decimal_char c ≡ false)

to_string-IsPlainDigit : (z : ℤ) → All IsPlainDigit (to_string z)
unfolding to_string to_string_unsigned
to_string-IsPlainDigit (pos n) =
    emit_digits-All IsPlainDigit (λ d h. (ground arith, ground arith)) (suc n) n [] (omega arith) tt
to_string-IsPlainDigit (negsuc n) = (
  (refl, refl),
  emit_digits-All IsPlainDigit (λ d h. (ground arith, ground arith)) (suc (suc n)) (suc n) []
      (omega arith) tt,
)

to_string-StartsNumber : (z : ℤ) → StartsNumber (to_string z)
unfolding to_string to_string_unsigned
to_string-StartsNumber (pos n) =
    let (d, t, e, lt) = emit_digits_head (suc n) n [] (omega arith) in rw e (ground arith)
to_string-StartsNumber (negsuc n) = refl

All-number : (x : Bytes) → All IsPlainDigit x → All (λ c. is_number_char c ≡ true) x
All-number [] h = tt
All-number (c ∷ x) (h, hs) = (h.0, All-number x hs)

has_decimal_char-plain : (x : Bytes) → All IsPlainDigit x → has_decimal_char x ≡ false
unfolding has_decimal_char
has_decimal_char-plain [] h = refl
has_decimal_char-plain (c ∷ x) (h, hs) = rw (h.1, has_decimal_char-plain x hs)

-- What `json::Integer` holds.
abbrev pub FitsInteger : ℤ → Type 0
FitsInteger = InRange (2 ^ 31)

fits_integer-eq : (z : ℤ) → FitsInteger z → fits_integer z ≡ true
fits_integer-eq (pos n) h = ground arith
fits_integer-eq (negsuc n) h = ground arith

InRange-wide : (z : ℤ) → FitsInteger z → InRange (2 ^ 63) z
InRange-wide (pos n) h = omega arith
InRange-wide (negsuc n) h = omega arith

-- The text begins with a character that is no blank and no bracket, and is read as the value in front of
-- whatever ends a token.
abbrev pub IsScalar : {D : Type 0} → Decimals D → Value D → Bytes → Type 0
IsScalar dec v x =
    (c : ℕ) × (t : Bytes) × (x ≡ c ∷ t)
    × StartsValue c
    × StartsScalar c
    × ((rest : Bytes) (at : ℕ)
        → EndsToken rest
        → (at' : ℕ) × (parse_simple_value dec c (t ++ rest) at
            ≡ ok (record { token = v; rest = rest; at = at' })))

module _ {D : Type 0} (dec : Decimals D) where
  number_value-to_string :
      (z : ℤ) (start : ℕ) → FitsInteger z → number_value dec (to_string z) start ≡ ok (integer z)
  unfolding number_value
  number_value-to_string z start h =
      let reads = from_chars_signed-to_string (2 ^ 63) z [] (InRange-wide z h) refl in
      rw (
        has_decimal_char-plain (to_string z) (to_string-IsPlainDigit z),
        rw append-nil at reads,
        fits_integer-eq z h,
      )

  IsScalar-number :
      (x : Bytes) (v : Value D)
      → StartsNumber x
      → All (λ c. is_number_char c ≡ true) x
      → ((start : ℕ) → number_value dec x start ≡ ok v)
      → IsScalar dec v x
  IsScalar-number [] v s h hv = absurd s
  IsScalar-number (c ∷ t) v s h hv = (
    c,
    t,
    refl,
    (ground arith, ground arith, ground arith),
    (ground arith, ground arith),
    λ rest at stops. (
      at + length (c ∷ t),
      parse_simple_value-number dec c (t ++ rest) at s
          ∙ parse_number-append dec (c ∷ t) rest at v h stops hv,
    ),
  )

  IsScalar-identifier :
      (c : ℕ) (t : Bytes) (v : Value D)
      → All (λ d. is_alnum d ≡ true) (c ∷ t)
      → is_alpha c ≡ true
      → ((start : ℕ) → identifier_value dec (c ∷ t) start ≡ ok v)
      → IsScalar dec v (c ∷ t)
  IsScalar-identifier c t v h a hv = (
    c,
    t,
    refl,
    (ground arith, ground arith, ground arith),
    (ground arith, ground arith),
    λ rest at stops. (
      at + length (c ∷ t),
      parse_simple_value-identifier dec c (t ++ rest) at a
          ∙ parse_identifier-append dec (c ∷ t) rest at v h stops hv,
    ),
  )

  pub IsScalar-string : (s : Bytes) → IsScalar dec (string s) (to_string_literal s)
  unfolding parse_simple_value
  IsScalar-string s = (
    quote,
    body s ++ quote ∷ [],
    to_string_literal-body s,
    (refl, omega arith, omega arith),
    (omega arith, omega arith),
    λ rest at stops.
        let (at', e) = parse_string-to_string_literal s rest at in
        let e' = rw to_string_literal-body at e in (at', rw e'),
  )

  pub IsScalar-integer : (z : ℤ) → FitsInteger z → IsScalar dec (integer z) (to_string z)
  IsScalar-integer z h =
      IsScalar-number (to_string z) (integer z) (to_string-StartsNumber z)
        (All-number (to_string z) (to_string-IsPlainDigit z))
        (λ start. number_value-to_string z start h)

  pub IsScalar-bool : (b : Bool) → IsScalar dec (boolean b) (print_bool b)
  unfolding identifier_value
  IsScalar-bool true =
      IsScalar-identifier _ _ _ (refl, (refl, (refl, (refl, tt)))) refl (λ start. refl)
  IsScalar-bool false =
      IsScalar-identifier _ _ _ (refl, (refl, (refl, (refl, (refl, tt))))) refl (λ start. refl)

  pub IsScalar-null : IsScalar dec null (codes "null")
  unfolding identifier_value
  IsScalar-null = IsScalar-identifier _ _ _ (refl, (refl, (refl, (refl, tt)))) refl (λ start. refl)

  -- `std::stod` reads the print of the number back, all of it, and the print has the form of a decimal.
  abbrev pub ReadsBack : D → Type 0
  ReadsBack d =
      let x = dec.to_string d in
      StartsNumber x
      × All (λ c. is_number_char c ≡ true) x
      × (has_decimal_char x ≡ true)
      × (dec.stod x ≡ number d (length x))

  pub IsScalar-decimal : (d : D) → ReadsBack d → IsScalar dec (decimal d) (dec.to_string d)
  unfolding number_value
  IsScalar-decimal d (s, h, hd, hs) =
      IsScalar-number (dec.to_string d) (decimal d) s h (λ start. rw (hd, hs) (ground arith))
