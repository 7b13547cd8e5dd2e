-- ===== src/Base/Chars.antt =====
-- What the sources use of <cctype> and <charconv>: character classes and case in the "C" locale,
-- `std::to_string` of an integer and `std::from_chars`.
use lsp_framework.Base.{
  ℕ, zero, suc, ◌+◌, ◌-◌, ◌*◌, ◌/◌, ◌%◌, ◌≡◌, refl, Bool, true, false, ◌&&◌, ◌||◌, Option, none,
  some, [], ◌∷◌, Bytes, codes, ltb, leb, ◌==◌, if◌then◌else◌, ℤ, pos, negsuc,
}

abbrev pub is_digit : ℕ → Bool
is_digit c = leb b'0' c && leb c b'9'

abbrev pub is_lower : ℕ → Bool
is_lower c = leb b'a' c && leb c b'z'

abbrev pub is_upper : ℕ → Bool
is_upper c = leb b'A' c && leb c b'Z'

abbrev pub is_alpha : ℕ → Bool
is_alpha c = is_lower c || is_upper c

abbrev pub is_alnum : ℕ → Bool
is_alnum c = is_alpha c || is_digit c

-- Tab, newline, vertical tab, form feed, carriage return and blank.
abbrev pub is_space : ℕ → Bool
is_space c = (leb 9 c && leb c 13) || c == 32

abbrev pub to_lower : ℕ → ℕ
to_lower c = if is_upper c then c + 32 else c

abbrev pub to_upper : ℕ → ℕ
to_upper c = if is_lower c then c - 32 else c

-- "0123456789ABCDEF"[d], for d < 16.
abbrev pub hex_lookup : ℕ → ℕ
hex_lookup d = if ltb d 10 then b'0' + d else b'A' + (d - 10)

-- The value of a character as a digit, of any base up to 36.
abbrev pub digit_of : ℕ → Option ℕ
digit_of c =
    if is_digit c
    then some (c - b'0')
    else if is_lower c
    then some (c - b'a' + 10)
    else if is_upper c
    then some (c - b'A' + 10)
    else none

unfoldable pub digit_value : ℕ → ℕ → Option ℕ
digit_value base c = elim (digit_of c) [
  | none ↦ none
  | some d ↦ if ltb d base then some d else none
]

-- The digits at the front of a text, added to `acc`, and what follows them.
unfoldable pub scan_digits : ℕ → ℕ → Bytes → ℕ × Bytes
unfolding digit_value
scan_digits base acc [] = (acc, [])
scan_digits base acc (c ∷ s) = elim (digit_value base c) [
  | none ↦ (acc, c ∷ s)
  | some d ↦ scan_digits base (acc * base + d) s
]

-- The outcome of `std::from_chars`: the value, or none for an error code, and the text at `ptr`.
pub record FromChars {ℓ} (A : Type ℓ) : Type ℓ where
  pub value : Option A
  pub rest : Bytes

unfoldable pub starts_digit : ℕ → Bytes → Bool
unfolding digit_value
starts_digit base [] = false
starts_digit base (c ∷ s) = elim (digit_value base c) [ none ↦ false | some d ↦ true ]

-- For an unsigned type whose values are below `bound`.
unfoldable pub from_chars_unsigned : ℕ → ℕ → Bytes → FromChars ℕ
unfolding scan_digits starts_digit
from_chars_unsigned base bound s =
    if starts_digit base s
    then (let (n, rest) = scan_digits base 0 s in
        record { value = if ltb n bound then some n else none; rest = rest })
    else record { value = none; rest = s }

-- The integer -n.
abbrev pub minus : ℕ → ℤ
minus zero = pos 0
minus (suc n) = negsuc n

signed_magnitude : Bool → ℕ → ℕ → Option ℤ
signed_magnitude false bound n = if ltb n bound then some (pos n) else none
signed_magnitude true bound n = if leb n bound then some (minus n) else none

unfoldable pub from_chars_magnitude : Bool → ℕ → Bytes → Bytes → FromChars ℤ
unfolding scan_digits starts_digit signed_magnitude
from_chars_magnitude sign bound whole s =
    if starts_digit 10 s
    then (let (n, rest) = scan_digits 10 0 s in
        record { value = signed_magnitude sign bound n; rest = rest })
    else record { value = none; rest = whole }

-- Base 10, for a signed type with values from -`bound` up to `bound` - 1.
unfoldable pub from_chars_signed : ℕ → Bytes → FromChars ℤ
unfolding from_chars_magnitude
from_chars_signed bound [] = record { value = none; rest = [] }
from_chars_signed bound (c ∷ s) =
    if c == b'-'
    then from_chars_magnitude true bound (c ∷ s) s
    else from_chars_magnitude false bound (c ∷ s) (c ∷ s)

-- The decimal digits of `n` in front of `out`. The fuel is above the number of digits.
unfoldable pub emit_digits : ℕ → ℕ → Bytes → Bytes
emit_digits zero n out = out
emit_digits (suc fuel) n out = elim (ltb n 10) [
  | true ↦ (b'0' + n) ∷ out
  | false ↦ emit_digits fuel (n / 10) ((b'0' + n % 10) ∷ out)
]

-- std::to_string
unfoldable pub to_string_unsigned : ℕ → Bytes
unfolding emit_digits
to_string_unsigned n = emit_digits (suc n) n []

unfoldable pub to_string : ℤ → Bytes
unfolding to_string_unsigned
to_string (pos n) = to_string_unsigned n
to_string (negsuc n) = b'-' ∷ to_string_unsigned (suc n)

to_string_min : to_string (negsuc 2147483647) ≡ codes "-2147483648"
unfolding to_string
to_string_min = refl
