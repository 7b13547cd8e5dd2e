-- ===== src/Json/Literal.antt =====
-- `toStringLiteral`, `fromStringLiteral` and `appendCodePointAsUtf8` of lsp/json/json.cpp.
-- A loop that appends to `result` is a recursion with `out` for `result`; the loop index of
-- `fromStringLiteral` is the suffix that is left, with the number of bytes to skip.
pub mod RoundTrip
pub mod Utf8
use lsp_framework.Base.{
  ℕ, zero, suc, ◌+◌, ◌-◌, ◌/◌, ◌%◌, ◌^◌, ◌≡◌, refl, Bool, true, false, ◌&&◌, Option, none, some,
  List, [], ◌∷◌, ◌++◌, Bytes, codes, ltb, leb, ◌==◌, if◌then◌else◌, length, take,
}
use lsp_framework.Base.Chars.{FromChars, from_chars_unsigned, hex_lookup}

abbrev pub quote : ℕ
quote = b'"'

abbrev pub backslash : ℕ
backslash = b'\\'

-- What one round of the loop of `toStringLiteral` appends: the switch over the byte.
pub escape_char : ℕ → Bytes
escape_char c =
    if c == 8
    then codes "\\b"
    else if c == 9
    then codes "\\t"
    else if c == 10
    then codes "\\n"
    else if c == 12
    then codes "\\f"
    else if c == 13
    then codes "\\r"
    else if c == quote
    then backslash ∷ quote ∷ []
    else if c == backslash
    then backslash ∷ backslash ∷ []
    else if ltb c 0x20
    then codes "\\u00" ++ hex_lookup (c / 16) ∷ hex_lookup (c % 16) ∷ []
    else c ∷ []

pub escape_loop : Bytes → Bytes → Bytes
escape_loop [] out = out
escape_loop (c ∷ s) out = escape_loop s (out ++ escape_char c)

unfoldable pub to_string_literal : Bytes → Bytes
unfolding escape_loop escape_char
to_string_literal s = escape_loop s (quote ∷ []) ++ quote ∷ []

-- `(a | b)` of operands without a common bit is `a + b`; `x & (2^k - 1)` is `x % 2^k`.
pub append_code_point_as_utf8 : Bytes → ℕ → Bytes
append_code_point_as_utf8 str cp =
    if ltb cp 0x80
    then str ++ cp ∷ []
    else if ltb cp 0x800
    then str ++ (0xC0 + cp / 2 ^ 6 % 0x20) ∷ (0x80 + cp % 0x40) ∷ []
    else if ltb cp 0x10000
    then str ++ (0xE0 + cp / 2 ^ 12 % 0x10) ∷ (0x80 + cp / 2 ^ 6 % 0x40) ∷ (0x80 + cp % 0x40) ∷ []
    else if ltb cp 0x200000
    then str
      ++ (0xF0 + cp / 2 ^ 18 % 8)
        ∷ (0x80 + cp / 2 ^ 12 % 0x40)
        ∷ (0x80 + cp / 2 ^ 6 % 0x40)
        ∷ (0x80 + cp % 0x40)
        ∷ []
    else str ++ codes "?"

-- A step of the loop gives the new `result` and the bytes that the step reads beyond the current one.
abbrev pub Piece : Type 0
Piece = Bytes × ℕ

abbrev is_nil : Bytes → Bool
is_nil [] = true
is_nil (c ∷ s) = false

-- The four digits behind `\u` have been read as far as they are hexadecimal.
hex_escape : Bytes → Bytes → FromChars ℕ → Piece
hex_escape out digits r = elim r.value [
  | none ↦ verbatim
  | some cp ↦ if is_nil r.rest then (append_code_point_as_utf8 out cp, 4) else verbatim
]
  where
    len : ℕ
    len = length digits - length r.rest

    verbatim : Piece
    verbatim = (out ++ codes "\\u" ++ take len digits, len)

-- `s` is what stands behind `\u`.
unicode_escape : Bytes → Bytes → Piece
unicode_escape out s =
    if leb 4 (length s)
    then hex_escape out (take 4 s) (from_chars_unsigned 16 (2 ^ 32) (take 4 s))
    else (out ++ codes "\\u" ++ s, length s)

-- `c` stands behind a backslash, and `s` behind it.
pub unescape : Bytes → ℕ → Bytes → Piece
unescape out c s =
    if c == b'0'
    then (out ++ 0 ∷ [], 0)
    else if c == b'a'
    then (out ++ 7 ∷ [], 0)
    else if c == b'b'
    then (out ++ 8 ∷ [], 0)
    else if c == b't'
    then (out ++ 9 ∷ [], 0)
    else if c == b'n'
    then (out ++ 10 ∷ [], 0)
    else if c == b'v'
    then (out ++ 11 ∷ [], 0)
    else if c == b'f'
    then (out ++ 12 ∷ [], 0)
    else if c == b'r'
    then (out ++ 13 ∷ [], 0)
    else if c == b'u'
    then unicode_escape out s
    else (out ++ c ∷ [], 0)

escaped_piece : Bytes → Bytes → Piece
escaped_piece out [] = (out ++ backslash ∷ [], 0)
escaped_piece out (c ∷ s) = let (out', n) = unescape out c s in (out', suc n)

-- The body of the loop at the byte `c` with `s` behind it.
literal_piece : Bytes → ℕ → Bytes → Piece
literal_piece out c s = if c == backslash then escaped_piece out s else (out ++ c ∷ [], 0)

-- The loop; its first argument counts the bytes that `i` has been moved past.
unescape_loop : ℕ → Bytes → Bytes → Bytes
unescape_loop skip [] out = out
unescape_loop (suc skip) (c ∷ s) out = unescape_loop skip s out
unescape_loop zero (c ∷ s) out =
    let (out', skip) = literal_piece out c s in unescape_loop skip s out'

remove_prefix_quote : Bytes → Bytes
remove_prefix_quote [] = []
remove_prefix_quote (c ∷ s) = if c == quote then s else c ∷ s

remove_suffix_quote : Bytes → Bytes
remove_suffix_quote [] = []
remove_suffix_quote (c ∷ []) = if c == quote then [] else c ∷ []
remove_suffix_quote (c ∷ d ∷ s) = c ∷ remove_suffix_quote (d ∷ s)

unfoldable pub from_string_literal : Bytes → Bytes
unfolding unescape_loop literal_piece escaped_piece unescape unicode_escape hex_escape
    append_code_point_as_utf8 from_chars_unsigned remove_prefix_quote remove_suffix_quote
from_string_literal s = unescape_loop 0 (remove_suffix_quote (remove_prefix_quote s)) []

-- A run over every kind of escape.
