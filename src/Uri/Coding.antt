-- ===== src/Uri/Coding.antt =====
-- `Uri::encode` and `Uri::decode`: percent-encoding.
pub mod Inverse
use lsp_framework.Base.{
  ℕ, ◌+◌, ◌/◌, ◌%◌, ◌≡◌, refl, Bool, true, false, ◌||◌, Option, none, some, [], ◌∷◌, ◌++◌, Bytes,
  codes, ◌==◌, if◌then◌else◌,
}
use lsp_framework.Base.Chars.{is_alnum, hex_lookup, from_chars_unsigned}

-- exclude.find(c) != npos
unfoldable pub contains_byte : Bytes → ℕ → Bool
contains_byte [] c = false
contains_byte (d ∷ s) c = d == c || contains_byte s c

-- The characters that are written as they are.
unfoldable pub is_kept : Bytes → ℕ → Bool
unfolding contains_byte
is_kept exclude c = contains_byte exclude c || is_alnum c || c == b'_' || c == b'.' || c == b'-'

-- What one round of the loop appends.
unfoldable pub encode_char : Bytes → ℕ → Bytes
unfolding is_kept
encode_char exclude c =
    if is_kept exclude c then c ∷ [] else b'%' ∷ hex_lookup (c / 16) ∷ hex_lookup (c % 16) ∷ []

unfoldable pub encode_loop : Bytes → Bytes → Bytes → Bytes
encode_loop exclude [] out = out
encode_loop exclude (c ∷ s) out = encode_loop exclude s (out ++ encode_char exclude c)

unfoldable pub encode : Bytes → Bytes → Bytes
unfolding encode_loop encode_char
encode decoded exclude = encode_loop exclude decoded []

ends : Bytes → Bool
ends [] = true
ends (c ∷ s) = false

-- The byte that two hexadecimal digits stand for.
hex_pair : ℕ → ℕ → Option ℕ
unfolding ends from_chars_unsigned
hex_pair a b =
    let r = from_chars_unsigned 16 256 (a ∷ b ∷ []) in if ends r.rest then r.value else none

-- The loop of `decode`; `none` is the early return. `i` moves on by three after an escape.
decode_loop : Bytes → Bytes → Option Bytes
decode_loop [] out = some out
decode_loop (c ∷ []) out = some (out ++ c ∷ [])
decode_loop (c ∷ a ∷ []) out = some (out ++ c ∷ a ∷ [])
decode_loop (c ∷ a ∷ b ∷ s) out = elim (c == b'%') [
  | true ↦ elim (hex_pair a b) [ none ↦ none | some d ↦ decode_loop s (out ++ d ∷ []) ]
  | false ↦ decode_loop (a ∷ b ∷ s) (out ++ c ∷ [])
]

-- A malformed escape empties the result.
abbrev or_empty : Option Bytes → Bytes
or_empty none = []
or_empty (some s) = s

unfoldable pub decode : Bytes → Bytes
unfolding decode_loop hex_pair
decode encoded = or_empty (decode_loop encoded [])
