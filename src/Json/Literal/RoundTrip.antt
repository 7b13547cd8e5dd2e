-- ===== src/Json/Literal/RoundTrip.antt =====
-- `fromStringLiteral` undoes `toStringLiteral`.
use mathlib.Core.Path.{subst}
use native.Mathlib.Decide.{dec_lt, ℕ_discrete}
use lsp_framework.Base.{
  ℕ, ◌/◌, ◌%◌, ◌^◌, ◌<◌, ◌≤◌, ◌≡◌, ◌≢◌, ◌⊎◌, ap, All, refl, sym, ◌∙◌, some, [], ◌∷◌, ◌++◌, Bytes,
  codes, append_assoc, append-nil, arith, inl, inr, lt→ltb,
}
use lsp_framework.Base.Chars.{
  from_chars_unsigned, hex_lookup, digit_value, scan_digits, starts_digit,
}
use lsp_framework.Base.Numbers.{scan_digits_step, scan_digits_stop}
use lsp_framework.Json.Literal.{
  escaped_piece, escape_char, unicode_escape, hex_escape, escape_loop, to_string_literal,
  append_code_point_as_utf8, unescape, literal_piece, unescape_loop, remove_suffix_quote,
  from_string_literal, quote, backslash,
}

digit_value-hex_lookup : (d : ℕ) → d < 16 → digit_value 16 (hex_lookup d) ≡ some d
unfolding digit_value
digit_value-hex_lookup d h = ground arith

scan-hex :
    (c : ℕ)
    → c < 32
    → scan_digits 16 0 (b'0' ∷ b'0' ∷ hex_lookup (c / 16) ∷ hex_lookup (c % 16) ∷ []) ≡ (c, [])
scan-hex c h =
    scan_digits_step 16 0 b'0' 0 0 _ (unfold digit_value in refl) refl
    ∙ scan_digits_step 16 0 b'0' 0 0 _ (unfold digit_value in refl) refl
    ∙ scan_digits_step 16 0 _ (c / 16) (c / 16) _ (digit_value-hex_lookup _ (omega arith))
        (omega arith)
    ∙ scan_digits_step 16 (c / 16) _ (c % 16) c _ (digit_value-hex_lookup _ (omega arith))
        (omega arith)
    ∙ scan_digits_stop 16 c [] (unfold starts_digit in refl)

-- Four hexadecimal digits, two of them zero.
from_chars-hex :
    (c : ℕ)
    → c < 32
    → from_chars_unsigned 16 (2 ^ 32) (b'0' ∷ b'0' ∷ hex_lookup (c / 16) ∷ hex_lookup (c % 16) ∷ [])
      ≡ record { value = some c; rest = [] }
from_chars-hex c h =
    unfold from_chars_unsigned in rw (scan-hex c h) (rw (lt→ltb c (2 ^ 32) (omega arith)))

unicode_escape-control :
    (out : Bytes) (c : ℕ) (t : Bytes)
    → c < 32
    → unicode_escape out (b'0' ∷ b'0' ∷ hex_lookup (c / 16) ∷ hex_lookup (c % 16) ∷ t)
      ≡ (out ++ c ∷ [], 4)
unfolding unicode_escape
unicode_escape-control out c t h =
    rw (from_chars-hex c h) (unfold hex_escape append_code_point_as_utf8 in ground arith)

unescape_loop_step :
    (c skip : ℕ) (s out out' : Bytes)
    → literal_piece out c s ≡ (out', skip)
    → unescape_loop 0 (c ∷ s) out ≡ unescape_loop skip s out'
unfolding unescape_loop
unescape_loop_step c skip s out out' h = rw h

-- The three forms in which a byte is written.
pub data Escaped (c : ℕ) : Bytes → Type 0 where
  short :
      (e : ℕ)
      → e ≢ b'\n'
      → ((out t : Bytes) → unescape out e t ≡ (out ++ c ∷ [], 0))
      → Escaped c (backslash ∷ e ∷ [])
  control : c < 32 → Escaped c (codes "\\u00" ++ hex_lookup (c / 16) ∷ hex_lookup (c % 16) ∷ [])
  plain : 32 ≤ c → c ≢ quote → c ≢ backslash → Escaped c (c ∷ [])

abbrev EscapedAt : ℕ → Type 0
EscapedAt c = Escaped c (escape_char c)

-- The bytes that have a short escape.
abbrev pub shorts : Bytes
shorts = 8 ∷ 9 ∷ 10 ∷ 12 ∷ 13 ∷ quote ∷ backslash ∷ []

EscapedAt-short : All EscapedAt shorts
unfolding escape_char unescape
EscapedAt-short = (
  short b'b' (omega arith) (λ out t. refl),
  (
    short b't' (omega arith) (λ out t. refl),
    (
      short b'n' (omega arith) (λ out t. refl),
      (
        short b'f' (omega arith) (λ out t. refl),
        (
          short b'r' (omega arith) (λ out t. refl),
          (
            short quote (omega arith) (λ out t. refl),
            (short backslash (omega arith) (λ out t. refl), tt),
          ),
        ),
      ),
    ),
  ),
)

escape_char-control :
    (c : ℕ)
    → All (λ d. c ≢ d) shorts
    → c < 32
    → escape_char c ≡ codes "\\u00" ++ hex_lookup (c / 16) ∷ hex_lookup (c % 16) ∷ []
unfolding escape_char
escape_char-control c ne h = ground arith

escape_char-plain : (c : ℕ) → All (λ d. c ≢ d) shorts → 32 ≤ c → escape_char c ≡ c ∷ []
unfolding escape_char
escape_char-plain c ne h = ground arith

-- A number is in a list, or differs from all of it.
find_eq : (P : ℕ → Type 0) (c : ℕ) (l : Bytes) → All P l → P c ⊎ All (λ d. c ≢ d) l
find_eq P c [] h = inr tt
find_eq P c (d ∷ l) (hd, hl) = elim (ℕ_discrete c d) [
  | yes e ↦ inl (subst P (sym e) hd)
  | no ne ↦ elim (find_eq P c l hl) [ inl p ↦ inl p | inr q ↦ inr (ne, q) ]
]

pub escape_char-Escaped : (c : ℕ) → Escaped c (escape_char c)
escape_char-Escaped c = elim (find_eq EscapedAt c shorts EscapedAt-short) [
  | inl p ↦ p
  | inr ne ↦ elim (dec_lt c 32) [
    | yes lt ↦ rw (escape_char-control c ne lt) (control lt)
    | no ge ↦
        rw (escape_char-plain c ne (omega arith))
          (plain (omega arith) (ne.1.1.1.1.1.0) (ne.1.1.1.1.1.1.0))
  ]
]

literal_piece-control :
    (c : ℕ) (t out : Bytes)
    → c < 32
    → literal_piece out backslash
        (b'u' ∷ b'0' ∷ b'0' ∷ hex_lookup (c / 16) ∷ hex_lookup (c % 16) ∷ t)
      ≡ (out ++ c ∷ [], 5)
unfolding literal_piece escaped_piece unescape
literal_piece-control c t out h = rw (unicode_escape-control out c t h)

unescape_loop-Escaped :
    (c : ℕ) (w t out : Bytes)
    → Escaped c w
    → unescape_loop 0 (w ++ t) out ≡ unescape_loop 0 t (out ++ c ∷ [])
unfolding unescape_loop literal_piece escaped_piece
unescape_loop-Escaped c _ t out (short e ne h) = rw (h out t)
unescape_loop-Escaped c _ t out (control lt) =
    unescape_loop_step backslash 5
      (b'u' ∷ b'0' ∷ b'0' ∷ hex_lookup (c / 16) ∷ hex_lookup (c % 16) ∷ t) out (out ++ c ∷ [])
      (literal_piece-control c t out lt)
unescape_loop-Escaped c _ t out (plain ge nq nb) = ground arith

-- What `toStringLiteral` writes between the quotes.
abbrev pub body : Bytes → Bytes
body [] = []
body (c ∷ s) = escape_char c ++ body s

escape_loop-body : (s out : Bytes) → escape_loop s out ≡ out ++ body s
unfolding escape_loop
escape_loop-body [] out = sym (append-nil out)
escape_loop-body (c ∷ s) out = rw (escape_loop-body s) (append_assoc out (escape_char c) (body s))

pub to_string_literal-body : (s : Bytes) → to_string_literal s ≡ quote ∷ (body s ++ quote ∷ [])
unfolding to_string_literal
to_string_literal-body s = rw escape_loop-body refl

unescape_loop-body : (s out : Bytes) → unescape_loop 0 (body s) out ≡ out ++ s
unescape_loop-body [] out = unfold unescape_loop in sym (append-nil out)
unescape_loop-body (c ∷ s) out =
    unescape_loop-Escaped c (escape_char c) (body s) out (escape_char-Escaped c)
    ∙ unescape_loop-body s (out ++ c ∷ [])
    ∙ append_assoc out (c ∷ []) s

remove_suffix_quote-append : (s : Bytes) → remove_suffix_quote (s ++ quote ∷ []) ≡ s
unfolding remove_suffix_quote
remove_suffix_quote-append [] = refl
remove_suffix_quote-append (c ∷ []) = refl
remove_suffix_quote-append (c ∷ d ∷ s) = ap (λ t. c ∷ t) (remove_suffix_quote-append (d ∷ s))

-- Reading a written string literal gives the string back, whatever its bytes.
pub from_string_literal-to_string_literal :
    (s : Bytes) → from_string_literal (to_string_literal s) ≡ s
from_string_literal-to_string_literal s =
    unfold from_string_literal in
    rw (to_string_literal-body s, remove_suffix_quote-append (body s)) (unescape_loop-body s [])
