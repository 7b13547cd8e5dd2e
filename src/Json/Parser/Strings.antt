-- ===== src/Json/Parser/Strings.antt =====
-- `parseString` on a string literal as `toStringLiteral` writes it.
use lsp_framework.Base.{
  ℕ, ◌+◌, ◌/◌, ◌%◌, ◌<◌, ◌≡◌, ◌≢◌, refl, sym, ap, ◌∙◌, false, [], ◌∷◌, ◌++◌, Bytes, append_assoc,
  append-nil, arith, ok,
}
use lsp_framework.Base.Chars.{hex_lookup}
use lsp_framework.Json.Literal.{
  to_string_literal, from_string_literal, quote, backslash, escape_char,
}
use lsp_framework.Json.Literal.RoundTrip.{
  Escaped, short, control, plain, body, escape_char-Escaped, to_string_literal-body,
  from_string_literal-to_string_literal,
}
use lsp_framework.Json.Parser.Tokens.{scan_string, parse_string}

scan_string_step :
    (c : ℕ) (t : Bytes) (at : ℕ) (token : Bytes)
    → c ≢ b'\n'
    → c ≢ quote
    → c ≢ backslash
    → scan_string false (c ∷ t) at token ≡ scan_string false t (at + 1) (token ++ c ∷ [])
unfolding scan_string
scan_string_step c t at token nl nq nb = ground arith

scan_string_escape :
    (e : ℕ) (t : Bytes) (at : ℕ) (token : Bytes)
    → e ≢ b'\n'
    → scan_string false (backslash ∷ e ∷ t) at token
      ≡ scan_string false t (at + 1 + 1) ((token ++ backslash ∷ []) ++ e ∷ [])
unfolding scan_string
scan_string_escape e t at token ne = ground arith

scan_string_end :
    (t : Bytes) (at : ℕ) (token : Bytes)
    → scan_string false (quote ∷ t) at token
      ≡ ok (record { token = token ++ quote ∷ []; rest = t; at = at + 1 })
unfolding scan_string
scan_string_end t at token = refl

-- The loop reads on over a text, wherever it stands.
Passes : Bytes → Bytes → Type 0
Passes w t =
    (at : ℕ) (token : Bytes)
    → (at' : ℕ) × (scan_string false (w ++ t) at token ≡ scan_string false t at' (token ++ w))

Passes-append : (v w t : Bytes) → Passes v (w ++ t) → Passes w t → Passes (v ++ w) t
unfolding Passes
Passes-append v w t hv hw at token =
    let (at1, e1) = hv at token in
    let (at2, e2) = hw at1 (token ++ v) in
    (at2, rw (append_assoc v w t, e1, e2, append_assoc token v w))

Passes-plain : (c : ℕ) (t : Bytes) → c ≢ b'\n' → c ≢ quote → c ≢ backslash → Passes (c ∷ []) t
unfolding Passes
Passes-plain c t nl nq nb at token = (at + 1, scan_string_step c t at token nl nq nb)

Passes-escape : (e : ℕ) (t : Bytes) → e ≢ b'\n' → Passes (backslash ∷ e ∷ []) t
unfolding Passes
Passes-escape e t ne at token = (
  at + 1 + 1,
  rw (scan_string_escape e t at token ne, append_assoc token (backslash ∷ []) (e ∷ [])),
)

Passes-hex : (d : ℕ) (t : Bytes) → d < 16 → Passes (hex_lookup d ∷ []) t
Passes-hex d t h = Passes-plain (hex_lookup d) t (ground arith) (ground arith) (ground arith)

Passes-Escaped : (c : ℕ) (w t : Bytes) → Escaped c w → Passes w t
Passes-Escaped c _ t (short e ne h) = Passes-escape e t ne
Passes-Escaped c _ t (control lt) =
    Passes-append (backslash ∷ b'u' ∷ [])
      (b'0' ∷ b'0' ∷ hex_lookup (c / 16) ∷ hex_lookup (c % 16) ∷ []) t
      (Passes-escape b'u' _ (omega arith))
      (Passes-append (b'0' ∷ []) (b'0' ∷ hex_lookup (c / 16) ∷ hex_lookup (c % 16) ∷ []) t
        (Passes-plain b'0' _ (omega arith) (omega arith) (omega arith))
        (Passes-append (b'0' ∷ []) (hex_lookup (c / 16) ∷ hex_lookup (c % 16) ∷ []) t
          (Passes-plain b'0' _ (omega arith) (omega arith) (omega arith))
          (Passes-append (hex_lookup (c / 16) ∷ []) (hex_lookup (c % 16) ∷ []) t
            (Passes-hex (c / 16) _ (omega arith)) (Passes-hex (c % 16) t (omega arith)))))
Passes-Escaped c _ t (plain ge nq nb) = Passes-plain c t (omega arith) nq nb

Passes-body : (s t : Bytes) → Passes (body s) t
Passes-body [] t = unfold Passes in λ at token. (at, rw append-nil)
Passes-body (c ∷ s) t =
    Passes-append (escape_char c) (body s) t
      (Passes-Escaped c (escape_char c) (body s ++ t) (escape_char-Escaped c)) (Passes-body s t)

-- A written literal in front of any text is read as its string, and the text is left.
pub parse_string-to_string_literal :
    (s rest : Bytes) (at : ℕ)
    → (at' : ℕ) × (parse_string (to_string_literal s ++ rest) at
        ≡ ok (record { token = s; rest = rest; at = at' }))
unfolding Passes parse_string
parse_string-to_string_literal s rest at =
    let (at1, e) = Passes-body s (quote ∷ rest) (at + 1) (quote ∷ []) in
    let same : from_string_literal (quote ∷ (body s ++ quote ∷ [])) ≡ s =
      ap from_string_literal (sym (to_string_literal-body s))
      ∙ from_string_literal-to_string_literal s in
    (
      at1 + 1,
      rw
          (
            to_string_literal-body s,
            append_assoc (body s) (quote ∷ []) rest,
            e,
            scan_string_end rest,
          )
          (ap (λ v. ok (record { token = v; rest = rest; at = at1 + 1 })) same),
    )
