-- ===== src/Connection/Fields.antt =====
-- `parseHeaderValue` of lsp/connection.cpp on the lines that `messageHeaderString` writes.
use lsp_framework.Base.{
  ℕ, suc, ◌+◌, ◌^◌, ◌<◌, ◌≡◌, refl, sym, ap, ◌∙◌, true, false, some, [], ◌∷◌, ◌++◌, Bytes, codes,
  All, append-nil, ok, arith, lt→ltb,
}
use lsp_framework.Base.Chars.{
  is_space, from_chars_unsigned, to_string_unsigned, scan_digits, starts_digit,
}
use lsp_framework.Base.Numbers.{
  emit_digits-All, starts_digit-to_string_unsigned, scan_digits-to_string,
}
use lsp_framework.Connection.Header.{
  MessageHeader, trim_front, trim_back, trim_whitespace, behind, starts_with, up_to,
  equal_case_insensitive, header_field, parse_header_value,
}
use lsp_framework.Connection.Lines.{IsLineChar}

pub trim_front-plain : (s : Bytes) → All (λ c. is_space c ≡ false) s → trim_front s ≡ s
unfolding trim_front
trim_front-plain [] h = refl
trim_front-plain (c ∷ s) (hc, h) = rw hc refl

pub trim_back-plain : (s : Bytes) → All (λ c. is_space c ≡ false) s → trim_back s ≡ s
unfolding trim_back
trim_back-plain [] h = refl
trim_back-plain (c ∷ []) (hc, h) = rw hc refl
trim_back-plain (c ∷ d ∷ s) (hc, h) = rw (trim_back-plain (d ∷ s) h) refl

pub trim_whitespace-plain :
    (s : Bytes) → All (λ c. is_space c ≡ false) s → trim_whitespace (b' ' ∷ s) ≡ s
unfolding trim_whitespace trim_front
trim_whitespace-plain s h = rw (trim_front-plain s h) (trim_back-plain s h)

pub digit_is_no_space : (d : ℕ) → d < 10 → is_space (b'0' + d) ≡ false
digit_is_no_space d lt = ground arith

pub digit-IsLineChar : (d : ℕ) → d < 10 → IsLineChar (b'0' + d)
digit-IsLineChar d lt = (ground arith, ground arith)

-- The digits of a number, as they stand in the header.
pub digits-All :
    (P : ℕ → Type 0) (n : ℕ) → ((d : ℕ) → d < 10 → P (b'0' + d)) → All P (to_string_unsigned n)
unfolding to_string_unsigned
digits-All P n h = emit_digits-All P h (suc n) n [] (omega arith) tt

pub from_chars_unsigned-to_string :
    (n : ℕ)
    → n < 2 ^ 64
    → from_chars_unsigned 10 (2 ^ 64) (to_string_unsigned n) ≡ record { value = some n; rest = [] }
unfolding from_chars_unsigned
from_chars_unsigned-to_string n lt =
    let starts : starts_digit 10 (to_string_unsigned n) ≡ true =
      sym (ap (starts_digit 10) (append-nil (to_string_unsigned n)))
      ∙ starts_digit-to_string_unsigned n [] in
    let scan : scan_digits 10 0 (to_string_unsigned n) ≡ (n, []) =
      sym (ap (scan_digits 10 0) (append-nil (to_string_unsigned n)))
      ∙ scan_digits-to_string n [] refl in
    rw (starts, scan, lt→ltb n (2 ^ 64) lt) refl

pub parse_header_value-length :
    (header : MessageHeader) (n : ℕ)
    → n < 2 ^ 64
    → parse_header_value header (codes "Content-Length: " ++ to_string_unsigned n)
      ≡ ok (record header { content_length = n })
unfolding parse_header_value behind starts_with up_to trim_whitespace trim_front trim_back
    header_field equal_case_insensitive
parse_header_value-length header n lt =
    let value =
      trim_whitespace-plain (to_string_unsigned n)
        (digits-All (λ c. is_space c ≡ false) n digit_is_no_space) in
    let number = from_chars_unsigned-to_string n lt in rw (value, number, value, number) refl

pub parse_header_value-type :
    (header : MessageHeader)
    → parse_header_value header (codes "Content-Type: application/vscode-jsonrpc; charset=utf-8")
      ≡ ok (record header { content_type = codes "application/vscode-jsonrpc; charset=utf-8" })
unfolding parse_header_value behind starts_with up_to trim_whitespace trim_front trim_back
    header_field equal_case_insensitive
parse_header_value-type header = refl
