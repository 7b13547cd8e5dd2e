-- ===== src/Connection/Lines.antt =====
-- The lines of a header, as `readMessageHeader` of lsp/connection.cpp takes them from the stream.
use lsp_framework.Base.{
  if◌then◌else◌, ℕ, zero, suc, ◌<◌, ◌≡◌, refl, ap, ◌∙◌, false, some, [], ◌∷◌, ◌++◌, Bytes, ◌==◌,
  length, All, append_assoc, append-nil, ok, err, ◌>>=◌, arith, length-append,
}
use lsp_framework.Exceptions.{Throws}
use lsp_framework.Connection.{
  InputReader, input_reader, carriage_return, newline, eof, peek, get, read_line, expect_line_end,
  line_fuel, read_next_message_header_field, read_header_fields,
}
use lsp_framework.Connection.Header.{MessageHeader, parse_header_value}

-- A character that may stand in a line.
abbrev pub IsLineChar : ℕ → Type 0
IsLineChar c = (c == carriage_return ≡ false) × (c == newline ≡ false)

-- The reader that has peeked at a character.
abbrev pub held : ℕ → Bytes → InputReader
held c s = record { stream = s; peeked = some c }

pub read_line-append :
    (x s line : Bytes) (fuel : ℕ)
    → length x < fuel
    → All IsLineChar x
    → read_line fuel line (input_reader (x ++ carriage_return ∷ s))
      ≡ ok (line ++ x, held carriage_return s)
unfolding read_line peek get
read_line-append x s line zero lt h = absurd (omega arith)
read_line-append [] s line (suc fuel) lt h = rw (append-nil line) refl
read_line-append (c ∷ x) s line (suc fuel) lt ((cr, lf), h) =
    rw
      (
        cr,
        lf,
        read_line-append x s (line ++ c ∷ []) fuel (omega arith) h,
        append_assoc line (c ∷ []) x,
      )
      refl

pub read_line-held :
    (c : ℕ) (t line : Bytes) (fuel : ℕ)
    → read_line fuel line (held c t) ≡ read_line fuel line (input_reader (c ∷ t))
unfolding read_line peek get
read_line-held c t line zero = refl
read_line-held c t line (suc fuel) = refl

abbrev pub with_reader : Bytes → MessageHeader → Throws (MessageHeader × InputReader)
with_reader s header = ok (header, input_reader s)

pub read_next_message_header_field-line :
    (header : MessageHeader) (c : ℕ) (x s : Bytes)
    → c == eof ≡ false
    → All IsLineChar (c ∷ x)
    → read_next_message_header_field header (held c (x ++ carriage_return ∷ newline ∷ s))
      ≡ (parse_header_value header (c ∷ x) >>= with_reader s)
unfolding read_next_message_header_field peek expect_line_end get
read_next_message_header_field-line header c x s ne h =
    let fuel = line_fuel (held c (x ++ carriage_return ∷ newline ∷ s)) in
    let lt : length (c ∷ x) < fuel =
      omega (arith, length-append x (carriage_return ∷ newline ∷ s)) in
    rw
      (
        ne,
        read_line-held c (x ++ carriage_return ∷ newline ∷ s) [] fuel,
        read_line-append (c ∷ x) (newline ∷ s) [] fuel lt h,
      )
      refl

abbrev pub next_fields : ℕ → MessageHeader × InputReader → Throws (MessageHeader × InputReader)
next_fields n (header, r) = read_header_fields n header r

pub bind-with_reader :
    (m : Throws MessageHeader) (s : Bytes) (n : ℕ)
    → (m >>= with_reader s >>= next_fields n)
      ≡ (m >>= λ header. read_header_fields n header (input_reader s))
bind-with_reader (ok header) s n = refl
bind-with_reader (err e) s n = refl

pub read_header_fields-step :
    (n : ℕ) (header : MessageHeader) (c : ℕ) (t : Bytes)
    → c == carriage_return ≡ false
    → read_header_fields (suc n) header (input_reader (c ∷ t))
      ≡ (read_next_message_header_field header (held c t) >>= next_fields n)
unfolding read_header_fields peek get
read_header_fields-step n header c t h =
    ap
      (λ b.
        if b
        then ok (header, held c t)
        else (read_next_message_header_field header (held c t) >>= next_fields n))
      h

pub read_header_fields-held :
    (n : ℕ) (header : MessageHeader) (c : ℕ) (t : Bytes)
    → read_header_fields (suc n) header (held c t)
      ≡ read_header_fields (suc n) header (input_reader (c ∷ t))
unfolding read_header_fields peek get
read_header_fields-held n header c t = refl

-- One round of the loop over the fields.
pub read_header_fields-line :
    (n : ℕ) (header : MessageHeader) (c : ℕ) (x s : Bytes)
    → c == eof ≡ false
    → All IsLineChar (c ∷ x)
    → (read_header_fields (suc n) header (input_reader (c ∷ x ++ carriage_return ∷ newline ∷ s)))
      ≡ (parse_header_value header (c ∷ x) >>= λ header'.
          read_header_fields n header' (input_reader s))
read_header_fields-line n header c x s ne (hc, h) =
    read_header_fields-step n header c (x ++ carriage_return ∷ newline ∷ s) hc.0
    ∙ ap (λ m. m >>= next_fields n) (read_next_message_header_field-line header c x s ne (hc, h))
    ∙ bind-with_reader (parse_header_value header (c ∷ x)) s n
