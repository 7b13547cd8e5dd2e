-- ===== src/Connection/Frames.antt =====
-- What the reader of lsp/connection.cpp makes of a frame that the writer has written, and of the start of
-- a frame.
use lsp_framework.Base.{
  ℕ, zero, suc, ◌^◌, ◌<◌, ◌≡◌, refl, ap, ◌∙◌, Bool, true, false, not, ◌&&◌, ◌||◌, Bool-cases, inl,
  inr, [], ◌∷◌, ◌++◌, Bytes, codes, ◌==◌, length, drop, drop-length_append, All, All-append,
  append_assoc, ok, err, arith,
}
use lsp_framework.Base.Chars.{to_string_unsigned}
use lsp_framework.Exceptions.{Throws, hangs}
use lsp_framework.Connection.{
  input_reader, carriage_return, newline, eof, peek, get, read, padded, read_line, expect_line_end,
  read_header_fields, read_message_header, read_frame, message_header_string, write_message_data,
}
use lsp_framework.Connection.Header.{default_header}
use lsp_framework.Connection.Lines.{
  IsLineChar, held, read_header_fields-held, read_header_fields-line,
}
use lsp_framework.Connection.Fields.{digit-IsLineChar, digits-All, parse_header_value-length}

padded-append : (content rest : Bytes) → padded (length content) (content ++ rest) ≡ content
padded-append [] rest = refl
padded-append (c ∷ s) rest = ap (λ t. c ∷ t) (padded-append s rest)

read-append :
    (content rest : Bytes)
    → read (length content) (input_reader (content ++ rest)) ≡ (content, input_reader rest)
unfolding read
read-append [] rest = refl
read-append (c ∷ s) rest = rw (padded-append (c ∷ s) rest, drop-length_append (c ∷ s) rest) refl

abbrev is_line : Bytes → Bool
is_line [] = true
is_line (c ∷ s) = not (c == carriage_return) && not (c == newline) && is_line s

is_line-IsLineChar : (s : Bytes) → is_line s ≡ true → All IsLineChar s
is_line-IsLineChar [] h = tt
is_line-IsLineChar (c ∷ s) h = ((ground arith, ground arith), is_line-IsLineChar s (ground arith))

-- The two lines of a header.
abbrev length_line : ℕ → Bytes
length_line n = codes "Content-Length: " ++ to_string_unsigned n

abbrev type_line : Bytes
type_line = codes "Content-Type: application/vscode-jsonrpc; charset=utf-8"

abbrev header_text : ℕ → Bytes → Bytes
header_text n s =
    length_line n
    ++ carriage_return
      ∷ newline
      ∷ (type_line ++ carriage_return ∷ newline ∷ carriage_return ∷ newline ∷ s)

length_line-IsLineChar : (n : ℕ) → All IsLineChar (length_line n)
length_line-IsLineChar n =
    All-append IsLineChar (codes "Content-Length: ") (to_string_unsigned n)
      (is_line-IsLineChar (codes "Content-Length: ") refl)
      (digits-All IsLineChar n digit-IsLineChar)

read_header_fields-header_text :
    (fuel n : ℕ) (s : Bytes)
    → n < 2 ^ 64
    → read_header_fields (suc (suc (suc fuel))) default_header (input_reader (header_text n s))
      ≡ ok (record default_header { content_length = n }, held carriage_return (newline ∷ s))
unfolding read_header_fields peek get
read_header_fields-header_text fuel n s lt =
    let first =
      read_header_fields-line (suc (suc fuel)) default_header b'C' (drop 1 (length_line n))
        (type_line ++ carriage_return ∷ newline ∷ carriage_return ∷ newline ∷ s) refl
        (length_line-IsLineChar n) in
    let second =
      read_header_fields-line (suc fuel) (record default_header { content_length = n }) b'C'
        (drop 1 type_line) (carriage_return ∷ newline ∷ s) refl
        (is_line-IsLineChar type_line refl) in
    first ∙ rw (parse_header_value-length default_header n lt) (second ∙ refl)

read_message_header-header_text :
    (n : ℕ) (s : Bytes)
    → n < 2 ^ 64
    → read_message_header (held b'C' (drop 1 (header_text n s)))
      ≡ ok (record default_header { content_length = n }, input_reader s)
unfolding read_message_header read_header_fields peek get expect_line_end
read_message_header-header_text n s lt =
    let fuel = length (drop 2 (header_text n s)) in
    let fields =
      read_header_fields-held (suc (suc fuel)) default_header b'C' (drop 1 (header_text n s))
      ∙ read_header_fields-header_text fuel n s lt in
    rw fields refl

write_message_data-header_text :
    (content rest : Bytes)
    → write_message_data content ++ rest ≡ header_text (length content) (content ++ rest)
unfolding write_message_data message_header_string
write_message_data-header_text content rest =
    let tail =
      carriage_return
      ∷ newline
      ∷ (type_line ++ carriage_return ∷ newline ∷ carriage_return ∷ newline ∷ []) in
    let digits = to_string_unsigned (length content) in
    rw (append_assoc digits tail content, append_assoc digits (tail ++ content) rest) refl

-- A frame that the writer has written is read back, and no character behind it: the header has the
-- length of the content, which is below 2^64, and the default type, and the content is the same.
pub read_frame-write_message_data :
    (content rest : Bytes)
    → length content < 2 ^ 64
    → read_frame (write_message_data content ++ rest)
      ≡ ok ((record default_header { content_length = length content }, content), rest)
unfolding read_frame peek get
read_frame-write_message_data content rest lt =
    rw
      (
        write_message_data-header_text content rest,
        read_message_header-header_text (length content) (content ++ rest) lt,
        read-append content rest,
      )
      refl

-- A carriage return or a newline is left.
abbrev pub has_line_end : Bytes → Bool
has_line_end [] = false
has_line_end (c ∷ x) = c == carriage_return || c == newline || has_line_end x

-- The rounds were not enough.
abbrev pub still_runs : {A : Type 0} → Throws A → Bool
still_runs (err hangs) = true
still_runs _ = false

read_line-at_end :
    (fuel : ℕ) (line : Bytes) → still_runs (read_line fuel line (input_reader [])) ≡ true
unfolding read_line peek get
read_line-at_end zero line = refl
read_line-at_end (suc fuel) line = read_line-at_end fuel (line ++ eof ∷ [])

-- The loop over a header line, on a stream that leaves the buffer as it is at its end, runs for ever just when
-- neither a carriage return nor a newline is left: then it still runs after every number of rounds
-- above the number of characters that are left, and otherwise it has ended by then.
pub read_line-still_runs :
    (rounds : ℕ) (x line : Bytes)
    → length x < rounds
    → still_runs (read_line rounds line (input_reader x)) ≡ not (has_line_end x)
unfolding read_line peek get
read_line-still_runs rounds [] line lt = read_line-at_end rounds line
read_line-still_runs zero (c ∷ x) line lt = absurd (omega arith)
read_line-still_runs (suc rounds) (c ∷ x) line lt = elim (Bool-cases (c == carriage_return)) [
  | inl cr ↦ rw cr refl
  | inr cr ↦ elim (Bool-cases (c == newline)) [
    | inl lf ↦ rw (cr, lf) refl
    | inr lf ↦ rw (cr, lf) (read_line-still_runs rounds x (line ++ c ∷ []) (omega arith))
  ]
]
