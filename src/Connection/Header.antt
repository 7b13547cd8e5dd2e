-- ===== src/Connection/Header.antt =====
-- The header of a message (lsp/connection.cpp): `trimWhitespace`, `equalCaseInsensitive`,
-- `verifyContentType` and `parseHeaderValue`.
use lsp_framework.Base.{
  ℕ, ◌^◌, Bool, true, false, not, ◌&&◌, Option, none, some, [], ◌∷◌, ◌++◌, Bytes, codes, bytes_eq,
  ◌==◌, if◌then◌else◌, length, drop, map, ok, err,
}
use lsp_framework.Base.Chars.{is_space, to_lower, from_chars_unsigned}
use lsp_framework.Exceptions.{Exception, Throws, connection_error}

pub record MessageHeader : Type 0 where
  pub content_length : ℕ
  pub content_type : Bytes

abbrev pub default_header : MessageHeader
default_header = record {
  content_length = 0;
  content_type = codes "application/vscode-jsonrpc; charset=utf-8";
}

unfoldable pub trim_front : Bytes → Bytes
trim_front [] = []
trim_front (c ∷ s) = let rest = trim_front s in if is_space c then rest else c ∷ s

abbrev is_nil : Bytes → Bool
is_nil [] = true
is_nil (c ∷ s) = false

unfoldable pub trim_back : Bytes → Bytes
trim_back [] = []
trim_back (c ∷ s) = let rest = trim_back s in if is_nil rest && is_space c then [] else c ∷ rest

unfoldable pub trim_whitespace : Bytes → Bytes
unfolding trim_front trim_back
trim_whitespace s = trim_back (trim_front s)

unfoldable pub equal_case_insensitive : Bytes → Bytes → Bool
equal_case_insensitive lhs rhs = bytes_eq (map to_lower lhs) (map to_lower rhs)

unfoldable pub starts_with : Bytes → Bytes → Bool
starts_with [] s = true
starts_with (d ∷ key) [] = false
starts_with (d ∷ key) (c ∷ s) = c == d && starts_with key s

-- What stands behind the first occurrence of a key.
unfoldable pub behind : Bytes → Bytes → Option Bytes
unfolding starts_with
behind key [] = none
behind key (c ∷ s) =
    let rest = behind key s in
    if starts_with key (c ∷ s) then some (drop (length key) (c ∷ s)) else rest

-- The text in front of the first occurrence of a character, or all of it.
unfoldable pub up_to : ℕ → Bytes → Bytes
up_to d [] = []
up_to d (c ∷ s) = let rest = up_to d s in if c == d then [] else c ∷ rest

unfoldable pub verify_content_type : Bytes → Throws (Unit {0})
unfolding behind starts_with up_to trim_whitespace
verify_content_type content_type =
    if not (starts_with (codes "application/vscode-jsonrpc") content_type)
    then err
        (connection_error (codes "Protocol: Unsupported or invalid content type: " ++ content_type))
    else elim (behind (codes "charset=") content_type) [
      | none ↦ ok tt
      | some rest ↦
          let charset = trim_whitespace (up_to b';' rest) in
          if not (bytes_eq charset (codes "utf-8")) && not (bytes_eq charset (codes "utf8"))
          then err (
              connection_error
                (codes "Protocol: Unsupported or invalid character encoding: " ++ charset))
          else ok tt
    ]

abbrev pub invalid_length : Exception
invalid_length = connection_error (codes "Protocol: Invalid value for Content-Length header field")

-- The assignment for a key and a value; `std::size_t` has 64 bits.
unfoldable pub header_field : MessageHeader → Bytes → Bytes → Throws MessageHeader
unfolding equal_case_insensitive
header_field header key value =
    if equal_case_insensitive key (codes "Content-Length")
    then (let parsed = from_chars_unsigned 10 (2 ^ 64) value in
        elim parsed.value [
          | none ↦ err invalid_length
          | some n ↦
              if not (is_nil parsed.rest)
              then err invalid_length
              else ok (record header { content_length = n })
        ])
    else if equal_case_insensitive key (codes "Content-Type")
    then ok (record header { content_type = value })
    else ok header

-- A line without a colon is passed over.
unfoldable pub parse_header_value : MessageHeader → Bytes → Throws MessageHeader
unfolding behind up_to trim_whitespace header_field
parse_header_value header line = elim (behind (b':' ∷ []) line) [
  | none ↦ ok header
  | some value ↦ header_field header (trim_whitespace (up_to b':' line)) (trim_whitespace value)
]
