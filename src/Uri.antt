-- ===== src/Uri.antt =====
-- lsp/uri.cpp and lsp/uri.h: one buffer `data` with the lengths of its five parts.
-- The platform is not Windows; `std::filesystem::absolute` is a parameter of `file_uri_from_path`.
pub mod Coding
pub mod Parse
pub mod Layout
pub mod Scan
pub mod View
pub mod Setters
pub mod Canonical
pub mod Steps
pub mod RoundTrip
pub mod Parsed
pub mod Refines
pub mod Sample
mod Tests
use lsp_framework.Base.{
  ℕ, zero, suc, ◌+◌, ◌%◌, ◌^◌, Bool, true, false, not, ◌&&◌, ◌||◌, Option, none, some, List, [],
  ◌∷◌, ◌++◌, Bytes, codes, bytes_eq, ltb, ◌==◌, if◌then◌else◌, length, take, drop, min, map,
}
use lsp_framework.Base.Chars.{is_digit, is_alpha, is_alnum, to_lower, to_upper}

-- A `std::uint16_t` that a size is cast to.
abbrev pub u16 : ℕ → ℕ
u16 n = n % 2 ^ 16

-- The loop of the four functions below: the characters before the first that ends the part.
-- `++len` wraps around in 16 bits.
unfoldable pub part_len : (ℕ → Bool) → Bytes → ℕ → ℕ
part_len ends [] len = len
part_len ends (c ∷ s) len =
    let rest = part_len ends s (u16 (len + 1)) in if ends c then len else rest

abbrev pub ends_scheme : ℕ → Bool
ends_scheme c = not (is_alnum c) && not (c == b'-') && not (c == b'.') && not (c == b'+')

abbrev pub ends_authority : ℕ → Bool
ends_authority c = c == b'/' || c == b'?' || c == b'#'

abbrev pub ends_path : ℕ → Bool
ends_path c = c == b'?' || c == b'#'

abbrev pub ends_query : ℕ → Bool
ends_query c = c == b'#'

unfoldable pub parse_uri_scheme : Bytes → ℕ
parse_uri_scheme s = part_len ends_scheme s 0

unfoldable pub parse_uri_authority : Bytes → ℕ
parse_uri_authority s = part_len ends_authority s 0

unfoldable pub parse_uri_path : Bytes → ℕ
parse_uri_path s = part_len ends_path s 0

unfoldable pub parse_uri_query : Bytes → ℕ
parse_uri_query s = part_len ends_query s 0

-- The loop of `normalizeEncodedCase` inside [first, end): `i` moves on by three after an escape.
unfoldable pub normalize_escapes : Bytes → Bytes
normalize_escapes [] = []
normalize_escapes (c ∷ []) = c ∷ []
normalize_escapes (c ∷ a ∷ []) = c ∷ a ∷ []
normalize_escapes (c ∷ a ∷ b ∷ s) = elim (c == b'%') [
  | true ↦ c ∷ to_upper a ∷ to_upper b ∷ normalize_escapes s
  | false ↦ c ∷ normalize_escapes (a ∷ b ∷ s)
]

unfoldable pub normalize_encoded_case : Bytes → ℕ → ℕ → Bytes
unfolding normalize_escapes
normalize_encoded_case str first count =
    take first str
    ++ (normalize_escapes (take count (drop first str)) ++ drop count (drop first str))

-- std::string::replace of [pos, pos + count)
abbrev pub replace : Bytes → ℕ → ℕ → Bytes → Bytes
replace str at count s = take at str ++ (s ++ drop count (drop at str))

-- std::string_view::substr
abbrev pub substr : Bytes → ℕ → ℕ → Bytes
substr s at count = take count (drop at s)

pub record Uri : Type 0 where
  pub text : Bytes
  pub scheme_len : ℕ
  pub authority_len : ℕ
  pub path_len : ℕ
  pub query_len : ℕ
  pub fragment_len : ℕ
  pub has_authority : Bool
  pub has_query : Bool
  pub has_fragment : Bool

-- The default constructor.
abbrev pub empty : Uri
empty = record {
  text = [];
  scheme_len = 0;
  authority_len = 0;
  path_len = 0;
  query_len = 0;
  fragment_len = 0;
  has_authority = false;
  has_query = false;
  has_fragment = false;
}

unfoldable pub is_valid : Uri → Bool
is_valid u = ltb 0 u.scheme_len

unfoldable pub scheme : Uri → Bytes
scheme u = substr u.text 0 u.scheme_len

unfoldable pub authority : Uri → Bytes
authority u = if not u.has_authority then [] else substr u.text u.scheme_len u.authority_len

unfoldable pub path : Uri → Bytes
path u = substr u.text (u.scheme_len + u.authority_len) u.path_len

unfoldable pub query : Uri → Bytes
query u =
    if not u.has_query
    then []
    else substr u.text (u.scheme_len + u.authority_len + u.path_len) u.query_len

unfoldable pub fragment : Uri → Bytes
fragment u =
    if not u.has_fragment
    then []
    else substr u.text (u.scheme_len + u.authority_len + u.path_len + u.query_len) u.fragment_len

abbrev pub file_scheme : Bytes
file_scheme = codes "file"

unfoldable pub is_file_uri : Uri → Bool
unfolding scheme
is_file_uri u = bytes_eq (scheme u) file_scheme

-- The loop lowers the first `m_schemeLen` characters of the new text.
unfoldable pub insert_scheme : Bytes → Uri → Uri
insert_scheme s u =
    let replaced = replace u.text 0 u.scheme_len s in
    let len = u16 (length s) in
    record u { text = map to_lower (take len replaced) ++ drop len replaced; scheme_len = len }

unfoldable pub insert_authority : Bytes → Uri → Uri
unfolding normalize_encoded_case
insert_authority s u =
    let replaced = replace u.text u.scheme_len u.authority_len s in
    let len = u16 (length s) in
    record u {
      text = normalize_encoded_case replaced u.scheme_len len;
      authority_len = len;
      has_authority = true;
    }

unfoldable pub insert_path : Bytes → Uri → Uri
insert_path s u = record u {
  text = replace u.text (u.scheme_len + u.authority_len) u.path_len s;
  path_len = u16 (length s);
}

unfoldable pub insert_query : Bytes → Uri → Uri
unfolding normalize_encoded_case
insert_query s u =
    let at = u.scheme_len + u.authority_len + u.path_len in
    let replaced = replace u.text at u.query_len s in
    let len = u16 (length s) in
    record u { text = normalize_encoded_case replaced at len; query_len = len; has_query = true }

unfoldable pub insert_fragment : Bytes → Uri → Uri
unfolding normalize_encoded_case
insert_fragment s u =
    let at = u.scheme_len + u.authority_len + u.path_len + u.query_len in
    let replaced = replace u.text at u.fragment_len s in
    let len = u16 (length s) in
    record u {
      text = normalize_encoded_case replaced at len;
      fragment_len = len;
      has_fragment = true;
    }

-- A setter returns the new object and whether it has accepted the text.
unfoldable pub set_scheme : Bytes → Uri → Uri × Bool
set_scheme s u = if parse_uri_scheme s == length s then (insert_scheme s u, true) else (u, false)

unfoldable pub set_authority : Bytes → Uri → Uri × Bool
set_authority s u =
    if parse_uri_authority s == length s then (insert_authority s u, true) else (u, false)

unfoldable pub set_path : Bytes → Uri → Uri × Bool
set_path s u = (insert_path s u, true)

unfoldable pub set_query : Bytes → Uri → Uri × Bool
set_query s u = if parse_uri_query s == length s then (insert_query s u, true) else (u, false)

unfoldable pub set_fragment : Bytes → Uri → Uri × Bool
set_fragment s u = (insert_fragment s u, true)

unfoldable pub remove_authority : Uri → Uri
remove_authority u = record (insert_authority [] u) { has_authority = false }

unfoldable pub remove_query : Uri → Uri
remove_query u = record (insert_query [] u) { has_query = false }

unfoldable pub remove_fragment : Uri → Uri
remove_fragment u = record (insert_fragment [] u) { has_fragment = false }

-- `absolute` stands for std::filesystem::absolute.
unfoldable pub file_uri_from_path : (Bytes → Bytes) → Bytes → Uri
file_uri_from_path absolute p =
    (set_path (absolute p) (set_authority [] (set_scheme file_scheme empty).0).0).0

-- The assertion that the URI is a file URI is off in a release build.
unfoldable pub fs_path : Uri → Bytes
unfolding path
fs_path u = path u
