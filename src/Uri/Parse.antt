-- ===== src/Uri/Parse.antt =====
-- `Uri::parse` and `Uri::toString`.
-- `idx` is the local variable of `Uri::parse`; `none` stands for its early `return {}`.
use lsp_framework.Base.{
  ℕ, ◌+◌, ◌≡◌, refl, Bool, true, false, not, ◌&&◌, ◌||◌, Option, none, some, [], ◌∷◌, ◌++◌, Bytes,
  codes, leb, ◌==◌, if◌then◌else◌, length, drop, get_elem?,
}
use lsp_framework.Uri.{
  Uri, empty, is_valid, scheme, authority, path, query, fragment, parse_uri_scheme,
  parse_uri_authority, parse_uri_path, parse_uri_query, part_len, substr, insert_scheme,
  insert_authority, insert_path, insert_query, insert_fragment,
}
use lsp_framework.Uri.Coding.{encode, decode}

unfoldable pub has_char_at : Bytes → ℕ → ℕ → Bool
has_char_at s idx c = elim (get_elem? s idx) [ none ↦ false | some d ↦ d == c ]

-- The last part; the result is the object and the final `idx`.
unfoldable pub parse_fragment : Bytes → ℕ → Uri → Uri × ℕ
parse_fragment s idx u =
    if has_char_at s idx b'#'
    then (insert_fragment (drop (idx + 1) s) u, idx + 1 + length (drop (idx + 1) s))
    else (u, idx)

unfoldable pub parse_query : Bytes → ℕ → Uri → Uri × ℕ
parse_query s idx u =
    let len = parse_uri_query (drop (idx + 1) s) in
    if has_char_at s idx b'?'
    then parse_fragment s (idx + 1 + len) (insert_query (substr s (idx + 1) len) u)
    else parse_fragment s idx u

unfoldable pub parse_path : Bool → Bytes → ℕ → Uri → Option (Uri × ℕ)
parse_path has_authority s idx u =
    let len = parse_uri_path (drop idx s) in
    if leb (length s) idx
    then some (parse_query s idx u)
    else if has_authority && not (has_char_at s idx b'/')
    then none
    else some (parse_query s (idx + len) (insert_path (decode (substr s idx len)) u))

unfoldable pub parse_authority : Bytes → ℕ → Uri → Option (Uri × ℕ)
parse_authority s idx u =
    let len = parse_uri_authority (drop (idx + 2) s) in
    if has_char_at s idx b'/' && has_char_at s (idx + 1) b'/'
    then parse_path true s (idx + 2 + len) (insert_authority (substr s (idx + 2) len) u)
    else parse_path false s idx u

unfoldable pub parse_parts : Bytes → Option (Uri × ℕ)
parse_parts s =
    let len = parse_uri_scheme s in
    if len == 0 || not (has_char_at s len b':')
    then none
    else parse_authority s (len + 1) (insert_scheme (substr s 0 len) empty)

abbrev pub result : Option (Uri × ℕ) → Uri
result none = empty
result (some (u, idx)) = u

unfoldable pub parse : Bytes → Uri
unfolding parse_parts parse_authority parse_path parse_query parse_fragment has_char_at
    parse_uri_scheme parse_uri_authority parse_uri_path parse_uri_query part_len insert_scheme
    insert_authority insert_path insert_query insert_fragment decode
parse s = result (parse_parts s)

pub parse-parse_parts : (s : Bytes) → parse s ≡ result (parse_parts s)
parse-parse_parts s = unfold parse in refl

unfoldable pub to_string : Uri → Bytes
to_string u =
    if not (is_valid u)
    then []
    else scheme u
      ++ (b':'
          ∷ ((if u.has_authority then codes "//" ++ authority u else [])
              ++ (encode (path u) (codes "/")
                  ++ ((if u.has_query then b'?' ∷ query u else [])
                      ++ (if u.has_fragment then b'#' ∷ fragment u else [])))))
