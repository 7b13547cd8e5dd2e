-- ===== src/Uri/Tests.antt =====
-- lsp/uri.cpp on concrete texts.
use lsp_framework.Base.{
  ◌≡◌, refl, true, none, some, codes, arith, map, if◌then◌else◌, List, [], ◌∷◌,
}
use lsp_framework.Base.Chars.{to_lower}
use lsp_framework.Uri.{
  empty, normalize_escapes, is_valid, set_scheme, set_authority, set_path, set_query, set_fragment,
  remove_authority, remove_query, remove_fragment, ends_scheme, ends_authority, ends_query, scheme,
  authority, path, query, fragment,
}
use lsp_framework.Uri.Refines.{Call, no_authority, Agrees, calls, calls_view, calls-Agrees}
use lsp_framework.Uri.Sample.{address, address-IsWellFormed, address-IsCanonical}
use lsp_framework.Uri.Coding.{encode, decode}
use lsp_framework.Uri.Coding.Inverse.{decode-encode}
use lsp_framework.Uri.Parse.{parse, parse_parts, to_string}
use lsp_framework.Uri.Scan.{free}
use lsp_framework.Uri.View.{view}
use lsp_framework.Uri.Setters.{
  StandsFor, set_scheme_lem, set_authority_lem, set_query_lem, set_path-set_fragment, removers,
}
use lsp_framework.Uri.RoundTrip.{parse-to_string}
use lsp_framework.Uri.Parsed.{GoodOrRefused, parse_parts-Good}

decode-encode_example : decode (encode (codes "a b/c%") (codes "/")) ≡ codes "a b/c%"
unfolding encode
decode-encode_example = decode-encode (codes "/") refl (codes "a b/c%") (omega arith)

parse-to_string_example : parse (to_string address) ≡ address
parse-to_string_example = parse-to_string address address-IsWellFormed address-IsCanonical

set_scheme_lem_example :
    ((set_scheme (codes "FILE") address).1 ≡ free ends_scheme (codes "FILE"))
    × StandsFor (set_scheme (codes "FILE") address).0 (
        if free ends_scheme (codes "FILE")
        then record (view address) { scheme = map to_lower (codes "FILE") }
        else view address)
set_scheme_lem_example = set_scheme_lem address address-IsWellFormed (codes "FILE") (omega arith)

set_authority_lem_example :
    ((set_authority (codes "a/b") address).1 ≡ free ends_authority (codes "a/b"))
    × StandsFor (set_authority (codes "a/b") address).0 (
        if free ends_authority (codes "a/b")
        then record (view address) { authority = some (normalize_escapes (codes "a/b")) }
        else view address)
set_authority_lem_example =
    set_authority_lem address address-IsWellFormed (codes "a/b") (omega arith)

set_query_lem_run :
    ((set_query (codes "a=%2f") address).1 ≡ free ends_query (codes "a=%2f"))
    × StandsFor (set_query (codes "a=%2f") address).0 (
        if free ends_query (codes "a=%2f")
        then record (view address) { query = some (normalize_escapes (codes "a=%2f")) }
        else view address)
set_query_lem_run = set_query_lem address address-IsWellFormed (codes "a=%2f") (omega arith)

set_path-set_fragment_run :
    ((set_path (codes "/c") address).1 ≡ true)
    × StandsFor (set_path (codes "/c") address).0 (record (view address) { path = codes "/c" })
    × ((set_fragment (codes "/c") address).1 ≡ true)
    × StandsFor
        (set_fragment (codes "/c") address).0
        (record (view address) { fragment = some (normalize_escapes (codes "/c")) })
set_path-set_fragment_run =
    set_path-set_fragment address address-IsWellFormed (codes "/c") (omega arith)

removers_run :
    StandsFor (remove_authority address) (record (view address) { authority = none })
    × StandsFor (remove_query address) (record (view address) { query = none })
    × StandsFor (remove_fragment address) (record (view address) { fragment = none })
removers_run = removers address address-IsWellFormed

parse_parts-Good_example : GoodOrRefused (codes "a:b") (parse_parts (codes "a:b"))
parse_parts-Good_example = parse_parts-Good (codes "a:b") (omega arith)

round : to_string (parse (codes "HTTP://h%6a/a%20b?x=%2f#f")) ≡ codes "http://h%6A/a%20b?x=%2F#f"
unfolding parse to_string is_valid scheme authority path query fragment encode
round = refl

-- An authority directly followed by a query is refused.
no_path : parse (codes "http://h?x") ≡ empty
unfolding parse
no_path = refl

decode_run : decode (codes "a%20%4f%7") ≡ codes "a O%7"
unfolding decode
decode_run = refl

encode_run : encode (codes "/a b~") (codes "/") ≡ codes "/a%20b%7E"
unfolding encode
encode_run = refl

abbrev client : List Call
client = Call.query (codes "a#b") ∷ no_authority ∷ Call.path (codes "/c") ∷ []

calls-Agrees_example : Agrees (calls client address) (calls_view client (view address))
calls-Agrees_example =
    calls-Agrees client address (view address) (address-IsWellFormed, refl)
      (omega arith, (tt, (omega arith, tt)))
