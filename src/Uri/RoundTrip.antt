-- ===== src/Uri/RoundTrip.antt =====
-- `Uri::parse` undoes `Uri::toString` on the objects whose parts are canonical.
use mathlib.Core.List.{cons-ne-nil}
use lsp_framework.Base.{
  drop-add, ℕ, ◌+◌, ◌<◌, ◌≡◌, ◌≢◌, refl, Bool, true, false, ◌&&◌, Option, none, some, [], ◌∷◌, ◌++◌,
  Bytes, codes, ◌==◌, if◌then◌else◌, length, drop, arith, take-length_append, drop-length_append,
  lt→ltb, length-take,
}
use lsp_framework.Uri.{
  Uri, empty, ends_scheme, ends_authority, parse_uri_scheme, parse_uri_authority, is_valid, scheme,
  authority, query, fragment,
}
use lsp_framework.Uri.Coding.{encode, encode_char}
use lsp_framework.Uri.Coding.Inverse.{encoded, encode-encoded}
use lsp_framework.Uri.Parse.{
  has_char_at, parse_authority, parse_parts, parse, parse-parse_parts, result, to_string,
}
use lsp_framework.Uri.Scan.{Stops, part_len_front}
use lsp_framework.Uri.View.{View, view, when, IsFor, IsFor-view, IsFor-unique, IsWellFormed}
use lsp_framework.Uri.Canonical.{
  insert_scheme-IsFor, insert_authority-IsFor, head_is, two_slashes, IsPart, PathFollows,
  IsCanonical,
}
use lsp_framework.Uri.Steps.{has_char_at-drop, drop_after, marked, parse_path-IsFor}

head-encoded : (p r : Bytes) → head_is b'/' (encoded (codes "/") p ++ r) ≡ head_is b'/' (p ++ r)
head-encoded [] r = refl
head-encoded (c ∷ p) r = unfold encode_char in ground arith

two_slashes-encoded :
    (p r : Bytes) → two_slashes (encoded (codes "/") p ++ r) ≡ two_slashes (p ++ r)
two_slashes-encoded [] r = refl
two_slashes-encoded (c ∷ p) r = let e = head-encoded p r in unfold encode_char in ground (arith, e)

-- What follows the scheme and its colon.
abbrev authority_text : Option Bytes → Bytes
authority_text none = []
authority_text (some a) = codes "//" ++ a

abbrev path_text : View → Bytes
path_text v = encode v.path (codes "/") ++ (marked b'?' v.query ++ marked b'#' v.fragment)

-- The text of the parts, as RFC 3986 puts them together.
abbrev pub render : View → Bytes
render v = v.scheme ++ (b':' ∷ (authority_text v.authority ++ path_text v))

-- The text behind an authority is empty or begins with a slash.
follows_slash :
    (a : Bytes) (p : Bytes) (q f : Option Bytes)
    → PathFollows (some a) p q f
    → encode p (codes "/") ++ (marked b'?' q ++ marked b'#' f) ≢ []
    → head_is b'/' (encode p (codes "/") ++ (marked b'?' q ++ marked b'#' f)) ≡ true
follows_slash a [] q f (eq, ef) ne = absurd (ne (rw (encode-encoded [] (codes "/"), eq, ef) refl))
follows_slash a (c ∷ p) q f e ne =
    rw (encode-encoded (c ∷ p) (codes "/"), head-encoded (c ∷ p) _, e) refl

Stops-slash : (s : Bytes) → (s ≢ [] → head_is b'/' s ≡ true) → Stops ends_authority s
Stops-slash [] h = tt
Stops-slash (c ∷ s) h = let e = h (cons-ne-nil c s) in ground arith

two_slashes-tail :
    (p : Bytes) (q f : Option Bytes)
    → two_slashes (p ++ (marked b'?' q ++ marked b'#' f)) ≡ two_slashes p
two_slashes-tail [] none none = refl
two_slashes-tail [] none (some f) = refl
two_slashes-tail [] (some q) f = refl
two_slashes-tail (c ∷ []) none none = refl
two_slashes-tail (c ∷ []) none (some f) = refl
two_slashes-tail (c ∷ []) (some q) f = refl
two_slashes-tail (c ∷ d ∷ p) q f = refl

no_authority : (v : View) → two_slashes v.path ≡ false → two_slashes (path_text v) ≡ false
no_authority v h =
    rw
      (
        encode-encoded v.path (codes "/"),
        two_slashes-encoded v.path (marked b'?' v.query ++ marked b'#' v.fragment),
        two_slashes-tail v.path v.query v.fragment,
      )
      h

two_chars :
    (s : Bytes) (idx : ℕ) (x : Bytes)
    → drop idx s ≡ x
    → (has_char_at s idx b'/' && has_char_at s (idx + 1) b'/') ≡ two_slashes x
two_chars s idx x h =
    rw (has_char_at-drop s idx b'/', has_char_at-drop s (idx + 1) b'/', drop-add idx 1 s, h)

module _ (s : Bytes) (idx : ℕ) {u : Uri} (v : View) (k : IsCanonical v) where
  parse_authority-IsFor :
      (a : Option Bytes)
      → v.authority ≡ a
      → IsFor u
          (record { scheme = v.scheme; authority = none; path = []; query = none; fragment = none })
      → drop idx s ≡ authority_text a ++ path_text v
      → IsPart ends_authority a
      → PathFollows a v.path v.query v.fragment
      → IsFor (result (parse_authority s idx u)) (record v { authority = a })
  unfolding parse_authority
  parse_authority-IsFor none e r h ka follows =
      rw (two_chars s idx _ h, no_authority v follows)
        (parse_path-IsFor s false idx v.path v.query v.fragment r refl refl refl k.path_bytes
          k.path_fits k.path_fits_encoded k.query_part k.fragment_part h (λ b. cc))
  parse_authority-IsFor (some a) e r h ka follows =
      let after = drop_after s idx (codes "//") (a ++ path_text v) h in
      let slash = follows_slash a v.path v.query v.fragment follows in
      let len : parse_uri_authority (a ++ path_text v) ≡ length a =
        unfold parse_uri_authority in
        part_len_front ends_authority a (path_text v) ka.1 (Stops-slash _ slash) ka.0 in
      rw (two_chars s idx _ h, after, len, take-length_append a (path_text v))
        (parse_path-IsFor s true (idx + 2 + length a) v.path v.query v.fragment
          (rw ka.2 at (insert_authority-IsFor r a ka.0)) refl refl refl k.path_bytes k.path_fits
          k.path_fits_encoded k.query_part k.fragment_part
          (drop_after s (idx + 2) a (path_text v) after) (λ b. slash))

empty-IsFor :
    IsFor empty (record { scheme = []; authority = none; path = []; query = none; fragment = none })
empty-IsFor = record {
  holds = record {
    layout = record {
      whole = refl;
      at_scheme = refl;
      at_authority = refl;
      at_path = refl;
      at_query = refl;
      at_fragment = refl;
    };
    authority_flag = λ e. refl;
    query_flag = λ e. refl;
    fragment_flag = λ e. refl;
  };
  with_authority = refl;
  with_query = refl;
  with_fragment = refl;
}

ne_zero : (n : ℕ) → 0 < n → (n == 0) ≡ false
ne_zero n h = ground arith

parse-render-IsFor : (v : View) → IsCanonical v → IsFor (parse (render v)) v
parse-render-IsFor v k =
    let rest = authority_text v.authority ++ path_text v in
    let len : parse_uri_scheme (v.scheme ++ (b':' ∷ rest)) ≡ length v.scheme =
      unfold parse_uri_scheme in
      part_len_front ends_scheme v.scheme (b':' ∷ rest) k.scheme_chars refl k.scheme_fits in
    unfold parse_parts in
    rw
      (
        parse-parse_parts (render v),
        len,
        ne_zero _ k.scheme_nonempty,
        has_char_at-drop (render v) (length v.scheme) b':',
        drop-length_append v.scheme (b':' ∷ rest),
        take-length_append v.scheme (b':' ∷ rest),
      )
      (parse_authority-IsFor (render v) (length v.scheme + 1) v k v.authority refl
        (rw k.scheme_lower at (insert_scheme-IsFor empty-IsFor v.scheme k.scheme_fits))
        (drop_after (render v) (length v.scheme) (b':' ∷ []) rest
          (drop-length_append v.scheme (b':' ∷ rest)))
        k.authority_part k.path_follows)

if-marked : (b : Bool) (c : ℕ) (s : Bytes) → (if b then c ∷ s else []) ≡ marked c (when b s)
if-marked true c s = refl
if-marked false c s = refl

if-authority_text :
    (b : Bool) (s : Bytes) → (if b then codes "//" ++ s else []) ≡ authority_text (when b s)
if-authority_text true s = refl
if-authority_text false s = refl

-- The printed text is the scheme, a colon, the authority behind two slashes, the encoded path, the
-- query behind `?` and the fragment behind `#`, each optional part only where it is present.
pub to_string-render : (u : Uri) → is_valid u ≡ true → to_string u ≡ render (view u)
unfolding view
to_string-render u h =
    unfold to_string in
    rw (
      h,
      if-authority_text u.has_authority (authority u),
      if-marked u.has_query b'?' (query u),
      if-marked u.has_fragment b'#' (fragment u),
    )

pub is_valid-IsCanonical : (u : Uri) → IsCanonical (view u) → is_valid u ≡ true
unfolding view
is_valid-IsCanonical u k =
    let some_char : 0 < length (scheme u) = k.scheme_nonempty in
    unfold is_valid scheme in lt→ltb 0 _ (omega (arith, length-take u.scheme_len u.text))

-- Parsing the print of a well-formed object with canonical parts gives the same object back, every
-- field and the whole buffer.
pub parse-to_string : (u : Uri) → IsWellFormed u → IsCanonical (view u) → parse (to_string u) ≡ u
parse-to_string u w k =
    rw (to_string-render u (is_valid-IsCanonical u k))
      (IsFor-unique (parse-render-IsFor (view u) k) (IsFor-view w))
