-- ===== src/Uri/Parsed.antt =====
-- What `Uri::parse` gives for any text whose length fits in 16 bits.
use lsp_framework.Base.{
  ℕ, zero, suc, ◌+◌, ◌<◌, ◌≤◌, ◌≡◌, refl, ap, Bool, true, false, not, ◌&&◌, ◌||◌, Option, none,
  some, [], ◌∷◌, Bytes, ◌==◌, leb, length, drop, arith, length-take, length-drop, length-append,
  Bool-cases, inl, inr,
}
use lsp_framework.Uri.{
  Uri, empty, substr, part_len, ends_scheme, ends_authority, ends_path, ends_query,
  parse_uri_scheme, parse_uri_authority, parse_uri_path, parse_uri_query,
}
use lsp_framework.Uri.Coding.Inverse.{length-decode}
use lsp_framework.Uri.Parse.{
  has_char_at, parse_fragment, parse_query, parse_path, parse_authority, parse_parts, parse, result,
  parse-parse_parts,
}
use lsp_framework.Uri.Layout.{Fits}
use lsp_framework.Uri.Scan.{Stops, part_len_split}
use lsp_framework.Uri.Canonical.{head_is}
use lsp_framework.Uri.Steps.{has_char_at-drop, drop_after}
use lsp_framework.Uri.View.{IsWellFormed}
use lsp_framework.Uri.Setters.{
  insert_scheme-StandsFor, insert_authority-StandsFor, insert_path-StandsFor,
  insert_query-StandsFor, insert_fragment-StandsFor,
}

has_char_at-lt : (s : Bytes) (idx c : ℕ) → has_char_at s idx c ≡ true → idx < length s
unfolding has_char_at
has_char_at-lt [] zero c h = cc
has_char_at-lt [] (suc idx) c h = cc
has_char_at-lt (d ∷ s) zero c h = omega arith
has_char_at-lt (d ∷ s) (suc idx) c h = omega (arith, has_char_at-lt s idx c h)

-- A part measured from `idx` ends inside the text, at its end or at a character that ends it.
module _ (ends : ℕ → Bool) (s : Bytes) (idx : ℕ) (fits : Fits s) (inside : idx ≤ length s) where
  measured :
      let len = part_len ends (drop idx s) 0 in
      (idx + len ≤ length s) × Stops ends (drop (idx + len) s)
  measured =
      let (x, rest, whole, len, stops) =
        part_len_split ends (drop idx s) (omega (arith, length-drop idx s)) in
      let total = length-append x rest in
      rw (len, drop_after s idx x rest whole)
        (omega (arith, total, length-drop idx s, ap (λ (t : Bytes). length t) whole), stops)

-- The object is well formed, and `idx` has reached the end of the text.
abbrev pub Good : Bytes → Uri × ℕ → Type 0
Good s (u, idx) = IsWellFormed u × (idx ≡ length s)

nothing_left : (x : Bytes) → Stops ends_query x → head_is b'#' x ≡ false → length x ≡ 0
nothing_left [] h e = refl
nothing_left (c ∷ x) h e = ground arith

abbrev pub GoodOrRefused : Bytes → Option (Uri × ℕ) → Type 0
GoodOrRefused s none = Unit
GoodOrRefused s (some r) = Good s r

Stops-at_end : (x : Bytes) → length x ≡ 0 → Stops ends_path x
Stops-at_end [] h = tt
Stops-at_end (c ∷ x) h = absurd (omega arith)

Fits-le : (x y : Bytes) → length x ≤ length y → Fits y → Fits x
Fits-le x y h k = omega arith

and_right : (a b : Bool) → (a && b) ≡ true → b ≡ true
and_right a b h = ground arith

colon_there : (a b : Bool) → (a || not b) ≡ false → b ≡ true
colon_there a b h = ground arith

empty-IsWellFormed : IsWellFormed empty
empty-IsWellFormed = record {
  total = refl;
  no_authority = λ e. refl;
  no_query = λ e. refl;
  no_fragment = λ e. refl;
}

from_good : (s : Bytes) (o : Option (Uri × ℕ)) → GoodOrRefused s o → IsWellFormed (result o)
from_good s none g = empty-IsWellFormed
from_good s (some r) g = g.0

Fits-substr : (s : Bytes) (at n : ℕ) → Fits s → Fits (substr s at n)
Fits-substr s at n h = omega (arith, length-take n (drop at s), length-drop at s)

module _ (s : Bytes) (fits : Fits s) where
  parse_fragment-Good :
      (idx : ℕ) (u : Uri)
      → idx ≤ length s
      → IsWellFormed u
      → Stops ends_query (drop idx s)
      → Good s (parse_fragment s idx u)
  unfolding parse_fragment
  parse_fragment-Good idx u inside w stops = elim (Bool-cases (has_char_at s idx b'#')) [
    | inl e ↦ rw e (
      (insert_fragment-StandsFor u w (drop (idx + 1) s) (omega (arith, length-drop (idx + 1) s))).0,
      omega (arith, has_char_at-lt s idx b'#' e, length-drop (idx + 1) s),
    )
    | inr e ↦ rw e (
      w,
      omega (arith, length-drop idx s, nothing_left (drop idx s) stops (rw has_char_at-drop at e)),
    )
  ]

  ends_query-path : (x : Bytes) → Stops ends_path x → head_is b'?' x ≡ false → Stops ends_query x
  ends_query-path [] h e = tt
  ends_query-path (c ∷ x) h e = ground arith

  parse_query-Good :
      (idx : ℕ) (u : Uri)
      → idx ≤ length s
      → IsWellFormed u
      → Stops ends_path (drop idx s)
      → Good s (parse_query s idx u)
  unfolding parse_query parse_uri_query
  parse_query-Good idx u inside w stops = elim (Bool-cases (has_char_at s idx b'?')) [
    | inl e ↦
        let (le, ends) =
          measured ends_query s (idx + 1) fits (omega (arith, has_char_at-lt s idx b'?' e)) in
        rw e (
          parse_fragment-Good _ _ le
            (insert_query-StandsFor u w _ (Fits-substr s (idx + 1) _ fits)).0 ends)
    | inr e ↦ rw e (
        parse_fragment-Good idx u inside w
          (ends_query-path (drop idx s) stops (rw has_char_at-drop at e)))
  ]

  parse_path-Good :
      (has_authority : Bool) (idx : ℕ) (u : Uri)
      → idx ≤ length s
      → IsWellFormed u
      → GoodOrRefused s (parse_path has_authority s idx u)
  unfolding parse_path parse_uri_path
  parse_path-Good has_authority idx u inside w = elim (Bool-cases (leb (length s) idx)) [
    | inl e ↦ rw e (
        parse_query-Good idx u inside w
          (Stops-at_end (drop idx s) (ground (arith, length-drop idx s))))
    | inr e ↦ elim (Bool-cases (has_authority && not (has_char_at s idx b'/'))) [
      | inl refused ↦ rw (e, refused) tt
      | inr k ↦
          let (le, ends) = measured ends_path s idx fits inside in
          rw (e, k)
            (parse_query-Good _ _ le
              (insert_path-StandsFor u w _
                (Fits-le _ _ (length-decode _) (Fits-substr s idx _ fits))).0
              ends)
    ]
  ]

  parse_authority-Good :
      (idx : ℕ) (u : Uri)
      → idx ≤ length s
      → IsWellFormed u
      → GoodOrRefused s (parse_authority s idx u)
  unfolding parse_authority parse_uri_authority
  parse_authority-Good idx u inside w =
      elim (Bool-cases (has_char_at s idx b'/' && has_char_at s (idx + 1) b'/')) [
        | inl e ↦
            let (le, ends) =
              measured ends_authority s (idx + 2) fits
                (omega (arith, has_char_at-lt s (idx + 1) b'/' (and_right _ _ e))) in
            rw e (
              parse_path-Good true _ _ le
                (insert_authority-StandsFor u w _ (Fits-substr s (idx + 2) _ fits)).0)
        | inr e ↦ rw e (parse_path-Good false idx u inside w)
      ]

  -- For a text shorter than 2^16 bytes, whatever its characters: if the parser does not refuse it,
  -- the object is well formed and `idx` has reached the end of the text, as the closing assertion
  -- of `Uri::parse` demands.
  pub parse_parts-Good : GoodOrRefused s (parse_parts s)
  unfolding parse_parts parse_uri_scheme
  parse_parts-Good =
      elim (Bool-cases
        (part_len ends_scheme s 0 == 0 || not (has_char_at s (part_len ends_scheme s 0) b':'))) [
          | inl e ↦ rw e tt
          | inr e ↦ rw e (
              parse_authority-Good _ _
                (omega
                  (arith, has_char_at-lt s (part_len ends_scheme s 0) b':' (colon_there _ _ e)))
                (insert_scheme-StandsFor empty empty-IsWellFormed _ (Fits-substr s 0 _ fits)).0)
        ]

  pub parse-IsWellFormed : IsWellFormed (parse s)
  parse-IsWellFormed = rw (parse-parse_parts s) (from_good s (parse_parts s) parse_parts-Good)
