-- ===== src/Uri/Steps.antt =====
-- Each step of `Uri::parse` finds the part that stands next in the text.
use mathlib.Core.Path.{subst}
use mathlib.Core.List.{cons-ne-nil}
use lsp_framework.Base.{
  ℕ, zero, suc, ◌+◌, ◌≡◌, refl, sym, ap, ◌∙◌, Bool, true, false, not, ◌&&◌, Option, none, some, [],
  ◌∷◌, ◌++◌, Bytes, IsBytes, codes, leb, length, drop, arith, drop-add, drop-length_append,
  take-length_append, length-drop, ◌≢◌, ◌⊎◌, inl, inr, le→leb, lt→leb_false, All,
}
use lsp_framework.Uri.{Uri, ends_path, ends_query, parse_uri_path, parse_uri_query}
use lsp_framework.Uri.Coding.{contains_byte, is_kept, encode}
use lsp_framework.Uri.Coding.Inverse.{
  encode_char-ne-nil, encoded, encode-encoded, decode-encode, encode-All,
}
use lsp_framework.Uri.Parse.{has_char_at, parse_fragment, parse_query, parse_path, result}
use lsp_framework.Uri.Layout.{Fits}
use lsp_framework.Uri.Scan.{free, Stops, part_len_front}
use lsp_framework.Uri.View.{View, IsFor}
use lsp_framework.Uri.Canonical.{
  insert_path-IsFor, insert_query-IsFor, insert_fragment-IsFor, head_is, IsPart,
}

pub has_char_at-drop : (s : Bytes) (idx c : ℕ) → has_char_at s idx c ≡ head_is c (drop idx s)
unfolding has_char_at
has_char_at-drop [] zero c = refl
has_char_at-drop [] (suc idx) c = refl
has_char_at-drop (d ∷ s) zero c = refl
has_char_at-drop (d ∷ s) (suc idx) c = has_char_at-drop s idx c

pub drop_after :
    (s : Bytes) (idx : ℕ) (x rest : Bytes) → drop idx s ≡ x ++ rest → drop (idx + length x) s ≡ rest
drop_after s idx x rest h = rw (drop-add idx (length x) s, h) (drop-length_append x rest)

drop_one : (s : Bytes) (idx c : ℕ) (rest : Bytes) → drop idx s ≡ c ∷ rest → drop (idx + 1) s ≡ rest
drop_one s idx c rest h = drop_after s idx (c ∷ []) rest h

-- What `toString` writes for an optional part.
abbrev pub marked : ℕ → Option Bytes → Bytes
marked c none = []
marked c (some s) = c ∷ s

Stops-marked : (f : Option Bytes) → Stops ends_query (marked b'#' f)
Stops-marked none = tt
Stops-marked (some f) = refl

pub Stops-tail : (q f : Option Bytes) → Stops ends_path (marked b'?' q ++ marked b'#' f)
Stops-tail none none = tt
Stops-tail none (some f) = refl
Stops-tail (some q) f = refl

-- An encoded path holds no character that ends a path.
pub free_of_All : (ends : ℕ → Bool) (s : Bytes) → All (λ c. ends c ≡ false) s → free ends s ≡ true
free_of_All ends [] h = refl
free_of_All ends (c ∷ s) (hc, hs) = rw (hc, free_of_All ends s hs)

pub no_percent : contains_byte (codes "/") b'%' ≡ false
unfolding contains_byte
no_percent = refl

free_path : (p : Bytes) → IsBytes p → free ends_path (encode p (codes "/")) ≡ true
free_path p h = free_of_All ends_path _ (
    encode-All (λ c. ends_path c ≡ false) (codes "/") (λ c k. unfold is_kept in ground arith) refl
      (λ d lt. ground arith) p h)

pub slash_follows : (b x : Bool) → (b ≡ true → x ≡ true) → (b && not x) ≡ false
slash_follows true x h = rw (h refl)
slash_follows false x h = refl

append_nil_inv : (x y : Bytes) → x ++ y ≡ [] → (x ≡ []) × (y ≡ [])
append_nil_inv [] y h = (refl, h)
append_nil_inv (c ∷ x) y h = cc

marked_nil : (c : ℕ) (o : Option Bytes) → marked c o ≡ [] → o ≡ none
marked_nil c none h = refl
marked_nil c (some o) h = cc

encode_nil : (p : Bytes) → encode p (codes "/") ≡ [] → p ≡ []
encode_nil [] h = refl
encode_nil (c ∷ p) h =
    let e : encoded (codes "/") (c ∷ p) ≡ [] = sym (encode-encoded (c ∷ p) (codes "/")) ∙ h in
    absurd (encode_char-ne-nil (codes "/") c (append_nil_inv _ _ e).0)

parts_nil :
    (p : Bytes) (q f : Option Bytes)
    → encode p (codes "/") ++ (marked b'?' q ++ marked b'#' f) ≡ []
    → (p ≡ []) × (q ≡ none) × (f ≡ none)
parts_nil p q f h =
    let (hp, rest) = append_nil_inv _ _ h in
    let (hq, hf) = append_nil_inv _ _ rest in
    (encode_nil p hp, marked_nil b'?' q hq, marked_nil b'#' f hf)

module _ (s : Bytes) where
  parse_fragment-IsFor :
      (idx : ℕ) {u : Uri} {v : View} (f : Option Bytes)
      → IsFor u v
      → v.fragment ≡ none
      → drop idx s ≡ marked b'#' f
      → IsPart (λ c. false) f
      → IsFor (parse_fragment s idx u).0 (record v { fragment = f })
  unfolding parse_fragment
  parse_fragment-IsFor idx {u} {v} none r e h k = rw (has_char_at-drop, h) (rw (← e) r)
  parse_fragment-IsFor idx {u} {v} (some f) r e h k =
      rw (has_char_at-drop, h, drop_one s idx b'#' f h) (rw k.2 at (insert_fragment-IsFor r f k.0))

  parse_query-IsFor :
      (idx : ℕ) {u : Uri} {v : View} (q f : Option Bytes)
      → IsFor u v
      → v.query ≡ none
      → v.fragment ≡ none
      → drop idx s ≡ marked b'?' q ++ marked b'#' f
      → IsPart ends_query q
      → IsPart (λ c. false) f
      → IsFor (parse_query s idx u).0 (record v { query = q; fragment = f })
  unfolding parse_query
  parse_query-IsFor idx {u} {v} none none r eq ef h kq kf =
      rw (has_char_at-drop s idx b'?', h)
        (subst (IsFor (parse_fragment s idx u).0) (λ i. record v { query = eq i; fragment = none })
          (parse_fragment-IsFor idx none r ef h kf))
  parse_query-IsFor idx {u} {v} none (some f) r eq ef h kq kf =
      rw (has_char_at-drop s idx b'?', h)
        (subst (IsFor (parse_fragment s idx u).0)
          (λ i. record v { query = eq i; fragment = some f })
          (parse_fragment-IsFor idx (some f) r ef h kf))
  parse_query-IsFor idx {u} {v} (some q) f r eq ef h kq kf =
      let after = drop_one s idx b'?' (q ++ marked b'#' f) h in
      let len : parse_uri_query (q ++ marked b'#' f) ≡ length q =
        unfold parse_uri_query in
        part_len_front ends_query q (marked b'#' f) kq.1 (Stops-marked f) kq.0 in
      rw (has_char_at-drop s idx b'?', h, after, len, take-length_append q (marked b'#' f))
        (parse_fragment-IsFor (idx + 1 + length q) f (rw kq.2 at (insert_query-IsFor r q kq.0)) ef
          (drop_after s (idx + 1) q (marked b'#' f) after) kf)

  leb_of_drop-nil : (idx : ℕ) → drop idx s ≡ [] → leb (length s) idx ≡ true
  leb_of_drop-nil idx h =
      le→leb _ _ (omega (arith, length-drop idx s, ap (λ (t : Bytes). length t) h))

  leb_of_drop-cons : (idx c : ℕ) (t : Bytes) → drop idx s ≡ c ∷ t → leb (length s) idx ≡ false
  leb_of_drop-cons idx c t h =
      lt→leb_false _ _ (omega (arith, length-drop idx s, ap (λ (t : Bytes). length t) h))

  inside_or_nil :
      (idx : ℕ) (x : Bytes) → drop idx s ≡ x → (x ≡ []) ⊎ ((leb (length s) idx ≡ false) × (x ≢ []))
  inside_or_nil idx [] h = inl refl
  inside_or_nil idx (c ∷ x) h = inr (leb_of_drop-cons idx c x h, cons-ne-nil c x)

  module _ (has_authority : Bool) (idx : ℕ) {u : Uri} {v : View} (p : Bytes) (q f : Option Bytes)
      (r : IsFor u v) (no_path : v.path ≡ []) (no_query : v.query ≡ none)
      (no_fragment : v.fragment ≡ none) (bytes : IsBytes p) (fits : Fits p)
      (fits_encoded : Fits (encode p (codes "/"))) (kq : IsPart ends_query q)
      (kf : IsPart (λ c. false) f) where
    abbrev pub tail : Bytes
    tail = marked b'?' q ++ marked b'#' f

    path_present :
        drop idx s ≡ encode p (codes "/") ++ tail
        → leb (length s) idx ≡ false
        → (has_authority && not (has_char_at s idx b'/')) ≡ false
        → IsFor
            (result (parse_path has_authority s idx u))
            (record v { path = p; query = q; fragment = f })
    unfolding parse_path
    path_present h inside slash =
        let len : parse_uri_path (encode p (codes "/") ++ tail) ≡ length (encode p (codes "/")) =
          unfold parse_uri_path in
          part_len_front ends_path (encode p (codes "/")) tail (free_path p bytes) (Stops-tail q f)
            fits_encoded in
        rw
          (
            inside,
            slash,
            h,
            len,
            take-length_append (encode p (codes "/")) tail,
            decode-encode (codes "/") no_percent p bytes,
          )
          (parse_query-IsFor (idx + length (encode p (codes "/"))) q f (insert_path-IsFor r p fits)
            no_query no_fragment (drop_after s idx (encode p (codes "/")) tail h) kq kf)

    path_absent :
        p ≡ []
        → q ≡ none
        → f ≡ none
        → drop idx s ≡ []
        → IsFor
            (result (parse_path has_authority s idx u))
            (record v { path = p; query = q; fragment = f })
    unfolding parse_path
    path_absent ep eq ef h = rw (leb_of_drop-nil idx h) (
        rw (ep, ← no_path) (parse_query-IsFor idx q f r no_query no_fragment (rw (eq, ef) h) kq kf))

    pub parse_path-IsFor :
        drop idx s ≡ encode p (codes "/") ++ tail
        → (has_authority ≡ true
            → encode p (codes "/") ++ tail ≢ []
            → head_is b'/' (encode p (codes "/") ++ tail) ≡ true)
        → IsFor
            (result (parse_path has_authority s idx u))
            (record v { path = p; query = q; fragment = f })
    parse_path-IsFor h follows = elim (inside_or_nil idx (encode p (codes "/") ++ tail) h) [
      | inl e ↦ (let z = parts_nil p q f e in path_absent z.0 z.1 z.2 (h ∙ e))
      | inr (inside, ne) ↦
          path_present h inside
            (slash_follows has_authority _ (λ b. (rw (has_char_at-drop, h) (follows b ne))))
    ]
