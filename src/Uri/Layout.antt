-- ===== src/Uri/Layout.antt =====
-- The buffer of a `Uri` is its five parts one after another. Each insertion replaces one part.
use lsp_framework.Base.{
  ℕ, suc, ◌+◌, ◌^◌, ◌<◌, ◌≡◌, refl, sym, ap, ◌∙◌, true, [], ◌∷◌, ◌++◌, Bytes, length, map, arith,
  append_assoc, append-nil, length-append, take-length_append, drop-length_append,
}
use lsp_framework.Base.Chars.{to_lower}
use lsp_framework.Uri.{
  Uri, u16, normalize_escapes, normalize_encoded_case, replace, substr, scheme, authority, path,
  query, fragment, insert_scheme, insert_authority, insert_path, insert_query, insert_fragment,
}

module _ (xs ys zs : Bytes) {first count : ℕ} (at : first ≡ length xs)
    (len : count ≡ length ys) where
  pub replace-append : (w : Bytes) → replace (xs ++ (ys ++ zs)) first count w ≡ xs ++ (w ++ zs)
  replace-append w =
      rw (at, len, take-length_append xs (ys ++ zs), drop-length_append xs (ys ++ zs))
        (rw (drop-length_append ys zs))

  pub substr-append : substr (xs ++ (ys ++ zs)) first count ≡ ys
  substr-append = rw (at, len, drop-length_append xs (ys ++ zs)) (take-length_append ys zs)

  pub normalize_encoded_case-append :
      normalize_encoded_case (xs ++ (ys ++ zs)) first count ≡ xs ++ (normalize_escapes ys ++ zs)
  unfolding normalize_encoded_case
  normalize_encoded_case-append =
      rw (at, len, take-length_append xs (ys ++ zs), drop-length_append xs (ys ++ zs))
        (rw (drop-length_append ys zs, take-length_append ys zs))

-- The parts of `u` in the order of the buffer.
pub record Layout (u : Uri) (s a p q f : Bytes) : Type 0 where
  pub whole : u.text ≡ s ++ (a ++ (p ++ (q ++ f)))
  pub at_scheme : u.scheme_len ≡ length s
  pub at_authority : u.authority_len ≡ length a
  pub at_path : u.path_len ≡ length p
  pub at_query : u.query_len ≡ length q
  pub at_fragment : u.fragment_len ≡ length f

pub length-normalize_escapes : (s : Bytes) → length (normalize_escapes s) ≡ length s
unfolding normalize_escapes
length-normalize_escapes [] = refl
length-normalize_escapes (c ∷ []) = refl
length-normalize_escapes (c ∷ a ∷ []) = refl
length-normalize_escapes (c ∷ a ∷ b ∷ s) =
    ground (arith, length-normalize_escapes s, length-normalize_escapes (a ∷ b ∷ s))

pub length-map-to_lower : (s : Bytes) → length (map to_lower s) ≡ length s
length-map-to_lower [] = refl
length-map-to_lower (c ∷ s) = ap suc (length-map-to_lower s)

-- A length that fits in 16 bits survives the cast.
abbrev pub Fits : Bytes → Type 0
Fits s = length s < 2 ^ 16

u16-length : (s : Bytes) → Fits s → u16 (length s) ≡ length s
u16-length s h = omega arith

module _ {u : Uri} (s a p q f : Bytes) (l : Layout u s a p q f) where
  before_path : u.text ≡ (s ++ a) ++ (p ++ (q ++ f))
  before_path = rw append_assoc l.whole

  before_query : u.text ≡ ((s ++ a) ++ p) ++ (q ++ f)
  before_query = simp append_assoc l.whole

  before_fragment : u.text ≡ (((s ++ a) ++ p) ++ q) ++ (f ++ [])
  before_fragment = simp (append-nil, append_assoc) l.whole

  path_start : u.scheme_len + u.authority_len ≡ length (s ++ a)
  path_start = omega (arith, length-append s a, l.at_scheme, l.at_authority)

  query_start : u.scheme_len + u.authority_len + u.path_len ≡ length ((s ++ a) ++ p)
  query_start = omega (arith, path_start, length-append (s ++ a) p, l.at_path)

  fragment_start :
      u.scheme_len + u.authority_len + u.path_len + u.query_len ≡ length (((s ++ a) ++ p) ++ q)
  fragment_start = omega (arith, query_start, length-append ((s ++ a) ++ p) q, l.at_query)

  pub scheme-Layout : scheme u ≡ s
  unfolding scheme
  scheme-Layout = rw l.whole (substr-append [] s (a ++ (p ++ (q ++ f))) refl l.at_scheme)

  pub authority-Layout : u.has_authority ≡ true → authority u ≡ a
  unfolding authority
  authority-Layout h =
      rw (h, l.whole) (substr-append s a (p ++ (q ++ f)) l.at_scheme l.at_authority)

  pub path-Layout : path u ≡ p
  unfolding path
  path-Layout = rw before_path (substr-append (s ++ a) p (q ++ f) path_start l.at_path)

  pub query-Layout : u.has_query ≡ true → query u ≡ q
  unfolding query
  query-Layout h = rw (h, before_query) (substr-append ((s ++ a) ++ p) q f query_start l.at_query)

  pub fragment-Layout : u.has_fragment ≡ true → fragment u ≡ f
  unfolding fragment
  fragment-Layout h =
      rw (h, before_fragment)
        (substr-append (((s ++ a) ++ p) ++ q) f [] fragment_start l.at_fragment)

  module _ (x : Bytes) (fits : Fits x) where
    pub insert_scheme-Layout : Layout (insert_scheme x u) (map to_lower x) a p q f
    unfolding insert_scheme
    insert_scheme-Layout = record {
      whole =
          rw
            (
              l.whole,
              replace-append [] s (a ++ (p ++ (q ++ f))) refl l.at_scheme x,
              u16-length x fits,
              take-length_append x (a ++ (p ++ (q ++ f))),
              drop-length_append x (a ++ (p ++ (q ++ f))),
            )
            refl;
      at_scheme = rw (u16-length x fits) (sym (length-map-to_lower x));
      at_authority = l.at_authority;
      at_path = l.at_path;
      at_query = l.at_query;
      at_fragment = l.at_fragment;
    }

    pub insert_authority-Layout : Layout (insert_authority x u) s (normalize_escapes x) p q f
    unfolding insert_authority
    insert_authority-Layout = record {
      whole =
          rw
            (
              l.whole,
              replace-append s a (p ++ (q ++ f)) l.at_scheme l.at_authority x,
              u16-length x fits,
            )
            (normalize_encoded_case-append s x (p ++ (q ++ f)) l.at_scheme refl);
      at_scheme = l.at_scheme;
      at_authority = rw (u16-length x fits) (sym (length-normalize_escapes x));
      at_path = l.at_path;
      at_query = l.at_query;
      at_fragment = l.at_fragment;
    }

    pub insert_path-Layout : Layout (insert_path x u) s a x q f
    unfolding insert_path
    insert_path-Layout = record {
      whole =
          rw (before_path, replace-append (s ++ a) p (q ++ f) path_start l.at_path x)
            (append_assoc s a (x ++ (q ++ f)));
      at_scheme = l.at_scheme;
      at_authority = l.at_authority;
      at_path = u16-length x fits;
      at_query = l.at_query;
      at_fragment = l.at_fragment;
    }

    pub insert_query-Layout : Layout (insert_query x u) s a p (normalize_escapes x) f
    unfolding insert_query
    insert_query-Layout = record {
      whole =
          rw
            (
              before_query,
              replace-append ((s ++ a) ++ p) q f query_start l.at_query x,
              u16-length x fits,
            )
            (normalize_encoded_case-append ((s ++ a) ++ p) x f query_start refl
              ∙ append_assoc (s ++ a) p _
              ∙ append_assoc s a _);
      at_scheme = l.at_scheme;
      at_authority = l.at_authority;
      at_path = l.at_path;
      at_query = rw (u16-length x fits) (sym (length-normalize_escapes x));
      at_fragment = l.at_fragment;
    }

    pub insert_fragment-Layout : Layout (insert_fragment x u) s a p q (normalize_escapes x)
    unfolding insert_fragment
    insert_fragment-Layout = record {
      whole =
          rw
            (
              before_fragment,
              replace-append (((s ++ a) ++ p) ++ q) f [] fragment_start l.at_fragment x,
              u16-length x fits,
            )
            (normalize_encoded_case-append (((s ++ a) ++ p) ++ q) x [] fragment_start refl
              ∙ append_assoc ((s ++ a) ++ p) q _
              ∙ append_assoc (s ++ a) p _
              ∙ append_assoc s a _
              ∙ ap (λ t. s ++ (a ++ (p ++ (q ++ t)))) (append-nil (normalize_escapes x)));
      at_scheme = l.at_scheme;
      at_authority = l.at_authority;
      at_path = l.at_path;
      at_query = l.at_query;
      at_fragment = rw (u16-length x fits) (sym (length-normalize_escapes x));
    }
