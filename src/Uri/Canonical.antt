-- ===== src/Uri/Canonical.antt =====
-- Insertions on an object that holds given parts, and the parts that survive printing.
use lsp_framework.Base.{
  ℕ, ◌<◌, ◌≡◌, refl, Bool, true, false, ◌&&◌, Option, none, some, [], ◌∷◌, Bytes, IsBytes, codes,
  ◌==◌, length, map, drop,
}
use lsp_framework.Base.Chars.{to_lower}
use lsp_framework.Uri.{
  Uri, normalize_escapes, ends_scheme, ends_authority, ends_query, insert_scheme, insert_authority,
  insert_path, insert_query, insert_fragment,
}
use lsp_framework.Uri.Coding.{encode}
use lsp_framework.Uri.Layout.{Fits}
use lsp_framework.Uri.Scan.{free}
use lsp_framework.Uri.View.{View, IsFor}
use lsp_framework.Uri.Setters.{
  insert_scheme-Holds, insert_authority-Holds, insert_path-Holds, insert_query-Holds,
  insert_fragment-Holds,
}

module _ {u : Uri} {v : View} (r : IsFor u v) (x : Bytes) (fits : Fits x) where
  pub insert_scheme-IsFor : IsFor (insert_scheme x u) (record v { scheme = map to_lower x })
  insert_scheme-IsFor = record {
    holds = insert_scheme-Holds _ _ _ _ _ r.holds x fits;
    with_authority = unfold insert_scheme in r.with_authority;
    with_query = unfold insert_scheme in r.with_query;
    with_fragment = unfold insert_scheme in r.with_fragment;
  }

  pub insert_authority-IsFor :
      IsFor (insert_authority x u) (record v { authority = some (normalize_escapes x) })
  insert_authority-IsFor = record {
    holds = insert_authority-Holds _ _ _ _ _ r.holds x fits;
    with_authority = unfold insert_authority in refl;
    with_query = unfold insert_authority in r.with_query;
    with_fragment = unfold insert_authority in r.with_fragment;
  }

  pub insert_path-IsFor : IsFor (insert_path x u) (record v { path = x })
  insert_path-IsFor = record {
    holds = insert_path-Holds _ _ _ _ _ r.holds x fits;
    with_authority = unfold insert_path in r.with_authority;
    with_query = unfold insert_path in r.with_query;
    with_fragment = unfold insert_path in r.with_fragment;
  }

  pub insert_query-IsFor :
      IsFor (insert_query x u) (record v { query = some (normalize_escapes x) })
  insert_query-IsFor = record {
    holds = insert_query-Holds _ _ _ _ _ r.holds x fits;
    with_authority = unfold insert_query in r.with_authority;
    with_query = unfold insert_query in refl;
    with_fragment = unfold insert_query in r.with_fragment;
  }

  pub insert_fragment-IsFor :
      IsFor (insert_fragment x u) (record v { fragment = some (normalize_escapes x) })
  insert_fragment-IsFor = record {
    holds = insert_fragment-Holds _ _ _ _ _ r.holds x fits;
    with_authority = unfold insert_fragment in r.with_authority;
    with_query = unfold insert_fragment in r.with_query;
    with_fragment = unfold insert_fragment in refl;
  }

-- The first character of a text.
abbrev pub head_is : ℕ → Bytes → Bool
head_is c [] = false
head_is c (d ∷ s) = d == c

abbrev pub two_slashes : Bytes → Bool
two_slashes s = head_is b'/' s && head_is b'/' (drop 1 s)

-- A part that is absent, or has no character that ends it and its escapes in upper case.
abbrev pub IsPart : (ℕ → Bool) → Option Bytes → Type 0
IsPart ends none = Unit
IsPart ends (some s) = Fits s × (free ends s ≡ true) × (normalize_escapes s ≡ s)

-- With an authority the path begins with a slash, or nothing follows the authority. Without one the
-- path does not begin with two slashes.
abbrev pub PathFollows : Option Bytes → Bytes → Option Bytes → Option Bytes → Type 0
PathFollows none p q f = two_slashes p ≡ false
PathFollows (some a) [] q f = (q ≡ none) × (f ≡ none)
PathFollows (some a) (c ∷ p) q f = c ≡ b'/'

-- The parts that `toString` writes so that `parse` finds them again.
pub record IsCanonical (v : View) : Type 0 where
  pub scheme_nonempty : 0 < length v.scheme
  pub scheme_fits : Fits v.scheme
  pub scheme_chars : free ends_scheme v.scheme ≡ true
  pub scheme_lower : map to_lower v.scheme ≡ v.scheme
  pub authority_part : IsPart ends_authority v.authority
  pub path_bytes : IsBytes v.path
  pub path_fits : Fits v.path
  pub path_fits_encoded : Fits (encode v.path (codes "/"))
  pub path_follows : PathFollows v.authority v.path v.query v.fragment
  pub query_part : IsPart ends_query v.query
  pub fragment_part : IsPart (λ c. false) v.fragment
