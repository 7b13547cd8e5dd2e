-- ===== src/Uri/Sample.antt =====
-- A Uri with all five parts, as the parser gives it.
use lsp_framework.Base.{◌≡◌, true, refl, refl, codes, arith}
use lsp_framework.Uri.{is_valid, Uri, normalize_escapes, scheme, authority, path, query, fragment}
use lsp_framework.Uri.Coding.{encode}
use lsp_framework.Uri.Parse.{parse}
use lsp_framework.Uri.View.{view, IsWellFormed}
use lsp_framework.Uri.Canonical.{IsCanonical}
use lsp_framework.Uri.Parsed.{parse-IsWellFormed}

abbrev pub address : Uri
unfolding parse
address = parse (codes "http://h%6A/a%20b?x=1#f")

pub address-IsWellFormed : IsWellFormed address
unfolding parse address
address-IsWellFormed = parse-IsWellFormed (codes "http://h%6A/a%20b?x=1#f") (omega arith)

pub address-IsCanonical : IsCanonical (view address)
unfolding address view scheme authority path query fragment encode normalize_escapes
address-IsCanonical = record {
  scheme_nonempty = omega arith;
  scheme_fits = omega arith;
  scheme_chars = refl;
  scheme_lower = refl;
  authority_part = (omega arith, refl, refl);
  path_bytes = omega arith;
  path_fits = omega arith;
  path_fits_encoded = omega arith;
  path_follows = refl;
  query_part = (omega arith, refl, refl);
  fragment_part = (omega arith, refl, refl);
}

pub is_valid-address : is_valid address ≡ true
unfolding address parse is_valid
is_valid-address = refl
