-- ===== src/Uri/Setters.antt =====
-- What the setters and removers do to the parts.
use lsp_framework.Base.{
  ◌≡◌, refl, ◌∙◌, true, none, some, [], Bytes, if◌then◌else◌, arith, map, Bool-cases, inl, inr,
}
use lsp_framework.Base.Chars.{to_lower}
use lsp_framework.Uri.{
  Uri, scheme, path, normalize_escapes, ends_scheme, ends_authority, ends_query, parse_uri_scheme,
  parse_uri_authority, parse_uri_query, insert_scheme, insert_authority, insert_path, insert_query,
  insert_fragment, set_scheme, set_authority, set_path, set_query, set_fragment, remove_authority,
  remove_query, remove_fragment,
}
use lsp_framework.Uri.Layout.{
  Layout, Fits, insert_scheme-Layout, insert_authority-Layout, insert_path-Layout,
  insert_query-Layout, insert_fragment-Layout,
}
use lsp_framework.Uri.Scan.{free, part_len_all}
use lsp_framework.Uri.View.{
  View, view, IsWellFormed, Holds, Holds-IsWellFormed, IsWellFormed-Holds, view-Holds,
  raw_authority, raw_query, raw_fragment,
}

-- `u'` is well formed and stands for `v`.
abbrev pub StandsFor : Uri → View → Type 0
StandsFor u v = IsWellFormed u × (view u ≡ v)

module _ {u : Uri} (s a p q f : Bytes) (h : Holds u s a p q f) (x : Bytes) (fits : Fits x) where
  pub insert_scheme-Holds : Holds (insert_scheme x u) (map to_lower x) a p q f
  insert_scheme-Holds = record {
    layout = insert_scheme-Layout s a p q f h.layout x fits;
    authority_flag = unfold insert_scheme in h.authority_flag;
    query_flag = unfold insert_scheme in h.query_flag;
    fragment_flag = unfold insert_scheme in h.fragment_flag;
  }

  pub insert_authority-Holds : Holds (insert_authority x u) s (normalize_escapes x) p q f
  insert_authority-Holds = record {
    layout = insert_authority-Layout s a p q f h.layout x fits;
    authority_flag = unfold insert_authority in λ e. cc;
    query_flag = unfold insert_authority in h.query_flag;
    fragment_flag = unfold insert_authority in h.fragment_flag;
  }

  pub insert_path-Holds : Holds (insert_path x u) s a x q f
  insert_path-Holds = record {
    layout = insert_path-Layout s a p q f h.layout x fits;
    authority_flag = unfold insert_path in h.authority_flag;
    query_flag = unfold insert_path in h.query_flag;
    fragment_flag = unfold insert_path in h.fragment_flag;
  }

  pub insert_query-Holds : Holds (insert_query x u) s a p (normalize_escapes x) f
  insert_query-Holds = record {
    layout = insert_query-Layout s a p q f h.layout x fits;
    authority_flag = unfold insert_query in h.authority_flag;
    query_flag = unfold insert_query in λ e. cc;
    fragment_flag = unfold insert_query in h.fragment_flag;
  }

  pub insert_fragment-Holds : Holds (insert_fragment x u) s a p q (normalize_escapes x)
  insert_fragment-Holds = record {
    layout = insert_fragment-Layout s a p q f h.layout x fits;
    authority_flag = unfold insert_fragment in h.authority_flag;
    query_flag = unfold insert_fragment in h.query_flag;
    fragment_flag = unfold insert_fragment in λ e. cc;
  }

module _ (u : Uri) (w : IsWellFormed u) (x : Bytes) (fits : Fits x) where
  hold : Holds u (scheme u) (raw_authority u) (path u) (raw_query u) (raw_fragment u)
  hold = Holds-IsWellFormed w

  pub insert_scheme-StandsFor :
      StandsFor (insert_scheme x u) (record (view u) { scheme = map to_lower x })
  insert_scheme-StandsFor =
      let h = insert_scheme-Holds _ _ _ _ _ hold x fits in
      (
        IsWellFormed-Holds _ _ _ _ _ h,
        rw (view-Holds _ _ _ _ _ h, view-Holds _ _ _ _ _ hold) (unfold insert_scheme in refl),
      )

  pub insert_authority-StandsFor :
      StandsFor (insert_authority x u) (record (view u) { authority = some (normalize_escapes x) })
  insert_authority-StandsFor =
      let h = insert_authority-Holds _ _ _ _ _ hold x fits in
      (
        IsWellFormed-Holds _ _ _ _ _ h,
        rw (view-Holds _ _ _ _ _ h, view-Holds _ _ _ _ _ hold) (unfold insert_authority in refl),
      )

  pub insert_path-StandsFor : StandsFor (insert_path x u) (record (view u) { path = x })
  insert_path-StandsFor =
      let h = insert_path-Holds _ _ _ _ _ hold x fits in
      (
        IsWellFormed-Holds _ _ _ _ _ h,
        rw (view-Holds _ _ _ _ _ h, view-Holds _ _ _ _ _ hold) (unfold insert_path in refl),
      )

  pub insert_query-StandsFor :
      StandsFor (insert_query x u) (record (view u) { query = some (normalize_escapes x) })
  insert_query-StandsFor =
      let h = insert_query-Holds _ _ _ _ _ hold x fits in
      (
        IsWellFormed-Holds _ _ _ _ _ h,
        rw (view-Holds _ _ _ _ _ h, view-Holds _ _ _ _ _ hold) (unfold insert_query in refl),
      )

  pub insert_fragment-StandsFor :
      StandsFor (insert_fragment x u) (record (view u) { fragment = some (normalize_escapes x) })
  insert_fragment-StandsFor =
      let h = insert_fragment-Holds _ _ _ _ _ hold x fits in
      (
        IsWellFormed-Holds _ _ _ _ _ h,
        rw (view-Holds _ _ _ _ _ h, view-Holds _ _ _ _ _ hold) (unfold insert_fragment in refl),
      )

  -- `setScheme` accepts a text exactly when all its characters may stand in a scheme. An accepted
  -- text replaces the scheme, in lower case, and no other part; a refused one changes nothing.
  pub set_scheme_lem :
      ((set_scheme x u).1 ≡ free ends_scheme x)
      × StandsFor
          (set_scheme x u).0
          (if free ends_scheme x then record (view u) { scheme = map to_lower x } else view u)
  unfolding set_scheme parse_uri_scheme
  set_scheme_lem = elim (Bool-cases (free ends_scheme x)) [
    | inl e ↦ rw (part_len_all ends_scheme x fits, e) (refl, insert_scheme-StandsFor)
    | inr e ↦ rw (part_len_all ends_scheme x fits, e) (refl, (w, refl))
  ]

  -- `setAuthority` accepts a text exactly when it holds none of `/`, `?` and `#`. An accepted text
  -- replaces the authority, its escapes in upper case, and no other part; a refused one changes
  -- nothing.
  pub set_authority_lem :
      ((set_authority x u).1 ≡ free ends_authority x)
      × StandsFor (set_authority x u).0 (
          if free ends_authority x
          then record (view u) { authority = some (normalize_escapes x) }
          else view u)
  unfolding set_authority parse_uri_authority
  set_authority_lem = elim (Bool-cases (free ends_authority x)) [
    | inl e ↦ rw (part_len_all ends_authority x fits, e) (refl, insert_authority-StandsFor)
    | inr e ↦ rw (part_len_all ends_authority x fits, e) (refl, (w, refl))
  ]

  -- `setQuery` accepts a text exactly when it holds no `#`. An accepted text replaces the query, its
  -- escapes in upper case, and no other part; a refused one changes nothing.
  pub set_query_lem :
      ((set_query x u).1 ≡ free ends_query x)
      × StandsFor (set_query x u).0 (
          if free ends_query x
          then record (view u) { query = some (normalize_escapes x) }
          else view u)
  unfolding set_query parse_uri_query
  set_query_lem = elim (Bool-cases (free ends_query x)) [
    | inl e ↦ rw (part_len_all ends_query x fits, e) (refl, insert_query-StandsFor)
    | inr e ↦ rw (part_len_all ends_query x fits, e) (refl, (w, refl))
  ]

  -- `setPath` and `setFragment` accept every text and replace their own part only.
  pub set_path-set_fragment :
      ((set_path x u).1 ≡ true)
      × StandsFor (set_path x u).0 (record (view u) { path = x })
      × ((set_fragment x u).1 ≡ true)
      × StandsFor (set_fragment x u).0 (record (view u) { fragment = some (normalize_escapes x) })
  unfolding set_path set_fragment
  set_path-set_fragment = (refl, insert_path-StandsFor, refl, insert_fragment-StandsFor)

-- The layout does not depend on the flags.
same_buffer :
    {u u' : Uri} (s a p q f : Bytes)
    → Layout u s a p q f
    → u'.text ≡ u.text
    → u'.scheme_len ≡ u.scheme_len
    → u'.authority_len ≡ u.authority_len
    → u'.path_len ≡ u.path_len
    → u'.query_len ≡ u.query_len
    → u'.fragment_len ≡ u.fragment_len
    → Layout u' s a p q f
same_buffer s a p q f l t es ea ep eq ef = record {
  whole = t ∙ l.whole;
  at_scheme = es ∙ l.at_scheme;
  at_authority = ea ∙ l.at_authority;
  at_path = ep ∙ l.at_path;
  at_query = eq ∙ l.at_query;
  at_fragment = ef ∙ l.at_fragment;
}

module _ (u : Uri) (w : IsWellFormed u) where
  removed_authority : StandsFor (remove_authority u) (record (view u) { authority = none })
  unfolding remove_authority normalize_escapes
  removed_authority =
      let old = Holds-IsWellFormed w in
      let h = insert_authority-Holds _ _ _ _ _ old [] (omega arith) in
      let h' : Holds (remove_authority u) (scheme u) [] (path u) (raw_query u) (raw_fragment u) =
        record {
          layout = same_buffer _ _ _ _ _ h.layout refl refl refl refl refl refl;
          authority_flag = λ e. refl;
          query_flag = h.query_flag;
          fragment_flag = h.fragment_flag;
        } in
      (
        IsWellFormed-Holds _ _ _ _ _ h',
        rw (view-Holds _ _ _ _ _ h', view-Holds _ _ _ _ _ old) (unfold insert_authority in refl),
      )

  removed_query : StandsFor (remove_query u) (record (view u) { query = none })
  unfolding remove_query normalize_escapes
  removed_query =
      let old = Holds-IsWellFormed w in
      let h = insert_query-Holds _ _ _ _ _ old [] (omega arith) in
      let h' : Holds (remove_query u) (scheme u) (raw_authority u) (path u) [] (raw_fragment u) =
        record {
          layout = same_buffer _ _ _ _ _ h.layout refl refl refl refl refl refl;
          authority_flag = h.authority_flag;
          query_flag = λ e. refl;
          fragment_flag = h.fragment_flag;
        } in
      (
        IsWellFormed-Holds _ _ _ _ _ h',
        rw (view-Holds _ _ _ _ _ h', view-Holds _ _ _ _ _ old) (unfold insert_query in refl),
      )

  removed_fragment : StandsFor (remove_fragment u) (record (view u) { fragment = none })
  unfolding remove_fragment normalize_escapes
  removed_fragment =
      let old = Holds-IsWellFormed w in
      let h = insert_fragment-Holds _ _ _ _ _ old [] (omega arith) in
      let h' : Holds (remove_fragment u) (scheme u) (raw_authority u) (path u) (raw_query u) [] =
        record {
          layout = same_buffer _ _ _ _ _ h.layout refl refl refl refl refl refl;
          authority_flag = h.authority_flag;
          query_flag = h.query_flag;
          fragment_flag = λ e. refl;
        } in
      (
        IsWellFormed-Holds _ _ _ _ _ h',
        rw (view-Holds _ _ _ _ _ h', view-Holds _ _ _ _ _ old) (unfold insert_fragment in refl),
      )

  -- Each remover takes its own part away, with its flag, and leaves the others as they are.
  pub removers :
      StandsFor (remove_authority u) (record (view u) { authority = none })
      × StandsFor (remove_query u) (record (view u) { query = none })
      × StandsFor (remove_fragment u) (record (view u) { fragment = none })
  removers = (removed_authority, removed_query, removed_fragment)
