-- ===== src/Uri/View.antt =====
-- What a `Uri` stands for: five parts, three of them optional.
use lsp_framework.Base.{
  ℕ, ◌+◌, ◌≤◌, ◌≡◌, refl, sym, ap, ◌∙◌, Bool, true, false, Option, none, some, [], ◌∷◌, ◌++◌, Bytes,
  length, take, drop, arith, take-append-drop, take-length, length-take, length-append, length-drop,
  drop-add,
}
use lsp_framework.Uri.{Uri, substr, scheme, authority, path, query, fragment}
use lsp_framework.Uri.Layout.{
  Layout, scheme-Layout, authority-Layout, path-Layout, query-Layout, fragment-Layout,
}

pub record View : Type 0 where
  pub scheme : Bytes
  pub authority : Option Bytes
  pub path : Bytes
  pub query : Option Bytes
  pub fragment : Option Bytes

abbrev pub when : Bool → Bytes → Option Bytes
when true s = some s
when false s = none

unfoldable pub view : Uri → View
view u = record {
  scheme = scheme u;
  authority = when u.has_authority (authority u);
  path = path u;
  query = when u.has_query (query u);
  fragment = when u.has_fragment (fragment u);
}

-- The lengths cover the buffer, and a part that is absent has the length 0.
pub record IsWellFormed (u : Uri) : Type 0 where
  pub total :
      length u.text ≡ u.scheme_len + u.authority_len + u.path_len + u.query_len + u.fragment_len
  pub no_authority : u.has_authority ≡ false → u.authority_len ≡ 0
  pub no_query : u.has_query ≡ false → u.query_len ≡ 0
  pub no_fragment : u.has_fragment ≡ false → u.fragment_len ≡ 0

take-all : (n : ℕ) (xs : Bytes) → length xs ≡ n → take n xs ≡ xs
take-all n xs h = rw (← h) (take-length xs)

drop_split : (n m : ℕ) (t : Bytes) → drop n t ≡ take m (drop n t) ++ drop (n + m) t
drop_split n m t = rw (drop-add n m t) (sym (take-append-drop m (drop n t)))

module _ (t : Bytes) (a b c d e : ℕ) (h : length t ≡ a + b + c + d + e) where
  five_parts :
      t
      ≡ take a t
        ++ (take b (drop a t)
            ++ (take c (drop (a + b) t)
                ++ (take d (drop (a + b + c) t) ++ take e (drop (a + b + c + d) t))))
  five_parts =
      sym (take-append-drop a t)
      ∙ ap (λ r. take a t ++ r)
          (drop_split a b t
            ∙ ap (λ r. take b (drop a t) ++ r)
                (drop_split (a + b) c t
                  ∙ ap (λ r. take c (drop (a + b) t) ++ r)
                      (drop_split (a + b + c) d t
                        ∙ ap (λ r. take d (drop (a + b + c) t) ++ r)
                            (sym (
                              take-all e (drop (a + b + c + d) t)
                                (omega (arith, length-drop (a + b + c + d) t)))))))

length-substr : (t : Bytes) (at n : ℕ) → at + n ≤ length t → length (substr t at n) ≡ n
length-substr t at n h = omega (arith, length-take n (drop at t), length-drop at t)

abbrev pub raw_authority : Uri → Bytes
raw_authority u = substr u.text u.scheme_len u.authority_len

abbrev pub raw_query : Uri → Bytes
raw_query u = substr u.text (u.scheme_len + u.authority_len + u.path_len) u.query_len

abbrev pub raw_fragment : Uri → Bytes
raw_fragment u =
    substr u.text (u.scheme_len + u.authority_len + u.path_len + u.query_len) u.fragment_len

-- The parts in the buffer; one whose flag is down is empty.
pub record Holds (u : Uri) (s a p q f : Bytes) : Type 0 where
  pub layout : Layout u s a p q f
  pub authority_flag : u.has_authority ≡ false → a ≡ []
  pub query_flag : u.has_query ≡ false → q ≡ []
  pub fragment_flag : u.has_fragment ≡ false → f ≡ []

nil_of_length : (s : Bytes) → length s ≡ 0 → s ≡ []
nil_of_length [] h = refl
nil_of_length (c ∷ s) h = absurd (omega arith)

module _ {u : Uri} (w : IsWellFormed u) where
  Layout-IsWellFormed :
      Layout u (scheme u) (raw_authority u) (path u) (raw_query u) (raw_fragment u)
  unfolding scheme path
  Layout-IsWellFormed = record {
    whole =
        five_parts u.text u.scheme_len u.authority_len u.path_len u.query_len u.fragment_len
          w.total;
    at_scheme = sym (length-substr u.text 0 u.scheme_len (omega (arith, w.total)));
    at_authority = sym (length-substr u.text _ u.authority_len (omega (arith, w.total)));
    at_path = sym (length-substr u.text _ u.path_len (omega (arith, w.total)));
    at_query = sym (length-substr u.text _ u.query_len (omega (arith, w.total)));
    at_fragment = sym (length-substr u.text _ u.fragment_len (omega (arith, w.total)));
  }

  pub Holds-IsWellFormed :
      Holds u (scheme u) (raw_authority u) (path u) (raw_query u) (raw_fragment u)
  Holds-IsWellFormed =
      let l = Layout-IsWellFormed in
      record {
        layout = l;
        authority_flag = λ e. nil_of_length _ (sym l.at_authority ∙ w.no_authority e);
        query_flag = λ e. nil_of_length _ (sym l.at_query ∙ w.no_query e);
        fragment_flag = λ e. nil_of_length _ (sym l.at_fragment ∙ w.no_fragment e);
      }

when_ext : (b : Bool) {x y : Bytes} → (b ≡ true → x ≡ y) → when b x ≡ when b y
when_ext true h = ap some (h refl)
when_ext false h = refl

module _ {u : Uri} (s a p q f : Bytes) (h : Holds u s a p q f) where
  pub IsWellFormed-Holds : IsWellFormed u
  IsWellFormed-Holds =
      let l = h.layout in
      record {
        total = omega (
          arith,
          ap (λ (t : Bytes). length t) l.whole,
          length-append s (a ++ (p ++ (q ++ f))),
          length-append a (p ++ (q ++ f)),
          length-append p (q ++ f),
          length-append q f,
          l.at_scheme,
          l.at_authority,
          l.at_path,
          l.at_query,
          l.at_fragment,
        );
        no_authority = λ e. l.at_authority ∙ ap length (h.authority_flag e);
        no_query = λ e. l.at_query ∙ ap length (h.query_flag e);
        no_fragment = λ e. l.at_fragment ∙ ap length (h.fragment_flag e);
      }

  pub view-Holds : view u ≡ record {
    scheme = s;
    authority = when u.has_authority a;
    path = p;
    query = when u.has_query q;
    fragment = when u.has_fragment f;
  }
  unfolding view
  view-Holds =
      let l = h.layout in
      rw (
        scheme-Layout s a p q f l,
        path-Layout s a p q f l,
        when_ext u.has_authority (authority-Layout s a p q f l),
        when_ext u.has_query (query-Layout s a p q f l),
        when_ext u.has_fragment (fragment-Layout s a p q f l),
      )

abbrev pub is_some : Option Bytes → Bool
is_some none = false
is_some (some s) = true

abbrev pub or_nil : Option Bytes → Bytes
or_nil none = []
or_nil (some s) = s

-- `u` holds exactly the parts of `v`.
pub record IsFor (u : Uri) (v : View) : Type 0 where
  pub holds : Holds u v.scheme (or_nil v.authority) v.path (or_nil v.query) (or_nil v.fragment)
  pub with_authority : u.has_authority ≡ is_some v.authority
  pub with_query : u.has_query ≡ is_some v.query
  pub with_fragment : u.has_fragment ≡ is_some v.fragment

is_some-when : (b : Bool) (s : Bytes) → b ≡ is_some (when b s)
is_some-when true s = refl
is_some-when false s = refl

or_nil-when :
    (b : Bool) (s t : Bytes) → (b ≡ true → s ≡ t) → (b ≡ false → t ≡ []) → or_nil (when b s) ≡ t
or_nil-when true s t h k = h refl
or_nil-when false s t h k = sym (k refl)

pub IsFor-view : {u : Uri} → IsWellFormed u → IsFor u (view u)
unfolding view
IsFor-view {u} w =
    let h = Holds-IsWellFormed w in
    let l = h.layout in
    record {
      holds =
          rw
            (
              or_nil-when u.has_authority _ _ (authority-Layout _ _ _ _ _ l) h.authority_flag,
              or_nil-when u.has_query _ _ (query-Layout _ _ _ _ _ l) h.query_flag,
              or_nil-when u.has_fragment _ _ (fragment-Layout _ _ _ _ _ l) h.fragment_flag,
            )
            h;
      with_authority = is_some-when _ _;
      with_query = is_some-when _ _;
      with_fragment = is_some-when _ _;
    }

-- The parts determine the object.
pub IsFor-unique : {u u' : Uri} {v : View} → IsFor u v → IsFor u' v → u ≡ u'
IsFor-unique {u} {u'} {v} f g =
    let l = f.holds.layout in
    let m = g.holds.layout in
    λ i. record {
      text = (l.whole ∙ sym m.whole) i;
      scheme_len = (l.at_scheme ∙ sym m.at_scheme) i;
      authority_len = (l.at_authority ∙ sym m.at_authority) i;
      path_len = (l.at_path ∙ sym m.at_path) i;
      query_len = (l.at_query ∙ sym m.at_query) i;
      fragment_len = (l.at_fragment ∙ sym m.at_fragment) i;
      has_authority = (f.with_authority ∙ sym g.with_authority) i;
      has_query = (f.with_query ∙ sym g.with_query) i;
      has_fragment = (f.with_fragment ∙ sym g.with_fragment) i;
    }
