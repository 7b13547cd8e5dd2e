-- ===== src/Serialization/Maps.antt =====
-- The templates of lsp/serialization.h for StrMap, with the keys of lsp/strmap.h: texts and Uris. A map is the
-- list of its entries in the order of its iteration; a new entry comes last.
use lsp_framework.Base.{
  ◌≡◌, Bool, true, ◌&&◌, Option, none, some, List, [], ◌∷◌, Bytes, ◌==◌, ==_iff, arith, bytes_eq,
  bool_eq, eq_of_bytes_eq, if◌then◌else◌, ok, ◌>>=◌,
}
use lsp_framework.Exceptions.{Throws}
use lsp_framework.Json.Value.{Value, Fields, object, end, field, is_object, as_object, assign}
use lsp_framework.Uri.{Uri, is_valid}
use lsp_framework.Uri.Parse.{parse, to_string}
use lsp_framework.Serialization.{Serializable}

-- The keys of a map: the text of a key, the key of a text if it is taken, and their comparison.
pub record Key (K : Type 0) : Type 0 where
  pub map_key : K → Bytes
  pub key_of : Bytes → Option K
  pub same : K → K → Bool
  pub eq_of_same : (j k : K) → same j k ≡ true → j ≡ k

abbrev pub string_key : Key Bytes
string_key = record {
  map_key = λ s. s;
  key_of = λ s. some s;
  same = bytes_eq;
  eq_of_same = eq_of_bytes_eq;
}

-- The default comparison of all members.
unfoldable pub uri_eq : Uri → Uri → Bool
uri_eq u v =
    bytes_eq u.text v.text
    && (u.scheme_len == v.scheme_len
        && (u.authority_len == v.authority_len
            && (u.path_len == v.path_len
                && (u.query_len == v.query_len
                    && (u.fragment_len == v.fragment_len
                        && (bool_eq u.has_authority v.has_authority
                            && (bool_eq u.has_query v.has_query
                                && bool_eq u.has_fragment v.has_fragment)))))))

members :
    (u v : Uri)
    → u.text ≡ v.text
    → u.scheme_len ≡ v.scheme_len
    → u.authority_len ≡ v.authority_len
    → u.path_len ≡ v.path_len
    → u.query_len ≡ v.query_len
    → u.fragment_len ≡ v.fragment_len
    → u.has_authority ≡ v.has_authority
    → u.has_query ≡ v.has_query
    → u.has_fragment ≡ v.has_fragment
    → u ≡ v
members u v text scheme authority path query fragment has_authority has_query has_fragment = cc

and_true : (a b : Bool) → (a && b) ≡ true → (a ≡ true) × (b ≡ true)
and_true a b h = ground arith

bool_eq_sound : (a b : Bool) → bool_eq a b ≡ true → a ≡ b
bool_eq_sound a b h = ground arith

-- Members that are compared as equal are equal.
pub eq_of_uri_eq : (u v : Uri) → uri_eq u v ≡ true → u ≡ v
unfolding uri_eq
eq_of_uri_eq u v h =
    let (text, h1) = and_true _ _ h in
    let (scheme, h2) = and_true _ _ h1 in
    let (authority, h3) = and_true _ _ h2 in
    let (path, h4) = and_true _ _ h3 in
    let (query, h5) = and_true _ _ h4 in
    let (fragment, h6) = and_true _ _ h5 in
    let (has_authority, h7) = and_true _ _ h6 in
    let (has_query, has_fragment) = and_true _ _ h7 in
    members u v (eq_of_bytes_eq _ _ text) ((==_iff _ _).0 scheme) ((==_iff _ _).0 authority)
      ((==_iff _ _).0 path) ((==_iff _ _).0 query) ((==_iff _ _).0 fragment)
      (bool_eq_sound _ _ has_authority) (bool_eq_sound _ _ has_query)
      (bool_eq_sound _ _ has_fragment)

-- A text that is no valid Uri is left out.
abbrev pub uri_of : Bytes → Option Uri
uri_of s = if is_valid (parse s) then some (parse s) else none

abbrev pub uri_key : Key Uri
uri_key = record { map_key = to_string; key_of = uri_of; same = uri_eq; eq_of_same = eq_of_uri_eq }

module _ {K D A : Type 0} (key : Key K) (s : Serializable D A) where
  -- value[k], which is there afterwards.
  unfoldable pub value_at : K → List (K × A) → A
  value_at k [] = s.initial
  value_at k ((j, a) ∷ m) = if key.same j k then a else value_at k m

  unfoldable pub put : K → A → List (K × A) → List (K × A)
  put k a [] = (k, a) ∷ []
  put k a ((j, b) ∷ m) = let rest = put k a m in if key.same j k then (j, a) ∷ m else (j, b) ∷ rest

  unfoldable pub assign_all : List (K × A) → Fields D → Fields D
  assign_all [] fs = fs
  assign_all ((k, a) ∷ m) fs = assign_all m (assign (key.map_key k) (s.to_json a) fs)

  unfoldable pub read_entries : Fields D → List (K × A) → Throws (List (K × A))
  read_entries end m = ok m
  read_entries (field k v fs) m = elim (key.key_of k) [
    | none ↦ read_entries fs m
    | some j ↦ do a ← s.from_json v (value_at j m); read_entries fs (put j a m)
  ]

  abbrev pub map_from_json : Value D → List (K × A) → Throws (List (K × A))
  map_from_json v m = do fs ← as_object v; read_entries fs m

  -- `can_deserialize` has no case for a map, so it takes a map for a structure without properties.
  abbrev pub map_of : Serializable D (List (K × A))
  map_of = record {
    initial = [];
    to_json = λ m. object (assign_all m end);
    from_json = map_from_json;
    can_deserialize = is_object;
  }
