-- ===== src/Serialization/Entries.antt =====
-- `fromJson` of lsp/serialization.h undoes `toJson` for maps.
use lsp_framework.Base.{
  ◌≡◌, refl, ap, ◌∙◌, false, some, List, [], ◌∷◌, ◌++◌, Bytes, bytes_eq, bytes_eq_refl, All, ok,
  append_assoc, append-nil, not-true,
}
use lsp_framework.Json.Value.{
  Value, Fields, end, field, null, contains, append_field, index, assign,
}
use lsp_framework.Json.Parser.Writes.{update_field-append_field}
use lsp_framework.Uri.{Uri}
use lsp_framework.Uri.Parse.{to_string}
use lsp_framework.Uri.View.{view, IsWellFormed}
use lsp_framework.Uri.Canonical.{IsCanonical}
use lsp_framework.Uri.RoundTrip.{parse-to_string, is_valid-IsCanonical}
use lsp_framework.Serialization.{Serializable}
use lsp_framework.Serialization.Maps.{
  Key, uri_of, uri_key, value_at, put, assign_all, read_entries, map_of,
}
use lsp_framework.Serialization.RoundTrip.{RoundTrips}

assign-append_field :
    {D : Type 0} (k : Bytes) (v : Value D) (fs : Fields D)
    → contains k fs ≡ false
    → assign k v fs ≡ append_field fs k v
unfolding assign index
assign-append_field k v fs h = rw h (update_field-append_field fs k null v h)

module _ {K D A : Type 0} (key : Key K) (s : Serializable D A) where
  -- No entry has the text of the key.
  abbrev pub IsNew : K → List (K × A) → Type 0
  IsNew k = All (λ (j, a). bytes_eq (key.map_key j) (key.map_key k) ≡ false)

  -- The keys are read from their texts, the texts are different, and the values are read back; `before` are the
  -- entries in front.
  unfoldable pub AreEntries : List (K × A) → List (K × A) → Type 0
  AreEntries before [] = Unit
  AreEntries before ((k, a) ∷ m) =
      (key.key_of (key.map_key k) ≡ some k)
      × RoundTrips s a
      × IsNew k before
      × AreEntries (before ++ (k, a) ∷ []) m

  fields_of : List (K × A) → Fields D
  fields_of [] = end
  fields_of ((k, a) ∷ m) = field (key.map_key k) (s.to_json a) (fields_of m)

  contains-fields_of :
      (k : K) (m : List (K × A)) → IsNew k m → contains (key.map_key k) (fields_of m) ≡ false
  unfolding fields_of contains
  contains-fields_of k [] h = refl
  contains-fields_of k ((j, a) ∷ m) (hj, h) = rw (hj, contains-fields_of k m h) refl

  append_field-fields_of :
      (m : List (K × A)) (k : K) (a : A)
      → append_field (fields_of m) (key.map_key k) (s.to_json a) ≡ fields_of (m ++ (k, a) ∷ [])
  unfolding fields_of append_field
  append_field-fields_of [] k a = refl
  append_field-fields_of ((j, b) ∷ m) k a =
      ap (field (key.map_key j) (s.to_json b)) (append_field-fields_of m k a)

  assign_all-fields_of :
      (before m : List (K × A))
      → AreEntries before m
      → assign_all key s m (fields_of before) ≡ fields_of (before ++ m)
  unfolding assign_all AreEntries
  assign_all-fields_of before [] h = rw append-nil refl
  assign_all-fields_of before ((k, a) ∷ m) (back, trips, new, h) =
      ap (assign_all key s m) (
        assign-append_field (key.map_key k) (s.to_json a) (fields_of before)
          (contains-fields_of k before new)
        ∙ append_field-fields_of before k a)
      ∙ assign_all-fields_of (before ++ (k, a) ∷ []) m h
      ∙ ap fields_of (append_assoc before ((k, a) ∷ []) m)

  same-IsNew : (j k : K) → bytes_eq (key.map_key j) (key.map_key k) ≡ false → key.same j k ≡ false
  same-IsNew j k h =
      not-true (key.same j k)
        λ e. cc (h, bytes_eq_refl (key.map_key k), ap key.map_key (key.eq_of_same j k e))

  value_at-IsNew : (k : K) (m : List (K × A)) → IsNew k m → value_at key s k m ≡ s.initial
  unfolding value_at
  value_at-IsNew k [] h = refl
  value_at-IsNew k ((j, a) ∷ m) (hj, h) = rw (same-IsNew j k hj, value_at-IsNew k m h) refl

  put-IsNew : (k : K) (a : A) (m : List (K × A)) → IsNew k m → put key s k a m ≡ m ++ (k, a) ∷ []
  unfolding put
  put-IsNew k a [] h = refl
  put-IsNew k a ((j, b) ∷ m) (hj, h) = rw (same-IsNew j k hj, put-IsNew k a m h) refl

  read_entry :
      (before m : List (K × A)) (k : K) (a : A)
      → key.key_of (key.map_key k) ≡ some k
      → RoundTrips s a
      → IsNew k before
      → read_entries key s (field (key.map_key k) (s.to_json a) (fields_of m)) before
        ≡ read_entries key s (fields_of m) (before ++ (k, a) ∷ [])
  unfolding read_entries
  read_entry before m k a back (fits, reads) new =
      rw (back, read_entries, value_at-IsNew k before new, reads)
        (ap (read_entries key s (fields_of m)) (put-IsNew k a before new))

  read_entries-fields_of :
      (before m : List (K × A))
      → AreEntries before m
      → read_entries key s (fields_of m) before ≡ ok (before ++ m)
  unfolding fields_of AreEntries
  read_entries-fields_of before [] h = unfold read_entries in rw append-nil refl
  read_entries-fields_of before ((k, a) ∷ m) (back, trips, new, h) =
      read_entry before m k a back trips new
      ∙ read_entries-fields_of (before ++ (k, a) ∷ []) m h
      ∙ ap ok (append_assoc before ((k, a) ∷ []) m)

  pub map_of-RoundTrips : (m : List (K × A)) → AreEntries [] m → RoundTrips (map_of key s) m
  unfolding fields_of
  map_of-RoundTrips m h = (
    refl,
    ap (λ fs. read_entries key s fs []) (assign_all-fields_of [] m h)
        ∙ read_entries-fields_of [] m h,
  )

uri_of-to_string : (u : Uri) → IsWellFormed u → IsCanonical (view u) → uri_of (to_string u) ≡ some u
uri_of-to_string u w k = rw (parse-to_string u w k, is_valid-IsCanonical u k) refl

module _ {D A : Type 0} (s : Serializable D A) where
  -- The keys are well-formed Uris with canonical parts, no two of which print alike, and the values are read
  -- back.
  unfoldable pub AreDocuments : List (Uri × A) → List (Uri × A) → Type 0
  AreDocuments before [] = Unit
  AreDocuments before ((u, a) ∷ m) =
      (IsWellFormed u × IsCanonical (view u))
      × RoundTrips s a
      × IsNew uri_key s u before
      × AreDocuments (before ++ (u, a) ∷ []) m

  AreEntries-AreDocuments :
      (before m : List (Uri × A)) → AreDocuments before m → AreEntries uri_key s before m
  unfolding AreDocuments AreEntries
  AreEntries-AreDocuments before [] h = tt
  AreEntries-AreDocuments before ((u, a) ∷ m) ((w, k), trips, new, h) =
      (uri_of-to_string u w k, trips, new, AreEntries-AreDocuments (before ++ (u, a) ∷ []) m h)

  -- A map by such Uris is written and read back the same.
  pub uri_map-RoundTrips :
      (m : List (Uri × A)) → AreDocuments [] m → RoundTrips (map_of uri_key s) m
  uri_map-RoundTrips m h = map_of-RoundTrips uri_key s m (AreEntries-AreDocuments [] m h)
