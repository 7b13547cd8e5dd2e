-- ===== src/Serialization/Choice.antt =====
-- Which JSON values `fromJson` of lsp/serialization.h reads, against `canDeserializeTypeFromJson`.
use lsp_framework.Base.{
  ℕ, suc, ◌≡◌, refl, Bool, true, false, Option, none, some, ◌⊎◌, inl, inr, Bytes, ok, err,
  Bool-cases, ℤ,
}
use lsp_framework.Json.Value.{
  Value, Decimals, null, boolean, integer, decimal, string, array, object, is_null,
}
use lsp_framework.Serialization.{Serializable, bool_type, string_type, integer_type}
use lsp_framework.Serialization.Templates.{held, nullable_of, optional_from_json}
use lsp_framework.Serialization.Variants.{
  Alternatives, mismatch, last_alternative, with_alternative, variant_of, as_first, as_rest,
}

-- A value that is accepted is read into whatever is there.
abbrev pub Settles : {D A : Type 0} → Serializable D A → Value D → A → Type 0
Settles {A = A} s v a = (s.can_deserialize v ≡ false) ⊎ ((b : A) × (s.from_json v a ≡ ok b))

-- So it is with an alternative that is chosen for a value.
abbrev pub SettlesAt : {D T : Type 0} → Alternatives D T → Value D → T → Type 0
SettlesAt {T = T} r v t =
    (r.index_of v ≡ none)
    ⊎ ((i : ℕ) × (u : T) × (r.index_of v ≡ some i) × (r.from_json_at (some i) v t ≡ ok u))

-- The variant holds what an accepted value was read as, and any other value is a type error.
abbrev pub Chooses : {D T : Type 0} → Alternatives D T → Value D → T → Type 0
Chooses {T = T} r v t =
    ((r.index_of v ≡ none) × ((variant_of r).from_json v t ≡ err mismatch))
    ⊎ ((u : T) × ((variant_of r).can_deserialize v ≡ true) × ((variant_of r).from_json v t ≡ ok u))

module _ {D : Type 0} where
  pub bool_type-Settles : (v : Value D) (b : Bool) → Settles bool_type v b
  bool_type-Settles (boolean c) b = inr (c, refl)
  bool_type-Settles null b = inl refl
  bool_type-Settles (integer i) b = inl refl
  bool_type-Settles (decimal d) b = inl refl
  bool_type-Settles (string s) b = inl refl
  bool_type-Settles (array xs) b = inl refl
  bool_type-Settles (object fs) b = inl refl

  pub string_type-Settles : (v : Value D) (s : Bytes) → Settles string_type v s
  string_type-Settles (string t) s = inr (t, refl)
  string_type-Settles null s = inl refl
  string_type-Settles (boolean b) s = inl refl
  string_type-Settles (integer i) s = inl refl
  string_type-Settles (decimal d) s = inl refl
  string_type-Settles (array xs) s = inl refl
  string_type-Settles (object fs) s = inl refl

  pub integer_type-Settles :
      (dec : Decimals D) (to_json : ℤ → Value D) (v : Value D) (i : ℤ)
      → Settles (integer_type dec to_json) v i
  integer_type-Settles dec to_json (integer j) i = inr (dec.to_int (dec.of_int j), refl)
  integer_type-Settles dec to_json (decimal d) i = inr (dec.to_int d, refl)
  integer_type-Settles dec to_json null i = inl refl
  integer_type-Settles dec to_json (boolean b) i = inl refl
  integer_type-Settles dec to_json (string s) i = inl refl
  integer_type-Settles dec to_json (array xs) i = inl refl
  integer_type-Settles dec to_json (object fs) i = inl refl

  module _ {A : Type 0} (s : Serializable D A) (v : Value D) where
    pub nullable_of-Settles : (o : Option A) → Settles s v (held s o) → Settles (nullable_of s) v o
    nullable_of-Settles o h = elim (Bool-cases (is_null v)) [
      | inl e ↦ inr (none, rw e refl)
      | inr e ↦ elim h [
        | inl refused ↦ inl (rw (e, refused) refl)
        | inr (a, reads) ↦ inr (some a, rw (e, reads) refl)
      ]
    ]

    pub last_alternative-SettlesAt : (a : A) → Settles s v a → SettlesAt (last_alternative s) v a
    last_alternative-SettlesAt a (inl refused) = inl (rw refused refl)
    last_alternative-SettlesAt a (inr (b, reads)) = elim (Bool-cases (s.can_deserialize v)) [
      | inl e ↦ inr (0, b, rw e refl, reads)
      | inr e ↦ inl (rw e refl)
    ]

    module _ {B : Type 0} (r : Alternatives D B) where
      rest-SettlesAt :
          (t : A ⊎ B)
          → s.can_deserialize v ≡ false
          → SettlesAt r v (as_rest s r t)
          → SettlesAt (with_alternative s r) v t
      rest-SettlesAt t e (inl refused) = inl (rw (e, refused) refl)
      rest-SettlesAt t e (inr (i, u, chosen, reads)) =
          inr (suc i, inr u, rw (e, chosen) refl, rw reads refl)

      pub with_alternative-SettlesAt :
          (t : A ⊎ B)
          → Settles s v (as_first s r t)
          → SettlesAt r v (as_rest s r t)
          → SettlesAt (with_alternative s r) v t
      with_alternative-SettlesAt t (inl refused) h = rest-SettlesAt t refused h
      with_alternative-SettlesAt t (inr (b, reads)) h = elim (Bool-cases (s.can_deserialize v)) [
        | inl e ↦ inr (0, inl b, rw e refl, rw reads refl)
        | inr e ↦ rest-SettlesAt t e h
      ]

      none-mismatch : (t : A ⊎ B) → (with_alternative s r).from_json_at none v t ≡ err mismatch
      none-mismatch t = refl

    -- Null resets an optional value unless the type itself takes null; any other value is read.
    pub optional_from_json-null :
        (o : Option A)
        → is_null v ≡ true
        → s.can_deserialize v ≡ false
        → optional_from_json s v o ≡ ok none
    optional_from_json-null o n refused = rw (n, refused) refl
