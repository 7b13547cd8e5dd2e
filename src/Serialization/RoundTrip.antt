-- ===== src/Serialization/RoundTrip.antt =====
-- `fromJson` of lsp/serialization.h undoes `toJson`, template by template.
use lsp_framework.Base.{
  ℕ, suc, ◌≡◌, refl, ap, true, false, Option, none, some, List, [], ◌∷◌, ◌++◌, ◌⊎◌, inl, inr, All,
  ok, append_assoc, append-nil, ==_refl,
}
use lsp_framework.Json.Value.{is_null, length_items}
use lsp_framework.Serialization.{Serializable}
use lsp_framework.Serialization.Templates.{
  nullable_of, items_of, append_items, vector_of, Elements, with_element, tuple_of,
}
use lsp_framework.Serialization.Variants.{
  Alternatives, last_alternative, with_alternative, variant_of,
}

-- The value is accepted as one of its type, and read into a fresh object it is the same.
abbrev pub RoundTrips : {D A : Type 0} → Serializable D A → A → Type 0
RoundTrips s a =
    (s.can_deserialize (s.to_json a) ≡ true) × (s.from_json (s.to_json a) s.initial ≡ ok a)

module _ {D A : Type 0} (s : Serializable D A) where
  -- A value that is written as null cannot be told from a missing one.
  abbrev pub IsPresent : Option A → Type 0
  IsPresent none = Unit
  IsPresent (some a) = RoundTrips s a × (is_null (s.to_json a) ≡ false)

  pub nullable_of-RoundTrips : (o : Option A) → IsPresent o → RoundTrips (nullable_of s) o
  nullable_of-RoundTrips none h = (refl, refl)
  nullable_of-RoundTrips (some a) ((fits, reads), present) =
      (rw (present, fits), rw (present, reads))

  append_items-items_of :
      (xs ys : List A) → All (RoundTrips s) xs → append_items s (items_of s xs) ys ≡ ok (ys ++ xs)
  unfolding append_items items_of
  append_items-items_of [] ys h = rw append-nil refl
  append_items-items_of (x ∷ xs) ys ((fits, reads), h) =
      rw (reads, append_items-items_of xs (ys ++ x ∷ []) h) (ap ok (append_assoc ys (x ∷ []) xs))

  vector-fits :
      (xs : List A)
      → All (RoundTrips s) xs
      → (vector_of s).can_deserialize ((vector_of s).to_json xs) ≡ true
  unfolding items_of
  vector-fits [] h = refl
  vector-fits (x ∷ xs) ((fits, reads), h) = fits

  pub vector_of-RoundTrips : (xs : List A) → All (RoundTrips s) xs → RoundTrips (vector_of s) xs
  vector_of-RoundTrips xs h = (vector-fits xs h, append_items-items_of xs [] h)

module _ {D : Type 0} where
  abbrev pub ElementsRoundTrip : {T : Type 0} → Elements D T → T → Type 0
  ElementsRoundTrip e t =
      (length_items (e.to_items t) ≡ e.size) × (e.from_items (e.to_items t) e.initial ≡ ok t)

  pub with_element-ElementsRoundTrip :
      {A B : Type 0} (s : Serializable D A) (e : Elements D B) (a : A) (b : B)
      → RoundTrips s a
      → ElementsRoundTrip e b
      → ElementsRoundTrip (with_element s e) (a, b)
  with_element-ElementsRoundTrip s e a b (fits, reads) (size, rest) =
      (ap suc size, rw (reads, rest))

  -- The first element is of its type.
  pub tuple_of-RoundTrips :
      {A B : Type 0} (s : Serializable D A) (e : Elements D B) (a : A) (b : B)
      → RoundTrips s a
      → ElementsRoundTrip e b
      → RoundTrips (tuple_of (with_element s e)) (a, b)
  tuple_of-RoundTrips s e a b (fits, reads) (size, rest) = (
    rw (size, ==_refl (suc e.size), fits) refl,
    rw (size, ==_refl (suc e.size), reads, rest) refl,
  )

  abbrev pub AlternativesRoundTrip : {T : Type 0} → Alternatives D T → T → Type 0
  AlternativesRoundTrip r t =
      (i : ℕ) × (r.index_of (r.to_json t) ≡ some i)
      × (r.from_json_at (some i) (r.to_json t) r.initial ≡ ok t)

  -- The JSON of the value is of none of the alternatives before its own.
  abbrev pub IsDistinct : {A B : Type 0} → Serializable D A → Alternatives D B → A ⊎ B → Type 0
  IsDistinct s r (inl a) = RoundTrips s a
  IsDistinct s r (inr b) = (s.can_deserialize (r.to_json b) ≡ false) × AlternativesRoundTrip r b

  pub last_alternative-AlternativesRoundTrip :
      {A : Type 0} (s : Serializable D A) (a : A)
      → RoundTrips s a
      → AlternativesRoundTrip (last_alternative s) a
  last_alternative-AlternativesRoundTrip s a (fits, reads) = (0, rw fits refl, reads)

  pub with_alternative-AlternativesRoundTrip :
      {A B : Type 0} (s : Serializable D A) (r : Alternatives D B) (t : A ⊎ B)
      → IsDistinct s r t
      → AlternativesRoundTrip (with_alternative s r) t
  with_alternative-AlternativesRoundTrip s r (inl a) (fits, reads) =
      (0, rw fits refl, rw reads refl)
  with_alternative-AlternativesRoundTrip s r (inr b) (apart, (i, at, reads)) =
      (suc i, rw (apart, at) refl, rw reads refl)

  pub variant_of-RoundTrips :
      {A B : Type 0} (s : Serializable D A) (r : Alternatives D B) (t : A ⊎ B)
      → IsDistinct s r t
      → RoundTrips (variant_of (with_alternative s r)) t
  variant_of-RoundTrips s r t h =
      let (i, at, reads) = with_alternative-AlternativesRoundTrip s r t h in
      (rw at refl, rw at reads)
