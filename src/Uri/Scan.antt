-- ===== src/Uri/Scan.antt =====
-- The functions that measure a part of a URI, on texts whose lengths fit in 16 bits.
use lsp_framework.Base.{
  ℕ, ◌+◌, ◌^◌, ◌<◌, ◌≡◌, refl, Bool, true, not, ◌&&◌, [], ◌∷◌, ◌++◌, Bytes, ◌==◌, length, arith, ap,
  ◌∙◌, Bool-cases, inl, inr, length-append,
}
use lsp_framework.Uri.{part_len}

-- No character of the text ends the part.
abbrev pub free : (ℕ → Bool) → Bytes → Bool
free ends [] = true
free ends (c ∷ s) = not (ends c) && free ends s

-- The text is empty, or its first character ends the part.
abbrev pub Stops : (ℕ → Bool) → Bytes → Type 0
Stops ends [] = Unit
Stops ends (c ∷ s) = ends c ≡ true

module _ (ends : ℕ → Bool) where
  pub part_len-append :
      (x rest : Bytes) (n : ℕ)
      → free ends x ≡ true
      → Stops ends rest
      → n + length x < 2 ^ 16
      → part_len ends (x ++ rest) n ≡ n + length x
  unfolding part_len
  part_len-append [] [] n free stops h = omega arith
  part_len-append [] (c ∷ rest) n free stops h = rw stops (omega arith)
  part_len-append (c ∷ x) rest n free stops h = ground (arith, part_len-append x rest (n + 1))

  pub part_len_front :
      (x rest : Bytes)
      → free ends x ≡ true
      → Stops ends rest
      → length x < 2 ^ 16
      → part_len ends (x ++ rest) 0 ≡ length x
  part_len_front x rest h stops fits = omega (arith, part_len-append x rest 0 h stops (omega arith))

  -- A text falls into a part and what follows it.
  split : (s : Bytes) → (x rest : Bytes) × (s ≡ x ++ rest) × (free ends x ≡ true) × Stops ends rest
  split [] = ([], [], refl, refl, tt)
  split (c ∷ s) = elim (Bool-cases (ends c)) [
    | inl e ↦ ([], c ∷ s, refl, refl, e)
    | inr e ↦
        let (x, rest, whole, clean, stops) = split s in
        (c ∷ x, rest, ap (λ t. c ∷ t) whole, rw (e, clean), stops)
  ]

  -- A part is measured up to the end of the text or to the first character that ends it.
  pub part_len_split :
      (s : Bytes)
      → length s < 2 ^ 16
      → (x rest : Bytes) × (s ≡ x ++ rest) × (part_len ends s 0 ≡ length x) × Stops ends rest
  part_len_split s fits =
      let (x, rest, whole, clean, stops) = split s in
      let fits_x : length x < 2 ^ 16 =
        omega (arith, length-append x rest, ap (λ (t : Bytes). length t) whole) in
      (
        x,
        rest,
        whole,
        ap (λ t. part_len ends t 0) whole ∙ part_len_front x rest clean stops fits_x,
        stops,
      )

  part_len-free :
      (s : Bytes) (n : ℕ)
      → n + length s < 2 ^ 16
      → (part_len ends s n == n + length s) ≡ free ends s
  unfolding part_len
  part_len-free [] n h = ground arith
  part_len-free (c ∷ s) n h = ground (arith, part_len-free s (n + 1))

  -- A part is measured as the whole text exactly when no character of the text ends it.
  pub part_len_all : (s : Bytes) → length s < 2 ^ 16 → (part_len ends s 0 == length s) ≡ free ends s
  part_len_all s h = ground (arith, part_len-free s 0)
