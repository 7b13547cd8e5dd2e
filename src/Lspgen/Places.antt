-- ===== src/Lspgen/Places.antt =====
-- The loops of replaceString and splitStringView in lspgen/lspgen.cpp: their fuel is enough, for a pattern that is not
-- empty.
use lsp_framework.Base.{
  ℕ, zero, suc, ◌+◌, ◌⊎◌, ◌<◌, ◌≡◌, refl, ap, ◌∙◌, sym, Bool, ◌&&◌, Option, none, some, [], ◌∷◌,
  ◌++◌, Bytes, ◌==◌, if◌then◌else◌, length, Bool-cases, Option-cases, none_ne_some, inl, inr,
  some_injective, arith,
}
use lsp_framework.Lspgen.Text.{
  behind_front, after_char, at_place, cut, replace_from, replace_string, is_nil, split_from,
  split_string_view,
}

behind_front-length :
    (pattern s rest : Bytes)
    → behind_front pattern s ≡ some rest
    → length s ≡ length pattern + length rest
behind_front-length [] s rest e = let k = ap length (some_injective e) in omega arith
behind_front-length (p ∷ ps) [] rest e = absurd cc
behind_front-length (p ∷ ps) (c ∷ s) rest e = elim (Bool-cases (p == c)) [
  | inl h ↦
      let k =
        behind_front-length ps s rest
          (ap (λ b. if b then behind_front ps s else none) (sym h) ∙ e) in
      omega arith
  | inr h ↦ absurd (none_ne_some (ap (λ b. if b then behind_front ps s else none) (sym h) ∙ e))
]

after_char-rest :
    (c : ℕ) (o : Option (Bytes × Bytes)) (front rest : Bytes)
    → after_char c o ≡ some (front, rest)
    → (front' : Bytes) × (o ≡ some (front', rest))
after_char-rest c none front rest e = absurd cc
after_char-rest c (some (f, r)) front rest e = (f, cc)

at_place-rest :
    (later : Option (Bytes × Bytes)) (o : Option Bytes) (front rest : Bytes)
    → at_place later o ≡ some (front, rest)
    → (later ≡ some (front, rest)) ⊎ (o ≡ some rest)
at_place-rest later none front rest e = inl e
at_place-rest later (some r) front rest e = inr cc

-- What stands behind the pattern is shorter than the text.
cut-length :
    (p : ℕ) (ps s front rest : Bytes) → cut (p ∷ ps) s ≡ some (front, rest) → length rest < length s
unfolding cut
cut-length p ps [] front rest e = absurd (none_ne_some e)
cut-length p ps (c ∷ s) front rest e =
    elim (at_place-rest (after_char c (cut (p ∷ ps) s)) (behind_front (p ∷ ps) (c ∷ s)) front rest
      e) [
        | inl h ↦
            let (f, g) = after_char-rest c (cut (p ∷ ps) s) front rest h in
            let k = cut-length p ps s f rest g in omega arith
        | inr h ↦ let k = behind_front-length (p ∷ ps) (c ∷ s) rest h in omega arith
      ]

replace_from-enough :
    (fuel more : ℕ) (p : ℕ) (ps r s : Bytes)
    → length s < fuel
    → length s < more
    → replace_from fuel (p ∷ ps) r s ≡ replace_from more (p ∷ ps) r s
unfolding replace_from
replace_from-enough zero more p ps r s lt lt' = absurd (omega arith)
replace_from-enough (suc fuel) zero p ps r s lt lt' = absurd (omega arith)
replace_from-enough (suc fuel) (suc more) p ps r s lt lt' = elim (Option-cases (cut (p ∷ ps) s)) [
  | inl h ↦ rw (replace_from, h) refl
  | inr ((front, rest), h) ↦
      let k = cut-length p ps s front rest h in
      rw (replace_from, h)
        (ap (λ t. front ++ (r ++ t))
          (replace_from-enough fuel more p ps r rest (omega arith) (omega arith)))
]

-- The text is replaced up to the first place of the pattern and from behind it on, as if the loop had no fuel.
replace_string-cut :
    (p : ℕ) (ps r s front rest : Bytes)
    → cut (p ∷ ps) s ≡ some (front, rest)
    → replace_string s (p ∷ ps) r ≡ front ++ (r ++ replace_string rest (p ∷ ps) r)
unfolding replace_string replace_from
replace_string-cut p ps r s front rest h =
    let k = cut-length p ps s front rest h in
    rw (replace_from, h)
      (ap (λ t. front ++ (r ++ t))
        (replace_from-enough (length s) (suc (length rest)) p ps r rest (omega arith)
          (omega arith)))

split_from-enough :
    (fuel more : ℕ) (skip_empty : Bool) (p : ℕ) (ps s : Bytes)
    → length s < fuel
    → length s < more
    → split_from fuel skip_empty (p ∷ ps) s ≡ split_from more skip_empty (p ∷ ps) s
unfolding split_from
split_from-enough zero more skip_empty p ps s lt lt' = absurd (omega arith)
split_from-enough (suc fuel) zero skip_empty p ps s lt lt' = absurd (omega arith)
split_from-enough (suc fuel) (suc more) skip_empty p ps s lt lt' =
    elim (Option-cases (cut (p ∷ ps) s)) [
      | inl h ↦ rw (split_from, h) refl
      | inr ((part, rest), h) ↦
          let k = cut-length p ps s part rest h in
          rw (split_from, h)
            (ap (λ parts. if is_nil part && skip_empty then parts else part ∷ parts)
              (split_from-enough fuel more skip_empty p ps rest (omega arith) (omega arith)))
    ]

split_string_view-cut :
    (skip_empty : Bool) (p : ℕ) (ps s part rest : Bytes)
    → cut (p ∷ ps) s ≡ some (part, rest)
    → split_string_view s (p ∷ ps) skip_empty ≡ (
        let parts = split_string_view rest (p ∷ ps) skip_empty in
        if is_nil part && skip_empty then parts else part ∷ parts)
unfolding split_string_view split_from
split_string_view-cut skip_empty p ps s part rest h =
    let k = cut-length p ps s part rest h in
    rw (split_from, h)
      (ap (λ parts. if is_nil part && skip_empty then parts else part ∷ parts)
        (split_from-enough (length s) (suc (length rest)) skip_empty p ps rest (omega arith)
          (omega arith)))
