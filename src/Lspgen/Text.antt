-- ===== src/Lspgen/Text.antt =====
-- The functions of lspgen/lspgen.cpp on texts.
use lsp_framework.Base.{
  ℕ, zero, suc, Bool, true, false, ◌&&◌, Option, none, some, List, [], ◌∷◌, ◌++◌, Bytes, ◌==◌,
  if◌then◌else◌, length,
}
use lsp_framework.Base.Chars.{to_upper, to_lower}

abbrev pub capitalize_string : Bytes → Bytes
capitalize_string [] = []
capitalize_string (c ∷ s) = to_upper c ∷ s

abbrev pub uncapitalize_string : Bytes → Bytes
uncapitalize_string [] = []
uncapitalize_string (c ∷ s) = to_lower c ∷ s

-- What follows a front.
abbrev pub behind_front : Bytes → Bytes → Option Bytes
behind_front [] s = some s
behind_front (p ∷ ps) [] = none
behind_front (p ∷ ps) (c ∷ s) = let rest = behind_front ps s in if p == c then rest else none

abbrev pub after_char : ℕ → Option (Bytes × Bytes) → Option (Bytes × Bytes)
after_char c none = none
after_char c (some (front, rest)) = some (c ∷ front, rest)

-- The pattern stands here, or at a later place.
abbrev pub at_place : Option (Bytes × Bytes) → Option Bytes → Option (Bytes × Bytes)
at_place later none = later
at_place later (some rest) = some ([], rest)

-- `find`: what stands before the first place of the pattern, and what stands behind it.
unfoldable pub cut : Bytes → Bytes → Option (Bytes × Bytes)
cut pattern [] = at_place none (behind_front pattern [])
cut pattern (c ∷ s) = at_place (after_char c (cut pattern s)) (behind_front pattern (c ∷ s))

-- The loops over the places of a pattern. Each round takes the pattern off the text, so for a pattern that is not
-- empty the fuel, above the length of the text, is enough.
unfoldable pub replace_from : ℕ → Bytes → Bytes → Bytes → Bytes
replace_from zero pattern replacement s = s
replace_from (suc fuel) pattern replacement s = elim (cut pattern s) [
  | none ↦ s
  | some (front, rest) ↦ front ++ (replacement ++ replace_from fuel pattern replacement rest)
]

unfoldable pub replace_string : Bytes → Bytes → Bytes → Bytes
replace_string s pattern replacement = replace_from (suc (length s)) pattern replacement s

abbrev pub is_nil : Bytes → Bool
is_nil [] = true
is_nil (c ∷ s) = false

-- An empty part at the end is left out.
abbrev last_part : Bytes → List Bytes
last_part [] = []
last_part (c ∷ s) = (c ∷ s) ∷ []

unfoldable pub split_from : ℕ → Bool → Bytes → Bytes → List Bytes
split_from zero skip_empty separator s = []
split_from (suc fuel) skip_empty separator s = elim (cut separator s) [
  | none ↦ last_part s
  | some (part, rest) ↦
      let parts = split_from fuel skip_empty separator rest in
      if is_nil part && skip_empty then parts else part ∷ parts
]

unfoldable pub split_string_view : Bytes → Bytes → Bool → List Bytes
split_string_view s separator skip_empty = split_from (suc (length s)) skip_empty separator s

abbrev pub join_more : Bytes → (Bytes → Bytes) → List Bytes → Bytes
join_more separator transform [] = []
join_more separator transform (s ∷ strings) =
    separator ++ (transform s ++ join_more separator transform strings)

abbrev pub join_strings : List Bytes → Bytes → (Bytes → Bytes) → Bytes
join_strings [] separator transform = []
join_strings (s ∷ strings) separator transform =
    transform s ++ join_more separator transform strings
