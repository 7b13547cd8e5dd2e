-- ===== src/Json/RoundTrip/Layout.antt =====
-- The blanks and separators that `stringify` of lsp/json/json.cpp writes.
use lsp_framework.Base.{
  ℕ, zero, suc, ◌≡◌, refl, Bool, true, false, [], ◌∷◌, ◌++◌, Bytes, codes, append_assoc, min,
  if◌then◌else◌,
}
use lsp_framework.Json.Literal.{to_string_literal}
use lsp_framework.Json.Print.{list_edge, value_sep, key_sep, get_indent, tabs}
use lsp_framework.Json.Parser.Lexing.{IsBlank}
use lsp_framework.Json.Parser.Scalars.{EndsToken}

tabs-IsBlank : (n : ℕ) → IsBlank (tabs n)
unfolding tabs
tabs-IsBlank zero = tt
tabs-IsBlank (suc n) = (refl, tabs-IsBlank n)

get_indent-IsBlank : (format : Bool) (n : ℕ) → IsBlank (get_indent format n)
unfolding get_indent
get_indent-IsBlank true n = tabs-IsBlank (min n 32)
get_indent-IsBlank false n = tt

-- The line break and the indent that stand before an element and before a closing bracket.
abbrev pub line : Bool → ℕ → Bytes
line format level = list_edge format ++ get_indent format level

pub line-IsBlank : (format : Bool) (level : ℕ) → IsBlank (line format level)
unfolding get_indent
line-IsBlank true level = (refl, get_indent-IsBlank true level)
line-IsBlank false level = tt

abbrev pub gap : Bool → Bytes
gap format = if format then codes " " else []

pub gap-IsBlank : (format : Bool) → IsBlank (gap format)
gap-IsBlank true = (refl, tt)
gap-IsBlank false = tt

pub value_sep-eq : (format : Bool) → value_sep format ≡ b',' ∷ list_edge format
value_sep-eq true = refl
value_sep-eq false = refl

pub key_sep-eq : (format : Bool) → key_sep format ≡ b':' ∷ gap format
key_sep-eq true = refl
key_sep-eq false = refl

pub EndsToken-line :
    (format : Bool) (level c : ℕ) (rest : Bytes)
    → EndsToken (c ∷ rest)
    → EndsToken (line format level ++ c ∷ rest)
unfolding get_indent
EndsToken-line true level c rest h = refl
EndsToken-line false level c rest h = h

pub line_assoc :
    (edge indent x more tail : Bytes)
    → (edge ++ (indent ++ (x ++ more))) ++ tail ≡ (edge ++ indent) ++ (x ++ (more ++ tail))
line_assoc edge indent x more tail = simp append_assoc

pub entry_assoc :
    (edge indent k sep x more tail : Bytes)
    → (edge ++ (indent ++ (k ++ (sep ++ (x ++ more))))) ++ tail
      ≡ (edge ++ indent) ++ (k ++ (sep ++ (x ++ (more ++ tail))))
entry_assoc edge indent k sep x more tail = simp append_assoc

pub array_assoc :
    (edge indent x more close rest : Bytes) (c : ℕ)
    → ((edge ++ (indent ++ (x ++ (more ++ close)))) ++ c ∷ []) ++ rest
      ≡ (edge ++ indent) ++ (x ++ (more ++ (close ++ c ∷ rest)))
array_assoc edge indent x more close rest c = simp append_assoc

pub object_assoc :
    (edge indent k sep x more close rest : Bytes) (c : ℕ)
    → ((edge ++ (indent ++ (k ++ (sep ++ (x ++ (more ++ close)))))) ++ c ∷ []) ++ rest
      ≡ (edge ++ indent) ++ (k ++ (sep ++ (x ++ (more ++ (close ++ c ∷ rest)))))
object_assoc edge indent k sep x more close rest c = simp append_assoc

-- The text of an entry of an object.
abbrev pub entry : Bool → Bytes → Bytes → Bytes → Bytes
entry format k x rest = to_string_literal k ++ (key_sep format ++ (x ++ rest))
