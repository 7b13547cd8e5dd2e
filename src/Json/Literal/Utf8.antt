-- ===== src/Json/Literal/Utf8.antt =====
-- `appendCodePointAsUtf8` against the layout of UTF-8 sequences.
use lsp_framework.Base.{
  ℕ, ◌+◌, ◌-◌, ◌*◌, ◌≡◌, Bool, ◌&&◌, ◌||◌, Option, none, some, [], ◌∷◌, ◌++◌, Bytes, IsBytes, ltb,
  leb, if◌then◌else◌,
}
use lsp_framework.Json.Literal.{append_code_point_as_utf8}

is_continuation : ℕ → Bool
is_continuation c = leb 0x80 c && ltb c 0xC0

-- No surrogate, and not above 0x10FFFF.
pub is_scalar : ℕ → Bool
is_scalar cp = ltb cp 0xD800 || (leb 0xE000 cp && leb cp 0x10FFFF)

-- The code point that a well-formed UTF-8 sequence stands for: the shortest form, no surrogate, none above
-- 0x10FFFF.
pub utf8_value : Bytes → Option ℕ
unfolding is_continuation is_scalar
utf8_value (a ∷ []) = if ltb a 0x80 then some a else none
utf8_value (a ∷ b ∷ []) =
    if leb 0xC2 a && ltb a 0xE0 && is_continuation b
    then some ((a - 0xC0) * 64 + (b - 0x80))
    else none
utf8_value (a ∷ b ∷ c ∷ []) =
    let cp = ((a - 0xE0) * 64 + (b - 0x80)) * 64 + (c - 0x80) in
    if leb 0xE0 a
      && ltb a 0xF0
      && is_continuation b
      && is_continuation c
      && leb 0x800 cp
      && is_scalar cp
    then some cp
    else none
utf8_value (a ∷ b ∷ c ∷ d ∷ []) =
    let cp = (((a - 0xF0) * 64 + (b - 0x80)) * 64 + (c - 0x80)) * 64 + (d - 0x80) in
    if leb 0xF0 a
      && ltb a 0xF8
      && is_continuation b
      && is_continuation c
      && is_continuation d
      && leb 0x10000 cp
      && is_scalar cp
    then some cp
    else none
utf8_value _ = none

-- Appended to `out` is one sequence of bytes: a well-formed one that stands for the code point, if that is no
-- surrogate and not above 0x10FFFF, else one that is not well-formed.
Appends : Bytes → ℕ → Type 0
unfolding append_code_point_as_utf8 utf8_value is_scalar
Appends out cp =
    (w : Bytes) × (append_code_point_as_utf8 out cp ≡ out ++ w)
    × (utf8_value w ≡ (if is_scalar cp then some cp else none))
    × IsBytes w
