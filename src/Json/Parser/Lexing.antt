-- ===== src/Json/Parser/Lexing.antt =====
-- What the token functions read from a text that begins with a known token.
use lsp_framework.Base.{
  ℕ, ◌+◌, ◌≡◌, ap, Bool, true, false, [], ◌∷◌, ◌++◌, Bytes, length, arith, All, append_assoc,
  append-nil,
}
use lsp_framework.Base.Chars.{is_space}
use lsp_framework.Json.Parser.Tokens.{skip_whitespace, take_while}

-- The text is empty or its first character fails the test.
abbrev pub StopsAt : (ℕ → Bool) → Bytes → Type 0
StopsAt test [] = Unit
StopsAt test (c ∷ s) = test c ≡ false

abbrev pub IsBlank : Bytes → Type 0
IsBlank = All (λ c. is_space c ≡ true)

pub skip_whitespace-blank :
    (w : Bytes) (c : ℕ) (s : Bytes) (at : ℕ)
    → IsBlank w
    → is_space c ≡ false
    → (at' : ℕ) × (skip_whitespace (w ++ c ∷ s) at ≡ (c ∷ s, at'))
unfolding skip_whitespace
skip_whitespace-blank [] c s at hw hc = (at, rw hc)
skip_whitespace-blank (d ∷ w) c s at (hd, hw) hc =
    let (at', e) = skip_whitespace-blank w c s (at + 1) hw hc in (at', rw (hd, e))

pub take_while-append :
    (test : ℕ → Bool) (x rest : Bytes) (at : ℕ) (token : Bytes)
    → All (λ c. test c ≡ true) x
    → StopsAt test rest
    → take_while test (x ++ rest) at token
      ≡ record { token = token ++ x; rest = rest; at = at + length x }
unfolding take_while
take_while-append test [] [] at token h stops =
    rw (append-nil token) (ap (λ n. record { token = token; rest = []; at = n }) (omega arith))
take_while-append test [] (c ∷ rest) at token h stops =
    rw (stops, append-nil token)
      (ap (λ n. record { token = token; rest = c ∷ rest; at = n }) (omega arith))
take_while-append test (c ∷ x) rest at token (hc, h) stops =
    rw
      (
        hc,
        take_while-append test x rest (at + 1) (token ++ c ∷ []) h stops,
        append_assoc token (c ∷ []) x,
      )
      (ap (λ n. record { token = token ++ c ∷ x; rest = rest; at = n }) (omega arith))
