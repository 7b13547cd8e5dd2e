-- ===== src/Serialization/Integers.antt =====
-- The conversions of integers in lsp/serialization.h.
use lsp_framework.Base.{◌^◌, ◌<◌, ◌≡◌, refl, true, ok, ℤ, pos, negsuc, arith, Bool-cases, inl, inr}
use lsp_framework.Json.Value.{Decimals}
use lsp_framework.Json.Parser.Tokens.{fits_integer}
use lsp_framework.Jsonrpc.RoundTrip.{IsExact}
use lsp_framework.Serialization.{
  wrap_integer, at_most_max, number_from_json, long_to_json, long_long_to_json,
}

-- Not below the least `json::Integer`.
abbrev pub IsAtLeastMin : ℤ → Type 0
IsAtLeastMin (pos n) = Unit
IsAtLeastMin (negsuc n) = n < 2 ^ 31

wrap_integer-id : (i : ℤ) → at_most_max i ≡ true → IsAtLeastMin i → wrap_integer i ≡ i
wrap_integer-id (pos n) h l = ground arith
wrap_integer-id (negsuc n) h l = ground arith

fits-at_most_max : (i : ℤ) → fits_integer i ≡ true → (at_most_max i ≡ true) × IsAtLeastMin i
fits-at_most_max (pos n) h = (ground arith, tt)
fits-at_most_max (negsuc n) h = (refl, ground arith)

module _ {D : Type 0} (dec : Decimals D) where
  -- An integer of 64 bits that `double` holds is read back, whether it is written as an integer or
  -- as a decimal.
  pub number_from_json-long_long_to_json :
      (i j : ℤ) → IsExact dec i → number_from_json dec (long_long_to_json dec i) j ≡ ok i
  number_from_json-long_long_to_json i j h = elim (Bool-cases (fits_integer i)) [
    | inl e ↦ let (low, high) = fits-at_most_max i e in rw (e, wrap_integer-id i low high, h) refl
    | inr e ↦ rw (e, h) refl
  ]

  long-back :
      (i j : ℤ)
      → IsAtLeastMin i
      → IsExact dec i
      → number_from_json dec (long_to_json dec i) j ≡ ok i
  long-back i j l h = elim (Bool-cases (at_most_max i)) [
    | inl e ↦ rw (e, wrap_integer-id i e l, h) refl
    | inr e ↦ rw (e, h) refl
  ]
