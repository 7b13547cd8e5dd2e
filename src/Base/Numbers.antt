-- ===== src/Base/Numbers.antt =====
-- Reading back the decimal digits that `std::to_string` writes.
use native.Mathlib.Decide.{dec_lt}
use lsp_framework.Base.{
  ◌∙◌, ℕ, zero, suc, ◌+◌, ◌*◌, ◌/◌, ◌%◌, ◌≤◌, ◌<◌, ◌≡◌, refl, true, false, some, [], ◌∷◌, ◌++◌,
  Bytes, arith, ℤ, pos, negsuc, All,
}
use lsp_framework.Base.Chars.{
  digit_value, scan_digits, emit_digits, to_string_unsigned, to_string, starts_digit,
  from_chars_signed, from_chars_magnitude,
}

-- A text that does not begin with a digit of the base.
abbrev pub EndsNumber : ℕ → Bytes → Type 0
EndsNumber base s = starts_digit base s ≡ false

pub scan_digits_step :
    (base acc c d n : ℕ) (s : Bytes)
    → digit_value base c ≡ some d
    → n ≡ acc * base + d
    → scan_digits base acc (c ∷ s) ≡ scan_digits base n s
unfolding scan_digits
scan_digits_step base acc c d n s h e = unfold digit_value in ground arith

pub scan_digits_stop :
    (base acc : ℕ) (s : Bytes) → EndsNumber base s → scan_digits base acc s ≡ (acc, s)
unfolding scan_digits starts_digit
scan_digits_stop base acc [] h = refl
scan_digits_stop base acc (c ∷ s) h = ground arith

digit_value-digit : (d : ℕ) → d < 10 → digit_value 10 (b'0' + d) ≡ some d
unfolding digit_value
digit_value-digit d h = ground arith

emit_digits_small : (f n : ℕ) (out : Bytes) → n < 10 → emit_digits (suc f) n out ≡ (b'0' + n) ∷ out
unfolding emit_digits
emit_digits_small f n out h = ground arith

emit_digits_large :
    (f n : ℕ) (out : Bytes)
    → 10 ≤ n
    → emit_digits (suc f) n out ≡ emit_digits f (n / 10) ((b'0' + n % 10) ∷ out)
unfolding emit_digits
emit_digits_large f n out h = ground arith

-- Induction over the digits of a number.
module _ (P : ℕ → Bytes → Bytes → Type 0)
    (small : (n : ℕ) (out : Bytes) → n < 10 → P n out ((b'0' + n) ∷ out))
    (large : (n : ℕ) (out s : Bytes) → P (n / 10) ((b'0' + n % 10) ∷ out) s → P n out s) where
  emit_digits_induction : (f n : ℕ) (out : Bytes) → n < f → P n out (emit_digits f n out)
  emit_digits_induction zero n out h = absurd (omega arith)
  emit_digits_induction (suc f) n out h = elim (dec_lt n 10) [
    | yes lt ↦ rw (emit_digits_small f n out lt) (small n out lt)
    | no ge ↦
        rw (emit_digits_large f n out (omega arith))
          (large n out _ (emit_digits_induction f (n / 10) ((b'0' + n % 10) ∷ out) (omega arith)))
  ]

scan_digits-emit_digits :
    (f n : ℕ) (out : Bytes) → n < f → scan_digits 10 0 (emit_digits f n out) ≡ scan_digits 10 n out
scan_digits-emit_digits =
    emit_digits_induction (λ n out s. scan_digits 10 0 s ≡ scan_digits 10 n out)
      (λ n out lt. scan_digits_step 10 0 (b'0' + n) n n out (digit_value-digit n lt) (omega arith))
      λ n out s ih.
        ih
        ∙ scan_digits_step 10 (n / 10) (b'0' + n % 10) (n % 10) n out
            (digit_value-digit (n % 10) (omega arith)) (omega arith)

emit_digits-append :
    (f n : ℕ) (out rest : Bytes) → emit_digits f n out ++ rest ≡ emit_digits f n (out ++ rest)
emit_digits-append zero n out rest = unfold emit_digits in refl
emit_digits-append (suc f) n out rest = elim (dec_lt n 10) [
  | yes lt ↦ rw (emit_digits_small f n out lt, emit_digits_small f n (out ++ rest) lt)
  | no ge ↦
      rw
        (emit_digits_large f n out (omega arith), emit_digits_large f n (out ++ rest) (omega arith))
        (emit_digits-append f (n / 10) ((b'0' + n % 10) ∷ out) rest)
]

-- A decimal print begins with a digit.
pub emit_digits_head :
    (f n : ℕ) (out : Bytes)
    → n < f
    → (d : ℕ) × (t : Bytes) × (emit_digits f n out ≡ (b'0' + d) ∷ t) × (d < 10)
emit_digits_head =
    emit_digits_induction (λ n out s. (d : ℕ) × (t : Bytes) × (s ≡ (b'0' + d) ∷ t) × (d < 10))
      (λ n out lt. (n, out, refl, lt)) (λ n out s ih. ih)

pub emit_digits-All :
    (P : ℕ → Type 0)
    → ((d : ℕ) → d < 10 → P (b'0' + d))
    → (f n : ℕ) (out : Bytes) → n < f
    → All P out
    → All P (emit_digits f n out)
emit_digits-All P h =
    emit_digits_induction (λ n out s. All P out → All P s) (λ n out lt o. (h n lt, o))
      (λ n out s ih o. ih (h (n % 10) (omega arith), o))

pub starts_digit-to_string_unsigned :
    (n : ℕ) (rest : Bytes) → starts_digit 10 (to_string_unsigned n ++ rest) ≡ true
unfolding to_string_unsigned starts_digit
starts_digit-to_string_unsigned n rest =
    let (d, t, e, lt) = emit_digits_head (suc n) n [] (omega arith) in
    rw e (ground (arith, digit_value-digit d lt))

pub scan_digits-to_string :
    (n : ℕ) (rest : Bytes)
    → EndsNumber 10 rest
    → scan_digits 10 0 (to_string_unsigned n ++ rest) ≡ (n, rest)
unfolding to_string_unsigned
scan_digits-to_string n rest h =
    rw emit_digits-append
      (scan_digits-emit_digits (suc n) n rest (omega arith) ∙ scan_digits_stop 10 n rest h)

abbrev pub InRange : ℕ → ℤ → Type 0
InRange bound (pos n) = n < bound
InRange bound (negsuc n) = n < bound

from_chars_signed_digit :
    (bound : ℕ) (s : Bytes)
    → starts_digit 10 s ≡ true
    → from_chars_signed bound s ≡ from_chars_magnitude false bound s s
unfolding from_chars_signed starts_digit digit_value
from_chars_signed_digit bound [] h = cc
from_chars_signed_digit bound (c ∷ s) h = ground arith

-- The print of an integer of the type reads back as that integer, whatever follows it that is no digit.
pub from_chars_signed-to_string :
    (bound : ℕ) (z : ℤ) (rest : Bytes)
    → InRange bound z
    → EndsNumber 10 rest
    → from_chars_signed bound (to_string z ++ rest) ≡ record { value = some z; rest = rest }
unfolding to_string
from_chars_signed-to_string bound (pos n) rest r h =
    rw (from_chars_signed_digit bound _ (starts_digit-to_string_unsigned n rest)) (
      unfold from_chars_magnitude in
      rw (starts_digit-to_string_unsigned, scan_digits-to_string n rest h) (ground arith))
from_chars_signed-to_string bound (negsuc n) rest r h =
    unfold from_chars_signed in
    rw (starts_digit-to_string_unsigned, scan_digits-to_string (suc n) rest h) (ground arith)
