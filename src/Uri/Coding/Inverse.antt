-- ===== src/Uri/Coding/Inverse.antt =====
-- Decoding undoes encoding, and what encoding leaves in the text.
use lsp_framework.Base.{
  ℕ, ◌+◌, ◌/◌, ◌%◌, ◌<◌, ◌≤◌, ◌≡◌, ◌≢◌, refl, sym, ap, ◌∙◌, true, false, some, [], ◌∷◌, ◌++◌, Bytes,
  IsBytes, ◌==◌, length, arith, append_assoc, append-nil, Bool-cases, Option-cases, length-append,
  inl, inr, lt→ltb, All, All-append,
}
use lsp_framework.Base.Chars.{hex_lookup, digit_value, scan_digits, starts_digit}
use lsp_framework.Base.Numbers.{scan_digits_step, scan_digits_stop}
use lsp_framework.Uri.Coding.{
  contains_byte, is_kept, encode_char, encode_loop, encode, hex_pair, decode_loop, decode,
}

digit_value-hex_lookup : (d : ℕ) → d < 16 → digit_value 16 (hex_lookup d) ≡ some d
unfolding digit_value
digit_value-hex_lookup d h = ground arith

scan-hex :
    (c : ℕ) → c < 256 → scan_digits 16 0 (hex_lookup (c / 16) ∷ hex_lookup (c % 16) ∷ []) ≡ (c, [])
scan-hex c h =
    scan_digits_step 16 0 _ (c / 16) (c / 16) _ (digit_value-hex_lookup _ (omega arith))
      (omega arith)
    ∙ scan_digits_step 16 (c / 16) _ (c % 16) c _ (digit_value-hex_lookup _ (omega arith))
        (omega arith)
    ∙ scan_digits_stop 16 c [] (unfold starts_digit in refl)

starts_digit-hex : (d : ℕ) (s : Bytes) → d < 16 → starts_digit 16 (hex_lookup d ∷ s) ≡ true
starts_digit-hex d s h = let e = digit_value-hex_lookup d h in unfold starts_digit in ground arith

hex_pair-hex : (c : ℕ) → c < 256 → hex_pair (hex_lookup (c / 16)) (hex_lookup (c % 16)) ≡ some c
hex_pair-hex c h =
    unfold hex_pair in
    rw (
      starts_digit-hex (c / 16) (hex_lookup (c % 16) ∷ []) (omega arith),
      scan-hex c h,
      lt→ltb c 256 h,
    )

decode_loop-plain :
    (c : ℕ) (t out : Bytes) → c ≢ b'%' → decode_loop (c ∷ t) out ≡ decode_loop t (out ++ c ∷ [])
unfolding decode_loop
decode_loop-plain c [] out h = refl
decode_loop-plain c (a ∷ []) out h = rw append_assoc
decode_loop-plain c (a ∷ b ∷ t) out h = ground arith

decode_loop-escape :
    (c : ℕ) (t out : Bytes)
    → c < 256
    → decode_loop (b'%' ∷ hex_lookup (c / 16) ∷ hex_lookup (c % 16) ∷ t) out
      ≡ decode_loop t (out ++ c ∷ [])
unfolding decode_loop
decode_loop-escape c t out h = ground (arith, hex_pair-hex c h)

-- The text as the rounds of the loop write it.
abbrev pub encoded : Bytes → Bytes → Bytes
encoded exclude [] = []
encoded exclude (c ∷ s) = encode_char exclude c ++ encoded exclude s

encode_loop-encoded : (exclude s out : Bytes) → encode_loop exclude s out ≡ out ++ encoded exclude s
unfolding encode_loop
encode_loop-encoded exclude [] out = sym (append-nil out)
encode_loop-encoded exclude (c ∷ s) out =
    encode_loop-encoded exclude s (out ++ encode_char exclude c)
    ∙ append_assoc out (encode_char exclude c) (encoded exclude s)

pub encode-encoded : (s exclude : Bytes) → encode s exclude ≡ encoded exclude s
encode-encoded s exclude = unfold encode in encode_loop-encoded exclude s []

encode_char-kept :
    (exclude : Bytes) (c : ℕ) → is_kept exclude c ≡ true → encode_char exclude c ≡ c ∷ []
encode_char-kept exclude c h = unfold encode_char in rw h

encode_char-escaped :
    (exclude : Bytes) (c : ℕ)
    → is_kept exclude c ≡ false
    → encode_char exclude c ≡ b'%' ∷ hex_lookup (c / 16) ∷ hex_lookup (c % 16) ∷ []
encode_char-escaped exclude c h = unfold encode_char in rw h

pub encode_char-ne-nil : (exclude : Bytes) (c : ℕ) → encode_char exclude c ≢ []
unfolding encode_char
encode_char-ne-nil exclude c = ground arith

module _ (exclude : Bytes) (no_percent : contains_byte exclude b'%' ≡ false) where
  percent-is_kept : is_kept exclude b'%' ≡ false
  percent-is_kept = unfold is_kept in rw no_percent

  not_percent : (c : ℕ) → is_kept exclude c ≡ true → c ≢ b'%'
  not_percent c h e = cc (ap (is_kept exclude) e, percent-is_kept)

  decode_loop-encoded :
      (s out : Bytes) → IsBytes s → decode_loop (encoded exclude s) out ≡ some (out ++ s)
  decode_loop-encoded [] out h = unfold decode_loop in ap some (sym (append-nil out))
  decode_loop-encoded (c ∷ s) out (hc, hs) =
      decode_first
      ∙ decode_loop-encoded s (out ++ c ∷ []) hs
      ∙ ap some (append_assoc out (c ∷ []) s)
    where
      decode_first :
          decode_loop (encoded exclude (c ∷ s)) out
          ≡ decode_loop (encoded exclude s) (out ++ c ∷ [])
      decode_first = elim (Bool-cases (is_kept exclude c)) [
        | inl k ↦
            rw (encode_char-kept exclude c k)
              (decode_loop-plain c (encoded exclude s) out (not_percent c k))
        | inr k ↦
            rw (encode_char-escaped exclude c k) (decode_loop-escape c (encoded exclude s) out hc)
      ]

  -- Decoding an encoded text gives the text back, if `%` itself is not excluded from encoding.
  pub decode-encode : (s : Bytes) → IsBytes s → decode (encode s exclude) ≡ s
  decode-encode s h = rw encode-encoded (unfold decode in rw (decode_loop-encoded s [] h))

-- A property of the characters that are kept, of `%` and of the digits holds of an encoded text.
module _ (P : ℕ → Type 0) (exclude : Bytes) (kept : (c : ℕ) → is_kept exclude c ≡ true → P c)
    (percent : P b'%') (digit : (d : ℕ) → d < 16 → P (hex_lookup d)) where
  encode_char-All : (c : ℕ) → c < 256 → All P (encode_char exclude c)
  encode_char-All c h = elim (Bool-cases (is_kept exclude c)) [
    | inl k ↦ rw (encode_char-kept exclude c k) (kept c k, tt)
    | inr k ↦
        rw (encode_char-escaped exclude c k)
          (percent, (digit (c / 16) (omega arith), (digit (c % 16) (omega arith), tt)))
  ]

  encoded-All : (s : Bytes) → IsBytes s → All P (encoded exclude s)
  encoded-All [] h = tt
  encoded-All (c ∷ s) (hc, hs) =
      All-append P (encode_char exclude c) (encoded exclude s) (encode_char-All c hc)
        (encoded-All s hs)

  pub encode-All : (s : Bytes) → IsBytes s → All P (encode s exclude)
  encode-All s h = rw encode-encoded (encoded-All s h)

length-decode_loop :
    (s out t : Bytes) → decode_loop s out ≡ some t → length t ≤ length out + length s
unfolding decode_loop
length-decode_loop [] out t h = ground arith
length-decode_loop (c ∷ []) out t h = ground (arith, length-append out (c ∷ []))
length-decode_loop (c ∷ a ∷ []) out t h = ground (arith, length-append out (c ∷ a ∷ []))
length-decode_loop (c ∷ a ∷ b ∷ s) out t h = elim (Bool-cases (c == b'%')) [
  | inl e ↦ elim (Option-cases (hex_pair a b)) [
    | inl n ↦ absurd (ground (arith, n))
    | inr (d, m) ↦
        ground (arith, m, length-decode_loop s (out ++ d ∷ []) t, length-append out (d ∷ []))
  ]
  | inr e ↦
      ground (arith, length-decode_loop (a ∷ b ∷ s) (out ++ c ∷ []) t, length-append out (c ∷ []))
]

-- Decoding makes no text longer.
pub length-decode : (s : Bytes) → length (decode s) ≤ length s
unfolding decode
length-decode s = elim (Option-cases (decode_loop s [])) [
  | inl n ↦ rw n (omega arith)
  | inr (t, e) ↦ rw e (omega (arith, length-decode_loop s [] t e))
]
