-- ===== src/Json/Parser/Reads.antt =====
-- What the token functions of `Parser` leave unread.
use lsp_framework.Base.{
  ℕ, suc, ◌+◌, ◌<◌, ◌≤◌, ◌≡◌, ◌≢◌, Bool, true, false, not, ◌&&◌, ◌||◌, [], ◌∷◌, ◌++◌, Bytes, ◌==◌,
  length, ok, err, ◌>>=◌, arith, Bool-cases, inl, inr,
}
use lsp_framework.Base.Chars.{is_digit, is_alpha, is_alnum}
use lsp_framework.Exceptions.{Throws, out_of_fuel}
use lsp_framework.Json.Literal.{quote}
use lsp_framework.Json.Value.{Value, Decimals}
use lsp_framework.Json.Parser.Tokens.{
  Read, skip_whitespace, scan_string, parse_string, take_while, is_number_char, number_value,
  parse_number, identifier_value, parse_identifier, string_token, parse_simple_value,
}

-- The computation does not run out of fuel, and a value that it returns satisfies `P`.
abbrev pub Ends : {A : Type 0} → (A → Type 0) → Throws A → Type 0
Ends P (ok a) = P a
Ends P (err e) = e ≢ out_of_fuel

pub Ends-bind :
    {A B : Type 0} (P : A → Type 0) (Q : B → Type 0) (m : Throws A) (f : A → Throws B)
    → Ends P m
    → ((a : A) → P a → Ends Q (f a))
    → Ends Q (m >>= f)
Ends-bind P Q (ok a) f h k = k a h
Ends-bind P Q (err e) f h k = h

pub Ends-mono :
    {A : Type 0} (P Q : A → Type 0) (m : Throws A) → ((a : A) → P a → Q a) → Ends P m → Ends Q m
Ends-mono P Q (ok a) k h = k a h
Ends-mono P Q (err e) k h = h

pub Ends-apart : {A : Type 0} (m : Throws A) → m ≡ err out_of_fuel → ¬ Ends (λ a. Unit {0}) m
Ends-apart (ok a) e h = cc
Ends-apart (err x) e h = h (cc)

pub length-skip_whitespace : (s : Bytes) (at : ℕ) → length (skip_whitespace s at).0 ≤ length s
unfolding skip_whitespace
length-skip_whitespace [] at = omega arith
length-skip_whitespace (c ∷ s) at = ground (arith, length-skip_whitespace s (at + 1))

-- A token is read, and fewer than `n` bytes are left.
abbrev pub Leaves : {A : Type 0} → ℕ → Read A → Type 0
Leaves n r = length r.rest < n

scan_string-Ends :
    (escape : Bool) (s : Bytes) (at : ℕ) (token : Bytes)
    → Ends (Leaves (length s)) (scan_string escape s at token)
unfolding scan_string
scan_string-Ends escape [] at token = λ e. cc
scan_string-Ends escape (c ∷ s) at token =
    ground (arith, scan_string-Ends (not escape && c == b'\\') s (at + 1) (token ++ c ∷ []))

pub parse_string-Ends : (s : Bytes) (at : ℕ) → Ends (Leaves (length s)) (parse_string s at)
unfolding parse_string
parse_string-Ends [] at = λ e. cc
parse_string-Ends (c ∷ s) at = ground (arith, scan_string-Ends false s (at + 1) (quote ∷ []))

length-take_while :
    (test : ℕ → Bool) (s : Bytes) (at : ℕ) (token : Bytes)
    → length (take_while test s at token).rest ≤ length s
unfolding take_while
length-take_while test [] at token = omega arith
length-take_while test (c ∷ s) at token =
    ground (arith, length-take_while test s (at + 1) (token ++ c ∷ []))

-- Where the first character passes the test, it is read.
length-take_while_lt :
    (test : ℕ → Bool) (c : ℕ) (s : Bytes) (at : ℕ)
    → test c ≡ true
    → length (take_while test (c ∷ s) at []).rest < suc (length s)
unfolding take_while
length-take_while_lt test c s at h =
    rw h (omega (arith, length-take_while test s (at + 1) (c ∷ [])))

module _ {D : Type 0} (dec : Decimals D) where
  number_value-Ends :
      (token : Bytes) (start : ℕ) → Ends (λ v. Unit {0}) (number_value dec token start)
  unfolding number_value
  number_value-Ends token start = ground arith

  identifier_value-Ends :
      (token : Bytes) (at : ℕ) → Ends (λ v. Unit {0}) (identifier_value dec token at)
  unfolding identifier_value
  identifier_value-Ends token at = ground arith

  parse_number-Ends :
      (c : ℕ) (s : Bytes) (at : ℕ)
      → is_number_char c ≡ true
      → Ends (Leaves (suc (length s))) (parse_number dec (c ∷ s) at)
  unfolding parse_number
  parse_number-Ends c s at h =
      let r = take_while is_number_char (c ∷ s) at [] in
      Ends-bind (λ v. Unit {0}) (Leaves (suc (length s))) (number_value dec r.token at)
        (λ v. ok (record { token = v; rest = r.rest; at = r.at })) (number_value-Ends r.token at)
        (λ v u. length-take_while_lt is_number_char c s at h)

  parse_identifier-Ends :
      (c : ℕ) (s : Bytes) (at : ℕ)
      → is_alnum c ≡ true
      → Ends (Leaves (suc (length s))) (parse_identifier dec (c ∷ s) at)
  unfolding parse_identifier
  parse_identifier-Ends c s at h =
      let r = take_while is_alnum (c ∷ s) at [] in
      Ends-bind (λ v. Unit {0}) (Leaves (suc (length s))) (identifier_value dec r.token r.at)
        (λ v. ok (record { token = v; rest = r.rest; at = r.at }))
        (identifier_value-Ends r.token r.at) (λ v u. length-take_while_lt is_alnum c s at h)

  string_token-Ends :
      (c : ℕ) (s : Bytes) (at : ℕ)
      → Ends
          (Leaves {A = Value D} (suc (length s)))
          (do r ← parse_string (c ∷ s) at; ok (string_token dec r))
  string_token-Ends c s at =
      Ends-bind (Leaves (suc (length s))) (Leaves (suc (length s))) (parse_string (c ∷ s) at)
        (λ r. ok (string_token dec r)) (parse_string-Ends (c ∷ s) at) (λ r h. h)

  pub parse_simple_value-Ends :
      (c : ℕ) (s : Bytes) (at : ℕ) → Ends (Leaves (suc (length s))) (parse_simple_value dec c s at)
  unfolding parse_simple_value
  parse_simple_value-Ends c s at = elim (Bool-cases (c == quote)) [
    | inl e ↦ rw e (string_token-Ends c s at)
    | inr e ↦ elim (Bool-cases (is_digit c || c == b'-')) [
      | inl n ↦ rw (e, n) (parse_number-Ends c s at (ground arith))
      | inr n ↦ elim (Bool-cases (is_alpha c)) [
        | inl a ↦ rw (e, n, a) (parse_identifier-Ends c s at (ground arith))
        | inr a ↦ rw (e, n, a) (λ x. cc)
      ]
    ]
  ]
