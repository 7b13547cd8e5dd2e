-- ===== src/Base/Outcomes.antt =====
-- A computation that may end with an exception of type `E`.
use mathlib.Core.Path.{◌≡◌, refl}
use mathlib.Core.Logic.{◌≢◌}

pub data Result {ℓ κ} (E : Type κ) (A : Type ℓ) : Type (ℓ ⊔ κ) where
  ok : A → Result E A
  err : E → Result E A

infixl 5 ◌>>=◌
abbrev pub ◌>>=◌ : {E A B : Type 0} → Result E A → (A → Result E B) → Result E B
ok value >>= next = next value
err error >>= next = err error

-- The next step does not look at the value of the one before.
infixl 5 ◌>>◌
abbrev pub ◌>>◌ : {E B : Type 0} → Result E (Unit {0}) → Result E B → Result E B
first >> next = first >>= λ _. next

-- What a sequence that ends well has gone through.
abbrev pub BothEndWell : {E A B : Type 0} → Result E A → (A → Result E B) → B → Type 0
BothEndWell {A} first next last = (value : A) × (first ≡ ok value) × (next value ≡ ok last)

pub >>=-eq-ok :
    {E A B : Type 0} (first : Result E A) (next : A → Result E B) {last : B}
    → (first >>= next) ≡ ok last
    → BothEndWell first next last
>>=-eq-ok (ok value) next both = (value, refl, both)
>>=-eq-ok (err error) next both = cc

pub err_ne_ok : {E A : Type 0} {e : E} {a : A} → err e ≢ ok a
err_ne_ok h = cc

pub ok_injective : {E A : Type 0} {a b : A} → ◌≡◌ {A = Result E A} (ok a) (ok b) → a ≡ b
ok_injective h = cc
