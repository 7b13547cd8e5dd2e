-- ===== src/Serialization/Known.antt =====
-- lsp/enumeration.h keeps every value that is assigned, a known one as its index and any other as a custom value.
use mathlib.Core.Path.{subst}
use lsp_framework.Base.{
  ℕ, suc, ◌+◌, ◌-◌, ◌<◌, ◌≤◌, ◌≡◌, refl, Bool, true, false, ◌||◌, not, Option, none, some, List, [],
  ◌∷◌, ◌==◌, length, get_elem?, ok, arith, Bool-cases, Option-cases, inl, inr, ==_refl,
}
use lsp_framework.Serialization.{Serializable}
use lsp_framework.Serialization.Enumerations.{
  Enumeration, find_index, assign_value, has_custom_value, value, enumeration_to_json,
  enumeration_of,
}

suc_sub : (i j : ℕ) → i + 1 ≤ j → j - i ≡ suc (j - (i + 1))
suc_sub i j h = omega arith

sub_zero : (i : ℕ) → i - 0 ≡ i
sub_zero i = omega arith

sub_self : (i : ℕ) → i - i ≡ 0
sub_self i = omega arith

module _ {V : Type 0} (equal : V → V → Bool) where
  abbrev pub is_one_of : V → List V → Bool
  is_one_of v [] = false
  is_one_of v (w ∷ ws) = equal w v || is_one_of v ws

  -- What the loop of the assignment finds.
  abbrev Found : List V → V → ℕ → Option ℕ → Type 0
  Found ws v i none = is_one_of v ws ≡ false
  Found ws v i (some j) =
      (is_one_of v ws ≡ true)
      × (i ≤ j)
      × (j < i + length ws)
      × ((w : V) × (get_elem? ws (j - i) ≡ some w) × (equal w v ≡ true))

  Found-step :
      (w : V) (ws : List V) (v : V) (i : ℕ) (o : Option ℕ)
      → equal w v ≡ false
      → Found ws v (i + 1) o
      → Found (w ∷ ws) v i o
  Found-step w ws v i none e h = rw e h
  Found-step w ws v i (some j) e (known, low, high, (u, at, same)) =
      (rw e known, omega arith, omega arith, (u, rw (suc_sub i j low) at, same))

  find_index-Found : (ws : List V) (i : ℕ) (v : V) → Found ws v i (find_index equal ws i v)
  unfolding find_index
  find_index-Found [] i v = refl
  find_index-Found (w ∷ ws) i v = elim (Bool-cases (equal w v)) [
    | inl e ↦ rw (e, sub_self i) (rw e refl, omega arith, omega arith, (w, refl, e))
    | inr e ↦
        rw e (Found-step w ws v i (find_index equal ws (i + 1) v) e (find_index-Found ws (i + 1) v))
  ]

-- The comparison of the values is equality.
module _ {V : Type 0} (equal : V → V → Bool) (eq_of_equal : (v w : V) → equal v w ≡ true → v ≡ w)
    (values : List V) where
  assigned_custom :
      (e : Enumeration V) (v : V)
      → find_index equal values 0 v ≡ none
      → assign_value equal values e v ≡ record { index = length values; custom_value = v }
  unfolding assign_value
  assigned_custom e v n = rw (n, assign_value) refl

  assigned_known :
      (e : Enumeration V) (v : V) (j : ℕ)
      → find_index equal values 0 v ≡ some j
      → assign_value equal values e v ≡ record e { index = j }
  unfolding assign_value
  assigned_known e v j n = rw (n, assign_value) refl

  value-known :
      (e : Enumeration V) (v w : V) (j : ℕ)
      → j < 0 + length values
      → get_elem? values (j - 0) ≡ some w
      → equal w v ≡ true
      → (value equal values (record e { index = j }) ≡ some v)
        × (has_custom_value equal values (record e { index = j }) ≡ false)
  unfolding value
  value-known e v w j lt at same =
      let differs : (j == length values) ≡ false = ground arith in
      (rw (differs, rw (sub_zero j) at at, eq_of_equal w v same) refl, differs)

  -- Whatever was there, the assigned value is the value of the enumeration afterwards, and it is a custom
  -- value just when it is none of the known ones.
  pub value-assign_value :
      (e : Enumeration V) (v : V)
      → (value equal values (assign_value equal values e v) ≡ some v)
        × (has_custom_value equal values (assign_value equal values e v)
            ≡ not (is_one_of equal v values))
  value-assign_value e v = elim (Option-cases (find_index equal values 0 v)) [
    | inl n ↦
        let strange : is_one_of equal v values ≡ false =
          subst (Found equal values v 0) n (find_index-Found equal values 0 v) in
        rw (assigned_custom e v n, strange) (unfold value in rw ==_refl (refl, refl))
    | inr (j, n) ↦
        let (known, low, lt, (w, at, same)) =
          subst (Found equal values v 0) n (find_index-Found equal values 0 v) in
        rw (assigned_known e v j n, known) (value-known e v w j lt at same)
  ]

  -- An enumeration that is written and read back has the same value, known or not.
  pub enumeration_of-value :
      {D : Type 0} (s : Serializable D V) (e e₀ : Enumeration V) (v : V)
      → value equal values e ≡ some v
      → s.from_json (s.to_json v) s.initial ≡ ok v
      → (let t = enumeration_of equal values s in
          (e' : Enumeration V) × (t.from_json (t.to_json e) e₀ ≡ ok e')
          × (value equal values e' ≡ value equal values e))
  enumeration_of-value s e e₀ v h reads = (
    assign_value equal values e₀ v,
    rw (h, enumeration_to_json, reads) refl,
    rw h ((value-assign_value e₀ v).0),
  )
