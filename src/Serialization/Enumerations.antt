-- ===== src/Serialization/Enumerations.antt =====
-- lsp/enumeration.h: a value from a fixed list, by its index, or a custom value.
use lsp_framework.Base.{
  ℕ, ◌+◌, Bool, Option, none, some, List, [], ◌∷◌, ◌==◌, length, get_elem?, if◌then◌else◌, ok,
  ◌>>=◌,
}
use lsp_framework.Exceptions.{Throws}
use lsp_framework.Json.Value.{Value, null}
use lsp_framework.Serialization.{Serializable}

pub record Enumeration (V : Type 0) : Type 0 where
  pub index : ℕ
  pub custom_value : V

-- The loop of `operator=` over the values, with its counter.
unfoldable pub find_index : {V : Type 0} → (V → V → Bool) → List V → ℕ → V → Option ℕ
find_index equal [] i v = none
find_index equal (w ∷ ws) i v = if equal w v then some i else find_index equal ws (i + 1) v

-- `values` is `s_values`, whose size is MAX_VALUE.
module _ {V : Type 0} (equal : V → V → Bool) (values : List V) where
  unfoldable pub assign_value : Enumeration V → V → Enumeration V
  assign_value e v = elim (find_index equal values 0 v) [
    | none ↦ record { index = length values; custom_value = v }
    | some i ↦ record e { index = i }
  ]

  abbrev pub has_custom_value : Enumeration V → Bool
  has_custom_value e = e.index == length values

  -- None for a read behind the end of the list.
  unfoldable pub value : Enumeration V → Option V
  value e = if has_custom_value e then some e.custom_value else get_elem? values e.index

  module _ {D : Type 0} (s : Serializable D V) where
    abbrev pub enumeration_to_json : Enumeration V → Value D
    enumeration_to_json e = elim (value e) [ none ↦ null | some v ↦ s.to_json v ]

    abbrev pub enumeration_from_json : Value D → Enumeration V → Throws (Enumeration V)
    enumeration_from_json json e = do v ← s.from_json json s.initial; ok (assign_value e v)

    -- A number or a string, as the values are.
    abbrev pub enumeration_of : Serializable D (Enumeration V)
    enumeration_of = record {
      initial = record { index = length values; custom_value = s.initial };
      to_json = enumeration_to_json;
      from_json = enumeration_from_json;
      can_deserialize = s.can_deserialize;
    }
