-- ===== src/Serialization/Variants.antt =====
-- The templates of lsp/serialization.h for std::variant.
use lsp_framework.Base.{
  ℕ, zero, suc, Option, none, some, codes, ◌⊎◌, inl, inr, if◌then◌else◌, ok, err, ◌>>=◌,
}
use lsp_framework.Exceptions.{Exception, Throws, type_error}
use lsp_framework.Json.Value.{Value}
use lsp_framework.Jsonrpc.{is_some}
use lsp_framework.Serialization.{Serializable}

-- The alternatives from an index on, with what the recursions over the index do there; none is
-- std::variant_npos.
pub record Alternatives (D T : Type 0) : Type 0 where
  pub initial : T
  pub to_json : T → Value D
  -- deserializableVariantIndex
  pub index_of : Value D → Option ℕ
  -- variantFromJson
  pub from_json_at : Option ℕ → Value D → T → Throws T

abbrev pub mismatch : Exception
mismatch = type_error (codes "Json does not match any of the expected variant types")

abbrev pub next_index : Option ℕ → Option ℕ
next_index none = none
next_index (some i) = some (suc i)

module _ {D : Type 0} where
  module _ {A : Type 0} (s : Serializable D A) where
    abbrev pub last_from_json_at : Option ℕ → Value D → A → Throws A
    last_from_json_at (some zero) v a = s.from_json v a
    last_from_json_at _ v a = err mismatch

    abbrev pub last_alternative : Alternatives D A
    last_alternative = record {
      initial = s.initial;
      to_json = s.to_json;
      index_of = λ v. if s.can_deserialize v then some 0 else none;
      from_json_at = last_from_json_at;
    }

    module _ {B : Type 0} (r : Alternatives D B) where
      -- A variant that holds another alternative gets a fresh value of this one.
      abbrev pub as_first : A ⊎ B → A
      as_first (inl a) = a
      as_first (inr b) = s.initial

      abbrev pub as_rest : A ⊎ B → B
      as_rest (inl a) = r.initial
      as_rest (inr b) = b

      abbrev pub either_to_json : A ⊎ B → Value D
      either_to_json (inl a) = s.to_json a
      either_to_json (inr b) = r.to_json b

      abbrev pub either_from_json_at : Option ℕ → Value D → A ⊎ B → Throws (A ⊎ B)
      either_from_json_at (some zero) v t = do a ← s.from_json v (as_first t); ok (inl a)
      either_from_json_at (some (suc i)) v t = do
        b ← r.from_json_at (some i) v (as_rest t)
        ok (inr b)
      either_from_json_at none v t = err mismatch

      abbrev pub with_alternative : Alternatives D (A ⊎ B)
      with_alternative = record {
        initial = inl s.initial;
        to_json = either_to_json;
        index_of = λ v. if s.can_deserialize v then some 0 else next_index (r.index_of v);
        from_json_at = either_from_json_at;
      }

  abbrev pub variant_of : {T : Type 0} → Alternatives D T → Serializable D T
  variant_of r = record {
    initial = r.initial;
    to_json = r.to_json;
    from_json = λ v t. r.from_json_at (r.index_of v) v t;
    can_deserialize = λ v. is_some (r.index_of v);
  }
