-- ===== src/Json/Parser/Pointers.antt =====
-- Pointers into a value under construction.
use lsp_framework.Base.{ℕ, Option, none, some, List, [], ◌∷◌, Bytes}
use lsp_framework.Json.Value.{Value, null, array, object, find, update_field, item_at, update_item}

pub data Step : Type 0 where
  at_index : ℕ → Step
  at_key : Bytes → Step

abbrev pub Pointer : Type 0
Pointer = List Step

module _ {D : Type 0} where
  abbrev or_null : Option (Value D) → Value D
  or_null none = null
  or_null (some v) = v

  abbrev pub child : Step → Value D → Value D
  child (at_index i) (array xs) = or_null (item_at i xs)
  child (at_key k) (object fs) = or_null (find k fs)
  child _ _ = null

  abbrev pub modify_child : Step → (Value D → Value D) → Value D → Value D
  modify_child (at_index i) g (array xs) = array (update_item i g xs)
  modify_child (at_key k) g (object fs) = object (update_field k g fs)
  modify_child _ g v = v

  -- *p. The code follows no dangling pointer; here one would read `null`.
  unfoldable pub deref : Pointer → Value D → Value D
  deref [] v = v
  deref (s ∷ p) v = deref p (child s v)

  -- *p = g(*p)
  unfoldable pub modify_at : Pointer → (Value D → Value D) → Value D → Value D
  modify_at [] g v = g v
  modify_at (s ∷ p) g v = modify_child s (modify_at p g) v
