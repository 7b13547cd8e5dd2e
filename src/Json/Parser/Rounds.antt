-- ===== src/Json/Parser/Rounds.antt =====
-- The rounds of the loop that printed values take, each at its token.
use lsp_framework.Base.{ℕ, ◌+◌, ◌≡◌, ◌≢◌, refl, false, List, [], ◌∷◌, ◌++◌, Bytes, ok, arith}
use lsp_framework.Json.Value.{
  Value, Items, Fields, Decimals, null, array, object, nil, cons, end, field, contains,
  append_field, append_item, length_items, index, as_object, as_array,
}
use lsp_framework.Json.Parser.Pointers.{at_index, at_key, Pointer, deref, modify_at}
use lsp_framework.Json.Parser.Tokens.{Read, skip_whitespace, parse_simple_value, parse_string}
use lsp_framework.Json.Parser.Scalars.{StartsScalar}
use lsp_framework.Json.Parser.Runs.{parser}
use lsp_framework.Json.Parser.{
  Parser, Frame, value_state, object_state, object_key_state, array_state, frame, handle_value,
  handle_object, handle_object_key, handle_array, close, after_comma, push_key, push_member,
  push_element, dispatch,
}

module _ {D : Type 0} (dec : Decimals D) (p : Pointer) (below : List Frame) (root : Value D) where
  pub value-scalar :
      (c : ℕ) (s : Bytes) (at : ℕ) (r : Read (Value D))
      → StartsScalar c
      → parse_simple_value dec c s at ≡ ok r
      → dispatch dec value_state p below root c s at
        ≡ ok (parser below (modify_at p (λ _. r.token) root) r.rest r.at)
  unfolding dispatch handle_value
  value-scalar c s at r (h1, h2) e = ground arith

  pub value-object :
      (s : Bytes) (at : ℕ)
      → dispatch dec value_state p below root b'{' s at
        ≡ ok (
            parser
              (frame object_state p ∷ frame value_state p ∷ below)
              (modify_at p (λ _. object end) root)
              s
              (at + 1))
  unfolding dispatch handle_value
  value-object s at = refl

  pub value-array :
      (s : Bytes) (at : ℕ)
      → dispatch dec value_state p below root b'[' s at
        ≡ ok (
            parser
              (frame array_state p ∷ frame value_state p ∷ below)
              (modify_at p (λ _. array nil) root)
              s
              (at + 1))
  unfolding dispatch handle_value
  value-array s at = refl

  pub object-close :
      (f : Frame) (s : Bytes) (at : ℕ)
      → dispatch dec object_state p (f ∷ below) root b'}' s at ≡ ok (parser below root s (at + 1))
  unfolding dispatch handle_object close
  object-close f s at = refl

  pub array-close :
      (f : Frame) (s : Bytes) (at : ℕ)
      → dispatch dec array_state p (f ∷ below) root b']' s at ≡ ok (parser below root s (at + 1))
  unfolding dispatch handle_array close
  array-close f s at = refl

  -- The parser with a new element under the array's state.
  abbrev pub at_element : Items D → Bytes → ℕ → Parser D
  at_element xs =
      parser
        (frame value_state (p ++ at_index (length_items xs) ∷ []) ∷ frame array_state p ∷ below)
        (modify_at p (λ _. array (append_item xs null)) root)

  pub array-first :
      (c : ℕ) (s : Bytes) (at : ℕ)
      → c ≢ b']'
      → as_array (deref p root) ≡ ok nil
      → dispatch dec array_state p below root c s at ≡ ok (at_element nil (c ∷ s) at)
  unfolding dispatch handle_array push_element
  array-first c s at h e = ground arith

  pub array-next :
      (s : Bytes) (at : ℕ) (y : Value D) (ys : Items D) (d : ℕ) (s' : Bytes) (at' : ℕ)
      → d ≢ b']'
      → as_array (deref p root) ≡ ok (cons y ys)
      → skip_whitespace s (at + 1) ≡ (d ∷ s', at')
      → dispatch dec array_state p below root b',' s at ≡ ok (at_element (cons y ys) (d ∷ s') at')
  unfolding dispatch handle_array after_comma push_element
  array-next s at y ys d s' at' h e k = rw (e, k) (ground arith)

  abbrev pub at_new_key : Bytes → ℕ → Parser D
  at_new_key = parser (frame object_key_state p ∷ frame object_state p ∷ below) root

  pub object-first :
      (c : ℕ) (s : Bytes) (at : ℕ)
      → c ≢ b'}'
      → as_object (deref p root) ≡ ok end
      → dispatch dec object_state p below root c s at ≡ ok (at_new_key (c ∷ s) at)
  unfolding dispatch handle_object push_key
  object-first c s at h e = ground arith

  pub object-next :
      (s : Bytes) (at : ℕ) (j : Bytes) (v : Value D) (fs : Fields D) (d : ℕ) (s' : Bytes) (at' : ℕ)
      → d ≢ b'}'
      → as_object (deref p root) ≡ ok (field j v fs)
      → skip_whitespace s (at + 1) ≡ (d ∷ s', at')
      → dispatch dec object_state p below root b',' s at ≡ ok (at_new_key (d ∷ s') at')
  unfolding dispatch handle_object after_comma push_key
  object-next s at j v fs d s' at' h e k = rw (e, k) (ground arith)

  pub object_key-member :
      (c : ℕ) (s : Bytes) (at : ℕ) (fs : Fields D) (r : Read Bytes) (s' : Bytes) (at' : ℕ)
      → as_object (deref p root) ≡ ok fs
      → parse_string (c ∷ s) at ≡ ok r
      → contains r.token fs ≡ false
      → skip_whitespace r.rest r.at ≡ (b':' ∷ s', at')
      → dispatch dec object_key_state p below root c s at
        ≡ ok (
            parser
              (frame value_state (p ++ at_key r.token ∷ []) ∷ below)
              (modify_at p (λ _. object (append_field fs r.token null)) root)
              s'
              (at' + 1))
  unfolding dispatch handle_object_key push_member index
  object_key-member c s at fs r s' at' e h k w = rw (e, h, k, w) refl
