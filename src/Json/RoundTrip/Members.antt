-- ===== src/Json/RoundTrip/Members.antt =====
-- `Parser` reads a printed entry at each of the places of an object where one can stand.
use lsp_framework.Base.{ℕ, ◌+◌, ◌≡◌, refl, Bool, false, List, [], ◌∷◌, ◌++◌, Bytes, ok, arith}
use lsp_framework.Json.Value.{
  Value, Fields, Decimals, null, object, end, field, contains, append_field, as_object,
}
use lsp_framework.Json.Literal.{to_string_literal, quote}
use lsp_framework.Json.Literal.RoundTrip.{body, to_string_literal-body}
use lsp_framework.Json.Print.{key_sep}
use lsp_framework.Json.Parser.Pointers.{at_key, Pointer, deref, modify_at}
use lsp_framework.Json.Parser.Writes.{
  IsTarget, IsTarget-below, modify_below, update_field-append_field, child-field,
  modify_at-modify_at,
}
use lsp_framework.Json.Parser.Lexing.{IsBlank, skip_whitespace-blank}
use lsp_framework.Json.Parser.Strings.{parse_string-to_string_literal}
use lsp_framework.Json.Parser.Scalars.{EndsToken}
use lsp_framework.Json.Parser.Runs.{parser, Leads, enter}
use lsp_framework.Json.Parser.Rounds.{at_new_key, object_key-member, object-first, object-next}
use lsp_framework.Json.Parser.{Frame, value_state, object_state, object_key_state, frame}
use lsp_framework.Json.RoundTrip.Layout.{entry, gap, gap-IsBlank, key_sep-eq}
use lsp_framework.Json.RoundTrip.Elements.{ReadsValue, Reads}

entry_head :
    (format : Bool) (k x rest : Bytes)
    → entry format k x rest ≡ quote ∷ ((body k ++ quote ∷ []) ++ (key_sep format ++ (x ++ rest)))
entry_head format k x rest = rw (to_string_literal-body k) refl

module _ {D : Type 0} (dec : Decimals D) (p : Pointer) (below : List Frame) (root : Value D)
    (target : IsTarget p root) where
  pub as_object-at :
      (fs : Fields D) → as_object (deref p (modify_at p (λ _. object fs) root)) ≡ ok fs
  as_object-at fs = rw (target (object fs)) refl

  member_value :
      (fs : Fields D) (k : Bytes) (v : Value D) (x w rest : Bytes) (at : ℕ)
      → contains k fs ≡ false
      → ReadsValue dec v x
      → IsBlank w
      → EndsToken rest
      → Leads dec
          (parser
            (frame value_state (p ++ at_key k ∷ []) ∷ frame object_state p ∷ below)
            (modify_at p (λ _. object (append_field fs k null)) (modify_at p (λ _. object fs) root))
            (w ++ (x ++ rest))
            at)
          (frame object_state p ∷ below)
          (modify_at p (λ _. object (append_field fs k v)) root)
          rest
  member_value fs k v x w rest at fresh reads hw stops =
      let grown = object (append_field fs k null) in
      rw (modify_at-modify_at p (λ _. grown) (λ _. object fs) root) (
        let r =
          reads (p ++ at_key k ∷ []) (frame object_state p ∷ below) (modify_at p (λ _. grown) root)
            w rest at hw
            (IsTarget-below p (at_key k) root grown (λ u. child-field fs k u fresh) target) stops in
        rw (modify_below p (at_key k) root grown v, update_field-append_field fs k null v fresh) at
          r)

  pub member :
      (fs : Fields D) (k : Bytes) (v : Value D) (x rest : Bytes) (at : ℕ) (format : Bool)
      → contains k fs ≡ false
      → Reads dec v x
      → EndsToken rest
      → Leads dec
          (at_new_key dec p below
            (modify_at p (λ _. object fs) root)
            (to_string_literal k ++ (key_sep format ++ (x ++ rest)))
            at)
          (frame object_state p ∷ below)
          (modify_at p (λ _. object (append_field fs k v)) root)
          rest
  member fs k v x rest at format fresh reads stops =
      let grown = object (append_field fs k null) in
      let held = modify_at p (λ _. object fs) root in
      rw (to_string_literal-body k, key_sep-eq format)
        (enter dec (frame object_key_state p) (frame object_state p ∷ below) held [] quote
          ((body k ++ quote ∷ []) ++ b':' ∷ (gap format ++ (x ++ rest))) at
          (frame object_state p ∷ below) (modify_at p (λ _. object (append_field fs k v)) root) rest
          tt refl
          λ at1.
            let (at2, e) =
              parse_string-to_string_literal k (b':' ∷ (gap format ++ (x ++ rest))) at1 in
            let (at3, f) = skip_whitespace-blank [] b':' (gap format ++ (x ++ rest)) at2 tt refl in
            (
              parser (frame value_state (p ++ at_key k ∷ []) ∷ frame object_state p ∷ below)
                  (modify_at p (λ _. grown) held) (gap format ++ (x ++ rest)) (at3 + 1),
              object_key-member dec p (frame object_state p ∷ below) held quote
                  ((body k ++ quote ∷ []) ++ b':' ∷ (gap format ++ (x ++ rest))) at1 fs _ _ at3
                  (as_object-at fs) (rw to_string_literal-body at e) fresh f,
              member_value fs k v x (gap format) rest (at3 + 1) fresh reads.1 (gap-IsBlank format)
                  stops,
            ))

  pub first_member :
      (k : Bytes) (v : Value D) (x w rest : Bytes) (at : ℕ) (format : Bool)
      → Reads dec v x
      → IsBlank w
      → EndsToken rest
      → Leads dec
          (parser
            (frame object_state p ∷ below)
            (modify_at p (λ _. object end) root)
            (w ++ entry format k x rest)
            at)
          (frame object_state p ∷ below)
          (modify_at p (λ _. object (field k v end)) root)
          rest
  unfolding append_field contains
  first_member k v x w rest at format reads hw stops =
      let held = modify_at p (λ _. object end) root in
      let s = (body k ++ quote ∷ []) ++ (key_sep format ++ (x ++ rest)) in
      rw (entry_head format k x rest) (
        enter dec (frame object_state p) below held w quote s at (frame object_state p ∷ below)
          (modify_at p (λ _. object (field k v end)) root) rest hw refl
          λ at1. (
            at_new_key dec p below held (quote ∷ s) at1,
            object-first dec p below held quote s at1 (omega arith) (as_object-at end),
            rw (entry_head format k x rest) at (member end k v x rest at1 format refl reads stops),
          ))

  pub next_member :
      (j : Bytes) (u : Value D) (fs : Fields D) (k : Bytes) (v : Value D) (x w rest : Bytes)
      (at : ℕ) (format : Bool)
      → contains k (field j u fs) ≡ false
      → Reads dec v x
      → IsBlank w
      → EndsToken rest
      → Leads dec
          (parser
            (frame object_state p ∷ below)
            (modify_at p (λ _. object (field j u fs)) root)
            (b',' ∷ (w ++ entry format k x rest))
            at)
          (frame object_state p ∷ below)
          (modify_at p (λ _. object (append_field (field j u fs) k v)) root)
          rest
  next_member j u fs k v x w rest at format fresh reads hw stops =
      let held = modify_at p (λ _. object (field j u fs)) root in
      let s = (body k ++ quote ∷ []) ++ (key_sep format ++ (x ++ rest)) in
      rw (entry_head format k x rest) (
        enter dec (frame object_state p) below held [] b',' (w ++ quote ∷ s) at
          (frame object_state p ∷ below)
          (modify_at p (λ _. object (append_field (field j u fs) k v)) root) rest tt refl
          λ at1.
            let (at2, sk) = skip_whitespace-blank w quote s (at1 + 1) hw refl in
            (
              at_new_key dec p below held (quote ∷ s) at2,
              object-next dec p below held (w ++ quote ∷ s) at1 j u fs quote s at2 (omega arith)
                  (as_object-at (field j u fs)) sk,
              rw (entry_head format k x rest) at
                  (member (field j u fs) k v x rest at2 format fresh reads stops),
            ))
