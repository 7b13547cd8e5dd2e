-- ===== src/Json/RoundTrip/Elements.antt =====
-- `Parser` reads a printed value at each of the places where one can stand.
use mathlib.Core.Path.{subst}
use lsp_framework.Base.{ℕ, ◌+◌, ◌≡◌, refl, List, [], ◌∷◌, ◌++◌, Bytes, ok}
use lsp_framework.Json.Value.{
  Value, Items, Decimals, null, array, nil, cons, append_item, length_items, as_array,
}
use lsp_framework.Json.Parser.Pointers.{at_index, Pointer, deref, modify_at}
use lsp_framework.Json.Parser.Writes.{
  IsTarget, IsTarget-below, modify_below, update_item-append_item, child-item, modify_at-modify_at,
}
use lsp_framework.Json.Parser.Lexing.{IsBlank, skip_whitespace-blank}
use lsp_framework.Json.Parser.Scalars.{IsScalar, StartsValue, EndsToken}
use lsp_framework.Json.Parser.Runs.{parser, here, Leads, enter}
use lsp_framework.Json.Parser.Rounds.{value-scalar, at_element, array-first, array-next}
use lsp_framework.Json.Parser.{Frame, value_state, array_state, frame}

abbrev pub Starts : Bytes → Type 0
Starts x = (c : ℕ) × (t : Bytes) × (x ≡ c ∷ t) × StartsValue c

module _ {D : Type 0} (dec : Decimals D) where
  -- From a state that waits for a value, the loop reads the value that the text `x` writes.
  abbrev pub ReadsValue : Value D → Bytes → Type 0
  ReadsValue v x =
      (p : Pointer) (below : List Frame) (root : Value D) (w rest : Bytes) (at : ℕ)
      → IsBlank w
      → IsTarget p root
      → EndsToken rest
      → Leads dec (parser (frame value_state p ∷ below) root (w ++ (x ++ rest)) at) below
          (modify_at p (λ _. v) root) rest

  abbrev pub Reads : Value D → Bytes → Type 0
  Reads v x = Starts x × ReadsValue v x

  pub Reads-IsScalar : (v : Value D) (x : Bytes) → IsScalar dec v x → Reads v x
  Reads-IsScalar v x (c, t, e, hc, hs, reads) = (
    (c, t, e, hc),
    λ p below root w rest at hw target stops. rw e (
        enter dec (frame value_state p) below root w c (t ++ rest) at below
          (modify_at p (λ _. v) root) rest hw hc.0
          λ at'.
            let (at'', r) = reads rest at' stops in
            (
              parser below (modify_at p (λ _. v) root) rest at'',
              value-scalar dec p below root c (t ++ rest) at' _ hs r,
              (at'', here),
            )),
  )

  module _ (p : Pointer) (below : List Frame) (root : Value D) (target : IsTarget p root) where
    pub as_array-at : (xs : Items D) → as_array (deref p (modify_at p (λ _. array xs) root)) ≡ ok xs
    as_array-at xs = rw (target (array xs)) refl

    pub element :
        (xs : Items D) (v : Value D) (x rest : Bytes) (at : ℕ)
        → ReadsValue v x
        → EndsToken rest
        → Leads dec
            (at_element dec p below (modify_at p (λ _. array xs) root) xs (x ++ rest) at)
            (frame array_state p ∷ below)
            (modify_at p (λ _. array (append_item xs v)) root)
            rest
    element xs v x rest at reads stops =
        let s = at_index (length_items xs) in
        let grown = array (append_item xs null) in
        rw (modify_at-modify_at p (λ _. grown) (λ _. array xs) root) (
          let r =
            reads (p ++ s ∷ []) (frame array_state p ∷ below) (modify_at p (λ _. grown) root) []
              rest at tt (IsTarget-below p s root grown (child-item xs) target) stops in
          rw (modify_below p s root grown v, update_item-append_item xs null v) at r)

    -- The first element of an array, behind blanks.
    pub first_element :
        (v : Value D) (x w rest : Bytes) (at : ℕ)
        → Reads v x
        → IsBlank w
        → EndsToken rest
        → Leads dec
            (parser
              (frame array_state p ∷ below)
              (modify_at p (λ _. array nil) root)
              (w ++ (x ++ rest))
              at)
            (frame array_state p ∷ below)
            (modify_at p (λ _. array (cons v nil)) root)
            rest
    unfolding append_item
    first_element v x w rest at ((c, t, e, hc), hx) hw stops =
        let held = modify_at p (λ _. array nil) root in
        let hx' : ReadsValue v (c ∷ t) = subst (ReadsValue v) e hx in
        rw e (
          enter dec (frame array_state p) below held w c (t ++ rest) at
            (frame array_state p ∷ below) (modify_at p (λ _. array (cons v nil)) root) rest hw hc.0
            λ at1. (
              at_element dec p below held nil (c ∷ t ++ rest) at1,
              array-first dec p below held c (t ++ rest) at1 hc.1 (as_array-at nil),
              element nil v (c ∷ t) rest at1 hx' stops,
            ))

    -- A further element, behind a comma and blanks.
    pub next_element :
        (y : Value D) (ys : Items D) (v : Value D) (x w rest : Bytes) (at : ℕ)
        → Reads v x
        → IsBlank w
        → EndsToken rest
        → Leads dec
            (parser
              (frame array_state p ∷ below)
              (modify_at p (λ _. array (cons y ys)) root)
              (b',' ∷ (w ++ (x ++ rest)))
              at)
            (frame array_state p ∷ below)
            (modify_at p (λ _. array (cons y (append_item ys v))) root)
            rest
    unfolding append_item
    next_element y ys v x w rest at ((c, t, e, hc), hx) hw stops =
        let held = modify_at p (λ _. array (cons y ys)) root in
        let hx' : ReadsValue v (c ∷ t) = subst (ReadsValue v) e hx in
        rw e (
          enter dec (frame array_state p) below held [] b',' (w ++ c ∷ (t ++ rest)) at
            (frame array_state p ∷ below)
            (modify_at p (λ _. array (cons y (append_item ys v))) root) rest tt refl
            λ at1.
              let (at2, sk) = skip_whitespace-blank w c (t ++ rest) (at1 + 1) hw hc.0 in
              (
                at_element dec p below held (cons y ys) (c ∷ t ++ rest) at2,
                array-next dec p below held (w ++ c ∷ (t ++ rest)) at1 y ys c (t ++ rest) at2 hc.1
                    (as_array-at (cons y ys)) sk,
                element (cons y ys) v (c ∷ t) rest at2 hx' stops,
              ))
