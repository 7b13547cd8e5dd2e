-- ===== src/Json/RoundTrip/Arrays.antt =====
-- `Parser` reads the elements that `stringify` of lsp/json/json.cpp writes, one after the other, up to
-- the closing bracket.
use lsp_framework.Base.{
  ℕ, ◌+◌, ◌≡◌, refl, sym, ap, ◌∙◌, Bool, List, [], ◌∷◌, ◌++◌, Bytes, codes, arith,
}
use lsp_framework.Json.Value.{Value, Items, Decimals, array, nil, cons, append_item}
use lsp_framework.Json.Print.{print, print_more_items, list_edge, get_indent}
use lsp_framework.Json.Parser.Pointers.{Pointer, modify_at}
use lsp_framework.Json.Parser.Writes.{IsTarget}
use lsp_framework.Json.Parser.Scalars.{EndsToken}
use lsp_framework.Json.Parser.Runs.{parser, here, Leads, Leads-then, enter}
use lsp_framework.Json.RoundTrip.Layout.{
  line_assoc, array_assoc, line, line-IsBlank, value_sep-eq, EndsToken-line,
}
use lsp_framework.Json.RoundTrip.Elements.{Starts, Reads, first_element, next_element}
use lsp_framework.Json.Parser.Rounds.{value-array, array-close}
use lsp_framework.Json.Parser.{Frame, value_state, array_state, frame}
use lsp_framework.Json.RoundTrip.Joins.{join_items, join_items-nil, join_items-append_item}

module _ {D : Type 0} (dec : Decimals D) (format : Bool) where
  more_items-EndsToken :
      (level n : ℕ) (xs : Items D) (rest : Bytes)
      → EndsToken (print_more_items dec format level xs ++ (line format n ++ b']' ∷ rest))
  unfolding print_more_items
  more_items-EndsToken level n nil rest = EndsToken-line format n b']' rest refl
  more_items-EndsToken level n (cons x xs) rest = rw (value_sep-eq format) refl

  -- The elements behind the first, up to the closing bracket.
  abbrev pub ReadsItems : ℕ → Items D → Type 0
  ReadsItems level xs =
      (p : Pointer) (f : Frame) (below : List Frame) (root y : Value D) (ys : Items D)
      (rest : Bytes) (at : ℕ)
      → IsTarget p root
      → Leads dec
          (parser (frame array_state p ∷ f ∷ below) (modify_at p (λ _. array (cons y ys)) root)
            (print_more_items dec format (level + 1) xs ++ (line format level ++ b']' ∷ rest)) at)
          below (modify_at p (λ _. array (join_items (cons y ys) xs)) root) rest

  pub ReadsItems-nil : (level : ℕ) → ReadsItems level nil
  unfolding print_more_items
  ReadsItems-nil level p f below root y ys rest at target = rw join_items-nil (
      enter dec (frame array_state p) (f ∷ below) _ (line format level) b']' rest at below _ rest
        (line-IsBlank format level) refl
        λ at'. (_, array-close dec p below _ f rest at', (at' + 1, here)))

  more_items-text :
      (level : ℕ) (x : Value D) (xs : Items D) (tail : Bytes)
      → print_more_items dec format level (cons x xs) ++ tail
        ≡ b','
          ∷ (line format level
              ++ (print dec format level x ++ (print_more_items dec format level xs ++ tail)))
  unfolding print_more_items
  more_items-text level x xs tail =
      ap
        (λ sep.
          (sep
            ++ (get_indent format level
                ++ (print dec format level x ++ print_more_items dec format level xs)))
          ++ tail)
        (value_sep-eq format)
      ∙ ap (λ t. b',' ∷ t)
          (line_assoc (list_edge format) (get_indent format level) (print dec format level x) _
            tail)

  array-text :
      (level : ℕ) (x : Value D) (xs : Items D) (rest : Bytes)
      → print dec format level (array (cons x xs)) ++ rest
        ≡ b'['
          ∷ (line format (level + 1)
              ++ (print dec format (level + 1) x
                  ++ (print_more_items dec format (level + 1) xs
                      ++ (line format level ++ b']' ∷ rest))))
  unfolding print
  array-text level x xs rest =
      ap (λ t. b'[' ∷ t)
        (array_assoc (list_edge format) (get_indent format (level + 1))
          (print dec format (level + 1) x) (print_more_items dec format (level + 1) xs)
          (line format level) rest b']')

  pub ReadsItems-cons :
      (level : ℕ) (x : Value D) (xs : Items D)
      → Reads dec x (print dec format (level + 1) x)
      → ReadsItems level xs
      → ReadsItems level (cons x xs)
  unfolding append_item
  ReadsItems-cons level x xs hx hxs p f below root y ys rest at target =
      let tail = print_more_items dec format (level + 1) xs ++ (line format level ++ b']' ∷ rest) in
      let text = print dec format (level + 1) x in
      rw
        (
          more_items-text (level + 1) x xs (line format level ++ b']' ∷ rest),
          sym (join_items-append_item (cons y ys) x xs),
        )
        (Leads-then dec _ _ below _ _ tail rest
          (next_element dec p (f ∷ below) root target y ys x text (line format (level + 1)) tail at
            hx (line-IsBlank format (level + 1)) (more_items-EndsToken (level + 1) level xs rest))
          λ at'. hxs p f below root y (append_item ys x) rest at' target)

  pub Reads-array-nil : (level : ℕ) → Reads dec (array nil) (print dec format level (array nil))
  unfolding print
  Reads-array-nil level = (
    (b'[', codes "]", refl, (refl, omega arith, omega arith)),
    λ p below root w rest at hw target stops.
        enter dec (frame value_state p) below root w b'[' (b']' ∷ rest) at below
          (modify_at p (λ _. array nil) root) rest hw refl
          λ at'. (
            _,
            value-array dec p below root (b']' ∷ rest) at',
            enter dec (frame array_state p) (frame value_state p ∷ below)
                (modify_at p (λ _. array nil) root) [] b']' rest (at' + 1) below
                (modify_at p (λ _. array nil) root) rest tt refl
                λ at1.
                  (_, array-close dec p below _ (frame value_state p) rest at1, (at1 + 1, here)),
          ),
  )

  print-array-Starts : (level : ℕ) (xs : Items D) → Starts (print dec format level (array xs))
  unfolding print
  print-array-Starts level xs = (b'[', _, refl, (refl, omega arith, omega arith))

  pub Reads-array-cons :
      (level : ℕ) (x : Value D) (xs : Items D)
      → Reads dec x (print dec format (level + 1) x)
      → ReadsItems level xs
      → Reads dec (array (cons x xs)) (print dec format level (array (cons x xs)))
  Reads-array-cons level x xs hx hxs = (
    print-array-Starts level (cons x xs),
    λ p below root w rest at hw target stops.
        let tail =
          print_more_items dec format (level + 1) xs ++ (line format level ++ b']' ∷ rest) in
        let text = print dec format (level + 1) x in
        let fresh = modify_at p (λ _. array nil) root in
        rw (array-text level x xs rest) (
          enter dec (frame value_state p) below root w b'['
            (line format (level + 1) ++ (text ++ tail)) at below
            (modify_at p (λ _. array (cons x xs)) root) rest hw refl
            λ at'. (
              _,
              value-array dec p below root _ at',
              Leads-then dec _ (frame array_state p ∷ frame value_state p ∷ below) below
                  (modify_at p (λ _. array (cons x nil)) root) _ tail rest
                  (first_element dec p (frame value_state p ∷ below) root target x text
                    (line format (level + 1)) tail (at' + 1) hx (line-IsBlank format (level + 1))
                    (more_items-EndsToken (level + 1) level xs rest))
                  λ at1.
                    unfold join_items in
                    hxs p (frame value_state p) below root x nil rest at1 target,
            )),
  )
