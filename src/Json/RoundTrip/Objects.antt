-- ===== src/Json/RoundTrip/Objects.antt =====
-- `Parser` reads the entries that `stringify` of lsp/json/json.cpp writes, one after the other, up to
-- the closing brace.
use lsp_framework.Base.{
  ℕ, ◌+◌, ◌≡◌, refl, sym, ap, ◌∙◌, Bool, false, List, [], ◌∷◌, ◌++◌, Bytes, codes, arith,
}
use lsp_framework.Json.Value.{Value, Fields, Decimals, object, end, field, contains, append_field}
use lsp_framework.Json.Literal.{to_string_literal}
use lsp_framework.Json.Print.{print, print_more_fields, list_edge, key_sep, get_indent}
use lsp_framework.Json.Parser.Pointers.{Pointer, modify_at}
use lsp_framework.Json.Parser.Writes.{IsTarget}
use lsp_framework.Json.Parser.Scalars.{EndsToken}
use lsp_framework.Json.Parser.Runs.{parser, here, Leads, Leads-then, enter}
use lsp_framework.Json.RoundTrip.Layout.{
  entry, entry_assoc, object_assoc, line, line-IsBlank, value_sep-eq, EndsToken-line,
}
use lsp_framework.Json.RoundTrip.Members.{first_member, next_member}
use lsp_framework.Json.RoundTrip.Elements.{Starts, Reads}
use lsp_framework.Json.Parser.Rounds.{value-object, object-close}
use lsp_framework.Json.Parser.{Frame, value_state, object_state, frame}
use lsp_framework.Json.RoundTrip.Joins.{join_fields, join_fields-end, join_fields-append_field}

module _ {D : Type 0} (dec : Decimals D) (format : Bool) where
  more_fields-EndsToken :
      (level n : ℕ) (fs : Fields D) (rest : Bytes)
      → EndsToken (print_more_fields dec format level fs ++ (line format n ++ b'}' ∷ rest))
  unfolding print_more_fields
  more_fields-EndsToken level n end rest = EndsToken-line format n b'}' rest refl
  more_fields-EndsToken level n (field k v fs) rest = rw (value_sep-eq format) refl

  abbrev pub ReadsFields : ℕ → Fields D → Fields D → Type 0
  ReadsFields level before fs =
      (p : Pointer) (f : Frame) (below : List Frame) (root : Value D) (rest : Bytes) (at : ℕ)
      → IsTarget p root
      → Leads dec
          (parser (frame object_state p ∷ f ∷ below) (modify_at p (λ _. object before) root)
            (print_more_fields dec format (level + 1) fs ++ (line format level ++ b'}' ∷ rest)) at)
          below (modify_at p (λ _. object (join_fields before fs)) root) rest

  more_fields-text :
      (level : ℕ) (k : Bytes) (v : Value D) (fs : Fields D) (tail : Bytes)
      → print_more_fields dec format level (field k v fs) ++ tail
        ≡ b','
          ∷ (line format level
              ++ entry format k
                  (print dec format level v)
                  (print_more_fields dec format level fs ++ tail))
  unfolding print_more_fields
  more_fields-text level k v fs tail =
      ap
        (λ sep.
          (sep
            ++ (get_indent format level
                ++ (to_string_literal k
                    ++ (key_sep format
                        ++ (print dec format level v ++ print_more_fields dec format level fs)))))
          ++ tail)
        (value_sep-eq format)
      ∙ ap (λ t. b',' ∷ t)
          (entry_assoc (list_edge format) (get_indent format level) (to_string_literal k)
            (key_sep format) (print dec format level v) _ tail)

  object-text :
      (level : ℕ) (k : Bytes) (v : Value D) (fs : Fields D) (rest : Bytes)
      → print dec format level (object (field k v fs)) ++ rest
        ≡ b'{'
          ∷ (line format (level + 1)
              ++ entry format k (print dec format (level + 1) v) (
                  print_more_fields dec format (level + 1) fs
                  ++ (line format level ++ b'}' ∷ rest)))
  unfolding print
  object-text level k v fs rest =
      ap (λ t. b'{' ∷ t)
        (object_assoc (list_edge format) (get_indent format (level + 1)) (to_string_literal k)
          (key_sep format) (print dec format (level + 1) v)
          (print_more_fields dec format (level + 1) fs) (line format level) rest b'}')

  pub ReadsFields-end : (level : ℕ) (before : Fields D) → ReadsFields level before end
  unfolding print_more_fields
  ReadsFields-end level before p f below root rest at target = rw join_fields-end (
      enter dec (frame object_state p) (f ∷ below) _ (line format level) b'}' rest at below _ rest
        (line-IsBlank format level) refl
        λ at'. (_, object-close dec p below _ f rest at', (at' + 1, here)))

  pub ReadsFields-field :
      (level : ℕ) (j : Bytes) (u : Value D) (gs : Fields D) (k : Bytes) (v : Value D)
      (fs : Fields D)
      → contains k (field j u gs) ≡ false
      → Reads dec v (print dec format (level + 1) v)
      → ReadsFields level (append_field (field j u gs) k v) fs
      → ReadsFields level (field j u gs) (field k v fs)
  ReadsFields-field level j u gs k v fs fresh hv hfs p f below root rest at target =
      let tail =
        print_more_fields dec format (level + 1) fs ++ (line format level ++ b'}' ∷ rest) in
      let text = print dec format (level + 1) v in
      rw
        (
          more_fields-text (level + 1) k v fs (line format level ++ b'}' ∷ rest),
          sym (join_fields-append_field (field j u gs) k v fs),
        )
        (Leads-then dec _ _ below _ _ tail rest
          (next_member dec p (f ∷ below) root target j u gs k v text (line format (level + 1)) tail
            at format fresh hv (line-IsBlank format (level + 1))
            (more_fields-EndsToken (level + 1) level fs rest))
          λ at'. hfs p f below root rest at' target)

  print-object-Starts : (level : ℕ) (fs : Fields D) → Starts (print dec format level (object fs))
  unfolding print
  print-object-Starts level fs = (b'{', _, refl, (refl, omega arith, omega arith))

  pub Reads-object-end : (level : ℕ) → Reads dec (object end) (print dec format level (object end))
  unfolding print
  Reads-object-end level = (
    (b'{', codes "}", refl, (refl, omega arith, omega arith)),
    λ p below root w rest at hw target stops.
        enter dec (frame value_state p) below root w b'{' (b'}' ∷ rest) at below
          (modify_at p (λ _. object end) root) rest hw refl
          λ at'. (
            _,
            value-object dec p below root (b'}' ∷ rest) at',
            enter dec (frame object_state p) (frame value_state p ∷ below)
                (modify_at p (λ _. object end) root) [] b'}' rest (at' + 1) below
                (modify_at p (λ _. object end) root) rest tt refl
                λ at1.
                  (_, object-close dec p below _ (frame value_state p) rest at1, (at1 + 1, here)),
          ),
  )

  pub Reads-object-field :
      (level : ℕ) (k : Bytes) (v : Value D) (fs : Fields D)
      → Reads dec v (print dec format (level + 1) v)
      → ReadsFields level (field k v end) fs
      → Reads dec (object (field k v fs)) (print dec format level (object (field k v fs)))
  Reads-object-field level k v fs hv hfs = (
    print-object-Starts level (field k v fs),
    λ p below root w rest at hw target stops.
        let tail =
          print_more_fields dec format (level + 1) fs ++ (line format level ++ b'}' ∷ rest) in
        let text = print dec format (level + 1) v in
        rw (object-text level k v fs rest) (
          enter dec (frame value_state p) below root w b'{'
            (line format (level + 1) ++ entry format k text tail) at below
            (modify_at p (λ _. object (field k v fs)) root) rest hw refl
            λ at'. (
              _,
              value-object dec p below root _ at',
              Leads-then dec _ (frame object_state p ∷ frame value_state p ∷ below) below
                  (modify_at p (λ _. object (field k v end)) root) _ tail rest
                  (first_member dec p (frame value_state p ∷ below) root target k v text
                    (line format (level + 1)) tail (at' + 1) format hv
                    (line-IsBlank format (level + 1))
                    (more_fields-EndsToken (level + 1) level fs rest))
                  λ at1.
                    unfold join_fields in hfs p (frame value_state p) below root rest at1 target,
            )),
  )
