-- ===== src/Json/Parser/Writes.antt =====
-- Writes through pointers into a value under construction.
use mathlib.Core.Path.{fun_ext}
use lsp_framework.Base.{
  ℕ, zero, suc, ◌≡◌, refl, ap, ◌∙◌, false, some, [], ◌∷◌, ◌++◌, Bytes, arith, bytes_eq_refl,
}
use lsp_framework.Json.Value.{
  Value, Items, Fields, null, array, object, nil, cons, end, field, find, contains, append_field,
  update_field, length_items, append_item, item_at, update_item,
}
use lsp_framework.Json.Parser.Pointers.{
  Step, at_index, at_key, Pointer, child, modify_child, deref, modify_at,
}

module _ {D : Type 0} where
  update_item-update_item :
      (i : ℕ) (f g : Value D → Value D) (xs : Items D)
      → update_item i f (update_item i g xs) ≡ update_item i (λ v. f (g v)) xs
  unfolding update_item
  update_item-update_item i f g nil = refl
  update_item-update_item zero f g (cons x xs) = refl
  update_item-update_item (suc i) f g (cons x xs) = ap (cons x) (update_item-update_item i f g xs)

  update_field-update_field :
      (k : Bytes) (f g : Value D → Value D) (fs : Fields D)
      → update_field k f (update_field k g fs) ≡ update_field k (λ v. f (g v)) fs
  unfolding update_field
  update_field-update_field k f g end = refl
  update_field-update_field k f g (field j v fs) =
      ground (arith, update_field-update_field k f g fs)

  modify_child-modify_child :
      (s : Step) (f g : Value D → Value D) (v : Value D)
      → modify_child s f (modify_child s g v) ≡ modify_child s (λ w. f (g w)) v
  modify_child-modify_child (at_index i) f g (array xs) =
      ap array (update_item-update_item i f g xs)
  modify_child-modify_child (at_index i) f g v = refl
  modify_child-modify_child (at_key k) f g (object fs) =
      ap object (update_field-update_field k f g fs)
  modify_child-modify_child (at_key k) f g v = refl

  -- Two writes through one pointer are one write.
  pub modify_at-modify_at :
      (p : Pointer) (f g : Value D → Value D) (v : Value D)
      → modify_at p f (modify_at p g v) ≡ modify_at p (λ w. f (g w)) v
  unfolding modify_at
  modify_at-modify_at [] f g v = refl
  modify_at-modify_at (s ∷ p) f g v =
      modify_child-modify_child s (modify_at p f) (modify_at p g) v
      ∙ ap (λ h. modify_child s h v) (fun_ext λ w. modify_at-modify_at p f g w)

  pub modify_at-append :
      (p q : Pointer) (g : Value D → Value D) (v : Value D)
      → modify_at (p ++ q) g v ≡ modify_at p (modify_at q g) v
  unfolding modify_at
  modify_at-append [] q g v = refl
  modify_at-append (s ∷ p) q g v =
      ap (λ h. modify_child s h v) (fun_ext λ w. modify_at-append p q g w)

  pub deref-append : (p q : Pointer) (v : Value D) → deref (p ++ q) v ≡ deref q (deref p v)
  unfolding deref
  deref-append [] q v = refl
  deref-append (s ∷ p) q v = deref-append p q (child s v)

  -- What is written through the pointer is read through it.
  abbrev pub IsTarget : Pointer → Value D → Type 0
  IsTarget p root = (v : Value D) → deref p (modify_at p (λ _. v) root) ≡ v

  pub IsTarget-modify_at :
      (p : Pointer) (root w : Value D) → IsTarget p root → IsTarget p (modify_at p (λ _. w) root)
  IsTarget-modify_at p root w h v = rw modify_at-modify_at (h v)

  -- A write through a pointer one step below the last write.
  pub modify_below :
      (p : Pointer) (s : Step) (root w v : Value D)
      → modify_at (p ++ s ∷ []) (λ _. v) (modify_at p (λ _. w) root)
        ≡ modify_at p (λ _. modify_child s (λ _. v) w) root
  modify_below p s root w v =
      modify_at-append p (s ∷ []) (λ _. v) (modify_at p (λ _. w) root)
      ∙ modify_at-modify_at p (modify_at (s ∷ []) (λ _. v)) (λ _. w) root
      ∙ unfold modify_at in refl

  pub IsTarget-below :
      (p : Pointer) (s : Step) (root w : Value D)
      → ((v : Value D) → child s (modify_child s (λ _. v) w) ≡ v)
      → IsTarget p root
      → IsTarget (p ++ s ∷ []) (modify_at p (λ _. w) root)
  IsTarget-below p s root w h t v =
      rw (modify_below p s root w v, deref-append p (s ∷ []), t (modify_child s (λ _. v) w))
        (unfold deref in h v)

  item_at-append_item :
      (xs : Items D) (w v : Value D)
      → item_at (length_items xs) (update_item (length_items xs) (λ _. v) (append_item xs w))
        ≡ some v
  unfolding item_at update_item append_item
  item_at-append_item nil w v = refl
  item_at-append_item (cons x xs) w v = item_at-append_item xs w v

  pub update_item-append_item :
      (xs : Items D) (w v : Value D)
      → update_item (length_items xs) (λ _. v) (append_item xs w) ≡ append_item xs v
  unfolding update_item append_item
  update_item-append_item nil w v = refl
  update_item-append_item (cons x xs) w v = ap (cons x) (update_item-append_item xs w v)

  find-append_field :
      (fs : Fields D) (k : Bytes) (w v : Value D)
      → contains k fs ≡ false
      → find k (update_field k (λ _. v) (append_field fs k w)) ≡ some v
  unfolding find update_field append_field contains
  find-append_field end k w v h = ground (arith, bytes_eq_refl k)
  find-append_field (field j u fs) k w v h = ground (arith, find-append_field fs k w v)

  pub update_field-append_field :
      (fs : Fields D) (k : Bytes) (w v : Value D)
      → contains k fs ≡ false
      → update_field k (λ _. v) (append_field fs k w) ≡ append_field fs k v
  unfolding update_field append_field contains
  update_field-append_field end k w v h = ground (arith, bytes_eq_refl k)
  update_field-append_field (field j u fs) k w v h =
      ground (arith, update_field-append_field fs k w v)

  -- The new last element of an array, and the new entry of an object, can be written.
  pub child-item :
      (xs : Items D) (v : Value D)
      → child
          (at_index (length_items xs))
          (modify_child (at_index (length_items xs)) (λ _. v) (array (append_item xs null)))
        ≡ v
  child-item xs v = rw (item_at-append_item xs null v)

  pub child-field :
      (fs : Fields D) (k : Bytes) (v : Value D)
      → contains k fs ≡ false
      → child (at_key k) (modify_child (at_key k) (λ _. v) (object (append_field fs k null))) ≡ v
  child-field fs k v h = rw (find-append_field fs k null v h)
