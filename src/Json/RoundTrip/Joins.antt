-- ===== src/Json/RoundTrip/Joins.antt =====
-- One list of elements, or of entries, behind another.
use lsp_framework.Base.{◌≡◌, refl, ap, Bytes}
use lsp_framework.Json.Value.{
  Value, Items, Fields, nil, cons, end, field, append_field, append_item,
}

module _ {D : Type 0} where
  unfoldable pub join_items : Items D → Items D → Items D
  join_items nil ys = ys
  join_items (cons x xs) ys = cons x (join_items xs ys)

  pub join_items-nil : (xs : Items D) → join_items xs nil ≡ xs
  unfolding join_items
  join_items-nil nil = refl
  join_items-nil (cons x xs) = ap (cons x) (join_items-nil xs)

  pub join_items-append_item :
      (xs : Items D) (y : Value D) (ys : Items D)
      → join_items (append_item xs y) ys ≡ join_items xs (cons y ys)
  unfolding join_items append_item
  join_items-append_item nil y ys = refl
  join_items-append_item (cons x xs) y ys = ap (cons x) (join_items-append_item xs y ys)

  unfoldable pub join_fields : Fields D → Fields D → Fields D
  join_fields end gs = gs
  join_fields (field k v fs) gs = field k v (join_fields fs gs)

  pub join_fields-end : (fs : Fields D) → join_fields fs end ≡ fs
  unfolding join_fields
  join_fields-end end = refl
  join_fields-end (field k v fs) = ap (field k v) (join_fields-end fs)

  pub join_fields-append_field :
      (fs : Fields D) (k : Bytes) (v : Value D) (gs : Fields D)
      → join_fields (append_field fs k v) gs ≡ join_fields fs (field k v gs)
  unfolding join_fields append_field
  join_fields-append_field end k v gs = refl
  join_fields-append_field (field j w fs) k v gs =
      ap (field j w) (join_fields-append_field fs k v gs)
