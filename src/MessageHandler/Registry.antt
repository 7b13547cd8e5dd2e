-- ===== src/MessageHandler/Registry.antt =====
-- The map of handlers of lsp/messagehandler.cpp: what `add` and `remove` do to it, and to the requests that come then.
use lsp_framework.Base.{
  ◌≡◌, refl, sym, ap, ◌∙◌, Bool, true, false, none, some, List, [], ◌∷◌, Bytes, bytes_eq,
  bytes_eq_refl, eq_of_bytes_eq, if◌then◌else◌, ok, Bool-cases, inl, inr,
}
use lsp_framework.Jsonrpc.{Request}
use lsp_framework.MessageHandler.{
  HandlerWrapper, MessageHandler, lookup, erase, add_handler, remove, handler_for, not_found,
  process_request, call,
}
use lsp_framework.MessageHandler.Incoming.{process_request-none, process_request-some}

bytes_eq_sym_true : (s t : Bytes) → bytes_eq s t ≡ true → bytes_eq t s ≡ true
bytes_eq_sym_true s t e = rw (eq_of_bytes_eq s t e) (bytes_eq_refl t)

flip_false : (s t : Bytes) → bytes_eq t s ≡ false → bytes_eq s t ≡ false
flip_false s t e = elim (Bool-cases (bytes_eq s t)) [
  | inl q ↦ let back = bytes_eq_sym_true s t q in absurd cc
  | inr q ↦ q
]

lookup-erase :
    {A : Type 0} (k j : Bytes) (xs : List (Bytes × A))
    → lookup j (erase k xs) ≡ (if bytes_eq k j then none else lookup j xs)
lookup-erase k j [] = elim (Bool-cases (bytes_eq k j)) [ inl e ↦ rw e refl | inr e ↦ rw e refl ]
lookup-erase k j ((i, a) ∷ xs) = elim (Bool-cases (bytes_eq i k)) [
  | inl e ↦
      let same : bytes_eq i j ≡ bytes_eq k j = ap (λ s. bytes_eq s j) (eq_of_bytes_eq i k e) in
      rw (e, lookup-erase k j xs, same)
        (elim (Bool-cases (bytes_eq k j)) [ inl q ↦ rw q refl | inr q ↦ rw q refl ])
  | inr e ↦
      rw (e, lookup-erase k j xs)
        (elim (Bool-cases (bytes_eq i j)) [
          | inl q ↦
              let other : bytes_eq k j ≡ false =
                ap (λ s. bytes_eq k s) (sym (eq_of_bytes_eq i j q)) ∙ flip_false k i e in
              rw (q, other) refl
          | inr q ↦ rw q refl
        ])
]

module _ {D : Type 0} where
  handler_for-add_handler :
      (method k : Bytes) (f : HandlerWrapper D) (h : MessageHandler D)
      → handler_for k (add_handler method f h)
        ≡ (if bytes_eq method k then some f else handler_for k h)
  handler_for-add_handler method k f h = elim (Bool-cases (bytes_eq method k)) [
    | inl q ↦ rw (handler_for, q) refl
    | inr q ↦ rw (handler_for, q, lookup-erase method k h.request_handlers_by_method, q) refl
  ]

  handler_for-remove :
      (method k : Bytes) (h : MessageHandler D)
      → handler_for k (remove method h) ≡ (if bytes_eq method k then none else handler_for k h)
  handler_for-remove method k h = elim (Bool-cases (bytes_eq method k)) [
    | inl q ↦ rw (handler_for, lookup-erase method k h.request_handlers_by_method, q) refl
    | inr q ↦ rw (handler_for, lookup-erase method k h.request_handlers_by_method, q) refl
  ]

  -- After `add` a method has the new handler, and after `remove` none, so that a request for it is answered with
  -- "Method not found"; the handlers of all other methods are as before.
  pub handler_for-add_handler-remove :
      (method k : Bytes) (f : HandlerWrapper D) (h : MessageHandler D) (r : Request D)
      (allow_async : Bool)
      → r.method ≡ method
      → (handler_for k (add_handler method f h)
          ≡ (if bytes_eq method k then some f else handler_for k h))
        × (handler_for k (remove method h) ≡ (if bytes_eq method k then none else handler_for k h))
        × (process_request r allow_async (add_handler method f h)
            ≡ call f r allow_async (add_handler method f h))
        × (process_request r allow_async (remove method h) ≡ (ok (not_found r.id), remove method h))
  handler_for-add_handler-remove method k f h r b e =
      let own : bytes_eq method r.method ≡ true =
        ap (λ s. bytes_eq method s) e ∙ bytes_eq_refl method in
      (
        handler_for-add_handler method k f h,
        handler_for-remove method k h,
        process_request-some r b (add_handler method f h) f (
            handler_for-add_handler method r.method f h
            ∙ ap (λ c. if c then some f else handler_for r.method h) own),
        process_request-none r b (remove method h) (
            handler_for-remove method r.method h
            ∙ ap (λ c. if c then none else handler_for r.method h) own),
      )
