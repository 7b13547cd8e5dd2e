-- ===== src/MessageHandler/Incoming.antt =====
-- `processRequest`, `addHandler` and `remove` of lsp/messagehandler.cpp, with handlers that reply to
-- the request they are called for.
use mathlib.Core.Path.{subst}
use lsp_framework.Base.{
  some_injective, none_ne_some, append-nil, ◌≡◌, ◌≢◌, refl, sym, ap, ◌∙◌, Bool, false, Option, none,
  some, List, [], ◌∷◌, ◌++◌, All, Bytes, bytes_eq, Result, ok, err, ok_injective, err_ne_ok,
  Option-cases, Bool-cases, inl, inr,
}
use lsp_framework.Jsonrpc.{MessageId, null_id, Request, Response}
use lsp_framework.MessageHandler.{
  Task, Reply, HandlerWrapper, MessageHandler, lookup, erase, add_handler, remove, handler_for,
  call, not_found, after_call, params_of, current_id_of, process_request,
}
use lsp_framework.MessageHandler.Outcomes.{
  Thrown, request_error, json_type_error, json_error, lsp_exception, std_exception, other,
  error_reply,
}
use lsp_framework.MessageHandler.Replies.{
  IsTaskFor, IsResponseFor, count, IsReplyTo, Answers, AnswersOnce,
}

not_found-IsResponseFor :
    (D : Type 0) (i : Option MessageId) → IsResponseFor (current_id_of i) (not_found {D = D} i)
not_found-IsResponseFor D none = tt
not_found-IsResponseFor D (some i) = refl

module _ {D : Type 0} where
  abbrev AnswersIfSome : Option (HandlerWrapper D) → Type 0
  AnswersIfSome none = Unit
  AnswersIfSome (some f) = Answers f

  -- Each registered handler replies to the request it is called for.
  abbrev pub HandlersAnswer : MessageHandler D → Type 0
  HandlersAnswer h = All (λ e. AnswersIfSome e.1) h.request_handlers_by_method

  pub HandlersAnswer-same :
      (h h' : MessageHandler D)
      → h'.request_handlers_by_method ≡ h.request_handlers_by_method
      → HandlersAnswer h
      → HandlersAnswer h'
  HandlersAnswer-same h h' e hs = subst (λ m. All (λ f. AnswersIfSome f.1) m) (sym e) hs

  erase-All :
      (P : Bytes × Option (HandlerWrapper D) → Type 0) (k : Bytes)
      (xs : List (Bytes × Option (HandlerWrapper D)))
      → All P xs
      → All P (erase k xs)
  erase-All P k [] h = tt
  erase-All P k ((j, f) ∷ xs) (hf, h) = elim (Bool-cases (bytes_eq j k)) [
    | inl e ↦ rw e (erase-All P k xs h)
    | inr e ↦ rw e (hf, erase-All P k xs h)
  ]

  -- Handlers that reply to their request keep doing so when one more is added, and when one is removed.
  pub add_handler-remove-HandlersAnswer :
      (method : Bytes) (f : HandlerWrapper D) (h : MessageHandler D)
      → Answers f
      → HandlersAnswer h
      → HandlersAnswer (add_handler method f h) × HandlersAnswer (remove method h)
  add_handler-remove-HandlersAnswer method f h hf hh =
      let erased = erase-All (λ e. AnswersIfSome e.1) method h.request_handlers_by_method hh in
      ((hf, erased), erased)

  lookup-Answers :
      (k : Bytes) (xs : List (Bytes × Option (HandlerWrapper D))) (f : HandlerWrapper D)
      → All (λ e. AnswersIfSome e.1) xs
      → lookup k xs ≡ some (some f)
      → Answers f
  lookup-Answers k [] f hs e = cc
  lookup-Answers k ((j, g) ∷ xs) f (hg, hs) e = elim (Bool-cases (bytes_eq j k)) [
    | inl c ↦ subst AnswersIfSome (some_injective (rw c at e)) hg
    | inr c ↦ lookup-Answers k xs f hs (rw c at e)
  ]

  handler_for-Answers :
      (method : Bytes) (h : MessageHandler D) (f : HandlerWrapper D)
      → HandlersAnswer h
      → handler_for method h ≡ some f
      → Answers f
  handler_for-Answers method h f hs e =
      elim (Option-cases (lookup method h.request_handlers_by_method)) [
        | inl c ↦ absurd (none_ne_some (rw (handler_for, c) at e))
        | inr (g, c) ↦
            lookup-Answers method h.request_handlers_by_method f hs
              (c ∙ ap some (rw (handler_for, c) at e))
      ]

  error_reply-IsResponseFor :
      (i : Option MessageId) (e : Thrown D) (q : Option (Response D))
      → error_reply i e ≡ ok q
      → IsResponseFor (current_id_of i) q
  error_reply-IsResponseFor i other q h = absurd (err_ne_ok h)
  error_reply-IsResponseFor none (request_error c w p) q h =
      subst (IsResponseFor _) (ok_injective h) tt
  error_reply-IsResponseFor none (json_type_error w) q h =
      subst (IsResponseFor _) (ok_injective h) tt
  error_reply-IsResponseFor none (json_error w) q h = subst (IsResponseFor _) (ok_injective h) tt
  error_reply-IsResponseFor none (lsp_exception w) q h = subst (IsResponseFor _) (ok_injective h) tt
  error_reply-IsResponseFor none (std_exception w) q h = subst (IsResponseFor _) (ok_injective h) tt
  error_reply-IsResponseFor (some i) (request_error c w p) q h =
      subst (IsResponseFor _) (ok_injective h) refl
  error_reply-IsResponseFor (some i) (json_type_error w) q h =
      subst (IsResponseFor _) (ok_injective h) refl
  error_reply-IsResponseFor (some i) (json_error w) q h =
      subst (IsResponseFor _) (ok_injective h) refl
  error_reply-IsResponseFor (some i) (lsp_exception w) q h =
      subst (IsResponseFor _) (ok_injective h) refl
  error_reply-IsResponseFor (some i) (std_exception w) q h =
      subst (IsResponseFor _) (ok_injective h) refl

  error_reply-count :
      (i : MessageId) (e : Thrown D) (q : Option (Response D))
      → error_reply (some i) e ≡ ok q
      → count q ≡ 1
  error_reply-count i other q h = absurd (err_ne_ok h)
  error_reply-count i (request_error c w p) q h = sym (ap count (ok_injective h))
  error_reply-count i (json_type_error w) q h = sym (ap count (ok_injective h))
  error_reply-count i (json_error w) q h = sym (ap count (ok_injective h))
  error_reply-count i (lsp_exception w) q h = sym (ap count (ok_injective h))
  error_reply-count i (std_exception w) q h = sym (ap count (ok_injective h))

  after_call-reply :
      (r : Request D) (h : MessageHandler D) (o : Result (Thrown D) (Reply D))
      (q : Option (Response D))
      → ((p : Reply D) → o ≡ ok p → IsReplyTo (current_id_of r.id) p)
      → (after_call r h o).0 ≡ ok q
      → IsResponseFor (current_id_of r.id) q
        × ((ts : List (Task D)) × ((after_call r h o).1.task_queue ≡ h.task_queue ++ ts)
            × All (IsTaskFor (current_id_of r.id)) ts)
  after_call-reply r h (ok p) q hp e =
      let (now, tasks) = hp p refl in
      (subst (IsResponseFor _) (ok_injective e) now, (p.tasks, refl, tasks))
  after_call-reply r h (err t) q hp e =
      (error_reply-IsResponseFor r.id t q e, ([], sym (append-nil h.task_queue), tt))

  pub process_request-none :
      (r : Request D) (b : Bool) (h : MessageHandler D)
      → handler_for r.method h ≡ none
      → process_request r b h ≡ (ok (not_found r.id), h)
  unfolding process_request
  process_request-none r b h c = rw (process_request, handler_for, c) refl

  pub process_request-some :
      (r : Request D) (b : Bool) (h : MessageHandler D) (f : HandlerWrapper D)
      → handler_for r.method h ≡ some f
      → process_request r b h ≡ call f r b h
  unfolding process_request
  process_request-some r b h f c = rw (process_request, handler_for, c) refl

  -- When `processRequest` returns, with handlers that reply to their request, the response that it
  -- returns, if any, and the tasks that it adds are for the id of the request; a notification
  -- counts as one with the null id.
  pub process_request-id :
      (r : Request D) (allow_async : Bool) (h : MessageHandler D) (q : Option (Response D))
      → HandlersAnswer h
      → (process_request r allow_async h).0 ≡ ok q
      → IsResponseFor (current_id_of r.id) q
        × ((ts : List (Task D)) × ((process_request r allow_async h).1.task_queue
              ≡ h.task_queue ++ ts)
            × All (IsTaskFor (current_id_of r.id)) ts)
  process_request-id r b h q hs e = elim (Option-cases (handler_for r.method h)) [
    | inl c ↦ rw (process_request-none r b h c) (
      subst (IsResponseFor _) (ok_injective (rw (process_request-none r b h c) at e))
          (not_found-IsResponseFor D r.id),
      ([], sym (append-nil h.task_queue), tt),
    )
    | inr (f, c) ↦ rw (process_request-some r b h f c) (
        after_call-reply r (record h { current_request_id = some (current_id_of r.id) }) _ q
          (λ p. handler_for-Answers r.method h f hs c (current_id_of r.id) (params_of r.params) b p)
          (rw (process_request-some r b h f c) at e))
  ]

  after_call-once :
      (r : Request D) (i : MessageId) (h : MessageHandler D) (o : Result (Thrown D) (Reply D))
      (q : Option (Response D))
      → r.id ≡ some i
      → ((p : Reply D) → o ≡ ok p → (count p.now ≡ 1) × (p.tasks ≡ []))
      → (after_call r h o).0 ≡ ok q
      → count q ≡ 1
  after_call-once r i h (ok p) q ei hp e =
      let (one, left) = hp p refl in sym (ap count (ok_injective e)) ∙ one
  after_call-once r i h (err t) q ei hp e = error_reply-count i t q (rw ei at e)

  -- In a batch, a request with an id that is not null gets a response whenever `processRequest` returns,
  -- when its method has no handler or one that replies at once in a batch.
  pub process_request-answered :
      (r : Request D) (i : MessageId) (h : MessageHandler D) (q : Option (Response D))
      → r.id ≡ some i
      → i ≢ null_id
      → ((f : HandlerWrapper D) → handler_for r.method h ≡ some f → AnswersOnce f)
      → (process_request r false h).0 ≡ ok q
      → count q ≡ 1
  process_request-answered r i h q ei ne hs e = elim (Option-cases (handler_for r.method h)) [
    | inl c ↦ sym (ap count (ok_injective (rw (process_request-none r false h c, ei) at e)))
    | inr (f, c) ↦
        after_call-once r i (record h { current_request_id = some (current_id_of r.id) }) _ q ei
          (λ p. (hs f c (current_id_of r.id) (params_of r.params) p (rw ei ne)))
          (rw (process_request-some r false h f c) at e)
  ]
