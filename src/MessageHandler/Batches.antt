-- ===== src/MessageHandler/Batches.antt =====
-- What `processRequest` and `processResponse` of lsp/messagehandler.cpp leave in the state, and the responses
-- to a batch.
use lsp_framework.Base.{
  ◌≡◌, refl, Bool, false, Option, none, some, List, [], ◌∷◌, Result, ok, err, Option-cases, inl,
  inr, ok_injective, err_ne_ok,
}
use mathlib.Core.Path.{subst}
use lsp_framework.Jsonrpc.{Request, Response, Message, request, response}
use lsp_framework.MessageHandler.{
  Reply, MessageHandler, handler_for, after_call, after_complete, complete, current_id_of,
  params_of, process_request, process_response, process_batch, and_then, collect, lookup_id,
}
use lsp_framework.MessageHandler.Outcomes.{Thrown, Event}
use lsp_framework.MessageHandler.Replies.{IsResponseFor}
use lsp_framework.MessageHandler.Incoming.{
  HandlersAnswer, HandlersAnswer-same, process_request-none, process_request-some,
  process_request-id,
}
use lsp_framework.MessageHandler.Pending.{process_response-none, process_response-some, without}

module _ {D : Type 0} where
  -- The current request id is reset, and the map of handlers is as it was.
  abbrev pub IsLeft : MessageHandler D → MessageHandler D → Type 0
  IsLeft h h' =
      (h'.current_request_id ≡ none)
      × (h'.request_handlers_by_method ≡ h.request_handlers_by_method)

  after_call-IsLeft :
      (r : Request D) (h : MessageHandler D) (o : Result (Thrown D) (Reply D))
      → IsLeft h (after_call r h o).1
  after_call-IsLeft r h (ok p) = (refl, refl)
  after_call-IsLeft r h (err e) = (refl, refl)

  after_complete-IsLeft :
      (h : MessageHandler D) (o : Result (Thrown D) (Event D)) → IsLeft h (after_complete h o).1
  after_complete-IsLeft h (ok p) = (refl, refl)
  after_complete-IsLeft h (err e) = (refl, refl)

  request-IsLeft :
      (r : Request D) (b : Bool) (h : MessageHandler D)
      → h.current_request_id ≡ none
      → IsLeft h (process_request r b h).1
  request-IsLeft r b h free = elim (Option-cases (handler_for r.method h)) [
    | inl e ↦ rw (process_request-none r b h e) (free, refl)
    | inr (f, e) ↦ rw (process_request-some r b h f e) (
        after_call-IsLeft r (record h { current_request_id = some (current_id_of r.id) })
          (f (current_id_of r.id) (params_of r.params) b))
  ]

  response-IsLeft :
      (s : Response D) (h : MessageHandler D)
      → h.current_request_id ≡ none
      → IsLeft h (process_response s h).1
  response-IsLeft s h free = elim (Option-cases (lookup_id s.id h.pending_requests)) [
    | inl e ↦ rw (process_response-none s h e) (free, refl)
    | inr (q, e) ↦
        rw (process_response-some s h q e) (after_complete-IsLeft (without s.id h) (complete q s))
  ]

-- The responses are for some of the requests of a batch, in the order.
pub data Answered (D : Type 0) : List (Message D) → List (Message D) → Type 0 where
  end : Answered D [] []
  passed : (m : Message D) {ms rs : List (Message D)} → Answered D ms rs → Answered D (m ∷ ms) rs
  answered :
      (r : Request D) (q : Response D) {ms rs : List (Message D)}
      → q.id ≡ current_id_of r.id
      → Answered D ms rs
      → Answered D (request r ∷ ms) (response q ∷ rs)

module _ {D : Type 0} where
  and_then-ok :
      {A B : Type 0} (x : Result (Thrown D) A × MessageHandler D)
      (k : A → MessageHandler D → Result (Thrown D) B × MessageHandler D) (b : B)
      → (and_then x k).0 ≡ ok b
      → (a : A) × (x.0 ≡ ok a) × ((k a x.1).0 ≡ ok b)
  and_then-ok (ok a, h) k b e = (a, refl, e)
  and_then-ok (err t, h) k b e = absurd (err_ne_ok e)

  collect-Answered :
      (r : Request D) (reply : Option (Response D)) (ms rs : List (Message D))
      → IsResponseFor (current_id_of r.id) reply
      → Answered D ms rs
      → Answered D (request r ∷ ms) (collect reply rs)
  collect-Answered r none ms rs h a = passed (request r) a
  collect-Answered r (some q) ms rs h a = answered r q h a

  -- With handlers that reply to their request, the responses to a batch that is processed to its end are for
  -- requests of the batch, at most one for each, in the order; a notification counts as a request with
  -- the null id.
  pub process_batch-Answered :
      (ms : List (Message D)) (h : MessageHandler D) (rs : List (Message D))
      → h.current_request_id ≡ none
      → HandlersAnswer h
      → (process_batch ms h).0 ≡ ok rs
      → Answered D ms rs
  unfolding process_batch
  process_batch-Answered [] h rs free hs e = subst (Answered D []) (ok_injective e) end
  process_batch-Answered (request r ∷ ms) h rs free hs e =
      let (reply, hr, e1) = and_then-ok (process_request r false h) _ rs e in
      let (later, hl, e2) = and_then-ok (process_batch ms (process_request r false h).1) _ rs e1 in
      let (now, added) = process_request-id r false h reply hs hr in
      let (left, kept) = request-IsLeft r false h free in
      let rest =
        process_batch-Answered ms (process_request r false h).1 later left
          (HandlersAnswer-same h (process_request r false h).1 kept hs) hl in
      subst (Answered D (request r ∷ ms)) (ok_injective e2)
        (collect-Answered r reply ms later now rest)
  process_batch-Answered (response s ∷ ms) h rs free hs e =
      let (u, hu, e1) = and_then-ok (process_response s h) _ rs e in
      let (left, kept) = response-IsLeft s h free in
      passed (response s) (
        process_batch-Answered ms (process_response s h).1 rs left
          (HandlersAnswer-same h (process_response s h).1 kept hs) e1)
