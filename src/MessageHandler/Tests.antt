-- ===== src/MessageHandler/Tests.antt =====
-- The message handler of lsp/messagehandler.cpp on concrete requests and responses.
use mathlib.Core.Path.{subst}
use lsp_framework.Base.{
  if◌then◌else◌, bytes_eq, ◌∷◌, some_injective, ℕ, ◌≡◌, ◌≢◌, refl, true, none, some, List, [], ◌++◌,
  codes, Result, ok, err, ℤ, pos, arith, All,
}
use lsp_framework.Json.Value.{Value, integer}
use lsp_framework.Jsonrpc.{
  request, response, MessageId, null_id, integer_id, Request, Response, create_request,
  create_response,
}
use lsp_framework.MessageHandler.{
  call, not_found, process_batch, HandlerWrapper, MessageHandler, empty_handler, add_handler,
  remove, handler_for, process_request, process_response, send_request, lookup_id, after_complete,
  complete, erase_id, Task,
}
use lsp_framework.MessageHandler.Outcomes.{Thrown, json_type_error, RequestResult, future_result}
use lsp_framework.MessageHandler.Registry.{handler_for-add_handler-remove}
use lsp_framework.MessageHandler.Callbacks.{Callback, direct, async, add_request}
use lsp_framework.MessageHandler.Replies.{
  AnswersOnce, IsTaskFor, IsResponseFor, count, add_request-Answers, request_once,
}
use lsp_framework.MessageHandler.Batches.{Answered, process_batch-Answered}
use lsp_framework.MessageHandler.Incoming.{
  HandlersAnswer, add_handler-remove-HandlersAnswer, process_request-id, process_request-answered,
}
use lsp_framework.MessageHandler.Pending.{
  PendingAreIssued, process_response-process_response, process_response-send_request,
  send_request-PendingAreIssued,
}

-- A request "next" whose parameters are an integer, answered with the same integer.
abbrev read_integer : Value ℕ → Result (Thrown ℕ) ℤ
read_integer (integer i) = ok i
read_integer _ = err (json_type_error (codes "Unexpected json value"))

abbrev next_wrapper : HandlerWrapper ℕ
next_wrapper = add_request read_integer integer (direct (λ i. ok i))

abbrev with_next : MessageHandler ℕ
with_next = add_handler (codes "next") next_wrapper empty_handler

abbrev seven : Value ℕ
seven = integer (pos 7)

abbrev one_id : MessageId
one_id = integer_id (pos 1)

abbrev next_request : Request ℕ
next_request = create_request one_id (codes "next") (some seven)

abbrev seven_response : Response ℕ
seven_response = create_response one_id seven

abbrev pending : RequestResult ℕ
pending = future_result (λ v. ok tt)

with_next-HandlersAnswer : HandlersAnswer with_next
with_next-HandlersAnswer =
    (add_handler-remove-HandlersAnswer (codes "next") next_wrapper empty_handler
      (add_request-Answers read_integer integer (direct (λ i. ok i))) tt).0

one_id-ne-null : one_id ≢ null_id
one_id-ne-null h = cc

null-ne-one_id : null_id ≢ one_id
null-ne-one_id h = cc

handler_for-add_handler-remove_example :
    (handler_for (codes "next") (add_handler (codes "next") next_wrapper with_next) ≡ (
      if bytes_eq (codes "next") (codes "next")
      then some next_wrapper
      else handler_for (codes "next") with_next))
    × (handler_for (codes "next") (remove (codes "next") with_next) ≡ (
        if bytes_eq (codes "next") (codes "next")
        then none
        else handler_for (codes "next") with_next))
    × (process_request next_request true (add_handler (codes "next") next_wrapper with_next)
        ≡ call next_wrapper next_request true (add_handler (codes "next") next_wrapper with_next))
    × (process_request next_request true (remove (codes "next") with_next)
        ≡ (ok (not_found (some one_id)), remove (codes "next") with_next))
handler_for-add_handler-remove_example =
    handler_for-add_handler-remove (codes "next") (codes "next") next_wrapper with_next next_request
      true refl

process_request-id_example :
    IsResponseFor one_id (some seven_response)
    × ((ts : List (Task ℕ)) × ((process_request next_request true with_next).1.task_queue
          ≡ with_next.task_queue ++ ts)
        × All (IsTaskFor one_id) ts)
unfolding process_request add_request
process_request-id_example =
    process_request-id next_request true with_next (some seven_response) with_next-HandlersAnswer
      refl

process_request-answered_example : count (some seven_response) ≡ 1
unfolding process_request add_request
process_request-answered_example =
    process_request-answered next_request one_id with_next (some seven_response) refl one_id-ne-null
      next_once refl
  where
    next_once :
        (f : HandlerWrapper ℕ) → handler_for (codes "next") with_next ≡ some f → AnswersOnce f
    next_once f e =
        subst AnswersOnce (some_injective e)
          (request_once read_integer integer (direct (λ i. ok i)))

-- The typed callback is asynchronous, the generic one throws.
abbrev later_callback : Callback ℕ ℤ ℤ
later_callback = async (λ i. ok (ok i))

abbrev thrower : Callback ℕ (Value ℕ) (Value ℕ)
thrower = direct (λ v. err (json_type_error (codes "no")))

process_response-process_response_example :
    process_response seven_response
      (process_response seven_response (send_request (codes "f") pending none empty_handler).1).1
    ≡ (
      ok tt,
      (process_response seven_response (send_request (codes "f") pending none empty_handler).1).1,
    )
process_response-process_response_example =
    process_response-process_response seven_response seven_response
      (send_request (codes "f") pending none empty_handler).1 refl

process_response-send_request_example :
    (process_response seven_response (send_request (codes "f") pending none empty_handler).1
      ≡ after_complete
          (record (send_request (codes "f") pending none empty_handler).1 {
            pending_requests =
                erase_id one_id
                  (send_request (codes "f") pending none empty_handler).1.pending_requests;
          })
          (complete pending seven_response))
    × (lookup_id null_id (send_request (codes "f") pending none empty_handler).1.pending_requests
        ≡ lookup_id null_id (empty_handler {D = ℕ}).pending_requests)
unfolding send_request
process_response-send_request_example =
    process_response-send_request (codes "f") pending none empty_handler seven_response null_id refl
      null-ne-one_id

send_request-PendingAreIssued_example :
    (lookup_id one_id (empty_handler {D = ℕ}).pending_requests ≡ none)
    × PendingAreIssued (send_request (codes "f") pending none empty_handler).1
    × PendingAreIssued (process_response seven_response empty_handler).1
unfolding send_request
send_request-PendingAreIssued_example =
    send_request-PendingAreIssued (codes "f") pending none empty_handler seven_response
      (omega arith) tt

process_batch-Answered_example :
    Answered ℕ (request next_request ∷ response seven_response ∷ []) (response seven_response ∷ [])
unfolding process_batch process_request process_response lookup_id add_request
process_batch-Answered_example =
    process_batch-Answered (request next_request ∷ response seven_response ∷ []) with_next
      (response seven_response ∷ []) refl with_next-HandlersAnswer refl
