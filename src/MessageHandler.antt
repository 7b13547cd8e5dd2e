-- ===== src/MessageHandler.antt =====
-- lsp/messagehandler.h and lsp/messagehandler.cpp: the handlers of incoming requests, the pending
-- outgoing requests, and what is written to the connection. `D` is the type `double`.
-- A callback is a function of its arguments, and calls back into no message handler; each function
-- runs without another thread in between, which the code's locks see to for the two maps.
pub mod Outcomes
pub mod Callbacks
pub mod Incoming
pub mod Replies
pub mod Sent
pub mod Registry
pub mod Pending
pub mod Batches
mod Tests
use lsp_framework.Base.{
  ℕ, ◌+◌, ◌-◌, ◌^◌, ◌%◌, Bool, true, false, ◌&&◌, Option, none, some, List, [], ◌∷◌, ◌++◌, Bytes,
  codes, bytes_eq, ltb, ◌==◌, if◌then◌else◌, Result, ok, err, ℤ, pos, negsuc,
}
use lsp_framework.Json.Value.{Value, null}
use lsp_framework.Jsonrpc.{
  MessageId, null_id, integer_id, string_id, Request, Response, Message, request, response,
  create_request, create_notification, create_error_response, is_notification,
  error_code_method_not_found,
}
use lsp_framework.Connection.{AnyMessage, single, batch}
use lsp_framework.MessageHandler.Outcomes.{
  Thrown, other, RequestResult, Event, set_value_from_json, set_error, id_eq, error_reply,
}

-- What a task of the thread pool does when it runs: it sends a response, or only waits.
pub data Task (D : Type 0) : Type 0 where
  send_response : Response D → Task D
  wait_only : Task D

-- What a call of a handler comes to.
pub record Reply (D : Type 0) : Type 0 where
  pub now : Option (Response D)
  pub tasks : List (Task D)

-- `HandlerWrapper`; the first argument is the id that `currentRequestId` gives during the call.
abbrev pub HandlerWrapper : Type 0 → Type 0
HandlerWrapper D = MessageId → Value D → Bool → Result (Thrown D) (Reply D)

pub record MessageHandler (D : Type 0) : Type 0 where
  -- The map; an entry may hold an empty std::function. New entries come first.
  pub request_handlers_by_method : List (Bytes × Option (HandlerWrapper D))
  pub pending_requests : List (MessageId × RequestResult D)
  -- The counter of `nextUniqueRequestId`, as an unsigned 32-bit number.
  pub unique_request_id : ℕ
  -- `t_currentRequestId`
  pub current_request_id : Option MessageId
  -- The tasks given to the thread pool, the first one first.
  pub task_queue : List (Task D)
  pub written : List (AnyMessage D)
  -- The calls of promises and callbacks of outgoing requests.
  pub events : List (Event D)

-- A signed 32-bit number from its two's complement.
abbrev pub signed : ℕ → ℤ
signed n = if ltb n (2 ^ 31) then pos n else negsuc (2 ^ 32 - 1 - n)

abbrev pub lookup : {A : Type 0} → Bytes → List (Bytes × A) → Option A
lookup k [] = none
lookup k ((j, a) ∷ rest) = if bytes_eq j k then some a else lookup k rest

abbrev pub erase : {A : Type 0} → Bytes → List (Bytes × A) → List (Bytes × A)
erase k [] = []
erase k ((j, a) ∷ rest) = if bytes_eq j k then erase k rest else (j, a) ∷ erase k rest

unfoldable pub lookup_id : {A : Type 0} → MessageId → List (MessageId × A) → Option A
lookup_id k [] = none
lookup_id k ((j, a) ∷ rest) = if id_eq j k then some a else lookup_id k rest

unfoldable pub erase_id : {A : Type 0} → MessageId → List (MessageId × A) → List (MessageId × A)
erase_id k [] = []
erase_id k ((j, a) ∷ rest) = if id_eq j k then erase_id k rest else (j, a) ∷ erase_id k rest

-- The id during a call; a notification has the null id.
abbrev pub current_id_of : Option MessageId → MessageId
current_id_of none = null_id
current_id_of (some i) = i

module _ {D : Type 0} where
  abbrev pub empty_handler : MessageHandler D
  empty_handler = record {
    request_handlers_by_method = [];
    pending_requests = [];
    unique_request_id = 0;
    current_request_id = none;
    task_queue = [];
    written = [];
    events = [];
  }

  -- `m_connection.writeMessage`
  abbrev pub write : AnyMessage D → MessageHandler D → MessageHandler D
  write w h = record h { written = h.written ++ w ∷ [] }

  abbrev pub add_handler : Bytes → HandlerWrapper D → MessageHandler D → MessageHandler D
  add_handler method f h = record h {
    request_handlers_by_method = (method, some f) ∷ erase method h.request_handlers_by_method;
  }

  abbrev pub remove : Bytes → MessageHandler D → MessageHandler D
  remove method h = record h {
    request_handlers_by_method = erase method h.request_handlers_by_method;
  }

  -- The handler that is found under a method and is not empty.
  abbrev pub handler_for : Bytes → MessageHandler D → Option (HandlerWrapper D)
  handler_for method h = elim (lookup method h.request_handlers_by_method) [
    | none ↦ none
    | some f ↦ f
  ]

  abbrev pub params_of : Option (Value D) → Value D
  params_of none = null
  params_of (some v) = v

  -- What `processRequest` does after the call of a handler: the reply, or the exception that passes
  -- through, and the message handler then, in which the current request id is reset.
  abbrev pub after_call :
      Request D
      → MessageHandler D
      → Result (Thrown D) (Reply D)
      → Result (Thrown D) (Option (Response D)) × MessageHandler D
  after_call r h (ok reply) = (
    ok reply.now,
    record h { current_request_id = none; task_queue = h.task_queue ++ reply.tasks },
  )
  after_call r h (err e) = (error_reply r.id e, record h { current_request_id = none })

  abbrev pub call :
      HandlerWrapper D
      → Request D
      → Bool
      → MessageHandler D
      → Result (Thrown D) (Option (Response D)) × MessageHandler D
  call f r allow_async h =
      let i = current_id_of r.id in
      after_call r (record h { current_request_id = some i }) (f i (params_of r.params) allow_async)

  abbrev pub not_found : Option MessageId → Option (Response D)
  not_found none = none
  not_found (some i) =
      some (create_error_response i error_code_method_not_found (codes "Method not found") none)

  unfoldable pub process_request :
      Request D
      → Bool
      → MessageHandler D
      → Result (Thrown D) (Option (Response D)) × MessageHandler D
  process_request r allow_async h = elim (handler_for r.method h) [
    | none ↦ (ok (not_found r.id), h)
    | some f ↦ call f r allow_async h
  ]

  -- The call of `setValueFromJson` or `setError` for a response.
  abbrev pub complete : RequestResult D → Response D → Result (Thrown D) (Event D)
  complete q r = elim r.result [
    | some v ↦ set_value_from_json q v
    | none ↦ elim r.error [
      -- The code asserts that there is an error; `responseFromJson` sees to it.
      | none ↦ err other
      | some e ↦ set_error q e
    ]
  ]

  abbrev pub after_complete :
      MessageHandler D
      → Result (Thrown D) (Event D)
      → Result (Thrown D) (Unit {0}) × MessageHandler D
  after_complete h (ok event) =
      (ok tt, record h { current_request_id = none; events = h.events ++ event ∷ [] })
  after_complete h (err e) = (err e, record h { current_request_id = none })

  unfoldable pub process_response :
      Response D → MessageHandler D → Result (Thrown D) (Unit {0}) × MessageHandler D
  unfolding lookup_id erase_id
  process_response r h = elim (lookup_id r.id h.pending_requests) [
    | none ↦ (ok tt, h)
    | some q ↦
        after_complete (record h { pending_requests = erase_id r.id h.pending_requests })
          (complete q r)
  ]

  -- The private `sendRequest`, on which the others rest.
  unfoldable pub send_request :
      Bytes → RequestResult D → Option (Value D) → MessageHandler D → MessageId × MessageHandler D
  unfolding erase_id
  send_request method q params h =
      let n = (h.unique_request_id + 1) % 2 ^ 32 in
      let i = integer_id (signed n) in
      (
        i,
        write (single (request (create_request i method params))) (record h {
          unique_request_id = n;
          pending_requests = (i, q) ∷ erase_id i h.pending_requests;
        }),
      )

  abbrev pub send_notification : Bytes → Option (Value D) → MessageHandler D → MessageHandler D
  send_notification method params h = write (single (request (create_notification method params))) h

  abbrev pub append_written : Option (AnyMessage D) → MessageHandler D → MessageHandler D
  append_written none h = h
  append_written (some w) h = write w h

  -- What follows a step that may throw.
  abbrev pub and_then :
      {A B : Type 0}
      → Result (Thrown D) A × MessageHandler D
      → (A → MessageHandler D → Result (Thrown D) B × MessageHandler D)
      → Result (Thrown D) B × MessageHandler D
  and_then (ok a, h) k = k a h
  and_then (err e, h) k = (err e, h)

  abbrev pub written_reply : Option (Response D) → Option (AnyMessage D)
  written_reply none = none
  written_reply (some q) = some (single (response q))

  -- `processIncomingMessages` on a single message.
  unfoldable pub process_message :
      Message D → MessageHandler D → Result (Thrown D) (Unit {0}) × MessageHandler D
  unfolding process_request process_response
  process_message (request r) h =
      and_then (process_request r true h)
        (λ reply h'. (ok tt, append_written (written_reply reply) h'))
  process_message (response r) h = process_response r h

  abbrev pub collect : Option (Response D) → List (Message D) → List (Message D)
  collect none responses = responses
  collect (some q) responses = response q ∷ responses

  -- The loop over a batch; the responses are collected.
  unfoldable pub process_batch :
      List (Message D) → MessageHandler D → Result (Thrown D) (List (Message D)) × MessageHandler D
  unfolding process_request process_response
  process_batch [] h = (ok [], h)
  process_batch (request r ∷ ms) h = and_then (process_request r false h) (λ reply h'.
      and_then (process_batch ms h') (λ responses h''. (ok (collect reply responses), h'')))
  process_batch (response r ∷ ms) h = and_then (process_response r h) (λ u h'. process_batch ms h')

  abbrev pub write_batch : List (Message D) → MessageHandler D → MessageHandler D
  write_batch [] h = h
  write_batch (m ∷ ms) h = write (batch (m ∷ ms)) h

  -- `processIncomingMessages` on a batch.
  unfoldable pub process_messages :
      List (Message D) → MessageHandler D → Result (Thrown D) (Unit {0}) × MessageHandler D
  unfolding process_batch
  process_messages ms h =
      and_then (process_batch ms h) (λ responses h'. (ok tt, write_batch responses h'))

  -- A thread of the pool runs the first task.
  unfoldable pub run_task : MessageHandler D → MessageHandler D
  run_task h = elim h.task_queue [
    | [] ↦ h
    | send_response r ∷ ts ↦ write (single (response r)) (record h { task_queue = ts })
    | wait_only ∷ ts ↦ record h { task_queue = ts }
  ]
