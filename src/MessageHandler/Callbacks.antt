-- ===== src/MessageHandler/Callbacks.antt =====
-- The overloads of `MessageHandler::add` (lsp/messagehandler.cpp, .inl): the wrapper that each makes
-- of a callback. `fromJson` and `toJson` of the message's types are arguments. A future is the
-- outcome that `get` gives in the end.
use lsp_framework.Base.{true, false, none, some, [], ◌∷◌, Result, ok, err, ◌>>=◌}
use lsp_framework.Json.Value.{Value}
use lsp_framework.Jsonrpc.{MessageId, null_id, Response, create_response}
use lsp_framework.MessageHandler.{Task, send_response, wait_only, Reply, HandlerWrapper}
use lsp_framework.MessageHandler.Outcomes.{Thrown, async_error_response}

-- A callback that gives a value, or a future; also the call that makes the future may throw.
pub data Callback (D : Type 0) (A : Type 0) (B : Type 0) : Type 0 where
  direct : (A → Result (Thrown D) B) → Callback D A B
  async : (A → Result (Thrown D) (Result (Thrown D) B)) → Callback D A B

module _ {D : Type 0} where
  abbrev pub reply : Response D → Reply D
  reply r = record { now = some r; tasks = [] }

  abbrev pub no_reply : Reply D
  no_reply = record { now = none; tasks = [] }

  abbrev pub later : Task D → Reply D
  later t = record { now = none; tasks = t ∷ [] }

  -- `createResponseFromAsyncResult` in a task. An exception that it does not catch ends in the
  -- promise of the task, which nobody reads.
  abbrev pub response_task : MessageId → Result (Thrown D) (Value D) → Task D
  response_task i (ok v) = send_response (create_response i v)
  response_task i (err e) = elim (async_error_response i e) [
    | ok r ↦ send_response r
    | err e ↦ wait_only
  ]

  abbrev pub answer : MessageId → Result (Thrown D) (Value D) → Result (Thrown D) (Reply D)
  answer i (ok v) = ok (reply (create_response i v))
  answer i (err e) = err e

  -- The callback of a request, after `fromJson` and before `toJson`. A future is got in a task, or
  -- at once in a batch.
  unfoldable pub add_request :
      {P R : Type 0}
      → (Value D → Result (Thrown D) P)
      → (R → Value D)
      → Callback D P R
      → HandlerWrapper D
  add_request from_json to_json (direct f) i v allow_async =
      answer i (from_json v >>= f >>= λ r. ok (to_json r))
  add_request from_json to_json (async f) i v true = do
    p ← from_json v
    future ← f p
    ok (later (response_task i (future >>= λ r. ok (to_json r))))
  add_request from_json to_json (async f) i v false =
      answer i (from_json v >>= f >>= λ future. future >>= λ r. ok (to_json r))

  abbrev pub done : {A : Type 0} → Result (Thrown D) A → Result (Thrown D) (Reply D)
  done (ok u) = ok no_reply
  done (err e) = err e

  -- The callback of a notification.
  unfoldable pub add_notification :
      {P : Type 0} → (Value D → Result (Thrown D) P) → Callback D P (Unit {0}) → HandlerWrapper D
  add_notification from_json (direct f) i v allow_async = done (from_json v >>= f)
  add_notification from_json (async f) i v true = do
    p ← from_json v
    future ← f p
    ok (later wait_only)
  add_notification from_json (async f) i v false = done (from_json v >>= f >>= λ future. future)

  -- A response for an id that is not null.
  abbrev pub unless_null : MessageId → Result (Thrown D) (Value D) → Result (Thrown D) (Reply D)
  unless_null null_id (ok v) = ok no_reply
  unless_null i (ok v) = ok (reply (create_response i v))
  unless_null i (err e) = err e

  abbrev pub task_unless_null : MessageId → Result (Thrown D) (Value D) → Task D
  task_unless_null null_id o = wait_only
  task_unless_null i o = response_task i o

  -- The overloads for a `GenericMessageCallback` and a `GenericAsyncMessageCallback`.
  unfoldable pub add_generic : Callback D (Value D) (Value D) → HandlerWrapper D
  add_generic (direct f) i v allow_async = unless_null i (f v)
  add_generic (async f) i v true = do future ← f v; ok (later (task_unless_null i future))
  add_generic (async f) i v false = unless_null i (f v >>= λ future. future)
