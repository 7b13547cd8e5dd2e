-- ===== src/MessageHandler/Sent.antt =====
-- What is sent for a request to a callback that `MessageHandler::add` has registered (lsp/messagehandler.cpp, .inl): at once,
-- by a catch clause, or by a task of the pool.
use lsp_framework.Base.{◌≡◌, Bool, Option, none, some, List, [], ◌∷◌, ◌++◌, Result, ok, err, ◌>>=◌}
use lsp_framework.Json.Value.{Value}
use lsp_framework.Jsonrpc.{MessageId, Request, Response, create_response}
use lsp_framework.MessageHandler.{
  Task, send_response, wait_only, Reply, MessageHandler, process_request,
}
use lsp_framework.MessageHandler.Outcomes.{Thrown, other, error_reply}
use lsp_framework.MessageHandler.Callbacks.{Callback, direct, async}

module _ {D : Type 0} where
  -- What the callback comes to in the end, its future included.
  abbrev pub outcome :
      {P R : Type 0}
      → (Value D → Result (Thrown D) P)
      → (R → Value D)
      → Callback D P R
      → Value D
      → Result (Thrown D) (Value D)
  outcome from_json to_json (direct f) v = from_json v >>= f >>= λ r. ok (to_json r)
  outcome from_json to_json (async f) v =
      from_json v >>= f >>= λ future. future >>= λ r. ok (to_json r)

  abbrev pub generic_outcome :
      Callback D (Value D) (Value D) → Value D → Result (Thrown D) (Value D)
  generic_outcome (direct f) v = f v
  generic_outcome (async f) v = f v >>= λ future. future

  abbrev pub sent_now : Result (Thrown D) (Option (Response D)) → List (Response D)
  sent_now (ok (some r)) = r ∷ []
  sent_now _ = []

  abbrev pub sent_later : List (Task D) → List (Response D)
  sent_later [] = []
  sent_later (send_response r ∷ ts) = r ∷ sent_later ts
  sent_later (wait_only ∷ ts) = sent_later ts

  -- A value is sent as the one response with it; an exception as the one response with an error, but for one that
  -- is no std::exception, on which nothing is sent.
  abbrev pub Reports : MessageId → Result (Thrown D) (Value D) → List (Response D) → Type 0
  Reports i (ok v) rs = rs ≡ create_response i v ∷ []
  Reports i (err other) rs = rs ≡ []
  Reports i (err e) rs = (r : Response D) × (rs ≡ r ∷ []) × (r.id ≡ i) × (r.result ≡ none)

  -- What `processRequest` sends on what the wrapper gives.
  abbrev wrapper_sent : MessageId → Result (Thrown D) (Reply D) → List (Response D)
  wrapper_sent i (ok q) = sent_now (ok q.now) ++ sent_later q.tasks
  wrapper_sent i (err e) = sent_now (error_reply (some i) e)

  -- The response that `processRequest` gives and the tasks that it adds, for a method whose handler is `f`.
  abbrev pub Sends :
      Request D → Bool → MessageHandler D → MessageId → Result (Thrown D) (Value D) → Type 0
  Sends r b h i o =
      (ts : List (Task D)) × ((process_request r b h).1.task_queue ≡ h.task_queue ++ ts)
      × Reports i o (sent_now (process_request r b h).0 ++ sent_later ts)
