-- ===== src/MessageHandler/Replies.antt =====
-- What the wrappers that `MessageHandler::add` makes (lsp/messagehandler.cpp, .inl) reply with.
use mathlib.Core.Path.{subst}
use lsp_framework.Base.{
  ℕ, ◌≡◌, ◌≢◌, refl, sym, ap, Bool, true, false, Option, none, some, [], All, Result, ok, err,
  ◌>>=◌, >>=-eq-ok, ok_injective, err_ne_ok,
}
use lsp_framework.Json.Value.{Value}
use lsp_framework.Jsonrpc.{MessageId, null_id, integer_id, string_id, Response}
use lsp_framework.MessageHandler.{Task, send_response, wait_only, Reply, HandlerWrapper}
use lsp_framework.MessageHandler.Outcomes.{
  Thrown, request_error, json_type_error, json_error, lsp_exception, std_exception, other,
  async_error_response,
}
use lsp_framework.MessageHandler.Callbacks.{
  Callback, direct, async, later, response_task, answer, done, unless_null, task_unless_null,
  add_request, add_notification, add_generic,
}

module _ {D : Type 0} where
  abbrev pub IsTaskFor : MessageId → Task D → Type 0
  IsTaskFor i (send_response r) = r.id ≡ i
  IsTaskFor i wait_only = Unit

  abbrev pub IsResponseFor : MessageId → Option (Response D) → Type 0
  IsResponseFor i none = Unit
  IsResponseFor i (some r) = r.id ≡ i

  abbrev pub count : Option (Response D) → ℕ
  count none = 0
  count (some r) = 1

  -- The response and the tasks are for the request with the id.
  abbrev pub IsReplyTo : MessageId → Reply D → Type 0
  IsReplyTo i q = IsResponseFor i q.now × All (IsTaskFor i) q.tasks

  -- The wrapper replies to the request it is called for.
  abbrev pub Answers : HandlerWrapper D → Type 0
  Answers f =
      (i : MessageId) (v : Value D) (b : Bool) (q : Reply D) → f i v b ≡ ok q → IsReplyTo i q

  -- In a batch the wrapper replies at once, with one response and no task.
  abbrev pub AnswersOnce : HandlerWrapper D → Type 0
  AnswersOnce f =
      (i : MessageId) (v : Value D) (q : Reply D)
      → i ≢ null_id
      → f i v false ≡ ok q
      → (count q.now ≡ 1) × (q.tasks ≡ [])

  abbrev ok_reply : Reply D → Result (Thrown D) (Reply D)
  ok_reply q = ok q

  async_error_response-id :
      (i : MessageId) (e : Thrown D) (r : Response D) → async_error_response i e ≡ ok r → r.id ≡ i
  async_error_response-id i (request_error c w p) r h = sym (ap (λ r. r.id) (ok_injective h))
  async_error_response-id i (json_type_error w) r h = sym (ap (λ r. r.id) (ok_injective h))
  async_error_response-id i (json_error w) r h = sym (ap (λ r. r.id) (ok_injective h))
  async_error_response-id i (lsp_exception w) r h = sym (ap (λ r. r.id) (ok_injective h))
  async_error_response-id i (std_exception w) r h = sym (ap (λ r. r.id) (ok_injective h))
  async_error_response-id i other r h = absurd (err_ne_ok h)

  response_task-IsTaskFor :
      (i : MessageId) (o : Result (Thrown D) (Value D)) → IsTaskFor i (response_task i o)
  response_task-IsTaskFor i (ok v) = refl
  response_task-IsTaskFor i (err (request_error c w p)) = refl
  response_task-IsTaskFor i (err (json_type_error w)) = refl
  response_task-IsTaskFor i (err (json_error w)) = refl
  response_task-IsTaskFor i (err (lsp_exception w)) = refl
  response_task-IsTaskFor i (err (std_exception w)) = refl
  response_task-IsTaskFor i (err other) = tt

  answer-IsReplyTo :
      (i : MessageId) (o : Result (Thrown D) (Value D)) (q : Reply D)
      → answer i o ≡ ok q
      → IsReplyTo i q
  answer-IsReplyTo i (ok v) q h = subst (IsReplyTo i) (ok_injective h) (refl, tt)
  answer-IsReplyTo i (err e) q h = absurd (err_ne_ok h)

  answer-once :
      (i : MessageId) (o : Result (Thrown D) (Value D)) (q : Reply D)
      → answer i o ≡ ok q
      → (count q.now ≡ 1) × (q.tasks ≡ [])
  answer-once i (ok v) q h =
      subst (λ q. (count q.now ≡ 1) × (q.tasks ≡ [])) (ok_injective h) (refl, refl)
  answer-once i (err e) q h = absurd (err_ne_ok h)

  later-IsReplyTo :
      (i : MessageId) (t : Task D) (q : Reply D)
      → IsTaskFor i t
      → ok_reply (later t) ≡ ok q
      → IsReplyTo i q
  later-IsReplyTo i t q ht h = subst (IsReplyTo i) (ok_injective h) (tt, (ht, tt))

  done-IsReplyTo :
      {A : Type 0} (i : MessageId) (o : Result (Thrown D) A) (q : Reply D)
      → done o ≡ ok q
      → IsReplyTo i q
  done-IsReplyTo i (ok u) q h = subst (IsReplyTo i) (ok_injective h) (tt, tt)
  done-IsReplyTo i (err e) q h = absurd (err_ne_ok h)

  unless_null-IsReplyTo :
      (i : MessageId) (o : Result (Thrown D) (Value D)) (q : Reply D)
      → unless_null i o ≡ ok q
      → IsReplyTo i q
  unless_null-IsReplyTo null_id (ok v) q h = subst (IsReplyTo null_id) (ok_injective h) (tt, tt)
  unless_null-IsReplyTo (integer_id i) (ok v) q h = answer-IsReplyTo (integer_id i) (ok v) q h
  unless_null-IsReplyTo (string_id s) (ok v) q h = answer-IsReplyTo (string_id s) (ok v) q h
  unless_null-IsReplyTo null_id (err e) q h = absurd (err_ne_ok h)
  unless_null-IsReplyTo (integer_id i) (err e) q h = absurd (err_ne_ok h)
  unless_null-IsReplyTo (string_id s) (err e) q h = absurd (err_ne_ok h)

  unless_null-answer :
      (i : MessageId) (o : Result (Thrown D) (Value D)) → i ≢ null_id → unless_null i o ≡ answer i o
  unless_null-answer null_id o h = absurd (h refl)
  unless_null-answer (integer_id i) (ok v) h = refl
  unless_null-answer (string_id s) (ok v) h = refl
  unless_null-answer (integer_id i) (err e) h = refl
  unless_null-answer (string_id s) (err e) h = refl

  task_unless_null-IsTaskFor :
      (i : MessageId) (o : Result (Thrown D) (Value D)) → IsTaskFor i (task_unless_null i o)
  task_unless_null-IsTaskFor null_id o = tt
  task_unless_null-IsTaskFor (integer_id i) o = response_task-IsTaskFor (integer_id i) o
  task_unless_null-IsTaskFor (string_id s) o = response_task-IsTaskFor (string_id s) o

  pub request_once :
      {P R : Type 0} (from_json : Value D → Result (Thrown D) P) (to_json : R → Value D)
      (f : Callback D P R)
      → AnswersOnce (add_request from_json to_json f)
  unfolding add_request
  request_once fj tj (direct f) i v q ne h = answer-once i _ q h
  request_once fj tj (async f) i v q ne h = answer-once i _ q h

  pub generic_once : (f : Callback D (Value D) (Value D)) → AnswersOnce (add_generic f)
  unfolding add_generic
  generic_once (direct f) i v q ne h = answer-once i _ q (rw (unless_null-answer i (f v) ne) at h)
  generic_once (async f) i v q ne h =
      answer-once i _ q (rw (unless_null-answer i (f v >>= λ future. future) ne) at h)

  pub add_request-Answers :
      {P R : Type 0} (from_json : Value D → Result (Thrown D) P) (to_json : R → Value D)
      (f : Callback D P R)
      → Answers (add_request from_json to_json f)
  unfolding add_request
  add_request-Answers fj tj (direct f) i v b q h = answer-IsReplyTo i _ q h
  add_request-Answers fj tj (async f) i v false q h = answer-IsReplyTo i _ q h
  add_request-Answers fj tj (async f) i v true q h =
      let (p, hp, h1) = >>=-eq-ok (fj v) _ h in
      let (future, hf, h2) = >>=-eq-ok (f p) _ h1 in
      later-IsReplyTo i _ q (response_task-IsTaskFor i _) h2

  pub add_notification-Answers :
      {P : Type 0} (from_json : Value D → Result (Thrown D) P) (f : Callback D P (Unit {0}))
      → Answers (add_notification from_json f)
  unfolding add_notification
  add_notification-Answers fj (direct f) i v b q h = done-IsReplyTo i _ q h
  add_notification-Answers fj (async f) i v false q h = done-IsReplyTo i _ q h
  add_notification-Answers fj (async f) i v true q h =
      let (p, hp, h1) = >>=-eq-ok (fj v) _ h in
      let (future, hf, h2) = >>=-eq-ok (f p) _ h1 in later-IsReplyTo i _ q tt h2

  pub add_generic-Answers : (f : Callback D (Value D) (Value D)) → Answers (add_generic f)
  unfolding add_generic
  add_generic-Answers (direct f) i v b q h = unless_null-IsReplyTo i _ q h
  add_generic-Answers (async f) i v false q h = unless_null-IsReplyTo i _ q h
  add_generic-Answers (async f) i v true q h =
      let (future, hf, h1) = >>=-eq-ok (f v) _ h in
      later-IsReplyTo i _ q (task_unless_null-IsTaskFor i future) h1
