-- ===== src/MessageHandler/Outcomes.antt =====
-- What callbacks throw, what the message handler answers then (the `catch` clauses of
-- `processRequest`), and the results of outgoing requests (lsp/messagehandler.h, .inl).
use lsp_framework.Base.{
  Bool, true, false, Option, none, some, Bytes, bytes_eq, Result, ok, err, ℤ, pos, negsuc, ◌==◌,
}
use lsp_framework.Json.Value.{Value}
use lsp_framework.Jsonrpc.{
  MessageId, null_id, integer_id, string_id, Error, Response, create_error_response,
  error_code_invalid_params, error_code_internal_error, error_code_parse_error,
}

-- An exception, by the classes that the `catch` clauses tell apart.
pub data Thrown (D : Type 0) : Type 0 where
  -- RequestError
  request_error : ℤ → Bytes → Option (Value D) → Thrown D
  -- json::TypeError, and json::Error of another kind
  json_type_error : Bytes → Thrown D
  json_error : Bytes → Thrown D
  -- lsp::Exception, std::exception, and what derives from neither
  lsp_exception : Bytes → Thrown D
  std_exception : Bytes → Thrown D
  other : Thrown D

abbrev pub integer_eq : ℤ → ℤ → Bool
integer_eq (pos m) (pos n) = m == n
integer_eq (negsuc m) (negsuc n) = m == n
integer_eq _ _ = false

-- The equality of the variant.
abbrev pub id_eq : MessageId → MessageId → Bool
id_eq null_id null_id = true
id_eq (integer_id i) (integer_id j) = integer_eq i j
id_eq (string_id s) (string_id t) = bytes_eq s t
id_eq _ _ = false

module _ {D : Type 0} where
  -- The error response to an exception, if a `catch` clause takes it.
  abbrev pub error_response : MessageId → Thrown D → Result (Thrown D) (Response D)
  error_response i (request_error code what payload) =
      ok (create_error_response i code what payload)
  error_response i (json_type_error what) =
      ok (create_error_response i error_code_invalid_params what none)
  error_response i (json_error what) =
      ok (create_error_response i error_code_internal_error what none)
  error_response i (lsp_exception what) =
      ok (create_error_response i error_code_internal_error what none)
  error_response i (std_exception what) =
      ok (create_error_response i error_code_internal_error what none)
  error_response i other = err other

  -- Of a notification, whose id is none, the exception is dropped.
  abbrev pub error_reply : Option MessageId → Thrown D → Result (Thrown D) (Option (Response D))
  error_reply i other = err other
  error_reply none e = ok none
  error_reply (some i) e = elim (error_response i e) [ ok r ↦ ok (some r) | err e ↦ err e ]

  -- The catch clauses of `createResponseFromAsyncResult`, which drop the data of a RequestError.
  abbrev pub async_error_response : MessageId → Thrown D → Result (Thrown D) (Response D)
  async_error_response i (request_error code what payload) =
      ok (create_error_response i code what none)
  async_error_response i (json_type_error what) =
      ok (create_error_response i error_code_internal_error what none)
  async_error_response i (json_error what) =
      ok (create_error_response i error_code_internal_error what none)
  async_error_response i (lsp_exception what) =
      ok (create_error_response i error_code_internal_error what none)
  async_error_response i (std_exception what) =
      ok (create_error_response i error_code_internal_error what none)
  async_error_response i other = err other

-- What becomes of an outgoing request. A value of the type `T` is kept as the JSON it is read from.
pub data Event (D : Type 0) : Type 0 where
  -- `m_promise.set_value`, `m_promise.set_exception`
  value_set : Value D → Event D
  exception_set : Thrown D → Event D
  error_set : Error D → Event D
  -- `m_then` and `m_error` were called
  then_called : Value D → Event D
  error_called : Error D → Event D

-- `FutureRequestResult` with what `fromJson` does on the value, and `CallbackRequestResult` with
-- what `fromJson` followed by the first callback does, and what the second callback does.
pub data RequestResult (D : Type 0) : Type 0 where
  future_result : (Value D → Result (Thrown D) (Unit {0})) → RequestResult D
  callback_result :
      (Value D → Result (Thrown D) (Unit {0}))
      → (Error D → Result (Thrown D) (Unit {0}))
      → RequestResult D

module _ {D : Type 0} where
  abbrev call_error :
      (Error D → Result (Thrown D) (Unit {0})) → Error D → Result (Thrown D) (Event D)
  call_error f e = elim (f e) [ ok u ↦ ok (error_called e) | err t ↦ err t ]

  abbrev parse_error_of : Bytes → Error D
  parse_error_of what = record { code = error_code_parse_error; message = what; error_data = none }

  -- The catch clause of `FutureRequestResult::setValueFromJson` takes an lsp::Exception.
  abbrev future_caught : Value D → Result (Thrown D) (Unit {0}) → Result (Thrown D) (Event D)
  future_caught v (ok u) = ok (value_set v)
  future_caught v (err (std_exception what)) = err (std_exception what)
  future_caught v (err other) = err other
  future_caught v (err e) = ok (exception_set e)

  -- The catch clause of `CallbackRequestResult::setValueFromJson` takes a json::Error.
  abbrev callback_caught :
      (Error D → Result (Thrown D) (Unit {0}))
      → Value D
      → Result (Thrown D) (Unit {0})
      → Result (Thrown D) (Event D)
  callback_caught f v (ok u) = ok (then_called v)
  callback_caught f v (err (json_type_error what)) = call_error f (parse_error_of what)
  callback_caught f v (err (json_error what)) = call_error f (parse_error_of what)
  callback_caught f v (err e) = err e

  abbrev pub set_value_from_json : RequestResult D → Value D → Result (Thrown D) (Event D)
  set_value_from_json (future_result f) v = future_caught v (f v)
  set_value_from_json (callback_result f g) v = callback_caught g v (f v)

  abbrev pub set_error : RequestResult D → Error D → Result (Thrown D) (Event D)
  set_error (future_result f) e = ok (error_set e)
  set_error (callback_result f g) e = call_error g e
