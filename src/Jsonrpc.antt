-- ===== src/Jsonrpc.antt =====
-- lsp/jsonrpc/jsonrpc.h and lsp/jsonrpc/jsonrpc.cpp: requests, responses and batches, read from and
-- written to JSON. `D` is the type `double`; a number goes through it on its way to an id or a code.
pub mod RoundTrip
pub mod Accepted
mod Tests
use lsp_framework.Base.{
  ℕ, zero, suc, ◌+◌, ◌≡◌, Bool, true, false, not, ◌&&◌, ◌||◌, Option, none, some, List, [], ◌∷◌,
  Bytes, codes, bytes_eq, if◌then◌else◌, Result, ok, err, ◌>>=◌, ◌>>◌, ℤ, pos, negsuc,
}
use lsp_framework.Exceptions.{Exception, Throws, protocol_error}
use lsp_framework.Json.Value.{
  Value, Items, Fields, Decimals, null, integer, string, object, array, nil, cons, end, field,
  boolean, decimal, is_null, is_string, is_number, is_object, is_array, as_string, as_object,
  as_array, as_number, contains, get, assign,
}

-- The alternatives of the variant.
pub data MessageId : Type 0 where
  null_id : MessageId
  integer_id : ℤ → MessageId
  string_id : Bytes → MessageId

-- MessageError (lsp/error.h) and the constants of `Error`, -32700 and so on.
abbrev pub error_code_parse_error : ℤ
error_code_parse_error = negsuc 32699

abbrev pub error_code_invalid_request : ℤ
error_code_invalid_request = negsuc 32599

abbrev pub error_code_method_not_found : ℤ
error_code_method_not_found = negsuc 32600

abbrev pub error_code_invalid_params : ℤ
error_code_invalid_params = negsuc 32601

abbrev pub error_code_internal_error : ℤ
error_code_internal_error = negsuc 32602

pub record Request (D : Type 0) : Type 0 where
  pub id : Option MessageId
  pub method : Bytes
  pub params : Option (Value D)

pub record Error (D : Type 0) : Type 0 where
  pub code : ℤ
  pub message : Bytes
  pub error_data : Option (Value D)

pub record Response (D : Type 0) : Type 0 where
  pub id : MessageId
  pub result : Option (Value D)
  pub error : Option (Error D)

pub data Message (D : Type 0) : Type 0 where
  request : Request D → Message D
  response : Response D → Message D

abbrev pub jsonrpc_key : Bytes
jsonrpc_key = codes "jsonrpc"

abbrev pub protocol_version : Bytes
protocol_version = codes "2.0"

abbrev pub id_key : Bytes
id_key = codes "id"

abbrev pub method_key : Bytes
method_key = codes "method"

abbrev pub params_key : Bytes
params_key = codes "params"

abbrev pub result_key : Bytes
result_key = codes "result"

abbrev pub error_key : Bytes
error_key = codes "error"

abbrev pub code_key : Bytes
code_key = codes "code"

abbrev pub message_key : Bytes
message_key = codes "message"

abbrev pub data_key : Bytes
data_key = codes "data"

-- `has_value()`
abbrev pub is_some : {A : Type 0} → Option A → Bool
is_some none = false
is_some (some a) = true

-- A request without an id is a notification; a response without one has the null id.
abbrev id_or_null : Option MessageId → MessageId
id_or_null none = null_id
id_or_null (some i) = i

module _ {D : Type 0} where
  -- `isNotification()`
  abbrev pub is_notification : Request D → Bool
  is_notification r = not (is_some r.id)

  abbrev pub verify_version : Value D → Throws Unit
  verify_version (string s) =
      if not (bytes_eq s protocol_version)
      then err (protocol_error (codes "Invalid or unsupported jsonrpc version"))
      else ok tt
  verify_version _ = err (protocol_error (codes "jsonrpc property expected to be a string"))

  unfoldable pub verify_protocol_version : Fields D → Throws Unit
  unfolding contains get
  verify_protocol_version json =
      if not (contains jsonrpc_key json)
      then err (protocol_error (codes "jsonrpc property is missing"))
      else get jsonrpc_key json >>= verify_version

  -- The member under a key, if there is one.
  unfoldable pub optional_member : Bytes → Fields D → Throws (Option (Value D))
  unfolding contains get
  optional_member k json = if contains k json then (do v ← get k json; ok (some v)) else ok none

  abbrev pub id_to_json : MessageId → Value D
  id_to_json null_id = null
  id_to_json (integer_id i) = integer i
  id_to_json (string_id s) = string s

  abbrev pub params_from_json : Value D → Throws (Option (Value D))
  params_from_json (object fs) = ok (some (object fs))
  params_from_json (array xs) = ok (some (array xs))
  params_from_json null = ok none
  params_from_json _ = err (protocol_error (codes "Params type must be object or array"))

  abbrev pub optional_params : Option (Value D) → Throws (Option (Value D))
  optional_params none = ok none
  optional_params (some p) = params_from_json p

  -- Either a result or an error, not both.
  abbrev pub has_one_outcome : Response D → Bool
  has_one_outcome r =
      not
        ((is_some r.result && is_some r.error) || (not (is_some r.result) && not (is_some r.error)))

  abbrev pub verify_outcome : Response D → Throws (Response D)
  verify_outcome r =
      if has_one_outcome r
      then ok r
      else err (protocol_error (codes "Response must have either 'result' or 'error'"))

module _ {D : Type 0} (dec : Decimals D) where
  -- `static_cast<json::Integer>(json.number())`
  abbrev pub truncated : Value D → Throws ℤ
  truncated v = do d ← as_number dec v; ok (dec.to_int d)

  abbrev pub message_id_from_json : Value D → Throws MessageId
  message_id_from_json (string s) = ok (string_id s)
  message_id_from_json null = ok null_id
  message_id_from_json (integer i) = ok (integer_id (dec.to_int (dec.of_int i)))
  message_id_from_json (decimal d) = ok (integer_id (dec.to_int d))
  message_id_from_json _ =
      err (protocol_error (codes "Request id type must be string, number or null"))

  unfoldable pub id_member : Fields D → Throws (Option MessageId)
  unfolding optional_member
  id_member json = do
    v ← optional_member id_key json
    elim v [ none ↦ ok none | some v ↦ do i ← message_id_from_json v; ok (some i) ]

  unfoldable request_from_json : Fields D → Throws (Request D)
  unfolding verify_protocol_version optional_member id_member get
  request_from_json json = do
    verify_protocol_version json
    m ← get method_key json
    method ← as_string m
    id ← id_member json
    p ← optional_member params_key json
    params ← optional_params p
    ok (record { id = id; method = method; params = params })

  unfoldable pub error_from_json : Fields D → Throws (Error D)
  unfolding optional_member contains get
  error_from_json json =
      if not (contains code_key json)
      then err (protocol_error (codes "Response error is missing the error code"))
      else do
        c ← get code_key json
        if not (is_number c)
            then err (protocol_error (codes "Response error code must be a number"))
            else do
              code ← truncated c
              if not (contains message_key json)
                  then err (protocol_error (codes "Response error is missing the error message"))
                  else do
                    m ← get message_key json
                    if not (is_string m)
                        then err (protocol_error (codes "Response error message must be a string"))
                        else do
                          message ← as_string m
                          payload ← optional_member data_key json
                          ok (record { code = code; message = message; error_data = payload })

  abbrev pub optional_error : Option (Value D) → Throws (Option (Error D))
  unfolding error_from_json
  optional_error none = ok none
  optional_error (some e) = do fs ← as_object e; error ← error_from_json fs; ok (some error)

  unfoldable response_from_json : Fields D → Throws (Response D)
  unfolding verify_protocol_version optional_member id_member
  response_from_json json = do
    verify_protocol_version json
    id ← id_member json
    result ← optional_member result_key json
    e ← optional_member error_key json
    error ← optional_error e
    verify_outcome (record { id = id_or_null id; result = result; error = error })

  unfoldable pub message_from_json : Fields D → Throws (Message D)
  unfolding contains request_from_json response_from_json
  message_from_json json =
      if contains method_key json
      then (do r ← request_from_json json; ok (request r))
      else (do r ← response_from_json json; ok (response r))

  unfoldable pub messages_from_json : Items D → Throws (List (Message D))
  unfolding message_from_json
  messages_from_json nil = ok []
  messages_from_json (cons v xs) = do
    fs ← as_object v
    m ← message_from_json fs
    ms ← messages_from_json xs
    ok (m ∷ ms)

  unfoldable pub message_batch_from_json : Items D → Throws (List (Message D))
  unfolding messages_from_json
  message_batch_from_json nil = err (protocol_error (codes "Message batch must not be empty"))
  message_batch_from_json (cons v xs) = messages_from_json (cons v xs)

module _ {D : Type 0} where
  abbrev assign_id : Option MessageId → Fields D → Fields D
  unfolding assign
  assign_id none json = json
  assign_id (some i) json = assign id_key (id_to_json i) json

  abbrev assign_some : Bytes → Option (Value D) → Fields D → Fields D
  unfolding assign
  assign_some k none json = json
  assign_some k (some v) json = assign k v json

  -- The data of the error go into the message, not into the error.
  abbrev assign_error : Option (Error D) → Fields D → Fields D
  unfolding assign
  assign_error none json = json
  assign_error (some e) json =
      let error_json =
        assign message_key (string e.message) (assign code_key (integer e.code) end) in
      assign error_key (object error_json) (assign_some data_key e.error_data json)

  unfoldable pub message_to_json : Message D → Fields D
  unfolding assign
  message_to_json (request r) =
      let json = assign jsonrpc_key (string protocol_version) end in
      assign_some params_key r.params (assign method_key (string r.method) (assign_id r.id json))
  message_to_json (response r) =
      let json = assign jsonrpc_key (string protocol_version) end in
      assign_error r.error (assign_some result_key r.result (assign_id (some r.id) json))

  unfoldable pub message_batch_to_json : List (Message D) → Items D
  unfolding message_to_json
  message_batch_to_json [] = nil
  message_batch_to_json (m ∷ ms) = cons (object (message_to_json m)) (message_batch_to_json ms)

  abbrev pub create_request : MessageId → Bytes → Option (Value D) → Request D
  create_request id method params = record { id = some id; method = method; params = params }

  abbrev pub create_notification : Bytes → Option (Value D) → Request D
  create_notification method params = record { id = none; method = method; params = params }

  abbrev pub create_response : MessageId → Value D → Response D
  create_response id result = record { id = id; result = some result; error = none }

  abbrev pub create_error_response : MessageId → ℤ → Bytes → Option (Value D) → Response D
  create_error_response id code message payload = record {
    id = id;
    result = none;
    error = some (record { code = code; message = message; error_data = payload });
  }
