-- ===== src/Jsonrpc/Tests.antt =====
-- The reader and the writer of lsp/jsonrpc/jsonrpc.cpp on concrete messages. `double` is a type that
-- holds every integer.
use lsp_framework.Base.{◌≡◌, ◌≢◌, refl, none, some, [], ◌∷◌, codes, ok, ℤ, pos, negsuc}
use lsp_framework.Json.Value.{
  Fields, Decimals, invalid_argument, null, integer, string, array, nil, cons, end, field, find,
  contains, get,
}
use lsp_framework.Jsonrpc.{
  Message, request, response, integer_id, string_id, create_request, create_error_response,
  create_notification, protocol_version, jsonrpc_key, message_from_json, message_to_json,
  message_batch_from_json, message_batch_to_json,
}
use lsp_framework.Jsonrpc.RoundTrip.{
  received, message_from_json-message_to_json, message_batch_from_json-message_batch_to_json,
}
use lsp_framework.Jsonrpc.Accepted.{IsFrom, message_from_json-IsFrom}

abbrev whole : Decimals ℤ
whole = record {
  stod = λ s. invalid_argument;
  to_string = λ d. [];
  of_int = λ i. i;
  to_int = λ d. d;
}

abbrev error_message : Message ℤ
error_message =
    response
      (create_error_response (string_id (codes "a")) (negsuc 32602) (codes "bad") (some null))

abbrev call_message : Message ℤ
call_message =
    request
      (create_request (integer_id (pos 7)) (codes "f") (some (array (cons (integer (pos 1)) nil))))

abbrev call_object : Fields ℤ
call_object =
    field (codes "jsonrpc") (string (codes "2.0")) (field (codes "method") (string (codes "f")) end)

message_from_json-message_to_json_example :
    message_from_json whole (message_to_json error_message) ≡ ok (received error_message)
message_from_json-message_to_json_example =
    message_from_json-message_to_json whole error_message (tt, refl)

not_empty : call_message ∷ error_message ∷ [] ≢ []
not_empty h = cc

message_batch_from_json-message_batch_to_json_example :
    message_batch_from_json whole (message_batch_to_json (call_message ∷ error_message ∷ []))
    ≡ ok (call_message ∷ received error_message ∷ [])
message_batch_from_json-message_batch_to_json_example =
    message_batch_from_json-message_batch_to_json whole (call_message ∷ error_message ∷ [])
      ((refl, tt), ((tt, refl), tt)) not_empty

message_from_json-IsFrom_example :
    (find jsonrpc_key call_object ≡ some (string protocol_version))
    × IsFrom call_object (request (create_notification (codes "f") none))
unfolding message_from_json contains find get
message_from_json-IsFrom_example =
    message_from_json-IsFrom whole call_object (request (create_notification (codes "f") none)) refl
