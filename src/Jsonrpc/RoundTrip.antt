-- ===== src/Jsonrpc/RoundTrip.antt =====
-- What the reader of lsp/jsonrpc/jsonrpc.cpp makes of the messages that the writer writes.
use lsp_framework.Base.{All, ◌≢◌, ◌≡◌, refl, Option, none, some, List, [], ◌∷◌, map, Bytes, ok, ℤ}
use lsp_framework.Json.Value.{
  Value, Decimals, null, boolean, decimal, integer, string, object, array, contains, find, get,
  assign, index, update_field, append_field,
}
use lsp_framework.Jsonrpc.{
  MessageId, null_id, integer_id, string_id, Error, Response, Message, request, response,
  params_from_json, message_id_from_json, id_to_json, create_error_response,
  verify_protocol_version, optional_member, id_member, request_from_json, error_from_json,
  response_from_json, message_from_json, messages_from_json, message_batch_from_json,
  message_to_json, message_batch_to_json,
}

abbrev IsParams : {D : Type 0} → Option (Value D) → Type 0
IsParams none = Unit
IsParams (some (object fs)) = Unit
IsParams (some (array xs)) = Unit
IsParams (some _) = ⊥

module _ {D : Type 0} (dec : Decimals D) where
  -- The conversion to `double` and back keeps the integer.
  abbrev pub IsExact : ℤ → Type 0
  IsExact i = dec.to_int (dec.of_int i) ≡ i

  abbrev pub IsExactId : MessageId → Type 0
  IsExactId (integer_id i) = IsExact i
  IsExactId _ = Unit

  abbrev IsExactOptionalId : Option MessageId → Type 0
  IsExactOptionalId none = Unit
  IsExactOptionalId (some i) = IsExactId i

  -- The response has a result or an error, not both; the code of an error is exact.
  abbrev IsOutcome : Option (Value D) → Option (Error D) → Type 0
  IsOutcome (some v) none = Unit
  IsOutcome none (some e) = IsExact e.code
  IsOutcome _ _ = ⊥

  abbrev pub IsSendable : Message D → Type 0
  IsSendable (request r) = IsExactOptionalId r.id × IsParams r.params
  IsSendable (response r) = IsExactId r.id × IsOutcome r.result r.error

module _ {D : Type 0} where
  abbrev without_data : Option (Error D) → Option (Error D)
  without_data none = none
  without_data (some e) = some (record e { error_data = none })

  -- The message without the data of its error.
  abbrev pub received : Message D → Message D
  received (request r) = request r
  received (response r) = response (record r { error = without_data r.error })

params_from_json-IsParams :
    {D : Type 0} (v : Value D) → IsParams (some v) → params_from_json v ≡ ok (some v)
params_from_json-IsParams (object fs) h = refl
params_from_json-IsParams (array xs) h = refl
params_from_json-IsParams null h = absurd h
params_from_json-IsParams (boolean b) h = absurd h
params_from_json-IsParams (integer i) h = absurd h
params_from_json-IsParams (decimal d) h = absurd h
params_from_json-IsParams (string s) h = absurd h

module _ {D : Type 0} (dec : Decimals D) where
  message_id_from_json-id_to_json :
      (i : MessageId) → IsExactId dec i → message_id_from_json dec (id_to_json i) ≡ ok i
  message_id_from_json-id_to_json null_id h = refl
  message_id_from_json-id_to_json (integer_id i) h = rw h refl
  message_id_from_json-id_to_json (string_id s) h = refl

  request-back :
      (i : Option MessageId) (method : Bytes) (params : Option (Value D))
      → IsExactOptionalId dec i
      → IsParams params
      → (let m = request (record { id = i; method = method; params = params }) in
          message_from_json dec (message_to_json m) ≡ ok m)
  unfolding message_from_json message_to_json request_from_json response_from_json
      verify_protocol_version optional_member id_member error_from_json contains find get assign
      index update_field append_field
  request-back none m none hi hp = refl
  request-back none m (some v) hi hp = rw (params_from_json-IsParams v hp) refl
  request-back (some i) m none hi hp = rw (message_id_from_json-id_to_json i hi) refl
  request-back (some i) m (some v) hi hp =
      rw (message_id_from_json-id_to_json i hi, params_from_json-IsParams v hp) refl

  -- The data, if any, are members of the message, and the reader does not look there.
  error-back :
      (i : MessageId) (code : ℤ) (message : Bytes) (payload : Option (Value D))
      → IsExactId dec i
      → IsExact dec code
      → (let r : Response D = create_error_response i code message payload in
          message_from_json dec (message_to_json (response r)) ≡ ok (received (response r)))
  unfolding message_from_json message_to_json request_from_json response_from_json
      verify_protocol_version optional_member id_member error_from_json contains find get assign
      index update_field append_field
  error-back i code message none hi h = rw (message_id_from_json-id_to_json i hi, h) refl
  error-back i code message (some v) hi h = rw (message_id_from_json-id_to_json i hi, h) refl

  response-back :
      (i : MessageId) (result : Option (Value D)) (error : Option (Error D))
      → IsExactId dec i
      → IsOutcome dec result error
      → (let r : Response D = record { id = i; result = result; error = error } in
          message_from_json dec (message_to_json (response r)) ≡ ok (received (response r)))
  unfolding message_from_json message_to_json request_from_json response_from_json
      verify_protocol_version optional_member id_member error_from_json contains find get assign
      index update_field append_field
  response-back i (some v) none hi h = rw (message_id_from_json-id_to_json i hi) refl
  response-back i none (some e) hi h = error-back i e.code e.message e.error_data hi h
  response-back i none none hi h = absurd h
  response-back i (some v) (some e) hi h = absurd h

-- The writer followed by the reader gives the message without the data of its error, for a message
-- with integers that `double` holds, params that are an object or an array if there are any,
-- and just one of result and error.
pub message_from_json-message_to_json :
    {D : Type 0} (dec : Decimals D) (m : Message D)
    → IsSendable dec m
    → message_from_json dec (message_to_json m) ≡ ok (received m)
message_from_json-message_to_json dec (request r) (hi, hp) =
    request-back dec r.id r.method r.params hi hp
message_from_json-message_to_json dec (response r) (hi, h) =
    response-back dec r.id r.result r.error hi h

messages_from_json-back :
    {D : Type 0} (dec : Decimals D) (batch : List (Message D))
    → All (IsSendable dec) batch
    → messages_from_json dec (message_batch_to_json batch) ≡ ok (map received batch)
unfolding messages_from_json message_batch_to_json
messages_from_json-back dec [] h = refl
messages_from_json-back dec (m ∷ ms) (hm, h) =
    rw (message_from_json-message_to_json dec m hm, messages_from_json-back dec ms h) refl

-- A batch that is not empty, of such messages, is read back message by message, in the order.
pub message_batch_from_json-message_batch_to_json :
    {D : Type 0} (dec : Decimals D) (batch : List (Message D))
    → All (IsSendable dec) batch
    → batch ≢ []
    → message_batch_from_json dec (message_batch_to_json batch) ≡ ok (map received batch)
unfolding message_batch_from_json message_batch_to_json
message_batch_from_json-message_batch_to_json dec [] h ne = absurd (ne refl)
message_batch_from_json-message_batch_to_json dec (m ∷ ms) h ne =
    messages_from_json-back dec (m ∷ ms) h
