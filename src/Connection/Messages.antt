-- ===== src/Connection/Messages.antt =====
-- Whole messages on the stream, from `writeMessage` to `readMessage` of lsp/connection.cpp, through the
-- printer and the parser of lsp/json and the writer and the reader of lsp/jsonrpc.
use lsp_framework.Base.{
  ℕ, ◌^◌, ◌<◌, ◌≡◌, ◌≢◌, refl, false, Option, none, some, List, [], ◌∷◌, ◌++◌, Bytes, All, map,
  length, ok, ◌>>=◌, ◌>>◌, ◌∙◌, ap, ℤ,
}
use lsp_framework.Json.Value.{
  Value, Decimals, array, object, assign, index, contains, append_field, update_field,
}
use lsp_framework.Json.Print.{stringify}
use lsp_framework.Json.Parser.{parse}
use lsp_framework.Json.Parser.Scalars.{FitsInteger}
use lsp_framework.Json.RoundTrip.{Printable, parse-stringify}
use lsp_framework.Jsonrpc.{
  id_to_json, MessageId, null_id, integer_id, string_id, Request, Error, Response, Message, request,
  response, message_to_json, message_batch_to_json,
}
use lsp_framework.Jsonrpc.RoundTrip.{
  IsSendable, received, message_from_json-message_to_json,
  message_batch_from_json-message_batch_to_json,
}
use lsp_framework.Connection.Header.{default_header, verify_content_type}
use lsp_framework.Connection.Frames.{read_frame-write_message_data}
use lsp_framework.Connection.{
  AnyMessage, single, batch, read_frame, write_message_data, message_of, message_of_content,
  message_of_frame, settle, write_message, read_message,
}

module _ {D : Type 0} (dec : Decimals D) where
  -- Ids and codes in the range of `json::Integer`, and values that parse back.
  abbrev IsPrintableId : Option MessageId → Type 0
  IsPrintableId (some (integer_id i)) = FitsInteger i
  IsPrintableId _ = Unit

  abbrev IsPrintableOption : Option (Value D) → Type 0
  IsPrintableOption none = Unit
  IsPrintableOption (some v) = Printable dec v

  abbrev IsPrintableError : Option (Error D) → Type 0
  IsPrintableError none = Unit
  IsPrintableError (some e) = FitsInteger e.code × IsPrintableOption e.error_data

  abbrev pub IsPrintable : Message D → Type 0
  IsPrintable (request r) = IsPrintableId r.id × IsPrintableOption r.params
  IsPrintable (response r) =
      IsPrintableId (some r.id) × IsPrintableOption r.result × IsPrintableError r.error

  id-Printable : (i : MessageId) → IsPrintableId (some i) → Printable dec (id_to_json i)
  unfolding Printable
  id-Printable null_id h = tt
  id-Printable (integer_id i) h = h
  id-Printable (string_id s) h = tt

  request-Printable :
      (i : Option MessageId) (method : Bytes) (params : Option (Value D))
      → IsPrintableId i
      → IsPrintableOption params
      → (let r : Request D = record { id = i; method = method; params = params } in
          Printable dec (object (message_to_json (request r))))
  unfolding Printable message_to_json contains assign index update_field append_field
  request-Printable none m none hi hp = (refl, tt, (refl, tt, tt))
  request-Printable none m (some p) hi hp = (refl, tt, (refl, tt, (refl, hp, tt)))
  request-Printable (some i) m none hi hp = (refl, tt, (refl, id-Printable i hi, (refl, tt, tt)))
  request-Printable (some i) m (some p) hi hp =
      (refl, tt, (refl, id-Printable i hi, (refl, tt, (refl, hp, tt))))

  error-Printable :
      (i : MessageId) (result payload : Option (Value D)) (code : ℤ) (message : Bytes)
      → IsPrintableId (some i)
      → IsPrintableOption result
      → IsPrintableOption payload
      → FitsInteger code
      → (let e : Error D = record { code = code; message = message; error_data = payload } in
          let r : Response D = record { id = i; result = result; error = some e } in
          Printable dec (object (message_to_json (response r))))
  unfolding Printable message_to_json contains assign index update_field append_field
  error-Printable i none none code message hi hr hp hc =
      (refl, tt, (refl, id-Printable i hi, (refl, (refl, hc, (refl, tt, tt)), tt)))
  error-Printable i none (some p) code message hi hr hp hc =
      (refl, tt, (refl, id-Printable i hi, (refl, hp, (refl, (refl, hc, (refl, tt, tt)), tt))))
  error-Printable i (some v) none code message hi hr hp hc =
      (refl, tt, (refl, id-Printable i hi, (refl, hr, (refl, (refl, hc, (refl, tt, tt)), tt))))
  error-Printable i (some v) (some p) code message hi hr hp hc = (
    refl,
    tt,
    (refl, id-Printable i hi, (refl, hr, (refl, hp, (refl, (refl, hc, (refl, tt, tt)), tt)))),
  )

  response-Printable :
      (i : MessageId) (result : Option (Value D)) (error : Option (Error D))
      → IsPrintableId (some i)
      → IsPrintableOption result
      → IsPrintableError error
      → (let r : Response D = record { id = i; result = result; error = error } in
          Printable dec (object (message_to_json (response r))))
  unfolding Printable message_to_json contains assign index update_field append_field
  response-Printable i none none hi hr he = (refl, tt, (refl, id-Printable i hi, tt))
  response-Printable i (some v) none hi hr he =
      (refl, tt, (refl, id-Printable i hi, (refl, hr, tt)))
  response-Printable i result (some e) hi hr he =
      error-Printable i result e.error_data e.code e.message hi hr he.1 he.0

  message_to_json-Printable :
      (m : Message D) → IsPrintable m → Printable dec (object (message_to_json m))
  message_to_json-Printable (request r) (hi, hp) = request-Printable r.id r.method r.params hi hp
  message_to_json-Printable (response r) (hi, hr, he) =
      response-Printable r.id r.result r.error hi hr he

  message_batch_to_json-Printable :
      (ms : List (Message D))
      → All IsPrintable ms
      → Printable dec (array (message_batch_to_json ms))
  unfolding Printable message_batch_to_json
  message_batch_to_json-Printable [] h = tt
  message_batch_to_json-Printable (m ∷ ms) (hm, h) =
      (message_to_json-Printable m hm, message_batch_to_json-Printable ms h)

  -- The JSON of the message, which `writeMessage` prints.
  abbrev any_to_json : AnyMessage D → Value D
  any_to_json (single m) = object (message_to_json m)
  any_to_json (batch ms) = array (message_batch_to_json ms)

  -- What the reader makes of it, without the data of the errors.
  abbrev pub received_any : AnyMessage D → AnyMessage D
  received_any (single m) = single (received m)
  received_any (batch ms) = batch (map received ms)

  -- A message that the writer may be given: one that the reader of the protocol accepts, with values
  -- that parse back; a batch is not empty.
  abbrev pub IsWritable : AnyMessage D → Type 0
  IsWritable (single m) = IsSendable dec m × IsPrintable m
  IsWritable (batch ms) = All (IsSendable dec) ms × All IsPrintable ms × (ms ≢ [])

  any_to_json-Printable : (m : AnyMessage D) → IsWritable m → Printable dec (any_to_json m)
  any_to_json-Printable (single m) (hs, hp) = message_to_json-Printable m hp
  any_to_json-Printable (batch ms) (hs, hp, ne) = message_batch_to_json-Printable ms hp

  message_of-any_to_json :
      (m : AnyMessage D) → IsWritable m → message_of dec (any_to_json m) ≡ ok (received_any m)
  unfolding message_of
  message_of-any_to_json (single m) (hs, hp) = rw (message_from_json-message_to_json dec m hs) refl
  message_of-any_to_json (batch ms) (hs, hp, ne) =
      rw (message_batch_from_json-message_batch_to_json dec ms hs ne) refl

  abbrev pub content_of : AnyMessage D → Bytes
  content_of m = stringify dec false (any_to_json m)

  write_message-content :
      (m : AnyMessage D) → write_message dec m ≡ write_message_data (content_of m)
  unfolding write_message
  write_message-content (single m) = refl
  write_message-content (batch ms) = refl

  verify_content_type-default :
      (n : ℕ)
      → verify_content_type (record default_header { content_length = n }).content_type ≡ ok tt
  unfolding verify_content_type
  verify_content_type-default n = refl

  message_of_content-content_of :
      (m : AnyMessage D) (n : ℕ)
      → IsWritable m
      → message_of_content dec (record default_header { content_length = n }) (content_of m)
        ≡ ok (received_any m)
  unfolding message_of_content
  message_of_content-content_of m n h =
      ap (λ r. r >> (parse dec (content_of m) >>= message_of dec)) (verify_content_type-default n)
      ∙ ap (λ r. r >>= message_of dec)
          (parse-stringify dec false (any_to_json m) (any_to_json-Printable m h))
      ∙ message_of-any_to_json m h

  message_of_frame-content_of :
      (m : AnyMessage D) (n : ℕ) (rest : Bytes)
      → IsWritable m
      → message_of_frame dec ((record default_header { content_length = n }, content_of m), rest)
        ≡ ok (received_any m, rest)
  unfolding message_of_frame
  message_of_frame-content_of m n rest h =
      ap (λ r. r >>= λ a. ok (a, rest)) (message_of_content-content_of m n h)

  pub read_message-write_message :
      (m : AnyMessage D) (rest : Bytes)
      → IsWritable m
      → length (content_of m) < 2 ^ 64
      → read_message dec (write_message dec m ++ rest) ≡ (ok (received_any m, rest), [])
  unfolding read_message
  read_message-write_message m rest h lt =
      let n = length (content_of m) in
      ap (λ s. settle dec (read_frame (s ++ rest) >>= message_of_frame dec))
        (write_message-content m)
      ∙ ap (λ r. settle dec (r >>= message_of_frame dec))
          (read_frame-write_message_data (content_of m) rest lt)
      ∙ ap (settle dec) (message_of_frame-content_of m n rest h)
