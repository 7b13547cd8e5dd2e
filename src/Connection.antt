-- ===== src/Connection.antt =====
-- lsp/connection.h and lsp/connection.cpp: the frames of messages on a stream. The stream is the
-- sequence of the bytes that it still gives; at its end a read leaves the buffer as it is, as
-- lsp/io/standardio.cpp does; a socket throws there. `char` is a byte here, so the character -1 is 255.
pub mod Header
pub mod Lines
pub mod Fields
pub mod Frames
pub mod Messages
mod Tests
use lsp_framework.Base.{
  ℕ, zero, suc, ◌+◌, ◌-◌, Bool, true, false, not, ◌||◌, Option, none, some, List, [], ◌∷◌, ◌++◌,
  Bytes, codes, ltb, ◌==◌, if◌then◌else◌, length, take, drop, Result, ok, err, ◌>>=◌, ◌>>◌, ℤ,
}
use lsp_framework.Base.Chars.{to_string_unsigned}
use lsp_framework.Exceptions.{
  Exception, Throws, type_error, parse_error, protocol_error, connection_error, std_exception,
  hangs, out_of_fuel,
}
use lsp_framework.Json.Value.{Value, Decimals, array, object}
use lsp_framework.Json.Print.{stringify}
use lsp_framework.Json.Parser.{parse}
use lsp_framework.Jsonrpc.{
  Message, Response, null_id, response, message_from_json, message_batch_from_json, message_to_json,
  message_batch_to_json, create_error_response, error_code_parse_error, error_code_invalid_request,
}
use lsp_framework.Connection.Header.{
  MessageHeader, default_header, parse_header_value, verify_content_type,
}

abbrev pub carriage_return : ℕ
carriage_return = 13

abbrev pub newline : ℕ
newline = 10

-- io::Stream::Eof
abbrev pub eof : ℕ
eof = 255

pub record InputReader : Type 0 where
  -- What the stream still gives, and `m_peek`.
  pub stream : Bytes
  pub peeked : Option ℕ

abbrev pub input_reader : Bytes → InputReader
input_reader s = record { stream = s; peeked = none }

abbrev pub read_char : Bytes → ℕ × InputReader
read_char [] = (eof, input_reader [])
read_char (c ∷ s) = (c, input_reader s)

unfoldable pub get : InputReader → ℕ × InputReader
get r = elim r.peeked [ none ↦ read_char r.stream | some c ↦ (c, record r { peeked = none }) ]

abbrev pub hold : ℕ × InputReader → ℕ × InputReader
hold (c, r) = (c, record r { peeked = some c })

unfoldable pub peek : InputReader → ℕ × InputReader
unfolding get
peek r = elim r.peeked [ none ↦ hold (get r) | some c ↦ (c, r) ]

-- `read` into a buffer of `size` null characters: the buffer, and the reader afterwards.
abbrev pub padded : ℕ → Bytes → Bytes
padded zero s = []
padded (suc n) [] = 0 ∷ padded n []
padded (suc n) (c ∷ s) = c ∷ padded n s

unfoldable pub read : ℕ → InputReader → Bytes × InputReader
read zero r = ([], r)
read (suc n) r = elim r.peeked [
  | none ↦ (padded (suc n) r.stream, input_reader (drop (suc n) r.stream))
  | some c ↦ (c ∷ padded n r.stream, input_reader (drop n r.stream))
]

-- The loop of `readNextMessageHeaderField`, for a number of rounds. When the stream has ended, each round appends
-- the character -1.
unfoldable pub read_line : ℕ → Bytes → InputReader → Throws (Bytes × InputReader)
unfolding peek get
read_line zero line r = err hangs
read_line (suc fuel) line r =
    let (c, r') = peek r in
    let (d, r'') = get r' in
    let rest = read_line fuel (line ++ d ∷ []) r'' in
    if c == carriage_return
    then ok (line, r')
    else if d == newline
    then err
        (connection_error (codes "Protocol: Unexpected '\\n' in header field, expected '\\r\\n'"))
    else rest

-- The characters "\r\n" at the end of a field, or of the header, with the message if they are missing.
unfoldable pub expect_line_end : Bytes → InputReader → Throws InputReader
unfolding get
expect_line_end what r =
    let (c, r') = get r in
    let (d, r'') = get r' in
    if not (c == carriage_return) || not (d == newline) then err (connection_error what) else ok r''

-- Above the number of characters that are left.
abbrev pub line_fuel : InputReader → ℕ
line_fuel r = suc (suc (length r.stream))

-- What follows the loop over a line.
abbrev pub field_after_line :
    MessageHeader → Bytes × InputReader → Throws (MessageHeader × InputReader)
unfolding expect_line_end parse_header_value
field_after_line header (line, r) = do
  header' ← parse_header_value header line
  r' ← expect_line_end (codes "Protocol: Expected header field to be terminated by '\\r\\n'") r
  ok (header', r')

unfoldable pub read_next_message_header_field :
    MessageHeader → InputReader → Throws (MessageHeader × InputReader)
unfolding peek read_line expect_line_end parse_header_value
read_next_message_header_field header r =
    let (c, r1) = peek r in
    if c == eof
    then err (connection_error (codes "Connection lost"))
    else read_line (line_fuel r1) [] r1 >>= field_after_line header

-- The loop of `readMessageHeader`; each round takes at least two characters.
unfoldable pub read_header_fields :
    ℕ → MessageHeader → InputReader → Throws (MessageHeader × InputReader)
unfolding peek read_next_message_header_field
read_header_fields zero header r = err out_of_fuel
read_header_fields (suc fuel) header r =
    let (c, r') = peek r in
    if c == carriage_return then ok (header, r') else do
      (header', r'') ← read_next_message_header_field header r'
      read_header_fields fuel header' r''

unfoldable pub read_message_header : InputReader → Throws (MessageHeader × InputReader)
unfolding read_header_fields expect_line_end
read_message_header r = do
  (header, r') ← read_header_fields (line_fuel r) default_header r
  r'' ← expect_line_end (codes "Protocol: Expected header to be terminated by '\\r\\n'") r'
  ok (header, r'')

abbrev pub read_content : MessageHeader × InputReader → Throws ((MessageHeader × Bytes) × Bytes)
unfolding read
read_content (header, r) =
    let (content, r') = read header.content_length r in ok ((header, content), r'.stream)

-- The part of `readMessage` that holds the lock: the header and the content.
unfoldable pub read_frame : Bytes → Throws ((MessageHeader × Bytes) × Bytes)
unfolding peek read read_message_header
read_frame s =
    let (c, r) = peek (input_reader s) in
    if c == eof
    then err (connection_error (codes "Connection lost"))
    else read_message_header r >>= read_content

unfoldable pub message_header_string : MessageHeader → Bytes
message_header_string header =
    codes "Content-Length: "
    ++ (to_string_unsigned header.content_length
        ++ (carriage_return
            ∷ newline
            ∷ (codes "Content-Type: "
                ++ (header.content_type
                    ++ carriage_return ∷ newline ∷ carriage_return ∷ newline ∷ []))))

-- `writeMessageData`: what goes to the stream.
unfoldable pub write_message_data : Bytes → Bytes
unfolding message_header_string
write_message_data content =
    message_header_string (record default_header { content_length = length content }) ++ content

-- `Connection::Message`
pub data AnyMessage (D : Type 0) : Type 0 where
  single : Message D → AnyMessage D
  batch : List (Message D) → AnyMessage D

module _ {D : Type 0} (dec : Decimals D) where
  abbrev pub message_of : Value D → Throws (AnyMessage D)
  unfolding message_from_json message_batch_from_json
  message_of (object json) = do m ← message_from_json dec json; ok (single m)
  message_of (array json) = do ms ← message_batch_from_json dec json; ok (batch ms)
  message_of _ = err (protocol_error (codes "Message must be a json object or array"))

  -- The part of `readMessage` behind the lock.
  unfoldable pub message_of_content : MessageHeader → Bytes → Throws (AnyMessage D)
  unfolding verify_content_type parse message_of
  message_of_content header content = do
    verify_content_type header.content_type
    json ← parse dec content
    message_of json

  -- The `catch` clauses of `readMessage`: what is thrown on, and the response that is written before.
  abbrev pub caught : Exception → Exception × Option (Response D)
  caught (parse_error what at) =
      (parse_error what at, some (create_error_response null_id error_code_parse_error what none))
  caught (protocol_error what) = (
    protocol_error what,
    some (create_error_response null_id error_code_invalid_request what none),
  )
  caught (connection_error what) = (connection_error what, none)
  caught (type_error what) = (connection_error what, none)
  caught (std_exception what) = (connection_error what, none)
  caught hangs = (hangs, none)
  caught out_of_fuel = (out_of_fuel, none)

  -- `writeMessage`: what goes to the stream.
  unfoldable pub write_message : AnyMessage D → Bytes
  unfolding stringify message_to_json message_batch_to_json write_message_data
  write_message (single m) = write_message_data (stringify dec false (object (message_to_json m)))
  write_message (batch ms) =
      write_message_data (stringify dec false (array (message_batch_to_json ms)))

  abbrev pub write_reply : Option (Response D) → Bytes
  unfolding write_message
  write_reply none = []
  write_reply (some r) = write_message (single (response r))

  -- What the `catch` clauses make of the outcome, and what is written to the stream.
  unfoldable pub settle : Throws (AnyMessage D × Bytes) → Throws (AnyMessage D × Bytes) × Bytes
  unfolding write_reply
  settle (ok result) = (ok result, [])
  settle (err e) = let (thrown, reply) = caught e in (err thrown, write_reply reply)

  -- The message in a frame, with what the stream gives behind it.
  unfoldable pub message_of_frame : (MessageHeader × Bytes) × Bytes → Throws (AnyMessage D × Bytes)
  unfolding message_of_content
  message_of_frame ((header, content), rest) = do
    m ← message_of_content header content
    ok (m, rest)

  -- `readMessage` on what the stream gives: the message and what is left, or an exception, and what is
  -- written to the stream.
  unfoldable pub read_message : Bytes → Throws (AnyMessage D × Bytes) × Bytes
  unfolding read_frame message_of_frame settle
  read_message s = settle (read_frame s >>= message_of_frame)
