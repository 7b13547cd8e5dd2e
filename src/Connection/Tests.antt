-- ===== src/Connection/Tests.antt =====
-- The frames of lsp/connection.cpp on concrete texts.
use lsp_framework.Base.{not, ℤ, pos, [], some, ◌<◌, ◌^◌, length, ◌≡◌, refl, ◌++◌, codes, ok, arith}
use lsp_framework.Json.Value.{Decimals, invalid_argument, integer, array, cons, nil}
use lsp_framework.Json.Print.{stringify, print, get_indent}
use lsp_framework.Json.Literal.{to_string_literal}
use lsp_framework.Base.Chars.{to_string}
use lsp_framework.Json.RoundTrip.{Printable}
use lsp_framework.Jsonrpc.{request, create_request, integer_id, message_to_json}
use lsp_framework.Connection.Messages.{IsWritable, content_of, read_message-write_message}
use lsp_framework.Connection.{
  read_line, input_reader, AnyMessage, single, read_message, write_message, read_frame,
  write_message_data,
}
use lsp_framework.Connection.Header.{default_header}
use lsp_framework.Connection.Frames.{
  read_frame-write_message_data, read_line-still_runs, still_runs, has_line_end,
}

read_frame-write_message_data_example :
    read_frame (write_message_data (codes "[1]") ++ codes "Content")
    ≡ ok ((record default_header { content_length = 3 }, codes "[1]"), codes "Content")
read_frame-write_message_data_example =
    read_frame-write_message_data (codes "[1]") (codes "Content") (omega arith)

-- A stream that ends inside a line: the loop still runs after a hundred rounds.
read_line-still_runs_example :
    still_runs (read_line 100 [] (input_reader (codes "Conte")))
    ≡ not (has_line_end (codes "Conte"))
read_line-still_runs_example = read_line-still_runs 100 (codes "Conte") [] (omega arith)

-- `double` is a type that holds every integer.
abbrev whole : Decimals ℤ
whole = record {
  stod = λ s. invalid_argument;
  to_string = λ d. [];
  of_int = λ i. i;
  to_int = λ d. d;
}

abbrev call : AnyMessage ℤ
call = single (
    request
      (create_request (integer_id (pos 7)) (codes "f") (some (array (cons (integer (pos 1)) nil)))))

call-IsWritable : IsWritable whole call
unfolding Printable
call-IsWritable = ((refl, tt), (omega arith, (omega arith, tt)))

content_short : length (content_of whole call) < 2 ^ 64
content_short =
    unfold stringify print message_to_json get_indent to_string_literal to_string in omega arith

read_message-write_message_example :
    read_message whole (write_message whole call ++ codes "Content")
    ≡ (ok (call, codes "Content"), [])
read_message-write_message_example =
    read_message-write_message whole call (codes "Content") call-IsWritable content_short
