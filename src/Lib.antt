-- ===== src/Lib.antt =====
-- A model of the C++ library lsp-framework.
--
-- The program reads and writes messages of the Language Server Protocol. A connection
-- (lsp/connection.cpp) cuts the input into messages; their content is JSON (lsp/json), which is read
-- as JSON-RPC requests and responses (lsp/jsonrpc); the message handler (lsp/messagehandler.cpp)
-- calls the handlers of requests and completes the requests that this side has sent. Document
-- addresses are URIs (lsp/uri.cpp). The types of the protocol are turned into JSON and back by templates
-- (lsp/serialization.h); their declarations are generated from a meta model (lspgen/lspgen.cpp). The bytes
-- go through sockets (lsp/io/socket.cpp) or the pipes of a child process (lsp/process.cpp).
--
-- Base holds what the other modules share: lists and strings over the native numbers, Booleans,
-- the result type, and <cctype> and <charconv> as the sources use them (Base/Chars, Base/Numbers).
-- Exceptions has the exception classes.
-- Json/Value is lsp/json/json.h; Json/Literal, Json/Print and Json/Parser are toStringLiteral and
-- fromStringLiteral, stringify, and the class Parser of lsp/json/json.cpp. The parser's pointers
-- into the value under construction are paths (Parser/Pointers), its token functions are in
-- Parser/Tokens. The doubles and what the code calls on them are a parameter, the record Decimals.
-- Json/RoundTrip is about the printer and the parser together, its children about the parts of a text.
-- Jsonrpc is lsp/jsonrpc/jsonrpc.cpp, one function for each of the source's.
-- Connection is lsp/connection.cpp: the reader with its peeked character, the frames, and the reading and
-- writing of messages. Its child Header has the functions on the header's texts. The stream is one that
-- leaves the buffer as it is at its end, as standard input does; a socket throws there. A loop over
-- characters has a number of rounds above the number of characters that are left, of which each round takes
-- one, and a loop that goes on at the end gives the outcome `hangs`.
-- Connection/Messages joins the connection with JSON-RPC, the printer and the parser.
-- MessageHandler is lsp/messagehandler.cpp as functions on a state: the two maps, the id counter,
-- the current request id, the tasks given to the pool, and what has been written. A callback is a function of
-- its arguments that changes nothing in the message handler. Its children have
-- the catch clauses (Outcomes), the wrappers that `add` makes (Callbacks), and the proofs.
-- ThreadPool is lsp/threadpool.cpp as a state machine; a sequence of actions is an interleaving of the callers
-- and the threads of the pool.
-- Uri is the class of lsp/uri.cpp with its buffer, lengths and flags; Uri/Coding the percent coding,
-- Uri/Parse the parser and the printer, Uri/View the five parts that an object stands for, Uri/Refines the calls
-- of setters and removers on an object and on its parts.
-- Serialization is lsp/serialization.h: a type is the record of its functions toJson, fromJson and
-- canDeserializeTypeFromJson (`Serializable`), a template a function from such records: Templates
-- (Nullable, optional, vector, tuple), Variants, Maps, Enumerations (lsp/enumeration.h), Structures.
-- Io has the loops that move bytes in lsp/io/socket.cpp and lsp/process.cpp; the answers of the system
-- are a list, one for each call, and Io/Sockets has the handles of sockets.
-- Process is the POSIX half of lsp/process.cpp, with the open descriptors and the children as its state; the
-- outcomes of pipe, fork, exec and waitpid are arguments.
-- Lspgen is how lspgen/lspgen.cpp reads the meta model: functions on texts (Text), the types (Types), the
-- declarations (Declarations, Readers) and the maps by name (MetaModel).
--
-- Strings are lists of bytes, each a number below 256 where that matters. An object of JSON is the
-- list of its entries in the order of insertion, where the source's map has an order of its own.
-- Loops are recursions on the text that is left. The parser's main loop runs on fuel, two steps for
-- each byte and two more (`fuel_for`). Lengths of a Uri are kept
-- modulo 2^16, ids of requests modulo 2^32. The transfers of a socket or pipe go along the list of the
-- system's answers. In Lspgen the loops over a pattern have fuel above the length of the text, each
-- round taking the pattern off, and the reading of types has fuel above the nesting of the JSON.
--
-- Not modelled: the Windows halves of lsp/process.cpp and lsp/io/socket.cpp, the name resolution, the single calls of
-- lsp/io/standardio.cpp, the events that wake threads: calls of the system. The types that lspgen
-- generates and their toJson and fromJson, which are not in the repository. The printing of C++
-- text by lspgen and its main, and the examples.
pub mod Base
pub mod Connection
pub mod Exceptions
pub mod Io
pub mod Json
pub mod Jsonrpc
pub mod Lspgen
pub mod MessageHandler
pub mod Process
pub mod Serialization
pub mod ThreadPool
pub mod Uri
