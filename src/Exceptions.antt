-- ===== src/Exceptions.antt =====
-- The exceptions of lsp/exception.h, lsp/json/json.h, lsp/jsonrpc/jsonrpc.h and lsp/connection.h,
-- with the text of `what()`.
use lsp_framework.Base.{ℕ, Bytes, Result}

pub data Exception : Type 0 where
  type_error : Bytes → Exception
  parse_error : Bytes → ℕ → Exception
  protocol_error : Bytes → Exception
  connection_error : Bytes → Exception
  -- An exception of the standard library, of a stream or of a callback.
  std_exception : Bytes → Exception
  -- No exceptions of the program: it does not end; a loop of the model has used up its fuel.
  hangs : Exception
  out_of_fuel : Exception

abbrev pub Throws : Type 0 → Type 0
Throws A = Result Exception A
