-- ===== src/Io.antt =====
-- lsp/io/socket.cpp and the stream of lsp/process.cpp on POSIX: the loops over the calls of the operating system.
-- A list of `Transfer` says how the system answers one call after the other.
pub mod Sockets
pub mod Whole
mod Tests
use lsp_framework.Base.{
  ℕ, zero, suc, ◌+◌, ◌-◌, ◌%◌, ◌^◌, Bool, true, false, Option, none, some, List, [], ◌∷◌, ◌++◌,
  Bytes, codes, ◌==◌, if◌then◌else◌, length, take, drop, ok, err, min,
}
use lsp_framework.Base.Chars.{to_string_unsigned}
use lsp_framework.Exceptions.{Exception, Throws, std_exception, out_of_fuel}

-- The outcome of a call of recv, send, read or write: some bytes, at most n + 1, are moved; the other side has
-- closed; the call was interrupted by a signal (EINTR); it failed with another error number.
pub data Transfer : Type 0 where
  moved : ℕ → Transfer
  closed : Transfer
  interrupted : Transfer
  failed : ℕ → Transfer

abbrev pub throw_error : Bytes → ℕ → Exception
throw_error what errno = std_exception (what ++ (codes ": " ++ to_string_unsigned errno))

-- The error number that is there when a call has returned 0.
abbrev pub read_failed : ℕ → Exception
read_failed = throw_error (codes "Failed to read from socket")

abbrev pub write_failed : ℕ → Exception
write_failed = throw_error (codes "Failed to write to socket")

-- The loop of `Socket::Impl::read`: how many bytes are wanted, what comes in, and what was read. A system that has
-- no answer left leaves the caller waiting.
unfoldable pub receive : List Transfer → ℕ → Bytes → Bytes → Throws (Bytes × Bytes)
receive ts zero incoming buffer = ok (buffer, incoming)
receive [] (suc n) incoming buffer = err out_of_fuel
receive (moved k ∷ ts) (suc n) incoming buffer =
    let got = take (suc (min k n)) incoming in
    let rest = receive ts (suc n - length got) (drop (suc (min k n)) incoming) (buffer ++ got) in
    if length got == 0 then err (read_failed 0) else rest
receive (closed ∷ ts) (suc n) incoming buffer = err (read_failed 0)
receive (interrupted ∷ ts) (suc n) incoming buffer = receive ts (suc n) incoming buffer
receive (failed e ∷ ts) (suc n) incoming buffer = err (read_failed e)

-- `Socket::Impl::read`; `socklen_t` has 32 bits.
unfoldable pub socket_read : List Transfer → ℕ → Bytes → Throws (Bytes × Bytes)
socket_read ts size incoming =
    if size == 0 then ok ([], incoming) else receive ts (size % 2 ^ 32) incoming []

-- The loop of `Socket::Impl::write`: what is still to be sent, and what has gone out.
unfoldable pub send_all : List Transfer → Bytes → Bytes → Throws Bytes
send_all ts [] wire = ok wire
send_all [] (c ∷ s) wire = err out_of_fuel
send_all (moved k ∷ ts) (c ∷ s) wire = send_all ts (drop k s) (wire ++ c ∷ take k s)
send_all (closed ∷ ts) (c ∷ s) wire = err (write_failed 0)
send_all (interrupted ∷ ts) (c ∷ s) wire = send_all ts (c ∷ s) wire
send_all (failed e ∷ ts) (c ∷ s) wire = err (write_failed e)

-- `Socket::Impl::write`: what has gone out at the end.
unfoldable pub socket_write : List Transfer → Bytes → Bytes → Throws Bytes
socket_write ts buffer wire =
    if length buffer == 0 then ok wire else send_all ts (take (length buffer % 2 ^ 32) buffer) wire

-- The loop of `Process::Impl::read`. The end of the input, where `read` gives 0 bytes, does not end it.
unfoldable pub process_read : List Transfer → ℕ → Bytes → Bytes → Throws (Bytes × Bytes)
process_read ts zero incoming buffer = ok (buffer, incoming)
process_read [] (suc n) incoming buffer = err out_of_fuel
process_read (moved k ∷ ts) (suc n) incoming buffer =
    let got = take (suc (min k n)) incoming in
    process_read ts (suc n - length got) (drop (suc (min k n)) incoming) (buffer ++ got)
process_read (closed ∷ ts) (suc n) incoming buffer = process_read ts (suc n) incoming buffer
process_read (interrupted ∷ ts) (suc n) incoming buffer = process_read ts (suc n) incoming buffer
process_read (failed e ∷ ts) (suc n) incoming buffer =
    err (throw_error (codes "Failed to read from process stdout") e)

unfoldable pub process_write : List Transfer → Bytes → Bytes → Throws Bytes
process_write ts [] wire = ok wire
process_write [] (c ∷ s) wire = err out_of_fuel
process_write (moved k ∷ ts) (c ∷ s) wire = process_write ts (drop k s) (wire ++ c ∷ take k s)
process_write (closed ∷ ts) (c ∷ s) wire = process_write ts (c ∷ s) wire
process_write (interrupted ∷ ts) (c ∷ s) wire = process_write ts (c ∷ s) wire
process_write (failed e ∷ ts) (c ∷ s) wire =
    err (throw_error (codes "Failed to write to process stdin") e)
