-- ===== src/Io/Sockets.antt =====
-- `Socket` and `SocketListener` of lsp/io/socket.cpp on POSIX: the handles that are made and closed. The state of
-- a socket is its handle, and `closed` are the handles that were shut down and closed, the last first.
use lsp_framework.Base.{ℕ, Bool, true, false, Option, none, some, List, [], ◌∷◌, codes, ok, err}
use lsp_framework.Exceptions.{Throws, std_exception}
use lsp_framework.Io.{throw_error}

-- What happens to one of the resolved addresses: no socket, a socket that is not connected, or one that is.
pub data Attempt : Type 0 where
  no_socket : Attempt
  refused : ℕ → Attempt
  accepted : ℕ → Attempt

-- The loop of `Socket::Impl::connect`: the handle of the socket, or an exception, and the closed handles. `errno` is the
-- error number at the end.
unfoldable pub connect : ℕ → List Attempt → List ℕ → Throws ℕ × List ℕ
connect errno [] closed =
    (err (throw_error (codes "Failed to connect to any resolved address") errno), closed)
connect errno (no_socket ∷ rest) closed = connect errno rest closed
connect errno (accepted h ∷ rest) closed = (ok h, closed)
connect errno (refused h ∷ rest) closed = connect errno rest (h ∷ closed)

-- The outcome of `bind`, `listen` or `accept`: what it gives, or an error number.
abbrev pub Outcome : Type 0 → Type 0
Outcome A = Option A × ℕ

-- `Socket::Impl::setupForListen`, on the outcomes of `socket` and of `bind`.
unfoldable pub setup_for_listen : Outcome ℕ → Outcome Unit → List ℕ → Throws ℕ × List ℕ
setup_for_listen (none, errno) bound closed =
    (err (throw_error (codes "Failed to create socket") errno), closed)
setup_for_listen (some h, e) (some b, e') closed = (ok h, closed)
setup_for_listen (some h, e) (none, errno) closed =
    (err (throw_error (codes "Failed to bind socket address") errno), h ∷ closed)

-- `Socket::Impl::listen`, on the outcomes of `listen` and of `accept`.
unfoldable pub accept_connection : Outcome Unit → Outcome ℕ → Throws ℕ
accept_connection (none, errno) other =
    err (throw_error (codes "Failed to listen for new socket connections") errno)
accept_connection (some u, e) (none, errno) =
    err (throw_error (codes "Failed to accept socket connection") errno)
accept_connection (some u, e) (some h, e') = ok h

abbrev pub is_open : Option ℕ → Bool
is_open none = false
is_open (some h) = true

-- `SocketListener::listen`
unfoldable pub listen : Option ℕ → Outcome Unit → Outcome ℕ → Throws ℕ
listen none listening other = err (std_exception (codes "Server socket is not open for listening"))
listen (some h) listening other = accept_connection listening other

-- `Socket::close`, and the destructor.
unfoldable pub close_socket : Option ℕ → List ℕ → Option ℕ × List ℕ
close_socket none closed = (none, closed)
close_socket (some h) closed = (none, h ∷ closed)
