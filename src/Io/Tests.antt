-- ===== src/Io/Tests.antt =====
-- The loops of lsp/io/socket.cpp on concrete transfers.
use lsp_framework.Base.{◌≡◌, [], ◌∷◌, ◌++◌, codes, ok, arith}
use lsp_framework.Io.{moved, interrupted, socket_read, socket_write}
use lsp_framework.Io.Whole.{socket_read-socket_write}

socket_read-socket_write_example :
    (socket_write (moved 1 ∷ interrupted ∷ moved 0 ∷ moved 5 ∷ []) (codes "abc") []
      ≡ ok (codes "abc"))
    × (socket_read (interrupted ∷ moved 0 ∷ moved 0 ∷ moved 9 ∷ []) 3 (codes "abc" ++ codes "de")
        ≡ ok (codes "abc", codes "de"))
socket_read-socket_write_example =
    socket_read-socket_write (moved 1 ∷ interrupted ∷ moved 0 ∷ moved 5 ∷ [])
      (interrupted ∷ moved 0 ∷ moved 0 ∷ moved 9 ∷ []) (codes "abc") (codes "de")
      (tt, (tt, (tt, (tt, tt)))) (tt, (tt, (tt, (tt, tt)))) (omega arith) (omega arith)
      (omega arith)
