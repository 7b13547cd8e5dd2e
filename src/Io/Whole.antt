-- ===== src/Io/Whole.antt =====
-- The loops of lsp/io/socket.cpp and lsp/process.cpp move every byte once and in order, however the system cuts
-- and interrupts the transfer.
use lsp_framework.Base.{
  ℕ, zero, suc, ◌-◌, ◌%◌, ◌^◌, ◌<◌, ◌≤◌, ◌≡◌, refl, ap, ◌∙◌, false, List, [], ◌∷◌, ◌++◌, Bytes, All,
  length, take, drop, min, ok, err, append_assoc, append-nil, arith, ◌==◌, length-drop, length-take,
  take-append-drop, take-length,
}
use lsp_framework.Exceptions.{out_of_fuel}
use lsp_framework.Io.{
  Transfer, moved, closed, interrupted, failed, receive, socket_read, send_all, socket_write,
  process_read,
}

-- Some bytes are moved, or the call is made again.
abbrev pub Progresses : Transfer → Type 0
Progresses (moved k) = Unit
Progresses interrupted = Unit
Progresses _ = ⊥

-- How many of the calls move bytes.
abbrev pub moves : List Transfer → ℕ
moves [] = 0
moves (moved k ∷ ts) = suc (moves ts)
moves (_ ∷ ts) = moves ts

pub send_all-append :
    (ts : List Transfer) (s wire : Bytes)
    → All Progresses ts
    → length s ≤ moves ts
    → send_all ts s wire ≡ ok (wire ++ s)
unfolding send_all
send_all-append ts [] wire h enough = rw append-nil refl
send_all-append [] (c ∷ s) wire h enough = absurd (omega arith)
send_all-append (moved k ∷ ts) (c ∷ s) wire (hk, h) enough =
    send_all-append ts (drop k s) (wire ++ c ∷ take k s) h (omega (arith, length-drop k s))
    ∙ ap ok (
        append_assoc wire (c ∷ take k s) (drop k s)
        ∙ ap (λ t. wire ++ c ∷ t) (take-append-drop k s))
send_all-append (interrupted ∷ ts) (c ∷ s) wire (hk, h) enough =
    send_all-append ts (c ∷ s) wire h enough
send_all-append (closed ∷ ts) (c ∷ s) wire (hk, h) enough = absurd hk
send_all-append (failed e ∷ ts) (c ∷ s) wire (hk, h) enough = absurd hk

take-append_le : (j : ℕ) (s rest : Bytes) → j ≤ length s → take j (s ++ rest) ≡ take j s
take-append_le zero s rest h = refl
take-append_le (suc j) [] rest h = absurd (omega arith)
take-append_le (suc j) (c ∷ s) rest h = ap (λ t. c ∷ t) (take-append_le j s rest (omega arith))

drop-append_le : (j : ℕ) (s rest : Bytes) → j ≤ length s → drop j (s ++ rest) ≡ drop j s ++ rest
drop-append_le zero s rest h = refl
drop-append_le (suc j) [] rest h = absurd (omega arith)
drop-append_le (suc j) (c ∷ s) rest h = drop-append_le j s rest (omega arith)

suc_eq_zero : (n : ℕ) → suc n == 0 ≡ false
suc_eq_zero n = ground arith

left_over :
    (j : ℕ) (s : Bytes)
    → j ≤ length s
    → suc (length s) - suc (length (take j s)) ≡ length (drop j s)
left_over j s h = omega (arith, length-take j s, length-drop j s)

pub receive-append :
    (ts : List Transfer) (s rest buffer : Bytes)
    → All Progresses ts
    → length s ≤ moves ts
    → receive ts (length s) (s ++ rest) buffer ≡ ok (buffer ++ s, rest)
unfolding receive
receive-append ts [] rest buffer h enough = rw append-nil refl
receive-append [] (c ∷ s) rest buffer h enough = absurd (omega arith)
receive-append (moved k ∷ ts) (c ∷ s) rest buffer (hk, h) enough =
    let j = min k (length s) in
    let within : j ≤ length s = omega arith in
    rw
      (
        take-append_le j s rest within,
        drop-append_le j s rest within,
        suc_eq_zero (length (take j s)),
        left_over j s within,
      )
      (receive-append ts (drop j s) rest (buffer ++ c ∷ take j s) h (omega (arith, length-drop j s))
        ∙ ap (λ t. ok (t, rest))
            (append_assoc buffer (c ∷ take j s) (drop j s)
              ∙ ap (λ t. buffer ++ c ∷ t) (take-append-drop j s)))
receive-append (interrupted ∷ ts) (c ∷ s) rest buffer (hk, h) enough =
    receive-append ts (c ∷ s) rest buffer h enough
receive-append (closed ∷ ts) (c ∷ s) rest buffer (hk, h) enough = absurd hk
receive-append (failed e ∷ ts) (c ∷ s) rest buffer (hk, h) enough = absurd hk

-- What one side writes to a socket, the other side reads, and no byte behind it, however the system cuts and interrupts the two
-- transfers, if as many calls as there are bytes move some, and the data are shorter than 2^32 bytes.
pub socket_read-socket_write :
    (sent received : List Transfer) (s rest : Bytes)
    → All Progresses sent
    → All Progresses received
    → length s ≤ moves sent
    → length s ≤ moves received
    → length s < 2 ^ 32
    → (socket_write sent s [] ≡ ok s) × (socket_read received (length s) (s ++ rest) ≡ ok (s, rest))
unfolding socket_write socket_read
socket_read-socket_write sent received [] rest hs hr es er short = (refl, refl)
socket_read-socket_write sent received (c ∷ s) rest hs hr es er short =
    let size : suc (length s) % 2 ^ 32 ≡ suc (length s) = omega arith in
    (
      rw (suc_eq_zero (length s), size, take-length s) (send_all-append sent (c ∷ s) [] hs es),
      rw (suc_eq_zero (length s), size) (receive-append received (c ∷ s) rest [] hr er),
    )

-- A process that has closed its output, so that every call of `read` gives 0 bytes, is read for ever.
process_read-closed :
    (ts : List Transfer) (n : ℕ) (incoming buffer : Bytes)
    → All (λ t. t ≡ closed) ts
    → process_read ts (suc n) incoming buffer ≡ err out_of_fuel
unfolding process_read
process_read-closed [] n incoming buffer h = refl
process_read-closed (t ∷ ts) n incoming buffer (e, h) =
    rw e (process_read-closed ts n incoming buffer h)
