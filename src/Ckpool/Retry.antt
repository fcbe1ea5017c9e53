-- ===== src/Ckpool/Retry.antt =====
-- When Send opens a second connection.
use kamado_pool.Base.{ℕ, ◌≡◌, true, false, List, [], ◌∷◌, inr, arith}
use kamado_pool.Ckpool.{
  Peer, Socket, context_done, length_unread, eof, send_once, is_eof, send, receive, read_full,
}
use kamado_pool.Ckpool.Roundtrip.{connected}

-- A server that accepts the request and closes without an answer, as ckpool does while it warms up.
abbrev pub silent : List ℕ → Peer
silent _ = record { bytes = []; closes = true }

send_once-silent :
    (x : ℕ) (cmd : List ℕ) → send_once (connected silent) (x ∷ cmd) ≡ inr (length_unread eof)
unfolding send_once receive read_full
send_once-silent x cmd = ground arith

-- A server that closes without an answer is asked exactly once more, on a new connection, and Send
-- returns what that one gives; if the context ends in the wait, Send returns its error instead.
pub send-silent :
    (second : Socket) (x : ℕ) (cmd : List ℕ)
    → (send false (connected silent) second (x ∷ cmd) ≡ (send_once second (x ∷ cmd), 2))
      × (send true (connected silent) second (x ∷ cmd) ≡ (inr context_done, 1))
unfolding send is_eof
send-silent second x cmd = let e = send_once-silent x cmd in (ground arith, ground arith)
