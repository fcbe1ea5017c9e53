-- ===== src/Tests/Calls.antt =====
-- Requests to bitcoind and ckpool at concrete inputs.
use kamado_pool.Base.{
  ℕ, ◌+◌, ◌≡◌, refl, true, false, List, [], ◌∷◌, inl, inr, arith, map, ◌==◌, if◌then◌else◌,
}
use kamado_pool.Base.Text.{after_by, strip_by, lower}
use kamado_pool.Bitcoind.{transport, ok, err, is_retryable, is_transient, Attempt, call, call_loop}
use kamado_pool.Ckpool.{context_done, send_once, send}
use kamado_pool.Ckpool.Roundtrip.{connected, serve, send_once-serve}
use kamado_pool.Ckpool.Retry.{silent, send-silent}

-- a refused connection, then an answer
abbrev attempts : ℕ → Attempt ℕ
attempts i = record {
  outcome = if i == 1 then err (transport "connection refused") else ok 7;
  ended = false;
  ends_in_wait = false;
}

two_calls : call (transport "canceled") attempts ≡ (ok 7, 2)
unfolding call call_loop is_retryable is_transient after_by strip_by lower
two_calls = refl

-- a server that adds one to each byte
abbrev handler : List ℕ → List ℕ
handler = map (λ b. b + 1)

send_once-serve_example : send_once (connected (serve handler)) (3 ∷ 4 ∷ []) ≡ inl (4 ∷ 5 ∷ [])
send_once-serve_example =
    send_once-serve handler (3 ∷ 4 ∷ []) (λ e. absurd (ground (arith, e))) (omega arith)
      (λ e. absurd (ground (arith, e))) (omega arith)

send-silent_example :
    (send false (connected silent) (connected (serve handler)) (3 ∷ [])
      ≡ (send_once (connected (serve handler)) (3 ∷ []), 2))
    × (send true (connected silent) (connected (serve handler)) (3 ∷ []) ≡ (inr context_done, 1))
send-silent_example = send-silent (connected (serve handler)) 3 []
