-- ===== src/Bitcoind.antt =====
-- api/internal/bitcoind/rpc.go: the errors of a call, and its retries.
use Prim.Native.String.{◌++◌ as str_append, slice, len}
use kamado_pool.Base.{
  ℕ, zero, suc, ◌+◌, ◌-◌, ◌*◌, ◌^◌, Bool, true, false, not, ◌||◌, Option, none, some, String, ◌==◌,
  leb, if◌then◌else◌,
}
use kamado_pool.Base.Text.{contains_lower}
use kamado_pool.Base.Word.{Int64}
pub mod Retries

-- An error of a call: bitcoind's own, with its code, or another one with its text.
pub data RpcError : Type 0 where
  coded : Int64 → String → RpcError
  transport : String → RpcError

pub data Result (A : Type 0) : Type 0 where
  ok : A → Result A
  err : RpcError → Result A

-- IsRPCError
unfoldable pub is_rpc_error : RpcError → Int64 → Bool
is_rpc_error (coded c _) code = c == code
is_rpc_error (transport _) code = false

-- RPCErrorMessage
unfoldable pub rpc_error_message : RpcError → String
rpc_error_message (coded _ message) = message
rpc_error_message (transport text) = text

-- The code -5: the transaction is not in the mempool.
abbrev pub not_found : Int64
not_found = 2 ^ 64 - 5

-- The code -28: bitcoind is warming up.
abbrev pub in_warmup : Int64
in_warmup = 2 ^ 64 - 28

-- the messages of bitcoind that ask for another try
unfoldable pub is_busy : String → Bool
is_busy message =
    contains_lower message "warming up"
    || contains_lower message "loading"
    || contains_lower message "verifying"
    || contains_lower message "rewinding"
    || contains_lower message "still busy"

-- the texts of other errors that ask for another try
unfoldable pub is_transient : String → Bool
is_transient text =
    contains_lower text "connection refused"
    || contains_lower text "connection reset"
    || contains_lower text "no such host"
    || contains_lower text "deadline exceeded"
    || contains_lower text "i/o timeout"
    || contains_lower text "eof"
    || contains_lower text "broken pipe"
    || contains_lower text " 502"
    || contains_lower text " 503"
    || contains_lower text " 504"

-- isRetryable, of an error
unfoldable pub is_retryable : RpcError → Bool
is_retryable (coded code message) = if code == in_warmup then true else is_busy message
is_retryable (transport text) = is_transient text

-- What net/http and encoding/json make of one request: an error of theirs, or an answer with its
-- status, its text, and the decoded envelope. The envelope holds bitcoind's error or the result,
-- decoded into the caller's type.
pub data Http (A : Type 0) : Type 0 where
  unsent : String → Http A
  unanswered : String → Http A
  unread : String → Http A
  undecoded : ℕ → String → String → Http A
  refused : Int64 → String → Http A
  misfit : String → Http A
  decoded : A → Http A

unfoldable pub truncate : String → ℕ → String
truncate s n = if leb (len s) n then s else str_append (slice s 0 n) "…"

-- callOnce; `show` prints a status
unfoldable pub call_once : {A : Type 0} → (ℕ → String) → Http A → Result A
call_once show (unsent text) = err (transport text)
call_once show (unanswered text) = err (transport (str_append "bitcoind rpc: " text))
call_once show (unread text) = err (transport (str_append "bitcoind rpc: read body: " text))
call_once show (undecoded status problem raw) = err (
    transport (
      if leb 500 status
      then str_append "bitcoind rpc: "
          (str_append (show status) (str_append ": " (truncate raw 256)))
      else str_append "bitcoind rpc: unmarshal (status " (
          str_append (show status)
            (str_append "): " (str_append problem (str_append ": " (truncate raw 256)))))))
call_once show (refused code message) = err (coded code message)
call_once show (misfit problem) = err (transport problem)
call_once show (decoded a) = ok a

-- One attempt of Call: its outcome, whether the context had ended by then, and whether it ends while
-- Call waits for the next one; `ctx_error` is the context's error.
pub record Attempt (A : Type 0) : Type 0 where
  pub outcome : Result A
  pub ended : Bool
  pub ends_in_wait : Bool

abbrev pub max_attempts : ℕ
max_attempts = 3

-- The loop of Call at one attempt, with the attempts that may follow; the number is that of the
-- attempts made.
unfoldable pub call_loop : {A : Type 0} → RpcError → (ℕ → Attempt A) → ℕ → ℕ → Result A × ℕ
call_loop ctx_error attempts attempt zero = ((attempts attempt).outcome, 1)
call_loop ctx_error attempts attempt (suc more) =
    let rest = call_loop ctx_error attempts (suc attempt) more in
    elim (attempts attempt).outcome [
      | ok a ↦ (ok a, 1)
      | err e ↦
          if not (is_retryable e) || (attempts attempt).ended
          then (err e, 1)
          else if (attempts attempt).ends_in_wait
          then (err ctx_error, 1)
          else (rest.0, rest.1 + 1)
    ]

-- Call: attempts are numbered from 1, and the last one returns whatever it got
unfoldable pub call : {A : Type 0} → RpcError → (ℕ → Attempt A) → Result A × ℕ
call ctx_error attempts = call_loop ctx_error attempts 1 (max_attempts - 1)
