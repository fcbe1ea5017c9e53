-- ===== src/Bitcoind/Retries.antt =====
-- How often Call asks bitcoind, and with what it returns.
use kamado_pool.Base.{ℕ, ◌+◌, ◌-◌, ◌^◌, ◌<◌, ◌≡◌, ◌⊎◌, true, false, List, [], ◌∷◌, String}
use kamado_pool.Base.Contains.{HoldsOne}
use kamado_pool.Bitcoind.{RpcError, coded, transport, Result, ok, err, Attempt}

-- What bitcoind says while it starts.
abbrev busy_phrases : List String
busy_phrases = "warming up" ∷ "loading" ∷ "verifying" ∷ "rewinding" ∷ "still busy" ∷ []

-- What the errors of a connection and of a proxy say.
abbrev transient_phrases : List String
transient_phrases =
    "connection refused" ∷ "connection reset" ∷ "no such host" ∷ "deadline exceeded" ∷ "i/o timeout"
    ∷ "eof" ∷ "broken pipe" ∷ " 502" ∷ " 503" ∷ " 504" ∷ []

-- An error that asks for another try: bitcoind's, with the code of its warm-up or with one of the
-- phrases in its message, or another one whose text has one of the other phrases, in letters of any
-- case.
abbrev pub AsksAgain : RpcError → Type 0
AsksAgain (coded c message) = (c ≡ 2 ^ 64 - 28) ⊎ HoldsOne busy_phrases message
AsksAgain (transport text) = HoldsOne transient_phrases text

-- An attempt after which Call makes another one.
pub record IsRepeated {A : Type 0} (a : Attempt A) : Type 0 where
  pub error : RpcError
  pub failed : a.outcome ≡ err error
  pub asks : AsksAgain error
  pub alive : a.ended ≡ false
  pub waited : a.ends_in_wait ≡ false

-- What Call returns after an attempt: an answer; an error that does not ask for another try; any error
-- when the context has ended; the context's error when it ends in the wait for another try; and what
-- the attempt got, if there are no more.
pub data IsEnd {A : Type 0} (ctx_error : RpcError) (a : Attempt A) (more : ℕ) (r : Result A)
    : Type 0 where
  answered : (x : A) → a.outcome ≡ ok x → r ≡ ok x → IsEnd ctx_error a more r
  definite :
      (e : RpcError) → a.outcome ≡ err e → ¬ AsksAgain e → r ≡ err e → IsEnd ctx_error a more r
  cancelled :
      (e : RpcError) → a.outcome ≡ err e → a.ended ≡ true → r ≡ err e → IsEnd ctx_error a more r
  stopped :
      (e : RpcError)
      → a.outcome ≡ err e
      → AsksAgain e
      → a.ended ≡ false
      → a.ends_in_wait ≡ true
      → 0 < more
      → r ≡ err ctx_error
      → IsEnd ctx_error a more r
  exhausted : more ≡ 0 → r ≡ a.outcome → IsEnd ctx_error a more r

-- A run of the attempts from the k-th on, of which `more` may follow it: all but the last one are
-- repeated, and the last one ends it.
pub record IsCourse {A : Type 0} (ctx_error : RpcError) (attempts : ℕ → Attempt A) (k more : ℕ)
    (r : Result A × ℕ) : Type 0 where
  -- the number of repeated attempts, and of those left after the last one
  pub repeats : ℕ
  pub left : ℕ
  pub made : r.1 ≡ repeats + 1
  pub within : repeats + left ≡ more
  pub repeated : (i : ℕ) → i < repeats → IsRepeated (attempts (k + i))
  pub ended : IsEnd ctx_error (attempts (k + repeats)) left r.0
