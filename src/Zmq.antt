-- ===== src/Zmq.antt =====
-- api/internal/zmqmon/zmqmon.go: the subscription to bitcoind's hashblock topic. The library zmq4
-- enters as what happens in each session.
use Prim.Native.Char.{Char, code}
use Prim.Native.String.{String}
use kamado_pool.Base.{
  ◌≡◌, refl, sym, ℕ, zero, suc, ◌*◌, ◌/◌, ◌%◌, ◌^◌, Bool, true, false, not, ◌&&◌, List, [], ◌∷◌,
  ltb, ◌==◌, if◌then◌else◌, length, All, str_eq, Bool-cases, inl, inr, arith,
}
use mathlib.Core.Path.{subst}
use kamado_pool.Base.Time.{Time, second}
use kamado_pool.Base.Decimal.{digit_char}
use kamado_pool.Logmon.Tail.{offer}

pub record TipEvent : Type 0 where
  pub hash : String
  pub seen_at : Time

-- Monitor: its endpoint, and what its channel holds
pub record Monitor : Type 0 where
  pub endpoint : String
  pub events : List TipEvent

unfoldable pub new_monitor : String → Monitor
new_monitor endpoint = record { endpoint = endpoint; events = [] }

abbrev pub Bytes : Type 0
Bytes = List ℕ

-- A message that Recv returned, the time, and whether the `select` takes ctx.Done.
pub record Message : Type 0 where
  pub frames : List Bytes
  pub now : Time
  pub is_done : Bool

-- A session: Dial or SetOption fails, or messages come until Recv fails, with ctx ended or not.
pub data Session : Type 0 where
  dial_failed subscribe_failed : Session
  connected : List Message → Bool → Session

-- hex.EncodeToString
unfoldable pub hex_char : ℕ → Char
hex_char n =
    if ltb n 10
    then digit_char n
    else if n == 10
    then "a"
    else if n == 11
    then "b"
    else if n == 12
    then "c"
    else if n == 13
    then "d"
    else if n == 14
    then "e"
    else "f"

unfoldable pub encode_to_string : Bytes → String
unfolding hex_char
encode_to_string [] = ""
encode_to_string (b ∷ bs) =
    String.◌∷◌ (hex_char (b / 16)) (String.◌∷◌ (hex_char (b % 16)) (encode_to_string bs))

-- string(b) == s
unfoldable pub is_text : Bytes → String → Bool
is_text [] String.[] = true
is_text [] (String.◌∷◌ c s) = false
is_text (b ∷ bs) String.[] = false
is_text (b ∷ bs) (String.◌∷◌ c s) = b == code c && is_text bs s

-- the body of a message of the topic, in hexadecimal
unfoldable pub tip_hash : List Bytes → List String
tip_hash (topic ∷ body ∷ _) = if is_text topic "hashblock" then encode_to_string body ∷ [] else []
tip_hash _ = []

-- runOnce after the subscription; the flag is `err != nil`
unfoldable pub receive_all : List Message → Bool → Monitor → Monitor × Bool
receive_all [] is_cancelled m = (m, not is_cancelled)
receive_all (msg ∷ msgs) is_cancelled m = elim (tip_hash msg.frames) [
  | [] ↦ receive_all msgs is_cancelled m
  | hash ∷ _ ↦
      let event : TipEvent = record { hash = hash; seen_at = msg.now } in
      let later = receive_all msgs is_cancelled (record m { events = offer 16 event m.events }) in
      if msg.is_done then (m, false) else later
]

unfoldable pub run_once : Session → Monitor → Monitor × Bool
run_once dial_failed m = (m, true)
run_once subscribe_failed m = (m, true)
run_once (connected msgs is_cancelled) m = receive_all msgs is_cancelled m

-- backoff after a wait
unfoldable pub next_backoff : ℕ → ℕ
next_backoff backoff =
    if ltb backoff (30 * second)
    then (if ltb (30 * second) (backoff * 2) then 30 * second else backoff * 2)
    else backoff

-- A round of the loop: the session, whether ctx has ended after it, and whether the wait comes to its
-- end.
pub record Round : Type 0 where
  pub session : Session
  pub is_cancelled : Bool
  pub is_woken : Bool

-- the loop of Run: the monitor, and how long it waited each time
unfoldable pub rounds : List Round → ℕ → Monitor → Monitor × List ℕ
rounds [] backoff m = (m, [])
rounds (r ∷ rs) backoff m =
    let (m', failed) = run_once r.session m in
    let (m'', waits) = rounds rs (next_backoff backoff) m' in
    if failed && not r.is_cancelled
    then (if r.is_woken then (m'', backoff ∷ waits) else (m', backoff ∷ []))
    else (m', [])

-- Run: nothing without an endpoint
unfoldable pub run : List Round → Monitor → Monitor × List ℕ
run rs m = if str_eq m.endpoint "" then (m, []) else rounds rs second m

-- the k-th wait of a documented back-off that doubles from a second to thirty
abbrev pub nth_wait : ℕ → ℕ
nth_wait k = if ltb k 5 then 2 ^ k * second else 30 * second

-- The waits are those from the k-th on.
pub IsBackoff : ℕ → List ℕ → Type 0
IsBackoff k [] = Unit
IsBackoff k (w ∷ ws) = (w ≡ nth_wait k) × IsBackoff (suc k) ws

next-nth_wait : (k : ℕ) → next_backoff (nth_wait k) ≡ nth_wait (suc k)
unfolding next_backoff
next-nth_wait zero = refl
next-nth_wait (suc zero) = refl
next-nth_wait (suc (suc zero)) = refl
next-nth_wait (suc (suc (suc zero))) = refl
next-nth_wait (suc (suc (suc (suc zero)))) = refl
next-nth_wait (suc (suc (suc (suc (suc k))))) = ground arith

rounds-IsBackoff :
    (rs : List Round) (k : ℕ) (m : Monitor) → IsBackoff k (rounds rs (nth_wait k) m).1
unfolding rounds IsBackoff
rounds-IsBackoff [] k m = tt
rounds-IsBackoff (r ∷ rs) k m =
    let m' = (run_once r.session m).0 in
    let later =
      subst (λ b. IsBackoff (suc k) (rounds rs b m').1) (sym (next-nth_wait k))
        (rounds-IsBackoff rs (suc k) m') in
    elim (Bool-cases ((run_once r.session m).1 && not r.is_cancelled)) [
      | inr e ↦ rw (e, rounds) tt
      | inl e ↦ elim (Bool-cases r.is_woken) [
        | inl f ↦ rw (e, f, rounds) (refl, later)
        | inr f ↦ rw (e, f, rounds) (refl, tt)
      ]
    ]

-- The session ends in an error while the context lives, and the wait after it comes to its end.
pub record IsLost (r : Round) : Type 0 where
  pub fails : (m : Monitor) → (run_once r.session m).1 ≡ true
  pub lives : r.is_cancelled ≡ false
  pub wakes : r.is_woken ≡ true

rounds-lost :
    (rs : List Round) (b : ℕ) (m : Monitor) → All IsLost rs → length (rounds rs b m).1 ≡ length rs
unfolding rounds
rounds-lost [] b m h = refl
rounds-lost (r ∷ rs) b m (h, hs) = ground (
  arith,
  h.fails m,
  h.lives,
  h.wakes,
  rounds-lost rs (next_backoff b) (run_once r.session m).0 hs,
)

-- However often sessions end in errors, Run subscribes again, one wait after each; the k-th wait,
-- counted from 0, is 2^k seconds for k below 5 and thirty seconds from then on. Only the end of the
-- context or a session without an error stops it.
pub run-IsBackoff :
    (rs : List Round) (m : Monitor)
    → str_eq m.endpoint "" ≡ false
    → All IsLost rs
    → IsBackoff 0 (run rs m).1 × (length (run rs m).1 ≡ length rs)
unfolding run
run-IsBackoff rs m set lost = rw set (rounds-IsBackoff rs 0 m, rounds-lost rs second m lost)
