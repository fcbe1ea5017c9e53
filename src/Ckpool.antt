-- ===== src/Ckpool.antt =====
-- api/internal/ckpool/client.go: one request over ckpool's Unix socket, over lists of bytes.
use kamado_pool.Base.{
  ℕ, zero, suc, ◌+◌, ◌*◌, ◌/◌, ◌%◌, ◌^◌, Bool, true, false, not, ◌||◌, List, [], ◌∷◌, ◌++◌, Option,
  none, some, String, ◌⊎◌, inl, inr, ltb, ◌==◌, if◌then◌else◌, length, take, drop,
}
pub mod Roundtrip
pub mod Retry

-- the errors of io.ReadFull: nothing read before the end, only a part, or another error
pub data ReadError : Type 0 where
  eof : ReadError
  unexpected_eof : ReadError
  broken : ReadError

-- What the server sends back, and whether it closes the connection after that; if it does not, a
-- read that wants more ends at the deadline.
pub record Peer : Type 0 where
  pub bytes : List ℕ
  pub closes : Bool

-- A connection: which calls succeed, and what the server makes of the bytes it gets.
pub record Socket : Type 0 where
  pub dials : Bool
  pub takes_length : Bool
  pub takes_payload : Bool
  pub half_closes : Bool
  pub answer : List ℕ → Peer

-- the errors of sendOnce and Send
pub data SendError : Type 0 where
  empty_command : SendError
  no_dial : SendError
  length_unwritten : SendError
  payload_unwritten : SendError
  not_half_closed : SendError
  length_unread : ReadError → SendError
  bad_length : ℕ → SendError
  payload_unread : ReadError → SendError
  context_done : SendError

-- io.ReadFull into a buffer of n bytes
unfoldable pub read_full : ℕ → Peer → (List ℕ × Peer) ⊎ ReadError
read_full n p =
    if ltb (length p.bytes) n
    then inr (if p.closes then (if length p.bytes == 0 then eof else unexpected_eof) else broken)
    else inl (take n p.bytes, record p { bytes = drop n p.bytes })

-- binary.LittleEndian.PutUint32 of uint32(n)
unfoldable pub put_uint32 : ℕ → List ℕ
put_uint32 n = n % 256 ∷ n / 2 ^ 8 % 256 ∷ n / 2 ^ 16 % 256 ∷ n / 2 ^ 24 % 256 ∷ []

-- binary.LittleEndian.Uint32
unfoldable pub little_endian : List ℕ → ℕ
little_endian [] = 0
little_endian (b ∷ bs) = b + 256 * little_endian bs

abbrev pub max_msg_len : ℕ
max_msg_len = 2 ^ 31

-- the end of sendOnce: the response
unfoldable pub receive_payload : ℕ → Peer → List ℕ ⊎ SendError
receive_payload n p =
    if n == 0 || ltb max_msg_len n
    then inr (bad_length n)
    else elim (read_full n p) [ inr e ↦ inr (payload_unread e) | inl (buf, p') ↦ inl buf ]

unfoldable pub receive : Peer → List ℕ ⊎ SendError
receive p = elim (read_full 4 p) [
  | inr e ↦ inr (length_unread e)
  | inl (header, p') ↦ receive_payload (little_endian header) p'
]

-- sendOnce
unfoldable pub send_once : Socket → List ℕ → List ℕ ⊎ SendError
send_once s cmd =
    if length cmd == 0
    then inr empty_command
    else if not s.dials
    then inr no_dial
    else if not s.takes_length
    then inr length_unwritten
    else if not s.takes_payload
    then inr payload_unwritten
    else if not s.half_closes
    then inr not_half_closed
    else receive (s.answer (put_uint32 (length cmd) ++ cmd))

-- errors.Is(err, io.EOF)
unfoldable pub is_eof : SendError → Bool
is_eof (length_unread eof) = true
is_eof (payload_unread eof) = true
is_eof _ = false

-- Send, over the two connections that it may open; the first argument is whether the context ends in
-- the wait between them, and the number is that of the calls of sendOnce.
unfoldable pub send : Bool → Socket → Socket → List ℕ → (List ℕ ⊎ SendError) × ℕ
send ends first second cmd = elim (send_once first cmd) [
  | inl buf ↦ (inl buf, 1)
  | inr e ↦
      if is_eof e
      then (if ends then (inr context_done, 1) else (send_once second cmd, 2))
      else (inr e, 1)
]

-- SendJSON: `decode` is json.Unmarshal into the caller's type
pub data JsonError : Type 0 where
  unsent : SendError → JsonError
  undecoded : List ℕ → JsonError

unfoldable pub send_json :
    {A : Type 0} → (List ℕ → Option A) → Bool → Socket → Socket → List ℕ → A ⊎ JsonError
send_json decode ends first second cmd = elim (send ends first second cmd).0 [
  | inr e ↦ inr (unsent e)
  | inl raw ↦ elim (decode raw) [ none ↦ inr (undecoded raw) | some a ↦ inl a ]
]

unfoldable pub is_pong : List ℕ → Bool
is_pong (p ∷ o ∷ n ∷ g ∷ []) =
    if p == b'p'
    then (if o == b'o' then (if n == b'n' then g == b'g' else false) else false)
    else false
is_pong _ = false

-- Ping: the error, if any, and the raw answer if it is another one
unfoldable pub ping : Bool → Socket → Socket → Option JsonError
ping ends first second = elim (send ends first second (b'p' ∷ b'i' ∷ b'n' ∷ b'g' ∷ [])).0 [
  | inr e ↦ some (unsent e)
  | inl raw ↦ if is_pong raw then none else some (undecoded raw)
]
