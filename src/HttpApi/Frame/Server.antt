-- ===== src/HttpApi/Frame/Server.antt =====
-- The frames that the server writes, read back by a description of RFC 6455, section 5.2.
use kamado_pool.Base.{
  ℕ, ◌-◌, ◌^◌, ◌<◌, ◌≡◌, true, List, [], ◌∷◌, ◌++◌, Option, none, some, arith, ltb, ◌==◌,
  if◌then◌else◌, length, length-append, take, drop, take-append, drop-append,
}
use mathlib.Core.List.{append_assoc}
use kamado_pool.HttpApi.Frame.{
  Conn, write, write_frame, frame_header, put_uint16, put_uint64, big_endian,
}
use kamado_pool.HttpApi.Frame.Mask.{first_byte}

-- An unmasked frame with FIN set: its opcode, its payload and what follows it.
pub record Received : Type 0 where
  pub opcode : ℕ
  pub payload : List ℕ
  pub rest : List ℕ

payload_of : ℕ → ℕ → List ℕ → Option Received
payload_of op n bytes =
    if ltb (length bytes) n
    then none
    else some (record { opcode = op; payload = take n bytes; rest = drop n bytes })

-- The reader of the other side, after the RFC: FIN and opcode, then 7, 16 or 64 bits of length.
unfoldable pub receive : List ℕ → Option Received
unfolding payload_of big_endian
receive (b0 ∷ b1 ∷ bytes) =
    let op = b0 - 128 in
    if ltb b0 128
    then none
    else if ltb b1 126
    then payload_of op b1 bytes
    else if b1 == 126
    then payload_of op (big_endian 0 (take 2 bytes)) (drop 2 bytes)
    else if b1 == 127
    then payload_of op (big_endian 0 (take 8 bytes)) (drop 8 bytes)
    else none
receive _ = none

payload_of-append :
    (op : ℕ) (payload rest : List ℕ)
    → payload_of op (length payload) (payload ++ rest)
      ≡ some (record { opcode = op; payload = payload; rest = rest })
unfolding payload_of
payload_of-append op payload rest =
    ground (arith, length-append payload rest, take-append payload rest, drop-append payload rest)

big_endian-put_uint16 : (n : ℕ) → n < 2 ^ 16 → big_endian 0 (put_uint16 n) ≡ n
unfolding big_endian put_uint16
big_endian-put_uint16 n h = omega arith

big_endian-put_uint64 : (n : ℕ) → n < 2 ^ 64 → big_endian 0 (put_uint64 n) ≡ n
unfolding big_endian put_uint64
big_endian-put_uint64 n h = omega arith

receive-frame_header :
    (op : ℕ) (payload rest : List ℕ)
    → op < 16
    → length payload < 2 ^ 63
    → receive (frame_header op (length payload) ++ (payload ++ rest))
      ≡ some (record { opcode = op; payload = payload; rest = rest })
unfolding receive frame_header put_uint16 put_uint64
receive-frame_header op payload rest ho hn = ground (
  arith,
  first_byte op ho,
  big_endian-put_uint16 (length payload),
  big_endian-put_uint64 (length payload),
  payload_of-append op payload rest,
)

-- On a connection that takes every byte, writeFrame reports success, and a client that follows RFC
-- 6455 reads back the very opcode and payload from what was sent, whatever is sent after it. The
-- opcode has four bits and the payload is shorter than 2^63 bytes.
pub receive-write_frame :
    (c : Conn) (op : ℕ) (payload later : List ℕ)
    → c.writes ≡ []
    → op < 16
    → length payload < 2 ^ 63
    → (bytes : List ℕ) × ((write_frame c op payload).0.sent ≡ c.sent ++ bytes)
      × ((write_frame c op payload).1 ≡ true)
      × (receive (bytes ++ later) ≡ some (record { opcode = op; payload = payload; rest = later }))
unfolding write_frame write
receive-write_frame c op [] later e ho hn =
    (frame_header op 0, ground arith, ground arith, receive-frame_header op [] later ho hn)
receive-write_frame c op (p ∷ ps) later e ho hn = (
  frame_header op (length (p ∷ ps)) ++ (p ∷ ps),
  ground (arith, append_assoc c.sent (frame_header op (length (p ∷ ps))) (p ∷ ps)),
  ground arith,
  rw append_assoc (receive-frame_header op (p ∷ ps) later ho hn),
)
