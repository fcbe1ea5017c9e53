-- ===== src/HttpApi/Frame.antt =====
-- api/internal/httpapi/ws.go: writeFrame and readFrame, over lists of bytes.
use Prim.Native.Nat.{bit_and, bit_or, bit_xor}
use kamado_pool.Base.{
  ℕ, zero, suc, ◌+◌, ◌*◌, ◌/◌, ◌%◌, ◌^◌, Bool, true, false, List, [], ◌∷◌, ◌++◌, Option, none, some,
  ltb, ◌==◌, if◌then◌else◌, length, take, drop,
}
use kamado_pool.Base.Word.{lt64}
mod Mask
pub mod Server
pub mod Client

-- The outcome of each coming conn.Write: all bytes go out, or the write fails after some of them.
pub data Write : Type 0 where
  done : Write
  fail : ℕ → Write

-- A connection: the bytes sent, and the outcomes of the coming writes (all succeed past the list).
pub record Conn : Type 0 where
  pub sent : List ℕ
  pub writes : List Write

-- conn.Write; the flag is `err == nil`
unfoldable pub write : Conn → List ℕ → Conn × Bool
write c bytes = elim c.writes [
  | [] ↦ (record c { sent = c.sent ++ bytes }, true)
  | done ∷ ws ↦ (record { sent = c.sent ++ bytes; writes = ws }, true)
  | fail n ∷ ws ↦ (record { sent = c.sent ++ take n bytes; writes = ws }, false)
]

-- binary.BigEndian.PutUint16 and PutUint64
unfoldable pub put_uint16 : ℕ → List ℕ
put_uint16 n = n / 2 ^ 8 % 256 ∷ n % 256 ∷ []

unfoldable pub put_uint64 : ℕ → List ℕ
put_uint64 n =
    n / 2 ^ 56 % 256
    ∷ n / 2 ^ 48 % 256
    ∷ n / 2 ^ 40 % 256
    ∷ n / 2 ^ 32 % 256
    ∷ n / 2 ^ 24 % 256
    ∷ n / 2 ^ 16 % 256
    ∷ n / 2 ^ 8 % 256
    ∷ n % 256
    ∷ []

-- hdr[:hdrLen]
unfoldable pub frame_header : ℕ → ℕ → List ℕ
frame_header opcode n =
    let first = bit_or 0x80 (bit_and opcode 0x0F) in
    if ltb n 126
    then first ∷ n % 256 ∷ []
    else if ltb n (2 ^ 16)
    then first ∷ 126 ∷ put_uint16 n
    else first ∷ 127 ∷ put_uint64 n

unfoldable pub write_frame : Conn → ℕ → List ℕ → Conn × Bool
write_frame conn opcode payload =
    let n = length payload in
    let (conn', ok) = write conn (frame_header opcode n) in
    if ok then (if ltb 0 n then write conn' payload else (conn', true)) else (conn', false)

-- What readFrame ends in: a frame and the bytes left in the reader, an error, or a run-time panic.
pub data Read : Type 0 where
  frame : ℕ → List ℕ → List ℕ → Read
  short : Read
  not_masked : Read
  too_large : Read
  panic : Read

-- io.ReadFull into a buffer of n bytes
unfoldable pub read_full : ℕ → List ℕ → Option (List ℕ × List ℕ)
read_full n bytes = if ltb (length bytes) n then none else some (take n bytes, drop n bytes)

-- binary.BigEndian.Uint16 and Uint64
unfoldable pub big_endian : ℕ → List ℕ → ℕ
big_endian acc [] = acc
big_endian acc (b ∷ bs) = big_endian (acc * 256 + b) bs

-- payload[i] ^= mask[i%4]
unfoldable pub unmask : List ℕ → ℕ → List ℕ → List ℕ
unmask (a ∷ b ∷ c ∷ d ∷ []) i (p ∷ ps) =
    let m = if i % 4 == 0 then a else if i % 4 == 1 then b else if i % 4 == 2 then c else d in
    bit_xor p m ∷ unmask (a ∷ b ∷ c ∷ d ∷ []) (i + 1) ps
unmask mask i ps = ps

-- The end of readFrame, from the cap on the length; `make` panics at a negative length.
unfoldable pub read_payload : ℕ → ℕ → List ℕ → Read
read_payload opcode len rest = if lt64 (2 ^ 20) len then too_large else elim (read_full 4 rest) [
  | none ↦ short
  | some (mask, rest') ↦ if lt64 len 0 then panic else elim (read_full len rest') [
    | none ↦ short
    | some (payload, left) ↦ frame opcode (unmask mask 0 payload) left
  ]
]

-- The extended length: `size` more bytes.
unfoldable pub read_extended : ℕ → ℕ → List ℕ → Read
read_extended opcode size rest = elim (read_full size rest) [
  | none ↦ short
  | some (ext, rest') ↦ read_payload opcode (big_endian 0 ext) rest'
]

unfoldable pub read_frame : List ℕ → Read
read_frame (h0 ∷ h1 ∷ rest) =
    let opcode = bit_and h0 0x0F in
    let length7 = bit_and h1 0x7F in
    if bit_and h1 0x80 == 0
    then not_masked
    else if length7 == 126
    then read_extended opcode 2 rest
    else if length7 == 127
    then read_extended opcode 8 rest
    else read_payload opcode length7 rest
read_frame _ = short
