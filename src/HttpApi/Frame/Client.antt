-- ===== src/HttpApi/Frame/Client.antt =====
-- The frames that readFrame accepts and refuses.
use kamado_pool.Base.{
  ℕ, ◌+◌, ◌^◌, ◌<◌, ◌≤◌, ◌≡◌, refl, ◌∙◌, List, [], ◌∷◌, ◌++◌, some, arith, ltb, if◌then◌else◌,
  length, length-append, take-append, drop-append, All,
}
use mathlib.Core.List.{append_assoc}
use kamado_pool.Base.Word.{lt64, lt64_small}
use kamado_pool.HttpApi.Frame.{
  frame, panic, not_masked, too_large, read_frame, read_payload, read_extended, read_full,
  put_uint16, put_uint64, big_endian,
}
use kamado_pool.HttpApi.Frame.Mask.{
  IsByte, opcode_of_first, masked_byte, unmasked_byte, masked, unmask-masked, length-masked,
}

-- The length field of a client frame with the mask bit set, after RFC 6455: 7, 16 or 64 bits.
unfoldable pub masked_length : ℕ → List ℕ
masked_length n =
    if ltb n 126
    then (128 + n) ∷ []
    else if ltb n (2 ^ 16)
    then 254 ∷ put_uint16 n
    else 255 ∷ put_uint64 n

-- A client frame: FIN and the opcode, the length, the masking key, the masked payload.
unfoldable pub client_frame : ℕ → List ℕ → List ℕ → List ℕ
client_frame op mask payload =
    (128 + op) ∷ (masked_length (length payload) ++ (mask ++ masked mask payload))

read_full-append :
    (n : ℕ) (xs rest : List ℕ) → length xs ≡ n → read_full n (xs ++ rest) ≡ some (xs, rest)
unfolding read_full
read_full-append n xs rest e =
    rw (← e) (ground (arith, length-append xs rest, take-append xs rest, drop-append xs rest))

read_payload-masked :
    (op a b c d : ℕ) (payload rest : List ℕ)
    → let mask : List ℕ = a ∷ b ∷ c ∷ d ∷ [] in
      All IsByte mask
      → All IsByte payload
      → length payload ≤ 2 ^ 20
      → read_payload op (length payload) (mask ++ (masked mask payload ++ rest))
        ≡ frame op payload rest
unfolding read_payload
read_payload-masked op a b c d payload rest hm hp hn =
    let mask : List ℕ = a ∷ b ∷ c ∷ d ∷ [] in
    let bytes = masked mask payload in
    ground (
      arith,
      lt64_small (2 ^ 20) (length payload) (omega arith) (omega arith),
      lt64_small (length payload) 0 (omega arith) (omega arith),
      read_full-append 4 mask (bytes ++ rest) refl,
      read_full-append (length payload) bytes rest (length-masked a b c d payload),
      unmask-masked a b c d payload hm hp,
    )

big_endian-put_uint16 : (n : ℕ) → n < 2 ^ 16 → big_endian 0 (put_uint16 n) ≡ n
unfolding big_endian put_uint16
big_endian-put_uint16 n h = omega arith

big_endian-put_uint64 : (n : ℕ) → n < 2 ^ 64 → big_endian 0 (put_uint64 n) ≡ n
unfolding big_endian put_uint64
big_endian-put_uint64 n h = omega arith

read_extended-put_uint16 :
    (op n : ℕ) (bytes : List ℕ)
    → n < 2 ^ 16
    → read_extended op 2 (put_uint16 n ++ bytes) ≡ read_payload op n bytes
unfolding read_extended
read_extended-put_uint16 op n bytes h =
    let read = read_full-append 2 (put_uint16 n) bytes (unfold put_uint16 in refl) in
    ground (arith, read, big_endian-put_uint16 n h)

read_extended-put_uint64 :
    (op n : ℕ) (bytes : List ℕ)
    → n < 2 ^ 64
    → read_extended op 8 (put_uint64 n ++ bytes) ≡ read_payload op n bytes
unfolding read_extended
read_extended-put_uint64 op n bytes h =
    let read = read_full-append 8 (put_uint64 n) bytes (unfold put_uint64 in refl) in
    ground (arith, read, big_endian-put_uint64 n h)

-- The header and the length of a masked frame are read back, at every length.
read_frame-masked_length :
    (op n : ℕ) (bytes : List ℕ)
    → op < 16
    → n < 2 ^ 64
    → read_frame ((128 + op) ∷ (masked_length n ++ bytes)) ≡ read_payload op n bytes
unfolding read_frame masked_length
read_frame-masked_length op n bytes ho hn = ground (
  arith,
  opcode_of_first op ho,
  masked_byte n,
  read_extended-put_uint16 op n bytes,
  read_extended-put_uint64 op n bytes hn,
)

-- readFrame reads back every client frame that is built after RFC 6455, of up to 2^20 bytes of
-- payload: the opcode, the payload with the mask taken off, and exactly the bytes that follow.
pub read_frame-client_frame :
    (op a b c d : ℕ) (payload rest : List ℕ)
    → let mask : List ℕ = a ∷ b ∷ c ∷ d ∷ [] in
      op < 16
      → All IsByte mask
      → All IsByte payload
      → length payload ≤ 2 ^ 20
      → read_frame (client_frame op mask payload ++ rest) ≡ frame op payload rest
unfolding client_frame
read_frame-client_frame op a b c d payload rest ho hm hp hn =
    let mask : List ℕ = a ∷ b ∷ c ∷ d ∷ [] in
    let bytes = masked mask payload in
    rw (append_assoc, append_assoc)
      (read_frame-masked_length op (length payload) (mask ++ (bytes ++ rest)) ho (omega arith)
        ∙ read_payload-masked op a b c d payload rest hm hp hn)

-- A masked client frame whose 64-bit length field is 2^63 or more passes the cap on the length,
-- since the length is then negative, and readFrame panics when it makes the buffer.
pub read_frame-panic :
    (op n a b c d : ℕ) (rest : List ℕ)
    → op < 16
    → 2 ^ 63 ≤ n
    → n < 2 ^ 64
    → read_frame ((128 + op) ∷ (masked_length n ++ (a ∷ b ∷ c ∷ d ∷ rest))) ≡ panic
read_frame-panic op n a b c d rest ho lo hi =
    rw (read_frame-masked_length op n _ ho hi) (unfold read_payload read_full lt64 in ground arith)

-- readFrame refuses every frame without the mask bit, and every masked frame that states a length
-- above 2^20 and below 2^63, whatever follows. The opcode of the second has four bits.
pub read_frame_refuses :
    (op n m : ℕ) (bytes : List ℕ)
    → n < 128
    → op < 16
    → 2 ^ 20 < m
    → m < 2 ^ 63
    → (read_frame (op ∷ n ∷ bytes) ≡ not_masked)
      × (read_frame ((128 + op) ∷ (masked_length m ++ bytes)) ≡ too_large)
read_frame_refuses op n m bytes h ho lo hi = (
  unfold read_frame in ground (arith, unmasked_byte n h),
  rw (read_frame-masked_length op m bytes ho (omega arith))
      (unfold read_payload lt64 in ground arith),
)
