-- ===== src/Ckpool/Roundtrip.antt =====
-- A request to a server that keeps to the protocol, and answers that do not.
use kamado_pool.Base.{
  ap, ℕ, ◌+◌, ◌*◌, ◌^◌, ◌<◌, ◌≤◌, ◌≡◌, ◌≢◌, refl, ◌∙◌, Bool, true, List, [], ◌∷◌, ◌++◌, ◌⊎◌, inl,
  inr, arith, ltb, if◌then◌else◌, length, take,
}
use kamado_pool.Ckpool.{
  Peer, Socket, bad_length, put_uint32, little_endian, read_full, receive_payload, receive,
  send_once,
}

-- the answer to a request of n bytes
respond : (List ℕ → List ℕ) → ℕ → List ℕ → Peer
respond handler n bytes =
    if ltb (length bytes) n
    then record { bytes = []; closes = true }
    else (let response = handler (take n bytes) in
        record { bytes = put_uint32 (length response) ++ response; closes = true })

-- A server after libckpool: it reads the length of a request and that many bytes, answers with the
-- length of the response and the response, and closes the connection.
unfoldable pub serve : (List ℕ → List ℕ) → List ℕ → Peer
unfolding respond
serve handler (b0 ∷ b1 ∷ b2 ∷ b3 ∷ bytes) =
    respond handler (b0 + b1 * 2 ^ 8 + b2 * 2 ^ 16 + b3 * 2 ^ 24) bytes
serve handler _ = record { bytes = []; closes = true }

-- a connection on which every call succeeds
abbrev pub connected : (List ℕ → Peer) → Socket
connected answer = record {
  dials = true;
  takes_length = true;
  takes_payload = true;
  half_closes = true;
  answer = answer;
}

little_endian-put_uint32 : (n : ℕ) → n < 2 ^ 32 → little_endian (put_uint32 n) ≡ n
unfolding little_endian put_uint32
little_endian-put_uint32 n h = omega arith

take_all : (xs : List ℕ) → take (length xs) xs ≡ xs
take_all [] = refl
take_all (x ∷ xs) = ground (arith, take_all xs)

serve_lem :
    (handler : List ℕ → List ℕ) (cmd : List ℕ)
    → length cmd < 2 ^ 32
    → serve handler (put_uint32 (length cmd) ++ cmd)
      ≡ record { bytes = put_uint32 (length (handler cmd)) ++ handler cmd; closes = true }
serve_lem handler cmd h =
    let n = length cmd in
    let read : serve handler (put_uint32 n ++ cmd) ≡ respond handler n cmd =
      unfold serve put_uint32 in ap (λ k. respond handler k cmd) (omega arith) in
    read ∙ unfold respond in ground (arith, take_all cmd)

receive_header :
    (n : ℕ) (rest : List ℕ) (c : Bool)
    → n < 2 ^ 32
    → receive (record { bytes = put_uint32 n ++ rest; closes = c })
      ≡ receive_payload n (record { bytes = rest; closes = c })
unfolding receive read_full
receive_header n rest c h =
    let value = little_endian-put_uint32 n h in unfold put_uint32 in ground (arith, value)

receive_payload_lem :
    (xs : List ℕ) (c : Bool)
    → xs ≢ []
    → length xs ≤ 2 ^ 31
    → receive_payload (length xs) (record { bytes = xs; closes = c }) ≡ inl xs
unfolding receive_payload read_full
receive_payload_lem [] c ne h = absurd (ne refl)
receive_payload_lem (x ∷ xs) c ne h = ground (arith, take_all xs)

send_once-connected :
    (answer : List ℕ → Peer) (x : ℕ) (cmd : List ℕ)
    → send_once (connected answer) (x ∷ cmd)
      ≡ receive (answer (put_uint32 (length (x ∷ cmd)) ++ x ∷ cmd))
unfolding send_once
send_once-connected answer x cmd = ground arith

-- sendOnce on a connection to a server that keeps to the protocol returns exactly the handler's
-- response to the command, where the command is not empty and shorter than 2^32 bytes, and the
-- response is not empty and has 2^31 bytes at most.
pub send_once-serve :
    (handler : List ℕ → List ℕ) (cmd : List ℕ)
    → cmd ≢ []
    → length cmd < 2 ^ 32
    → handler cmd ≢ []
    → length (handler cmd) ≤ 2 ^ 31
    → send_once (connected (serve handler)) cmd ≡ inl (handler cmd)
send_once-serve handler [] ne h ne' h' = absurd (ne refl)
send_once-serve handler (x ∷ cmd) ne h ne' h' =
    let response = handler (x ∷ cmd) in
    send_once-connected (serve handler) x cmd
    ∙ ap receive (serve_lem handler (x ∷ cmd) h)
    ∙ receive_header (length response) response true (omega arith)
    ∙ receive_payload_lem response true ne' h'

-- An answer whose length field is 0 or above 2^31 is refused with that length, whatever follows it.
pub send_once-bad_length :
    (cmd rest : List ℕ) (n : ℕ) (closes : Bool)
    → cmd ≢ []
    → n < 2 ^ 32
    → (n ≡ 0) ⊎ (2 ^ 31 < n)
    → send_once (connected (λ _. record { bytes = put_uint32 n ++ rest; closes = closes })) cmd
      ≡ inr (bad_length n)
send_once-bad_length [] rest n closes ne h bad = absurd (ne refl)
send_once-bad_length (x ∷ cmd) rest n closes ne h bad =
    send_once-connected _ x cmd
    ∙ receive_header n rest closes h
    ∙ unfold receive_payload in ground arith
