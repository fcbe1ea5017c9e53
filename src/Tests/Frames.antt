-- ===== src/Tests/Frames.antt =====
-- Frames of ws.go at concrete bytes.
use kamado_pool.Base.{ℕ, ◌+◌, ◌^◌, ◌≡◌, refl, true, List, [], ◌∷◌, ◌++◌, some, arith}
use kamado_pool.HttpApi.Frame.{Conn, frame, write_frame, panic, too_large, not_masked, read_frame}
use kamado_pool.HttpApi.Frame.Server.{receive, receive-write_frame}
use kamado_pool.HttpApi.Frame.Client.{
  client_frame, masked_length, read_frame-client_frame, read_frame-panic, read_frame_refuses,
}

abbrev fresh : Conn
fresh = record { sent = []; writes = [] }

receive-write_frame_example :
    (bytes : List ℕ) × ((write_frame fresh 1 (72 ∷ 105 ∷ [])).0.sent ≡ [] ++ bytes)
    × ((write_frame fresh 1 (72 ∷ 105 ∷ [])).1 ≡ true)
    × (receive (bytes ++ (7 ∷ []))
        ≡ some (record { opcode = 1; payload = 72 ∷ 105 ∷ []; rest = 7 ∷ [] }))
receive-write_frame_example =
    receive-write_frame fresh 1 (72 ∷ 105 ∷ []) (7 ∷ []) refl (omega arith) (omega arith)

read_frame-client_frame_example :
    read_frame (client_frame 1 (1 ∷ 2 ∷ 3 ∷ 4 ∷ []) (72 ∷ 105 ∷ []) ++ (9 ∷ []))
    ≡ frame 1 (72 ∷ 105 ∷ []) (9 ∷ [])
read_frame-client_frame_example =
    read_frame-client_frame 1 1 2 3 4 (72 ∷ 105 ∷ []) (9 ∷ []) (omega arith)
      (omega arith, (omega arith, (omega arith, (omega arith, tt))))
      (omega arith, (omega arith, tt)) (omega arith)

read_frame-panic_example :
    read_frame ((128 + 1) ∷ (masked_length (2 ^ 63) ++ (1 ∷ 2 ∷ 3 ∷ 4 ∷ []))) ≡ panic
read_frame-panic_example =
    read_frame-panic 1 (2 ^ 63) 1 2 3 4 [] (omega arith) (omega arith) (omega arith)

read_frame_refuses_example :
    (read_frame (1 ∷ 5 ∷ []) ≡ not_masked)
    × (read_frame ((128 + 1) ∷ (masked_length (2 ^ 20 + 1) ++ [])) ≡ too_large)
read_frame_refuses_example =
    read_frame_refuses 1 5 (2 ^ 20 + 1) [] (omega arith) (omega arith) (omega arith) (omega arith)
