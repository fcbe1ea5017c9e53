-- ===== src/Tests/Hubs.antt =====
-- The hub at concrete events.
use kamado_pool.Base.{ℕ, ◌≡◌, refl, true, false, List, [], ◌∷◌, ◌++◌, some, arith, All}
use kamado_pool.HttpApi.Hub.{
  Event, connected, greeted, broadcast, writer_turn, reader_turn, close, new_client, run,
}
use kamado_pool.HttpApi.Hub.Safety.{IsSound, IsSafe, new_client-IsSound, run-IsSafe}
use kamado_pool.HttpApi.Hub.Stuck.{IsIdle, broadcasts, stuck_disconnected}

-- a client comes, is greeted, gets a snapshot, writes one and closes
abbrev visit : List (Event ℕ)
visit =
    connected
    ∷ greeted 0 (some 1)
    ∷ broadcast (some 2)
    ∷ writer_turn 0 true
    ∷ reader_turn 0 close
    ∷ broadcast (some 3)
    ∷ []

run-IsSafe_example : IsSafe (All IsSound) (run visit [])
run-IsSafe_example = run-IsSafe visit

abbrev fourteen : List (Event ℕ)
fourteen =
    let four =
      broadcast (some 1) ∷ broadcast (some 2) ∷ broadcast (some 3) ∷ broadcast (some 4) ∷ [] in
    four ++ four ++ connected ∷ four ++ broadcast (some 5) ∷ broadcast (some 6) ∷ []

stuck_disconnected_example :
    IsSafe (All (λ c. c.id ≡ 0 → c.is_conn_open ≡ false)) (run fourteen (new_client 0 ∷ []))
unfolding IsIdle broadcasts new_client
stuck_disconnected_example =
    stuck_disconnected 0 fourteen (new_client 0 ∷ []) (new_client-IsSound 0, tt) (omega arith)
      ((λ _. refl), tt)
      (tt, (tt, (tt, (tt, (tt, (tt, (tt, (tt, (tt, (tt, (tt, (tt, (tt, (tt, (tt, tt)))))))))))))))
      (omega arith)
