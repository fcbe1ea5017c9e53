-- ===== src/Tests/Rounds.antt =====
-- Rounds of refresh at a concrete aggregator.
use kamado_pool.Base.{
  ℕ, ◌+◌, ◌^◌, ◌%◌, ◌≡◌, ◌≤◌, ◌⊎◌, refl, true, false, List, [], ◌∷◌, some, arith,
}
use kamado_pool.Base.Word.{add64}
use kamado_pool.State.Types.{Aggregator, PoolStats, Worker}
use kamado_pool.State.Refresh.{refresh}
use kamado_pool.State.Refresh.Counters.{integrate_all, shares_of, rejects_of, integrate_all-rises}
use kamado_pool.State.Refresh.Loop.{tick, tip, notified, run_aggregator, run_aggregator-outage}
use kamado_pool.State.Shares.Best.{IsRise}
use kamado_pool.State.Refresh.Failover.{must_kill, refresh-must_kill}
use kamado_pool.State.Refresh.HighWater.{IsLinear, IsReported, Tops, refresh-best_diff}
use kamado_pool.Tests.Data.{whole, whole-IsOrdered, codec, start, outage}

abbrev away : Aggregator ℕ
away = record start { btc_fail_streak = 2; best_diff = 30 }

whole-IsLinear : IsLinear whole
whole-IsLinear = record {
  nought_number = refl;
  lt_number = λ x y h. ground arith;
  lt_through = λ x y z n h k. ground arith;
}

refresh-best_diff_example :
    let a = (refresh codec 1_000 outage away).0 in
    let ws : List (Worker ℕ) =
      record { user = "u"; worker = "u.rig"; best_diff = 40; best_ever = 0 } ∷ [] in
    IsRise whole 30 a.best_diff
    × Tops a.best_diff ws
    × ((a.best_diff ≡ 30) ⊎ IsReported a.best_diff ws)
    × (a.snap.best_diff ≡ a.best_diff)
refresh-best_diff_example =
    refresh-best_diff codec whole-IsOrdered whole-IsLinear 1_000 outage away refl

refresh-must_kill_example : (refresh codec 1_000 outage away).1 ≡ must_kill (some true) 3 false 0 0
unfolding add64
refresh-must_kill_example = refresh-must_kill codec 1_000 outage away

run_aggregator-outage_example :
    (run_aggregator codec
      (λ a. a)
      true
      (1_000, outage)
      ((tip 1_500 notified, 2_000, outage) ∷ (tick, 3_000, outage) ∷ [])
      away).1
    ≤ 1
run_aggregator-outage_example =
    run_aggregator-outage codec (λ a. a) true (1_000, outage)
      ((tip 1_500 notified, 2_000, outage) ∷ (tick, 3_000, outage) ∷ []) away
      ("timeout", refl, refl) (("timeout", refl, refl), (("timeout", refl, refl), tt))

abbrev answer_of : ℕ → ℕ → PoolStats ℕ
answer_of good bad = record {
  shares = good;
  accepted = 50;
  reject_count = bad;
  dsps1 = 1;
  dsps5 = 1;
  dsps60 = 1;
  dsps1440 = 1;
}

abbrev based : Aggregator ℕ
based = record start {
  has_share_count_baseline = true;
  alltime_accepted = 5;
  last_pool_accepted_raw = 5;
  last_pool_rejected_raw = 1;
}

-- ckpool restarts between the first answer and the second
abbrev answers : List (PoolStats ℕ)
answers = answer_of 8 2 ∷ answer_of 3 0 ∷ []

integrate_all-rises_example :
    let a = integrate_all answers based in
    (a.alltime_accepted % 2 ^ 64 ≡ (5 + 3) % 2 ^ 64)
    × (a.alltime_rejected % 2 ^ 64 ≡ (0 + 1) % 2 ^ 64)
unfolding shares_of rejects_of
integrate_all-rises_example =
    integrate_all-rises answers based ((omega arith, omega arith), ((omega arith, omega arith), tt))
      refl (omega arith) (omega arith)
