-- ===== src/State/Refresh.antt =====
-- api/internal/state/aggregator.go: refresh, one round of polling, and the failover at its end.
-- The round reads the clock once.
use kamado_pool.Base.{
  ℕ, ◌+◌, ◌-◌, ◌*◌, ◌/◌, ◌%◌, ◌^◌, Bool, true, false, not, ◌&&◌, ◌||◌, List, [], ◌∷◌, ◌++◌, Option,
  none, some, String, str_eq, ◌==◌, ltb, leb, if◌then◌else◌, length, drop,
}
use kamado_pool.Base.Word.{Int64, add64, sub64, div64, lt64, le64}
use kamado_pool.Base.Time.{Time, second, unix, is_zero, elapsed}
use kamado_pool.Base.Float.{Float64}
use kamado_pool.Store.Samples.{insert_hashrate_sample, prune_hashrate_before}
use kamado_pool.State.Types.{
  Aggregator, Snapshot, PoolStats, Worker, BlockchainInfo, HashratePoint, empty_dist,
}
use kamado_pool.State.Codec.{Codec}
use kamado_pool.State.Shares.{save_kv, reset_session_share_stats}
use kamado_pool.State.Blocks.{push}
pub mod Answers
pub mod Polling
pub mod Tracking
pub mod Retarget
pub mod Loop
pub mod Counters
pub mod Rounds
pub mod Failover
pub mod HighWater
unfoldable pub use Answers.*
unfoldable pub use Polling.*
unfoldable pub use Tracking.*

module _ {F : Type 0} ⦃fl : Float64 F⦄ where
  -- the mean of a sum of difficulties
  abbrev pub mean : F → Int64 → F → F
  mean sum count old = if lt64 0 count then fl.div sum (fl.of_int count) else old

  -- the last part under the lock: the rest of the snapshot
  unfoldable pub attach : Time → Aggregator F → Snapshot F → Snapshot F
  attach now a next =
      let seen = not (is_zero a.last_zmq_event_time) in
      record next {
        recent_blocks = a.blocks;
        block_submit_attempts = a.block_submit_attempts;
        block_submits_confirmed = a.block_submits_confirmed;
        zmq_enabled = a.zmq_enabled;
        last_zmq_event_age =
            if seen then fl.seconds (now - a.last_zmq_event_time) else next.last_zmq_event_age;
        has_last_zmq_event = seen;
        latency_count = a.latency_count;
        latency_avg_ms =
            if lt64 0 a.latency_count then div64 a.latency_sum_ms a.latency_count else 0;
        latency_last_ms = a.latency_last_ms;
        stale_work_hashes = a.stale_work_hashes;
        reject_reasons = a.session_reject_reasons;
        reject_reasons_all = a.alltime_reject_reasons;
        diff_dist = a.session_diff_dist;
        diff_dist_all = a.alltime_diff_dist;
        avg_diff_session = mean a.session_diff_sum a.session_diff_count next.avg_diff_session;
        avg_diff_alltime = mean a.alltime_diff_sum a.alltime_diff_count next.avg_diff_alltime;
      }

  unfoldable pub publish : Time → Round F → Aggregator F
  publish now r =
      let next = attach now r.agg r.next in push next (record r.agg { snap = next; ready = true })

module _ {F : Type 0} where
  -- the end of refresh: bitcoind has been away for three rounds, no submission is open, and ckpool
  -- was not killed yet. The flag is whether KillCKPool was called.
  unfoldable pub failover : Option Bool → Aggregator F → Aggregator F × Bool
  failover none a = (a, false)
  failover (some ok) a =
      let gap = sub64 a.snap.block_submit_attempts a.snap.block_submits_confirmed in
      if le64 3 a.btc_fail_streak && not a.ckpool_killed
      then (if lt64 0 gap
          then (a, false)
          else (record a { ckpool_killed = if ok then true else a.ckpool_killed }, true))
      else (a, false)

module _ {F : Type 0} ⦃fl : Float64 F⦄ (codec : Codec F) where
  -- refresh; the flag is whether KillCKPool was called
  unfoldable pub refresh : Time → Polls F → Aggregator F → Aggregator F × Bool
  refresh now polls a = failover polls.kill (publish now (track codec now polls (poll now polls a)))

  -- the rounds of Run, in order; the number is that of the calls of KillCKPool
  unfoldable pub rounds : List (Time × Polls F) → Aggregator F → Aggregator F × ℕ
  rounds [] a = (a, 0)
  rounds ((now, polls) ∷ ps) a =
      let (a', killed) = refresh now polls a in
      let (a2, n) = rounds ps a' in (a2, if killed then n + 1 else n)
