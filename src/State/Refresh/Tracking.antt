-- ===== src/State/Refresh/Tracking.antt =====
-- api/internal/state/aggregator.go: refresh, the counters and the history that it keeps under the
-- lock, and the reward of the next block.
use kamado_pool.Base.{
  ◌-◌, ◌*◌, true, not, ◌&&◌, List, [], ◌∷◌, ◌++◌, Option, none, some, if◌then◌else◌, length, drop,
}
use kamado_pool.Base.Word.{add64, sub64, le64}
use kamado_pool.Base.Time.{Time, second, unix, elapsed}
use kamado_pool.Base.Float.{Float64}
use kamado_pool.Store.Samples.{insert_hashrate_sample, prune_hashrate_before}
use kamado_pool.State.Types.{Aggregator, Snapshot, PoolStats, HashratePoint}
use kamado_pool.State.Codec.{Codec}
use kamado_pool.State.Shares.{save_kv, reset_session_share_stats}
use kamado_pool.State.Refresh.Answers.{Polls, Round, minute, max_history_points}

module _ {F : Type 0} ⦃fl : Float64 F⦄ where
  -- the work of a ckpool answer, added to the total unless the counter fell or is the first one seen
  unfoldable pub integrate_work : Option (PoolStats F) → Aggregator F → Aggregator F
  integrate_work none a = a
  integrate_work (some ps) a =
      let cur = fl.of_int ps.accepted in
      record a {
        cumulative_shares =
            if a.has_pool_shares_baseline && fl.le a.last_pool_shares cur
            then fl.add a.cumulative_shares (fl.sub cur a.last_pool_shares)
            else a.cumulative_shares;
        last_pool_shares = cur;
        has_pool_shares_baseline = true;
      }

  -- the raw counts of a ckpool answer; a fall of the accepted count is a restart of ckpool
  unfoldable pub integrate_counts : Option (PoolStats F) → Aggregator F → Aggregator F
  integrate_counts none a = a
  integrate_counts (some ps) a =
      let up = le64 a.last_pool_accepted_raw ps.shares in
      let a1 = if a.has_share_count_baseline && not up then reset_session_share_stats a else a in
      record a1 {
        alltime_accepted =
            if a.has_share_count_baseline && up
            then add64 a.alltime_accepted (sub64 ps.shares a.last_pool_accepted_raw)
            else a.alltime_accepted;
        alltime_rejected =
            if a.has_share_count_baseline && le64 a.last_pool_rejected_raw ps.reject_count
            then add64 a.alltime_rejected (sub64 ps.reject_count a.last_pool_rejected_raw)
            else a.alltime_rejected;
        last_pool_accepted_raw = ps.shares;
        last_pool_rejected_raw = ps.reject_count;
        has_share_count_baseline = true;
      }

  -- the newest `max_history_points` samples
  unfoldable pub add_sample : HashratePoint F → List (HashratePoint F) → List (HashratePoint F)
  add_sample p history = let all = history ++ (p ∷ []) in drop (length all - max_history_points) all

  -- one sample a minute; the table keeps 25 hours
  unfoldable pub sample_hashrate : Time → F → Aggregator F → Aggregator F
  sample_hashrate now v a =
      let t = unix now in
      if elapsed now a.last_hr_sample_at minute
      then record a {
        hr_history = add_sample (record { t = t; v = v }) a.hr_history;
        last_hr_sample_at = now;
        store = elim a.store [
          | none ↦ none
          | some s ↦
              some
                (prune_hashrate_before (unix (now - 25 * 60 * minute))
                  (insert_hashrate_sample t v s).0).0
        ];
      }
      else a

  -- the next block's reward, asked for every 15 seconds
  unfoldable pub refresh_reward : Time → Polls F → Round F → Round F
  refresh_reward now polls r =
      let next : Snapshot F = record r.next { next_block_reward_btc = r.agg.next_block_reward } in
      if elapsed now r.agg.last_template_fetch (15 * second) && next.bitcoin_ok
      then elim polls.coinbase_value [
        | none ↦ record { agg = r.agg; next = next }
        | some sats ↦
            let reward = fl.div (fl.of_int sats) (fl.sci 1 8) in
            record {
              agg = record r.agg { next_block_reward = reward; last_template_fetch = now };
              next = record next { next_block_reward_btc = reward };
            }
      ]
      else record { agg = r.agg; next = next }

module _ {F : Type 0} ⦃fl : Float64 F⦄ (codec : Codec F) where
  -- the high-water mark, and the fields copied beside it
  unfoldable pub raise_best : Round F → Round F
  raise_best r =
      let a = r.agg in
      let a1 =
        if fl.lt a.best_diff r.next.best_diff
        then save_kv "best_diff" (codec.format_float r.next.best_diff)
            (record a { best_diff = r.next.best_diff })
        else a in
      record {
        agg = a1;
        next = record r.next {
          best_diff = a1.best_diff;
          best_share_hash = a1.best_share_hash;
          best_share_net_diff = a1.best_share_net_diff;
          best_share_pow = a1.best_pow;
          acked_best_diff = a1.acked_best_diff;
        };
      }

  unfoldable pub save_work : Time → Aggregator F → Aggregator F
  save_work now a = elim a.store [
    | none ↦ a
    | some _ ↦
        if elapsed now a.last_cumulative_save minute
        then save_kv "cumulative_work" (codec.format_float a.cumulative_shares)
            (record a { last_cumulative_save = now })
        else a
  ]

  unfoldable pub save_counts : Time → Aggregator F → Aggregator F
  save_counts now a = elim a.store [
    | none ↦ a
    | some _ ↦
        if elapsed now a.last_share_count_save minute
        then record (save_kv "alltime_rejected" (codec.format_int a.alltime_rejected)
            (save_kv "alltime_accepted" (codec.format_int a.alltime_accepted) a)) {
              last_share_count_save = now;
            }
        else a
  ]

  -- the parts of the round under the lock, up to the reward
  unfoldable pub track : Time → Polls F → Round F → Round F
  track now polls r =
      let r1 = raise_best r in
      let a1 = save_work now (integrate_work r1.next.pool r1.agg) in
      let a2 = save_counts now (integrate_counts r1.next.pool a1) in
      let a3 = sample_hashrate now r1.next.hashrate_hs a2 in
      let next : Snapshot F = record r1.next {
        cumulative_shares = a1.cumulative_shares;
        session_accepted = elim r1.next.pool [
          | none ↦ r1.next.session_accepted
          | some ps ↦ ps.shares
        ];
        session_rejected = elim r1.next.pool [
          | none ↦ r1.next.session_rejected
          | some ps ↦ ps.reject_count
        ];
        alltime_accepted = a2.alltime_accepted;
        alltime_rejected = a2.alltime_rejected;
        hashrate_history = a3.hr_history;
      } in
      refresh_reward now polls (record { agg = a3; next = next })
