-- ===== src/State/Refresh/Polling.antt =====
-- api/internal/state/aggregator.go: refresh, the calls of ckpool and bitcoind before the lock.
use kamado_pool.Base.{
  ◌-◌, ◌*◌, ◌/◌, ◌%◌, ◌^◌, true, false, not, ◌&&◌, ◌||◌, List, [], ◌∷◌, Option, none, some, String,
  str_eq, ◌==◌, ltb, if◌then◌else◌,
}
use kamado_pool.Base.Word.{Int64, add64, sub64, lt64, le64}
use kamado_pool.Base.Time.{Time, is_zero}
use kamado_pool.Base.Float.{Float64}
use kamado_pool.State.Types.{Aggregator, Snapshot, PoolStats, Worker, BlockchainInfo}
use kamado_pool.State.Refresh.Answers.{
  Reply, answer, failure, Polls, Round, retarget_interval, or_else, empty_snapshot,
}

module _ {F : Type 0} ⦃fl : Float64 F⦄ where
  -- ckpool.DSPSToHashrate
  unfoldable pub dsps_to_hashrate : F → F
  dsps_to_hashrate dsps = fl.mul dsps (fl.of_int (2 ^ 32))

  unfoldable pub poll_stats : Reply (PoolStats F) → Round F → Round F
  poll_stats (answer ps) r = record {
    agg = record r.agg { ck_fail_streak = 0 };
    next = record r.next {
      pool = some ps;
      hashrate_hs = dsps_to_hashrate ps.dsps1;
      hashrate_hs_5m = dsps_to_hashrate ps.dsps5;
      hashrate_hs_1h = dsps_to_hashrate ps.dsps60;
      hashrate_hs_24h = dsps_to_hashrate ps.dsps1440;
      ckpool_ok = true;
    };
  }
  poll_stats (failure e) r = record {
    agg = record r.agg { ck_fail_streak = add64 r.agg.ck_fail_streak 1 };
    next = record r.next { last_error = e };
  }

  unfoldable pub poll_ckpool : Polls F → Round F → Round F
  poll_ckpool polls r =
      let r1 = poll_stats polls.pool_stats r in
      record r1 {
        next = record r1.next {
          uptime = or_else polls.uptime r1.next.uptime;
          workers = or_else polls.workers r1.next.workers;
        };
      }

  -- the answer of getblockchaininfo, and the time since the tip changed
  unfoldable pub poll_chain : Time → Reply (BlockchainInfo F) → Option F → Round F → Round F
  poll_chain now (answer info) nh r =
      let moved = not (info.blocks == r.agg.last_tip_height) in
      let changed_at = if moved then now else r.agg.last_tip_changed_at in
      record {
        agg = record r.agg {
          btc_fail_streak = 0;
          ckpool_killed = false;
          last_tip_height = info.blocks;
          last_tip_changed_at = changed_at;
        };
        next = record r.next {
          chain = some info;
          bitcoin_ok = true;
          tip_changed_age =
              if is_zero changed_at then r.next.tip_changed_age else fl.seconds (now - changed_at);
          network_hashrate_hs = or_else nh r.next.network_hashrate_hs;
        };
      }
  poll_chain now (failure e) nh r = record {
    agg = record r.agg { btc_fail_streak = add64 r.agg.btc_fail_streak 1 };
    next = record r.next {
      last_error = if str_eq r.next.last_error "" then e else r.next.last_error;
    };
  }

  unfoldable pub poll_peers : Option (Int64 × Int64 × Int64) → Snapshot F → Snapshot F
  poll_peers none next = next
  poll_peers (some (all, inbound, outbound)) next = record next {
    peer_count = all;
    peers_in = inbound;
    peers_out = outbound;
  }

  -- if factor > 4 { factor = 4 }; if factor < 0.25 { factor = 0.25 }
  unfoldable pub clamp_factor : F → F
  clamp_factor factor =
      let four = fl.of_int 4 in
      let quarter = fl.div (fl.of_int 1) four in
      let capped = if fl.lt four factor then four else factor in
      if fl.lt capped quarter then quarter else capped

  -- estimateRetargetPercent; 2016 * 600 and 2015 are constants of the source
  unfoldable pub estimate_retarget_percent : Int64 → F → F
  estimate_retarget_percent in_epoch span =
      if le64 in_epoch 0 || fl.le span fl.nought
      then fl.nought
      else (let target = fl.div (fl.of_int 1_209_600) (fl.of_int 2015) in
          let factor = fl.div (fl.mul (fl.of_int in_epoch) target) span in
          fl.mul (fl.sub (clamp_factor factor) (fl.of_int 1)) (fl.of_int 100))

  -- the start of the epoch, looked up when the epoch is another one
  unfoldable pub look_up_start : Polls F → Int64 → Aggregator F → Aggregator F
  look_up_start polls epoch a =
      if not (a.retarget_epoch == epoch) || a.retarget_start_unix == 0
      then elim (polls.block_hash (epoch * retarget_interval)) [
        | none ↦ a
        | some hash ↦ elim (polls.header_time hash) [
          | none ↦ a
          | some time ↦ record a { retarget_epoch = epoch; retarget_start_unix = time }
        ]
      ]
      else a

  -- the time of the tip, looked up when the tip is another one
  unfoldable pub look_up_tip : Polls F → String → Aggregator F → Aggregator F
  look_up_tip polls tip a =
      if not (str_eq tip "") && not (str_eq a.tip_time_hash tip)
      then elim (polls.header_time tip) [
        | none ↦ a
        | some time ↦ record a { tip_time_hash = tip; tip_time_unix = time }
      ]
      else a

  -- the prediction, from the two times
  unfoldable pub predict : Int64 → Aggregator F → Snapshot F → Snapshot F
  predict in_epoch a next =
      if lt64 0 a.retarget_start_unix && lt64 0 a.tip_time_unix
      then (let span = fl.of_int (sub64 a.tip_time_unix a.retarget_start_unix) in
          record next {
            next_difficulty_percent = estimate_retarget_percent in_epoch span;
            epoch_avg_block_seconds =
                if fl.lt fl.nought span
                then fl.div span (fl.of_int in_epoch)
                else next.epoch_avg_block_seconds;
          })
      else next

  unfoldable pub retarget : Polls F → Round F → Round F
  retarget polls r = elim r.next.chain [
    | none ↦ r
    | some info ↦
        let height = info.blocks in
        let in_epoch = height % retarget_interval in
        if lt64 0 height && ltb 0 in_epoch
        then (let started = look_up_start polls (height / retarget_interval) r.agg in
            let a = look_up_tip polls info.best_block_hash started in
            record { agg = a; next = predict in_epoch a r.next })
        else r
  ]

  -- the best difficulty of the workers
  unfoldable pub best_of_workers : List (Worker F) → F → F
  best_of_workers [] best = best
  best_of_workers (w ∷ ws) best =
      let d = if fl.eq w.best_ever fl.nought then w.best_diff else w.best_ever in
      best_of_workers ws (if fl.lt best d then d else best)

  -- the calls before the lock
  unfoldable pub poll : Time → Polls F → Aggregator F → Round F
  poll now polls a =
      let start : Round F = record { agg = a; next = empty_snapshot now } in
      let r1 = poll_chain now polls.chain_info polls.network_hash_ps (poll_ckpool polls start) in
      let r2 = retarget polls (record r1 { next = poll_peers polls.connections r1.next }) in
      record r2 {
        next = record r2.next { best_diff = best_of_workers r2.next.workers r2.next.best_diff };
      }
