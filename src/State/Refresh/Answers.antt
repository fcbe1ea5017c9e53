-- ===== src/State/Refresh/Answers.antt =====
-- api/internal/state/aggregator.go: what a round of refresh gets from ckpool and bitcoind, and the
-- snapshot in the making.
use kamado_pool.Base.{ℕ, ◌*◌, Bool, false, List, [], Option, none, some, String}
use kamado_pool.Base.Word.{Int64}
use kamado_pool.Base.Time.{Time, second}
use kamado_pool.Base.Float.{Float64}
use kamado_pool.State.Types.{Aggregator, Snapshot, PoolStats, Worker, BlockchainInfo, empty_dist}

-- A call's answer, or the text of its error.
pub data Reply (A : Type 0) : Type 0 where
  answer : A → Reply A
  failure : String → Reply A

-- What ckpool, bitcoind and KillCKPool answer in a round. `none` is an error, and no KillCKPool for
-- `kill`, whose flag is `err == nil`.
pub record Polls (F : Type 0) : Type 0 where
  pub pool_stats : Reply (PoolStats F)
  pub uptime : Option Int64
  pub workers : Option (List (Worker F))
  pub chain_info : Reply (BlockchainInfo F)
  pub network_hash_ps : Option F
  pub connections : Option (Int64 × Int64 × Int64)
  pub block_hash : Int64 → Option String
  pub header_time : String → Option Int64
  pub coinbase_value : Option Int64
  pub kill : Option Bool

pub record Round (F : Type 0) : Type 0 where
  pub agg : Aggregator F
  pub next : Snapshot F

abbrev pub minute : ℕ
minute = 60 * second

abbrev pub retarget_interval : ℕ
retarget_interval = 2016

abbrev pub max_history_points : ℕ
max_history_points = 1440

abbrev pub or_else : {A : Type 0} → Option A → A → A
or_else none old = old
or_else (some x) old = x

module _ {F : Type 0} ⦃fl : Float64 F⦄ where
  unfoldable pub empty_snapshot : Time → Snapshot F
  empty_snapshot now = record {
    generated_at = now;
    pool = none;
    uptime = 0;
    workers = [];
    hashrate_hs = fl.nought;
    hashrate_hs_5m = fl.nought;
    hashrate_hs_1h = fl.nought;
    hashrate_hs_24h = fl.nought;
    best_diff = fl.nought;
    best_share_hash = "";
    best_share_net_diff = fl.nought;
    best_share_pow = none;
    acked_best_diff = fl.nought;
    cumulative_shares = fl.nought;
    next_block_reward_btc = fl.nought;
    next_difficulty_percent = fl.nought;
    epoch_avg_block_seconds = fl.nought;
    chain = none;
    network_hashrate_hs = fl.nought;
    recent_blocks = [];
    hashrate_history = [];
    block_submit_attempts = 0;
    block_submits_confirmed = 0;
    zmq_enabled = false;
    last_zmq_event_age = fl.nought;
    has_last_zmq_event = false;
    tip_changed_age = fl.nought;
    peer_count = 0;
    peers_in = 0;
    peers_out = 0;
    session_accepted = 0;
    session_rejected = 0;
    alltime_accepted = 0;
    alltime_rejected = 0;
    reject_reasons = [];
    reject_reasons_all = [];
    diff_dist = empty_dist;
    diff_dist_all = empty_dist;
    avg_diff_session = fl.nought;
    avg_diff_alltime = fl.nought;
    latency_count = 0;
    latency_avg_ms = 0;
    latency_last_ms = 0;
    stale_work_hashes = fl.nought;
    ckpool_ok = false;
    bitcoin_ok = false;
    last_error = "";
  }
  -- ckpool.DSPSToHashrate
