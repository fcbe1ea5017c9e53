-- ===== src/Tests/Data.antt =====
-- Data for the tests: floats that are whole numbers, texts in place of JSON, and an aggregator before
-- its first event.
use kamado_pool.Base.{
  ℕ, ◌+◌, ◌-◌, ◌*◌, ◌/◌, ◌^◌, true, false, [], ◌∷◌, none, some, ◌==◌, ltb, leb, arith,
}
use kamado_pool.Base.Float.{Float64, IsOrdered}
use kamado_pool.Store.Table.{BlockStore, Row}
use kamado_pool.State.Types.{Aggregator, empty_dist}
use kamado_pool.State.Codec.{Codec}
use kamado_pool.State.Blocks.{Rpc}
use kamado_pool.State.Refresh.{Polls, answer, failure, empty_snapshot}

instance abbrev pub whole : Float64 ℕ
whole = record {
  nought = 0;
  lt = ltb;
  le = leb;
  eq = λ a b. a == b;
  add = λ a b. a + b;
  sub = λ a b. a - b;
  mul = λ a b. a * b;
  div = λ a b. a / b;
  ceil = λ a. a;
  of_int = λ a. a;
  to_int = λ a. a;
  max_float = 10 ^ 30;
  seconds = λ n. n / 10 ^ 9;
  sci = λ k e. k * 10 ^ e;
}

pub whole-IsOrdered : IsOrdered whole
whole-IsOrdered = record { lt_irrefl = λ x. ground arith; lt_trans = λ x y z h k. ground arith }

abbrev pub codec : Codec ℕ
codec = record {
  format_float = λ x. "f";
  parse_float = λ t. none;
  format_int = λ x. "i";
  parse_int = λ t. none;
  marshal_pow = λ p. some "{}";
  unmarshal_pow = λ t. none;
  marshal_reasons = λ r. some "{}";
  unmarshal_reasons = λ t. none;
  marshal_dist = λ d. some "{}";
  unmarshal_dist = λ t. none;
}

-- a block of height 9 in the table
abbrev pub old_row : Row ℕ
old_row = record {
  height = 9;
  hash = "old";
  reward_btc = 3;
  found_at = 100;
  source = "log";
  share_diff = 7;
  orphaned_at = 0;
  chain = "main";
  miner = "m";
}

abbrev pub db : BlockStore ℕ
db = record { blocks = old_row ∷ []; samples = []; kv = []; boosted = []; faults = [] }

abbrev pub start : Aggregator ℕ
start = record {
  store = some db;
  log_file_path = "ckpool.log";
  pushed = [];
  snap = empty_snapshot 0;
  blocks = [];
  hr_history = [];
  last_hr_sample_at = 0;
  cumulative_shares = 0;
  last_pool_shares = 0;
  has_pool_shares_baseline = false;
  last_cumulative_save = 0;
  next_block_reward = 0;
  last_template_fetch = 0;
  retarget_epoch = 0;
  retarget_start_unix = 0;
  tip_time_hash = "";
  tip_time_unix = 0;
  ck_fail_streak = 0;
  btc_fail_streak = 0;
  ckpool_killed = false;
  ready = false;
  block_submit_attempts = 0;
  block_submits_confirmed = 0;
  last_submit_count_save = 0;
  zmq_enabled = false;
  last_zmq_event_time = 0;
  last_tip_height = 0;
  last_tip_changed_at = 0;
  alltime_accepted = 0;
  alltime_rejected = 0;
  last_pool_accepted_raw = 0;
  last_pool_rejected_raw = 0;
  has_share_count_baseline = false;
  last_share_count_save = 0;
  latency_count = 0;
  latency_sum_ms = 0;
  latency_last_ms = 0;
  stale_work_hashes = 0;
  notifier_done = false;
  best_diff = 0;
  best_share_hash = "";
  best_share_net_diff = 0;
  best_pow = none;
  rebuilding = false;
  pending_pow = [];
  acked_best_diff = 0;
  session_reject_reasons = [];
  alltime_reject_reasons = [];
  session_diff_dist = empty_dist;
  alltime_diff_dist = empty_dist;
  session_diff_count = 0;
  alltime_diff_count = 0;
  session_diff_sum = 0;
  alltime_diff_sum = 0;
  last_share_stats_save = 0;
  stats_loaded = false;
}

-- a node on another branch, which knows every hash
abbrev pub node : Rpc ℕ
node = record {
  get_block_hash = λ h. some "new";
  get_block = λ h. some (record { hash = h; tx = [] });
}

-- a node that knows no block
abbrev pub stranger : Rpc ℕ
stranger = record { get_block_hash = λ h. some "new"; get_block = λ h. none }

-- a round in which ckpool answers and bitcoind does not
abbrev pub outage : Polls ℕ
outage = record {
  pool_stats = answer (record {
    shares = 5;
    accepted = 50;
    reject_count = 1;
    dsps1 = 1;
    dsps5 = 1;
    dsps60 = 1;
    dsps1440 = 1;
  });
  uptime = some 60;
  workers = some (record { user = "u"; worker = "u.rig"; best_diff = 40; best_ever = 0 } ∷ []);
  chain_info = failure "timeout";
  network_hash_ps = none;
  connections = none;
  block_hash = λ h. none;
  header_time = λ h. none;
  coinbase_value = none;
  kill = some true;
}
