-- ===== src/State/Types.antt =====
-- api/internal/state and the records that it reads from ckpool, bitcoind and the log: the data.
-- F is the type of the 64-bit floats.
use kamado_pool.Base.{Bool, List, Option, String}
use kamado_pool.Base.Word.{Int64}
use kamado_pool.Base.Time.{Time}
use kamado_pool.Store.Table.{BlockStore}

-- ckpool.PoolStats, the fields that the aggregator reads
pub record PoolStats (F : Type 0) : Type 0 where
  pub shares : Int64
  pub accepted : Int64
  pub reject_count : Int64
  pub dsps1 : F
  pub dsps5 : F
  pub dsps60 : F
  pub dsps1440 : F

-- ckpool.Worker, the fields that the aggregator reads
pub record Worker (F : Type 0) : Type 0 where
  pub user : String
  pub worker : String
  pub best_diff : F
  pub best_ever : F

-- bitcoind.BlockchainInfo, the fields that the aggregator reads
pub record BlockchainInfo (F : Type 0) : Type 0 where
  pub chain : String
  pub blocks : Int64
  pub best_block_hash : String
  pub difficulty : F

-- bitcoind.BlockVerbose2 and its parts
pub record BlockVout (F : Type 0) : Type 0 where
  pub value : F
  pub address : String

pub record BlockTx (F : Type 0) : Type 0 where
  pub txid : String
  pub vout : List (BlockVout F)

pub record BlockVerbose (F : Type 0) : Type 0 where
  pub hash : String
  pub tx : List (BlockTx F)

-- state.BlockRecord
pub record BlockRecord (F : Type 0) : Type 0 where
  pub height : Int64
  pub hash : String
  pub reward_bt : F
  pub found_at : Time
  pub source : String
  pub share_diff : F
  pub orphaned_at : Option Time
  pub chain : String
  pub miner : String

-- state.HashratePoint
pub record HashratePoint (F : Type 0) : Type 0 where
  pub t : Int64
  pub v : F

-- logmon.PowData
pub record PowData (F : Type 0) : Type 0 where
  pub sdiff : F
  pub net_diff : F
  pub height : Int64
  pub hash : String
  pub header : String
  pub coinbase : String
  pub cb1_len : Int64
  pub merkle_branches : List String
  pub enonce1 : String
  pub nonce2 : String
  pub workername : String

pub record BestSharePow (F : Type 0) : Type 0 where
  pub pow : PowData F
  pub seen_at : Time

-- the events of logmon
pub record BlockEvent (F : Type 0) : Type 0 where
  pub height : Int64
  pub seen_at : Time
  pub raw_line : String
  pub share_diff : F

pub record ShareEvent (F : Type 0) : Type 0 where
  pub seen_at : Time
  pub diff : F
  pub hash : String
  pub rejected : Bool
  pub reason : String
  pub pow : Option (PowData F)

-- [6]int64, the histogram of share difficulties
pub record DiffDist : Type 0 where
  pub b0 : Int64
  pub b1 : Int64
  pub b2 : Int64
  pub b3 : Int64
  pub b4 : Int64
  pub b5 : Int64

abbrev pub empty_dist : DiffDist
empty_dist = record { b0 = 0; b1 = 0; b2 = 0; b3 = 0; b4 = 0; b5 = 0 }

-- state.Snapshot
pub record Snapshot (F : Type 0) : Type 0 where
  pub generated_at : Time
  pub pool : Option (PoolStats F)
  pub uptime : Int64
  pub workers : List (Worker F)
  pub hashrate_hs : F
  pub hashrate_hs_5m : F
  pub hashrate_hs_1h : F
  pub hashrate_hs_24h : F
  pub best_diff : F
  pub best_share_hash : String
  pub best_share_net_diff : F
  pub best_share_pow : Option (BestSharePow F)
  pub acked_best_diff : F
  pub cumulative_shares : F
  pub next_block_reward_btc : F
  pub next_difficulty_percent : F
  pub epoch_avg_block_seconds : F
  pub chain : Option (BlockchainInfo F)
  pub network_hashrate_hs : F
  pub recent_blocks : List (BlockRecord F)
  pub hashrate_history : List (HashratePoint F)
  pub block_submit_attempts : Int64
  pub block_submits_confirmed : Int64
  pub zmq_enabled : Bool
  pub last_zmq_event_age : F
  pub has_last_zmq_event : Bool
  pub tip_changed_age : F
  pub peer_count : Int64
  pub peers_in : Int64
  pub peers_out : Int64
  pub session_accepted : Int64
  pub session_rejected : Int64
  pub alltime_accepted : Int64
  pub alltime_rejected : Int64
  pub reject_reasons : List (String × Int64)
  pub reject_reasons_all : List (String × Int64)
  pub diff_dist : DiffDist
  pub diff_dist_all : DiffDist
  pub avg_diff_session : F
  pub avg_diff_alltime : F
  pub latency_count : Int64
  pub latency_avg_ms : Int64
  pub latency_last_ms : Int64
  pub stale_work_hashes : F
  pub ckpool_ok : Bool
  pub bitcoin_ok : Bool
  pub last_error : String

-- state.Aggregator: the state that its goroutines share under `mu`. `store` is `none` for a nil
-- Store. `pushed` collects the snapshots handed to OnRefresh, newest first.
pub record Aggregator (F : Type 0) : Type 0 where
  pub store : Option (BlockStore F)
  pub log_file_path : String
  pub pushed : List (Snapshot F)
  pub snap : Snapshot F
  pub blocks : List (BlockRecord F)
  pub hr_history : List (HashratePoint F)
  pub last_hr_sample_at : Time
  pub cumulative_shares : F
  pub last_pool_shares : F
  pub has_pool_shares_baseline : Bool
  pub last_cumulative_save : Time
  pub next_block_reward : F
  pub last_template_fetch : Time
  pub retarget_epoch : Int64
  pub retarget_start_unix : Int64
  pub tip_time_hash : String
  pub tip_time_unix : Int64
  pub ck_fail_streak : Int64
  pub btc_fail_streak : Int64
  pub ckpool_killed : Bool
  pub ready : Bool
  pub block_submit_attempts : Int64
  pub block_submits_confirmed : Int64
  pub last_submit_count_save : Time
  pub zmq_enabled : Bool
  pub last_zmq_event_time : Time
  pub last_tip_height : Int64
  pub last_tip_changed_at : Time
  pub alltime_accepted : Int64
  pub alltime_rejected : Int64
  pub last_pool_accepted_raw : Int64
  pub last_pool_rejected_raw : Int64
  pub has_share_count_baseline : Bool
  pub last_share_count_save : Time
  pub latency_count : Int64
  pub latency_sum_ms : Int64
  pub latency_last_ms : Int64
  pub stale_work_hashes : F
  pub notifier_done : Bool
  pub best_diff : F
  pub best_share_hash : String
  pub best_share_net_diff : F
  pub best_pow : Option (BestSharePow F)
  pub rebuilding : Bool
  pub pending_pow : List (String × PowData F)
  pub acked_best_diff : F
  pub session_reject_reasons : List (String × Int64)
  pub alltime_reject_reasons : List (String × Int64)
  pub session_diff_dist : DiffDist
  pub alltime_diff_dist : DiffDist
  pub session_diff_count : Int64
  pub alltime_diff_count : Int64
  pub session_diff_sum : F
  pub alltime_diff_sum : F
  pub last_share_stats_save : Time
  pub stats_loaded : Bool
