-- ===== src/State/Blocks.antt =====
-- api/internal/state/blocks.go: the block history, the log events and the latency counters; with
-- the coinbase fields of api/internal/bitcoind/rpc.go.
use Prim.Native.Char.{code}
use Prim.Native.String.{◌++◌ as str_append}
use kamado_pool.Base.{
  ℕ, ◌-◌, ◌*◌, Bool, true, false, not, List, [], ◌∷◌, ◌++◌, map, Option, none, some, String, str_eq,
  ◌==◌, if◌then◌else◌, length, drop,
}
use mathlib.Core.List.{reverse}
use kamado_pool.Base.Word.{Int64, add64}
use kamado_pool.Base.Time.{Time, second, is_zero, elapsed}
use kamado_pool.Base.Float.{Float64}
use kamado_pool.Store.Table.{BlockStore}
use kamado_pool.Store.Blocks.{Block, insert_block, recent, set_kv}
use kamado_pool.State.Types.{
  Aggregator, Snapshot, BlockchainInfo, BlockVerbose, BlockVout, BlockTx, BlockRecord, BlockEvent,
  Worker,
}
use kamado_pool.State.Codec.{Codec}
use kamado_pool.State.Shares.{save_kv}
pub mod History
pub mod Replay

-- The answers of the node while one event or one sweep is handled; `none` is an error.
pub record Rpc (F : Type 0) : Type 0 where
  pub get_block_hash : Int64 → Option String
  pub get_block : String → Option (BlockVerbose F)

abbrev pub max_block_history : ℕ
max_block_history = 256

-- wAddr[:dot], the part before the first dot, or all of it
unfoldable pub before_dot : String → String
before_dot String.[] = String.[]
before_dot (String.◌∷◌ c s) = if code c == b'.' then String.[] else String.◌∷◌ c (before_dot s)

-- timePtr
abbrev pub time_ptr : Time → Option Time
time_ptr t = if is_zero t then none else some t

module _ {F : Type 0} ⦃fl : Float64 F⦄ where
  sum_values : F → List (BlockVout F) → F
  sum_values total [] = total
  sum_values total (o ∷ os) = sum_values (fl.add total o.value) os

  unfoldable pub coinbase_reward : BlockVerbose F → F
  unfolding sum_values
  coinbase_reward b = elim b.tx [ [] ↦ fl.nought | tx ∷ _ ↦ sum_values fl.nought tx.vout ]

module _ {F : Type 0} where
  first_address : List (BlockVout F) → String
  first_address [] = ""
  first_address (o ∷ os) = o.address

  unfoldable pub coinbase_address : BlockVerbose F → String
  unfolding first_address
  coinbase_address b = elim b.tx [ [] ↦ "" | tx ∷ _ ↦ first_address tx.vout ]

  find_worker : String → List (Worker F) → String
  find_worker addr [] = addr
  find_worker addr (w ∷ ws) =
      if str_eq (before_dot w.user) addr
      then str_append w.user (str_append "." w.worker)
      else find_worker addr ws

  unfoldable pub miner_from_coinbase : List (Worker F) → String → String
  unfolding find_worker
  miner_from_coinbase workers addr = if str_eq addr "" then "" else find_worker addr workers

  -- a.snap.Chain.Chain, or "" before the first refresh
  abbrev pub chain_name : Option (BlockchainInfo F) → String
  chain_name none = ""
  chain_name (some c) = c.chain

  -- the newest `max_block_history` records
  unfoldable pub append_block : BlockRecord F → Aggregator F → Aggregator F
  append_block rec a =
      let all = a.blocks ++ (rec ∷ []) in
      let kept = drop (length all - max_block_history) all in
      record a { blocks = kept; snap = record a.snap { recent_blocks = kept } }

  -- a.OnRefresh(snap)
  abbrev pub push : Snapshot F → Aggregator F → Aggregator F
  push snap a = record a { pushed = snap ∷ a.pushed }

  unfoldable pub to_record : Block F → BlockRecord F
  to_record b = record {
    height = b.height;
    hash = b.hash;
    reward_bt = b.reward_bt;
    found_at = b.found_at;
    source = b.source;
    share_diff = b.share_diff;
    orphaned_at = time_ptr b.orphaned_at;
    chain = b.chain;
    miner = b.miner;
  }

  -- The store returns newest first; the history is newest last.
  unfoldable pub load_persisted_blocks : Aggregator F → Aggregator F
  load_persisted_blocks a = elim a.store [
    | none ↦ a
    | some s ↦
        let (s', rows) = recent max_block_history s in
        elim rows [
          | none ↦ record a { store = some s' }
          | some bs ↦
              let recs = map to_record (reverse bs) in
              if is_zero a.snap.generated_at
              then record a { store = some s'; blocks = recs }
              else record a {
                store = some s';
                blocks = recs;
                snap = record a.snap { recent_blocks = recs };
              }
        ]
  ]

  -- Blocks and BlocksFromStore
  unfoldable pub blocks_of : Aggregator F → List (BlockRecord F)
  blocks_of a = a.blocks

  unfoldable pub blocks_from_store : Aggregator F → List (BlockRecord F)
  blocks_from_store a = elim a.store [
    | none ↦ []
    | some s ↦ elim (recent max_block_history s).1 [
      | none ↦ []
      | some bs ↦ map to_record (reverse bs)
    ]
  ]

  -- IngestAttemptEvents, one event
  unfoldable pub ingest_attempt : Codec F → Time → Aggregator F → Aggregator F
  ingest_attempt codec now a =
      let n = add64 a.block_submit_attempts 1 in
      let a1 : Aggregator F = record a { block_submit_attempts = n } in
      elim a.store [
        | none ↦ a1
        | some _ ↦
            if elapsed now a.last_submit_count_save (30 * second)
            then save_kv "block_submit_attempts" (codec.format_int n)
                (record a1 { last_submit_count_save = now })
            else a1
      ]

module _ {F : Type 0} where
  abbrev pub to_block : BlockRecord F → Block F
  to_block rec = record {
    height = rec.height;
    hash = rec.hash;
    reward_bt = rec.reward_bt;
    found_at = rec.found_at;
    source = rec.source;
    share_diff = rec.share_diff;
    orphaned_at = 0;
    chain = rec.chain;
    miner = rec.miner;
  }

  -- the insertion, and whether the block counts as new: also if there is no store, or on an error
  unfoldable pub persist_block : BlockRecord F → Aggregator F → Aggregator F × Bool
  persist_block rec a = elim a.store [
    | none ↦ (a, true)
    | some s ↦
        let (s', inserted) = insert_block (to_block rec) s in
        (record a { store = some s' }, elim inserted [ none ↦ true | some b ↦ b ])
  ]

module _ {F : Type 0} ⦃fl : Float64 F⦄ where
  -- the record of a block event, before the node is asked
  abbrev pub event_record : Aggregator F → BlockEvent F → BlockRecord F
  event_record a ev = record {
    height = ev.height;
    hash = "";
    reward_bt = fl.nought;
    found_at = ev.seen_at;
    source = "logmon";
    share_diff = ev.share_diff;
    orphaned_at = none;
    chain = chain_name a.snap.chain;
    miner = "";
  }

  -- with the hash, the reward and the miner, as far as the node answers
  unfoldable pub look_up : Rpc F → List (Worker F) → BlockRecord F → BlockRecord F
  look_up rpc workers rec = elim (rpc.get_block_hash rec.height) [
    | none ↦ rec
    | some hash ↦ elim (rpc.get_block hash) [
      | none ↦ record rec { hash = hash }
      | some blk ↦ record rec {
        hash = hash;
        reward_bt = coinbase_reward blk;
        miner = miner_from_coinbase workers (coinbase_address blk);
      }
    ]
  ]

module _ {F : Type 0} ⦃fl : Float64 F⦄ (codec : Codec F) where
  -- IngestLatencyEvents, one event
  unfoldable pub ingest_latency : Int64 → Aggregator F → Aggregator F
  ingest_latency ms a =
      let wasted = fl.mul (fl.div (fl.of_int ms) (fl.of_int 1000)) a.snap.hashrate_hs_5m in
      let a1 : Aggregator F = record a {
        latency_count = add64 a.latency_count 1;
        latency_sum_ms = add64 a.latency_sum_ms ms;
        latency_last_ms = ms;
        stale_work_hashes = fl.add a.stale_work_hashes wasted;
        notifier_done = true;
      } in
      save_kv "stale_work_hashes" (codec.format_float a1.stale_work_hashes) (
        save_kv "latency_last_ms" (codec.format_int ms) (
          save_kv "latency_sum_ms" (codec.format_int a1.latency_sum_ms)
            (save_kv "latency_count" (codec.format_int a1.latency_count) a1)))

  unfoldable pub reset_latency : Aggregator F → Aggregator F
  reset_latency a = save_kv "stale_work_hashes" "0" (
      save_kv "latency_last_ms" "0" (
        save_kv "latency_sum_ms" "0" (
          save_kv "latency_count" "0" (record a {
            latency_count = 0;
            latency_sum_ms = 0;
            latency_last_ms = 0;
            stale_work_hashes = fl.nought;
          }))))

  -- the counter, the history and the push of a new block
  unfoldable pub record_block : BlockRecord F → Aggregator F → Aggregator F
  record_block rec a =
      let confirmed = add64 a.block_submits_confirmed 1 in
      let a1 : Aggregator F = record a { block_submits_confirmed = confirmed } in
      let a2 =
        append_block rec (save_kv "block_submits_confirmed" (codec.format_int confirmed) a1) in
      push a2.snap a2

  -- IngestBlockEvents, one event; `none` for a nil RPC
  unfoldable pub ingest_block : Option (Rpc F) → BlockEvent F → Aggregator F → Aggregator F
  ingest_block rpc ev a =
      let seen = event_record a ev in
      let rec : BlockRecord F = elim rpc [
        | none ↦ seen
        | some node ↦ look_up node a.snap.workers seen
      ] in
      let (a1, is_new) = persist_block rec a in if is_new then record_block rec a1 else a1

  -- the events of the channel, each with the node's answers to it
  unfoldable pub ingest_blocks : List (Option (Rpc F) × BlockEvent F) → Aggregator F → Aggregator F
  ingest_blocks [] a = a
  ingest_blocks ((rpc, ev) ∷ evs) a = ingest_blocks evs (ingest_block rpc ev a)
