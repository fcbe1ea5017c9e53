-- ===== src/State/Reconcile.antt =====
-- api/internal/state/blocks.go: reconcileOnce, the periodic sweep over the recorded blocks.
use kamado_pool.Base.{
  ℕ, ◌-◌, ◌*◌, Bool, true, false, not, ◌&&◌, ◌||◌, List, [], ◌∷◌, Option, none, some, String,
  str_eq, ltb, if◌then◌else◌,
}
use kamado_pool.Base.Time.{Time, second, is_zero}
use kamado_pool.Base.Float.{Float64}
use kamado_pool.Store.Table.{BlockStore}
use kamado_pool.Store.Blocks.{
  Block, recent, blocks_needing_enrichment, update_enrichment, mark_orphaned, unmark_orphaned,
  unmark_orphaned_stamp_chain, stamp_chain,
}
use kamado_pool.State.Types.{Aggregator, Worker, BlockVerbose}
use kamado_pool.State.Blocks.{
  Rpc, coinbase_reward, coinbase_address, miner_from_coinbase, chain_name, load_persisted_blocks,
  push,
}
pub mod Columns
pub mod Orphans
pub mod Verdict

abbrev pub reconcile_lookback : ℕ
reconcile_lookback = 24 * 60 * 60 * second

unfoldable pub infer_other_chain : String → String
infer_other_chain current =
    if str_eq current "main"
    then "testnet4"
    else if str_eq current "testnet4"
    then "main"
    else "other"

-- The database, and whether a pass has changed a row.
pub record Sweep (F : Type 0) : Type 0 where
  pub store : BlockStore F
  pub changed : Bool

module _ {F : Type 0} where
  -- if err := a.Store.…; err != nil { continue }; changed = true
  abbrev pub attempt : (BlockStore F → BlockStore F × Bool) → Sweep F → Sweep F
  attempt statement w =
      let (s, ok) = statement w.store in
      record { store = s; changed = if ok then true else w.changed }

  -- for _, b := range bs
  unfoldable pub for_each : (Block F → Sweep F → Sweep F) → List (Block F) → Sweep F → Sweep F
  for_each body [] w = w
  for_each body (b ∷ bs) w = for_each body bs (body b w)

  -- b.Chain != "" && b.Chain != currentChain
  abbrev pub is_foreign : String → Block F → Bool
  is_foreign current b = not (str_eq b.chain "") && not (str_eq b.chain current)

  abbrev pub other_chain : String → Block F → String
  other_chain current b = if str_eq b.chain "" then infer_other_chain current else b.chain

module _ {F : Type 0} ⦃fl : Float64 F⦄ (rpc : Rpc F) (current : String) where
  -- hash, reward and miner of a block, where they are missing; `none` if the hash cannot be had
  unfoldable pub enrichment : List (Worker F) → Block F → Option (String × F × String)
  enrichment workers b =
      let found = if str_eq b.hash "" then rpc.get_block_hash b.height else some b.hash in
      elim found [
        | none ↦ none
        | some hash ↦
            let kept : String × F × String = (hash, b.reward_bt, b.miner) in
            if (fl.eq b.reward_bt fl.nought || str_eq b.miner "") && not (str_eq hash "")
            then elim (rpc.get_block hash) [
              | none ↦ some kept
              | some blk ↦ some (
                hash,
                if fl.eq b.reward_bt fl.nought then coinbase_reward blk else b.reward_bt,
                if str_eq b.miner ""
                    then miner_from_coinbase workers (coinbase_address blk)
                    else b.miner,
              )
            ]
            else some kept
      ]

  -- pass 1
  unfoldable pub enrich : List (Worker F) → Block F → Sweep F → Sweep F
  enrich workers b w = if is_foreign current b then w else elim (enrichment workers b) [
    | none ↦ w
    | some (hash, reward, miner) ↦
        if not (str_eq hash b.hash) || not (fl.eq reward b.reward_bt) || not (str_eq miner b.miner)
        then attempt (update_enrichment b.height hash reward miner) w
        else w
  ]

module _ {F : Type 0} (rpc : Rpc F) (current : String) where
  -- pass 2, once the canonical hash is another one
  unfoldable pub mismatch : Time → Block F → Sweep F → Sweep F
  mismatch now b w = elim (rpc.get_block b.hash) [
    | none ↦ attempt (stamp_chain b.height (other_chain current b)) w
    | some _ ↦ attempt (mark_orphaned b.height now) w
  ]

  -- pass 2
  unfoldable pub detect : Time → Time → Block F → Sweep F → Sweep F
  detect since now b w =
      if str_eq b.hash "" || not (is_zero b.orphaned_at)
      then w
      else if ltb b.found_at since
      then w
      else if is_foreign current b
      then w
      else elim (rpc.get_block_hash b.height) [
        | none ↦ w
        | some canonical ↦ if str_eq canonical b.hash then w else mismatch now b w
      ]

  -- pass 3, for a block of this network or of none
  unfoldable pub recheck : Block F → Sweep F → Sweep F
  recheck b w = elim (rpc.get_block b.hash) [
    | none ↦
        attempt
          (unmark_orphaned_stamp_chain b.height (
            if str_eq b.chain "" || str_eq b.chain current
            then infer_other_chain current
            else b.chain))
          w
    | some _ ↦ elim (rpc.get_block_hash b.height) [
      | none ↦ w
      | some canonical ↦ if str_eq canonical b.hash then attempt (unmark_orphaned b.height) w else w
    ]
  ]

  -- pass 3
  unfoldable pub restore : Time → Block F → Sweep F → Sweep F
  restore since b w =
      if is_zero b.orphaned_at || str_eq b.hash ""
      then w
      else if ltb b.found_at since
      then w
      else if is_foreign current b
      then attempt (unmark_orphaned b.height) w
      else recheck b w

  -- pass 4
  unfoldable pub stamp : Block F → Sweep F → Sweep F
  stamp b w =
      if not (str_eq b.chain "") && not (str_eq b.chain "other") && not (str_eq b.chain "test")
        || str_eq b.hash ""
      then w
      else elim (rpc.get_block b.hash) [
        | none ↦ attempt (stamp_chain b.height (infer_other_chain current)) w
        | some _ ↦ attempt (stamp_chain b.height current) w
      ]

module _ {F : Type 0} (rpc : Rpc F) where
  -- passes 2 to 4, over the blocks as they were read after pass 1
  unfoldable pub passes : String → Time → Time → List (Block F) → Sweep F → Sweep F
  passes current since now bs w =
      for_each (stamp rpc current) bs
        (for_each (restore rpc current since) bs (for_each (detect rpc current since now) bs w))

module _ {F : Type 0} ⦃fl : Float64 F⦄ (rpc : Rpc F) where
  -- pass 1 with its query; on an error it has no blocks
  unfoldable pub enrich_missing : String → List (Worker F) → Time → BlockStore F → Sweep F
  enrich_missing current workers since s =
      let (s', missing) = blocks_needing_enrichment since s in
      let w : Sweep F = record { store = s'; changed = false } in
      elim missing [ none ↦ w | some bs ↦ for_each (enrich rpc current workers) bs w ]

  -- reconcileOnce, at the time `now`
  unfoldable pub reconcile_once : Time → Aggregator F → Aggregator F
  reconcile_once now a = elim a.store [
    | none ↦ a
    | some s ↦
        let since = now - reconcile_lookback in
        let current = chain_name a.snap.chain in
        if str_eq current ""
        then a
        else (let w1 = enrich_missing current a.snap.workers since s in
            let (s', blocks) = recent 64 w1.store in
            elim blocks [
              | none ↦ record a { store = some s' }
              | some bs ↦
                  let w : Sweep F = record { store = s'; changed = w1.changed } in
                  let w2 = passes rpc current since now bs w in
                  let a2 : Aggregator F = record a { store = some w2.store } in
                  if w2.changed
                  then (let a3 = load_persisted_blocks a2 in
                      elim a3.snap.recent_blocks [ [] ↦ a3 | _ ∷ _ ↦ push a3.snap a3 ])
                  else a2
            ])
  ]

module _ {F : Type 0} ⦃fl : Float64 F⦄ where
  -- the ticks of ReconcileBlocks: what the node answers in each, and the time
  unfoldable pub reconcile_ticks : List (Rpc F × Time) → Aggregator F → Aggregator F
  reconcile_ticks [] a = a
  reconcile_ticks ((rpc, now) ∷ ticks) a = reconcile_ticks ticks (reconcile_once rpc now a)

  -- ReconcileBlocks, until the context ends
  unfoldable pub reconcile_blocks : List (Rpc F × Time) → Aggregator F → Aggregator F
  reconcile_blocks ticks a = elim a.store [ none ↦ a | some s ↦ reconcile_ticks ticks a ]
