-- ===== src/State/Blocks/History.antt =====
-- The block history in memory: its bound, and the copy in the snapshot.
use kamado_pool.Base.{
  ◌-◌, ◌≤◌, ◌≡◌, refl, true, List, [], ◌∷◌, ◌++◌, map, Option, none, some, arith, ◌⊎◌, inl, inr,
  Option-cases, length, take, length-drop, length-map, length-reverse, length-take-le,
}
use mathlib.Core.List.{reverse}
use kamado_pool.Base.Time.{is_zero}
use kamado_pool.Base.Float.{Float64}
use kamado_pool.Store.Table.{BlockStore, order_by}
use kamado_pool.Store.Blocks.{Block, recent, scan_row, newer}
use kamado_pool.State.Types.{Aggregator, BlockRecord, BlockEvent}
use kamado_pool.State.Codec.{Codec}
use kamado_pool.State.Blocks.{
  Rpc, max_block_history, append_block, load_persisted_blocks, to_record, look_up, event_record,
  persist_block, record_block, ingest_block, ingest_blocks,
}

-- The history is bounded, and the snapshot shows it, once there is a snapshot.
pub record IsHistory {F : Type 0} (a : Aggregator F) : Type 0 where
  pub bounded : length a.blocks ≤ 256
  pub shown : (is_zero a.snap.generated_at ≡ true) ⊎ (a.snap.recent_blocks ≡ a.blocks)

module _ {F : Type 0} where
  append_block-IsHistory : (rec : BlockRecord F) (a : Aggregator F) → IsHistory (append_block rec a)
  unfolding append_block
  append_block-IsHistory rec a =
      let all = a.blocks ++ (rec ∷ []) in
      record { bounded = omega (arith, length-drop (length all - 256) all); shown = inr refl }

  recent-bound :
      (s : BlockStore F) (bs : List (Block F))
      → (recent max_block_history s).1 ≡ some bs
      → length bs ≤ 256
  unfolding recent
  recent-bound s bs e =
      let rows = order_by newer s.blocks in
      ground (arith, length-map (take 256 rows) scan_row, length-take-le 256 rows)

  loaded-bound :
      (s : BlockStore F) (bs : List (Block F))
      → (recent max_block_history s).1 ≡ some bs
      → length (map to_record (reverse bs)) ≤ 256
  loaded-bound s bs e =
      omega (arith, length-map (reverse bs) to_record, length-reverse bs, recent-bound s bs e)

  -- Reloading the history from the store, with a failing query too, keeps the history at 256 records
  -- at most and the snapshot's copy equal to it, unless there was no refresh yet.
  pub load_persisted_blocks-IsHistory :
      (a : Aggregator F) → IsHistory a → IsHistory (load_persisted_blocks a)
  unfolding load_persisted_blocks
  load_persisted_blocks-IsHistory a h = elim (Option-cases a.store) [
    | inl e ↦ ground arith
    | inr (s, e) ↦ elim (Option-cases (recent max_block_history s).1) [
      | inl f ↦ ground arith
      | inr (bs, f) ↦ ground (arith, loaded-bound s bs f)
    ]
  ]

module _ {F : Type 0} ⦃fl : Float64 F⦄ (codec : Codec F) where
  record_block-IsHistory :
      (rec : BlockRecord F) (a : Aggregator F) → IsHistory (record_block codec rec a)
  unfolding record_block
  record_block-IsHistory rec a =
      let h = append_block-IsHistory rec _ in record { bounded = h.bounded; shown = h.shown }

  persist_block-IsHistory :
      (rec : BlockRecord F) (a : Aggregator F) → IsHistory a → IsHistory (persist_block rec a).0
  unfolding persist_block
  persist_block-IsHistory rec a h = ground arith

  ingest_block-IsHistory :
      (rpc : Option (Rpc F)) (ev : BlockEvent F) (a : Aggregator F)
      → IsHistory a
      → IsHistory (ingest_block codec rpc ev a)
  unfolding ingest_block
  ingest_block-IsHistory none ev a h =
      let rec = event_record a ev in
      ground
        (arith, persist_block-IsHistory rec a h, record_block-IsHistory rec (persist_block rec a).0)
  ingest_block-IsHistory (some node) ev a h =
      let rec = look_up node a.snap.workers (event_record a ev) in
      ground
        (arith, persist_block-IsHistory rec a h, record_block-IsHistory rec (persist_block rec a).0)

  -- Any sequence of block events, whatever the node answers and whichever statements of the store
  -- fail, keeps the history at 256 records at most and the snapshot's copy equal to it, unless there
  -- was no refresh yet.
  pub ingest_blocks-IsHistory :
      (evs : List (Option (Rpc F) × BlockEvent F)) (a : Aggregator F)
      → IsHistory a
      → IsHistory (ingest_blocks codec evs a)
  unfolding ingest_blocks
  ingest_blocks-IsHistory [] a h = h
  ingest_blocks-IsHistory ((rpc, ev) ∷ evs) a h =
      ingest_blocks-IsHistory evs (ingest_block codec rpc ev a) (ingest_block-IsHistory rpc ev a h)
