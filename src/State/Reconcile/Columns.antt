-- ===== src/State/Reconcile/Columns.antt =====
-- What a sweep never touches: which rows there are, and the columns of the log event.
use kamado_pool.Base.{
  ℕ, ◌-◌, ◌≡◌, refl, ◌∙◌, Bool, true, false, List, [], ◌∷◌, map, some, String, arith, inl, inr,
  Option-cases,
}
use kamado_pool.Base.Word.{Int64}
use kamado_pool.Base.Time.{Time}
use kamado_pool.Base.Float.{Float64}
use kamado_pool.Store.Table.{BlockStore, Row, update_where, exec_on}
use kamado_pool.Store.Blocks.{
  Block, has_height, update_blocks, recent, blocks_needing_enrichment, update_enrichment,
  mark_orphaned, unmark_orphaned, unmark_orphaned_stamp_chain, stamp_chain,
}
use kamado_pool.State.Types.{Aggregator, Worker}
use kamado_pool.State.Blocks.{Rpc, chain_name, load_persisted_blocks}
use kamado_pool.State.Blocks.Replay.{rows_of}
use kamado_pool.State.Reconcile.{
  reconcile_lookback, Sweep, for_each, enrich, mismatch, detect, recheck, restore, stamp,
  infer_other_chain, other_chain, enrichment, passes, enrich_missing, reconcile_once,
  reconcile_ticks, reconcile_blocks,
}

-- The columns that only the log event fills.
pub record Event (F : Type 0) : Type 0 where
  pub height : Int64
  pub found_at : Int64
  pub source : String
  pub share_diff : F

abbrev pub event_of : {F : Type 0} → Row F → Event F
event_of r = record {
  height = r.height;
  found_at = r.found_at;
  source = r.source;
  share_diff = r.share_diff;
}

-- The same rows in the same order, as far as those columns go.
abbrev pub Keeps : {F : Type 0} → BlockStore F → BlockStore F → Type 0
Keeps s s' = map event_of s'.blocks ≡ map event_of s.blocks

module _ {F : Type 0} where
  map-update_where :
      (test : Row F → Bool) (f : Row F → Row F) (rs : List (Row F))
      → ((r : Row F) → event_of (f r) ≡ event_of r)
      → map event_of (update_where test f rs) ≡ map event_of rs
  unfolding update_where
  map-update_where test f [] h = refl
  map-update_where test f (r ∷ rs) h = ground (arith, h r, map-update_where test f rs h)

  -- a statement of the store that keeps the rows, failing or not
  abbrev KeepsRows : (BlockStore F → BlockStore F × Bool) → Type 0
  KeepsRows statement = (s : BlockStore F) → Keeps s (statement s).0

  exec_on-Keeps :
      (f : BlockStore F → BlockStore F) (h : (s : BlockStore F) → Keeps s (f s)) (s : BlockStore F)
      (faults : List Bool)
      → Keeps s (exec_on f s faults).0
  exec_on-Keeps f h s [] = h s
  exec_on-Keeps f h s (true ∷ later) = refl
  exec_on-Keeps f h s (false ∷ later) = h (record s { faults = later })

  update_blocks-keeps :
      (h : Int64) (f : Row F → Row F)
      → ((r : Row F) → event_of (f r) ≡ event_of r)
      → KeepsRows (update_blocks h f)
  unfolding update_blocks
  update_blocks-keeps h f e s =
      exec_on-Keeps (λ t. record t { blocks = update_where (has_height h) f t.blocks })
        (λ t. map-update_where (has_height h) f t.blocks e) s s.faults

  update_enrichment-keeps :
      (h : Int64) (hash : String) (reward : F) (miner : String)
      → KeepsRows (update_enrichment h hash reward miner)
  unfolding update_enrichment
  update_enrichment-keeps h hash reward miner s = update_blocks-keeps h _ (λ r. refl) s

  mark_orphaned-keeps : (h : Int64) (at : Time) → KeepsRows (mark_orphaned h at)
  unfolding mark_orphaned
  mark_orphaned-keeps h at s = update_blocks-keeps h _ (λ r. refl) s

  unmark_orphaned-keeps : (h : Int64) → KeepsRows (unmark_orphaned h)
  unfolding unmark_orphaned
  unmark_orphaned-keeps h s = update_blocks-keeps h _ (λ r. refl) s

  unmark_orphaned_stamp_chain-keeps :
      (h : Int64) (chain : String) → KeepsRows (unmark_orphaned_stamp_chain h chain)
  unfolding unmark_orphaned_stamp_chain
  unmark_orphaned_stamp_chain-keeps h chain s = update_blocks-keeps h _ (λ r. refl) s

  stamp_chain-keeps : (h : Int64) (chain : String) → KeepsRows (stamp_chain h chain)
  unfolding stamp_chain
  stamp_chain-keeps h chain s = update_blocks-keeps h _ (λ r. refl) s

  recent-Keeps : (n : ℕ) (s : BlockStore F) → Keeps s (recent n s).0
  unfolding recent
  recent-Keeps n s = ground arith

  -- a step of a pass that keeps the rows
  abbrev KeepsSweep : (Block F → Sweep F → Sweep F) → Type 0
  KeepsSweep body = (b : Block F) (w : Sweep F) → Keeps w.store (body b w).store

  for_each-Keeps :
      (body : Block F → Sweep F → Sweep F)
      → KeepsSweep body
      → (bs : List (Block F)) (w : Sweep F) → Keeps w.store (for_each body bs w).store
  unfolding for_each
  for_each-Keeps body h [] w = refl
  for_each-Keeps body h (b ∷ bs) w = for_each-Keeps body h bs (body b w) ∙ h b w

module _ {F : Type 0} (rpc : Rpc F) (current : String) where
  detect-keeps : (since now : Time) → KeepsSweep (detect rpc current since now)
  unfolding detect mismatch
  detect-keeps since now b w = ground (
    arith,
    mark_orphaned-keeps b.height now w.store,
    stamp_chain-keeps b.height (other_chain current b) w.store,
  )

  restore-keeps : (since : Time) → KeepsSweep (restore rpc current since)
  unfolding restore recheck
  restore-keeps since b w = ground (
    arith,
    unmark_orphaned-keeps b.height w.store,
    unmark_orphaned_stamp_chain-keeps b.height (infer_other_chain current) w.store,
    unmark_orphaned_stamp_chain-keeps b.height b.chain w.store,
  )

  stamp-keeps : KeepsSweep (stamp rpc current)
  unfolding stamp
  stamp-keeps b w = ground (
    arith,
    stamp_chain-keeps b.height (infer_other_chain current) w.store,
    stamp_chain-keeps b.height current w.store,
  )

module _ {F : Type 0} ⦃fl : Float64 F⦄ (rpc : Rpc F) where
  enrich-keeps :
      (current : String) (workers : List (Worker F)) → KeepsSweep (enrich rpc current workers)
  unfolding enrich
  enrich-keeps current workers b w = elim (Option-cases (enrichment rpc current workers b)) [
    | inl e ↦ ground arith
    | inr ((hash, reward, miner), e) ↦
        ground (arith, update_enrichment-keeps b.height hash reward miner w.store)
  ]

  missing-Keeps : (since : Time) (s : BlockStore F) → Keeps s (blocks_needing_enrichment since s).0
  unfolding blocks_needing_enrichment
  missing-Keeps since s = ground arith

  enrich_missing-Keeps :
      (current : String) (workers : List (Worker F)) (since : Time) (s : BlockStore F)
      → Keeps s (enrich_missing rpc current workers since s).store
  unfolding enrich_missing
  enrich_missing-Keeps current workers since s =
      let (s', missing) = blocks_needing_enrichment since s in
      let w : Sweep F = record { store = s'; changed = false } in
      elim (Option-cases missing) [
        | inl e ↦ ground (arith, missing-Keeps since s)
        | inr (bs, e) ↦ ground (
          arith,
          missing-Keeps since s,
          for_each-Keeps (enrich rpc current workers) (enrich-keeps current workers) bs w,
        )
      ]

  passes-Keeps :
      (current : String) (since now : Time) (bs : List (Block F)) (w : Sweep F)
      → Keeps w.store (passes rpc current since now bs w).store
  unfolding passes
  passes-Keeps current since now bs w =
      let w2 = for_each (detect rpc current since now) bs w in
      let w3 = for_each (restore rpc current since) bs w2 in
      for_each-Keeps _ (stamp-keeps rpc current) bs w3
      ∙ for_each-Keeps _ (restore-keeps rpc current since) bs w2
      ∙ for_each-Keeps _ (detect-keeps rpc current since now) bs w

  load-keeps :
      (a : Aggregator F)
      → map event_of (rows_of (load_persisted_blocks a).store) ≡ map event_of (rows_of a.store)
  unfolding load_persisted_blocks
  load-keeps a = elim (Option-cases a.store) [
    | inl e ↦ ground arith
    | inr (s, e) ↦ ground (arith, recent-Keeps 256 s)
  ]

  -- a sweep
  pub reconcile_once-keeps :
      (now : Time) (a : Aggregator F)
      → map event_of (rows_of (reconcile_once rpc now a).store) ≡ map event_of (rows_of a.store)
  unfolding reconcile_once
  reconcile_once-keeps now a = elim (Option-cases a.store) [
    | inl e ↦ ground arith
    | inr (s, e) ↦
        let since = now - reconcile_lookback in
        let current = chain_name a.snap.chain in
        let w1 = enrich_missing rpc current a.snap.workers since s in
        let read = recent 64 w1.store in
        let first = enrich_missing-Keeps current a.snap.workers since s in
        elim (Option-cases read.1) [
          | inl f ↦ ground (arith, first, recent-Keeps 64 w1.store)
          | inr (bs, f) ↦
              let w : Sweep F = record { store = read.0; changed = w1.changed } in
              let w2 = passes rpc current since now bs w in
              ground (
                arith,
                first,
                recent-Keeps 64 w1.store,
                passes-Keeps current since now bs w,
                load-keeps (record a { store = some w2.store }),
              )
        ]
  ]

module _ {F : Type 0} ⦃fl : Float64 F⦄ where
  reconcile_ticks-keeps :
      (ticks : List (Rpc F × Time)) (a : Aggregator F)
      → map event_of (rows_of (reconcile_ticks ticks a).store) ≡ map event_of (rows_of a.store)
  unfolding reconcile_ticks
  reconcile_ticks-keeps [] a = refl
  reconcile_ticks-keeps ((rpc, now) ∷ ticks) a =
      reconcile_ticks-keeps ticks (reconcile_once rpc now a) ∙ reconcile_once-keeps rpc now a

  -- Whatever the node answers at each tick and whichever statements of the store fail, the sweeps of
  -- ReconcileBlocks neither add nor remove a row, nor change the height, the time found, the source or
  -- the share difficulty of one.
  pub reconcile_blocks-keeps :
      (ticks : List (Rpc F × Time)) (a : Aggregator F)
      → map event_of (rows_of (reconcile_blocks ticks a).store) ≡ map event_of (rows_of a.store)
  unfolding reconcile_blocks
  reconcile_blocks-keeps ticks a = elim (Option-cases a.store) [
    | inl e ↦ ground (arith, e)
    | inr (s, e) ↦ ground (arith, e, reconcile_ticks-keeps ticks a)
  ]
