-- ===== src/State/Reconcile/Verdict.antt =====
-- What the passes leave in the orphan column and in the chain column of a watched block.
use mathlib.Core.Option
use kamado_pool.Base.{
  ℕ, ◌≡◌, ◌≢◌, ◌∙◌, ap, true, false, List, [], ◌∷◌, ◌++◌, Option, none, some, String, str_eq,
  eq_iff, arith, ltb, if◌then◌else◌, All,
}
use kamado_pool.Base.Time.{Time, unix, is_zero}
use kamado_pool.Store.Table.{Row, update_where}
use kamado_pool.Store.Blocks.{Block, has_height, update_blocks, stamp_chain}
use kamado_pool.State.Types.{BlockVerbose}
use kamado_pool.State.Blocks.{Rpc}
use kamado_pool.State.Reconcile.{Sweep, is_foreign, mismatch, detect, passes}
use kamado_pool.State.Reconcile.Orphans.{
  row_at, detect_change, restore_change, stamp_change, verdict, passes-verdict,
}

module _ {F : Type 0} (rpc : Rpc F) (current : String) (since now : Time) where
  -- what the sweep knows of a block: young enough, with a hash, and of this network or unstamped
  pub record IsWatched (b : Block F) : Type 0 where
    pub has_hash : str_eq b.hash "" ≡ false
    pub young : ltb b.found_at since ≡ false
    pub local : is_foreign current b ≡ false

  -- The orphan column of a block that passes 2 and 3 watch, from the node's hash at its height and
  -- from whether the node knows the block.
  abbrev pub column : Block F → Option String → Option (BlockVerbose F) → ℕ → ℕ
  column b at known old =
      if is_zero b.orphaned_at
      then elim at [
        | none ↦ old
        | some h ↦ if str_eq h b.hash then old else elim known [ none ↦ old | some _ ↦ unix now ]
      ]
      else elim known [
        | none ↦ 0
        | some _ ↦ elim at [ none ↦ old | some h ↦ if str_eq h b.hash then 0 else old ]
      ]

  verdict_lem :
      (b : Block F) (r : Row F)
      → IsWatched b
      → (verdict rpc current since now b r).orphaned_at
        ≡ column b (rpc.get_block_hash b.height) (rpc.get_block b.hash) r.orphaned_at
  unfolding verdict detect_change restore_change stamp_change
  verdict_lem b r w = ground arith

  -- What passes 2 to 4 leave in the orphan column of a block of this network that is young enough and
  -- has a hash, where no statement of the store fails and the other blocks read have other heights.
  -- Not orphaned before: it becomes the time of the sweep if the node has another hash at the height
  -- and knows the block, and stays otherwise. Orphaned before: it is cleared if the node does not know
  -- the block, or knows it and has its hash at the height, and stays otherwise.
  pub passes-orphaned_at :
      (xs : List (Block F)) (b : Block F) (ys : List (Block F)) (w : Sweep F) (r : Row F)
      → w.store.faults ≡ []
      → All (λ x. b.height ≢ x.height) xs
      → All (λ y. b.height ≢ y.height) ys
      → IsWatched b
      → row_at b.height w.store ≡ some r
      → Option.map Row.orphaned_at
          (row_at b.height (passes rpc current since now (xs ++ (b ∷ ys)) w).store)
        ≡ some (column b (rpc.get_block_hash b.height) (rpc.get_block b.hash) r.orphaned_at)
  passes-orphaned_at xs b ys w r e nx ny v at =
      ap (Option.map Row.orphaned_at) (
        passes-verdict rpc current since now xs b ys w e nx ny
        ∙ ap (Option.map (verdict rpc current since now b)) at)
      ∙ ap some (verdict_lem b r v)

  -- A block of the current network whose hash the node does not know, at a height where the node has
  -- another hash, is stamped by pass 2 with its old chain name, that of the current network itself,
  -- and counts as changed, where no statement of the store fails.
  pub detect-restamps :
      (b : Block F) (h : String) (w : Sweep F)
      → IsWatched b
      → is_zero b.orphaned_at ≡ true
      → b.chain ≡ current
      → current ≢ ""
      → rpc.get_block_hash b.height ≡ some h
      → h ≢ b.hash
      → rpc.get_block b.hash ≡ none
      → w.store.faults ≡ []
      → let w' = detect rpc current since now b w in
        (w'.changed ≡ true)
        × (w'.store.blocks
            ≡ update_where (has_height b.height) (λ r. record r { chain = b.chain }) w.store.blocks)
  unfolding detect mismatch stamp_chain update_blocks
  detect-restamps b h w v live same named at ne unknown none_fail =
      let other = eq_iff h b.hash in
      let unnamed = eq_iff b.chain "" in ground (arith, other, unnamed)
