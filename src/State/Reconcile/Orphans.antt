-- ===== src/State/Reconcile/Orphans.antt =====
-- Passes 2 to 4 row by row: each row gets the verdict on the block read for its height.
use mathlib.Core.Option
use kamado_pool.Base.{
  ◌≡◌, ◌≢◌, refl, sym, ◌∙◌, ap, not, ◌||◌, List, [], ◌∷◌, ◌++◌, Option, none, some, String, str_eq,
  arith, ltb, if◌then◌else◌, All,
}
use kamado_pool.Base.Word.{Int64}
use kamado_pool.Base.Time.{Time, unix, is_zero}
use kamado_pool.Store.Table.{BlockStore, Row, update_where, find_row}
use kamado_pool.Store.Blocks.{
  Block, has_height, update_blocks, mark_orphaned, unmark_orphaned, unmark_orphaned_stamp_chain,
  stamp_chain,
}
use kamado_pool.State.Blocks.{Rpc}
use kamado_pool.State.Reconcile.{
  infer_other_chain, Sweep, attempt, for_each, is_foreign, other_chain, mismatch, detect, recheck,
  restore, stamp, passes,
}

-- What a pass does to the row of a block: nothing, or a change of columns.
abbrev pub Change : Type 0 → Type 0
Change F = Option (Row F → Row F)

module _ {F : Type 0} where
  abbrev pub orphan_at : Time → Row F → Row F
  orphan_at t r = record r { orphaned_at = unix t }

  abbrev pub clear_orphan : Row F → Row F
  clear_orphan r = record r { orphaned_at = 0 }

  abbrev pub set_chain : String → Row F → Row F
  set_chain c r = record r { chain = c }

  abbrev pub on_row : Change F → Row F → Row F
  on_row none r = r
  on_row (some f) r = f r

  abbrev apply : Block F → Change F → Sweep F → Sweep F
  apply b none w = w
  apply b (some f) w = attempt (update_blocks b.height f) w

  -- the row of a height
  abbrev pub row_at : Int64 → BlockStore F → Option (Row F)
  row_at h s = find_row (has_height h) s.blocks

  -- changes that keep the height
  abbrev KeepsHeight : Change F → Type 0
  KeepsHeight c = (r : Row F) → (on_row c r).height ≡ r.height

  find-update_own :
      (h : Int64) (f : Row F → Row F) (rs : List (Row F))
      → ((r : Row F) → (f r).height ≡ r.height)
      → find_row (has_height h) (update_where (has_height h) f rs)
        ≡ Option.map f (find_row (has_height h) rs)
  unfolding find_row update_where
  find-update_own h f [] e = refl
  find-update_own h f (r ∷ rs) e = ground (arith, e r, find-update_own h f rs e)

  find-update_other :
      (h k : Int64) (f : Row F → Row F) (rs : List (Row F))
      → h ≢ k
      → ((r : Row F) → (f r).height ≡ r.height)
      → find_row (has_height h) (update_where (has_height k) f rs) ≡ find_row (has_height h) rs
  unfolding find_row update_where
  find-update_other h k f [] ne e = refl
  find-update_other h k f (r ∷ rs) ne e = ground (arith, e r, find-update_other h k f rs ne e)

module _ {F : Type 0} (rpc : Rpc F) (current : String) where
  -- The verdict of pass 2: a block of this network, found since `since`, that is not orphaned and has
  -- a hash, where the node has another hash at its height.
  unfoldable pub detect_change : Time → Time → Block F → Change F
  detect_change since now b =
      if str_eq b.hash ""
        || not (is_zero b.orphaned_at)
        || ltb b.found_at since
        || is_foreign current b
      then none
      else elim (rpc.get_block_hash b.height) [
        | none ↦ none
        | some canonical ↦ if str_eq canonical b.hash then none else elim (rpc.get_block b.hash) [
          | none ↦ some (set_chain (other_chain current b))
          | some _ ↦ some (orphan_at now)
        ]
      ]

  -- The verdict of pass 3, on an orphaned block.
  unfoldable pub restore_change : Time → Block F → Change F
  restore_change since b =
      if is_zero b.orphaned_at || str_eq b.hash "" || ltb b.found_at since
      then none
      else if is_foreign current b
      then some clear_orphan
      else elim (rpc.get_block b.hash) [
        | none ↦ some (λ r. record r {
          orphaned_at = 0;
          chain =
              if str_eq b.chain "" || str_eq b.chain current
              then infer_other_chain current
              else b.chain;
        })
        | some _ ↦ elim (rpc.get_block_hash b.height) [
          | none ↦ none
          | some canonical ↦ if str_eq canonical b.hash then some clear_orphan else none
        ]
      ]

  -- The verdict of pass 4, on a block with no proper chain name.
  unfoldable pub stamp_change : Block F → Change F
  stamp_change b =
      if not (str_eq b.chain "" || str_eq b.chain "other" || str_eq b.chain "test")
        || str_eq b.hash ""
      then none
      else elim (rpc.get_block b.hash) [
        | none ↦ some (set_chain (infer_other_chain current))
        | some _ ↦ some (set_chain current)
      ]

  detect-apply :
      (since now : Time) (b : Block F) (w : Sweep F)
      → detect rpc current since now b w ≡ apply b (detect_change since now b) w
  unfolding detect mismatch detect_change mark_orphaned stamp_chain
  detect-apply since now b w = ground arith

  restore-apply :
      (since : Time) (b : Block F) (w : Sweep F)
      → restore rpc current since b w ≡ apply b (restore_change since b) w
  unfolding restore recheck restore_change unmark_orphaned unmark_orphaned_stamp_chain
  restore-apply since b w = ground arith

  stamp-apply : (b : Block F) (w : Sweep F) → stamp rpc current b w ≡ apply b (stamp_change b) w
  unfolding stamp stamp_change stamp_chain
  stamp-apply b w = ground arith

  detect-KeepsHeight : (since now : Time) (b : Block F) → KeepsHeight (detect_change since now b)
  unfolding detect_change
  detect-KeepsHeight since now b r = ground arith

  restore-KeepsHeight : (since : Time) (b : Block F) → KeepsHeight (restore_change since b)
  unfolding restore_change
  restore-KeepsHeight since b r = ground arith

  stamp-KeepsHeight : (b : Block F) → KeepsHeight (stamp_change b)
  unfolding stamp_change
  stamp-KeepsHeight b r = ground arith

-- A pass that applies a change to each block's row.
module _ {F : Type 0} (body : Block F → Sweep F → Sweep F) (change : Block F → Change F)
    (applies : (b : Block F) (w : Sweep F) → body b w ≡ apply b (change b) w)
    (keeps : (b : Block F) → KeepsHeight (change b)) where
  map-id : (o : Option (Row F)) → Option.map (on_row none) o ≡ o
  map-id none = refl
  map-id (some r) = refl

  apply_own :
      (b : Block F) (c : Change F) (w : Sweep F)
      → KeepsHeight c
      → w.store.faults ≡ []
      → ((apply b c w).store.faults ≡ [])
        × (row_at b.height (apply b c w).store ≡ Option.map (on_row c) (row_at b.height w.store))
  unfolding update_blocks
  apply_own b none w k e = (e, sym (map-id (row_at b.height w.store)))
  apply_own b (some f) w k e = ground (arith, find-update_own b.height f w.store.blocks k)

  apply_other :
      (h : Int64) (b : Block F) (c : Change F) (w : Sweep F)
      → KeepsHeight c
      → w.store.faults ≡ []
      → h ≢ b.height
      → ((apply b c w).store.faults ≡ []) × (row_at h (apply b c w).store ≡ row_at h w.store)
  unfolding update_blocks
  apply_other h b none w k e ne = (e, refl)
  apply_other h b (some f) w k e ne =
      ground (arith, find-update_other h b.height f w.store.blocks ne k)

  run_other :
      (h : Int64) (bs : List (Block F)) (w : Sweep F)
      → w.store.faults ≡ []
      → All (λ b. h ≢ b.height) bs
      → ((for_each body bs w).store.faults ≡ [])
        × (row_at h (for_each body bs w).store ≡ row_at h w.store)
  unfolding for_each
  run_other h [] w e _ = (e, refl)
  run_other h (b ∷ bs) w e (ne, nes) =
      let (e', same) = apply_other h b (change b) w (keeps b) e ne in
      let (e2, rest) = run_other h bs (apply b (change b) w) e' nes in
      rw (applies b w, for_each) (e2, rest ∙ same)

  run_own :
      (xs : List (Block F)) (b : Block F) (ys : List (Block F)) (w : Sweep F)
      → w.store.faults ≡ []
      → All (λ x. b.height ≢ x.height) xs
      → All (λ y. b.height ≢ y.height) ys
      → ((for_each body (xs ++ (b ∷ ys)) w).store.faults ≡ [])
        × (row_at b.height (for_each body (xs ++ (b ∷ ys)) w).store
            ≡ Option.map (on_row (change b)) (row_at b.height w.store))
  unfolding for_each
  run_own [] b ys w e _ ny =
      let (e', own) = apply_own b (change b) w (keeps b) e in
      let (e2, rest) = run_other b.height ys (apply b (change b) w) e' ny in
      rw (applies b w, for_each) (e2, rest ∙ own)
  run_own (x ∷ xs) b ys w e (nx, nxs) ny =
      let (e', same) = apply_other b.height x (change x) w (keeps x) e nx in
      let (e2, own) = run_own xs b ys (apply x (change x) w) e' nxs ny in
      rw (applies x w, for_each) (e2, own ∙ ap (Option.map (on_row (change b))) same)

map-map3 {ℓ} :
    {A : Type ℓ} (f g h : A → A) (o : Option A)
    → Option.map f (Option.map g (Option.map h o)) ≡ Option.map (λ a. f (g (h a))) o
map-map3 f g h none = refl
map-map3 f g h (some a) = refl

module _ {F : Type 0} (rpc : Rpc F) (current : String) (since now : Time) where
  -- The three verdicts in turn; each is on the block as it was read before pass 2.
  unfoldable pub verdict : Block F → Row F → Row F
  verdict b r = on_row (stamp_change rpc current b) (
      on_row (restore_change rpc current since b)
        (on_row (detect_change rpc current since now b) r))

  -- Where no statement of the store fails and the blocks read after pass 1 have distinct heights,
  -- passes 2 to 4 give the row of each block read the verdict on that block, and nothing else: the
  -- other blocks of the list do not interfere, though all passes work on the same old copy.
  pub passes-verdict :
      (xs : List (Block F)) (b : Block F) (ys : List (Block F)) (w : Sweep F)
      → w.store.faults ≡ []
      → All (λ x. b.height ≢ x.height) xs
      → All (λ y. b.height ≢ y.height) ys
      → row_at b.height (passes rpc current since now (xs ++ (b ∷ ys)) w).store
        ≡ Option.map (verdict b) (row_at b.height w.store)
  unfolding passes verdict
  passes-verdict xs b ys w e nx ny =
      let bs = xs ++ (b ∷ ys) in
      let w2 = for_each (detect rpc current since now) bs w in
      let w3 = for_each (restore rpc current since) bs w2 in
      let (e2, first) =
        run_own (detect rpc current since now) (detect_change rpc current since now)
          (detect-apply rpc current since now) (detect-KeepsHeight rpc current since now) xs b ys w
          e nx ny in
      let (e3, second) =
        run_own (restore rpc current since) (restore_change rpc current since)
          (restore-apply rpc current since) (restore-KeepsHeight rpc current since) xs b ys w2 e2 nx
          ny in
      let (e4, third) =
        run_own (stamp rpc current) (stamp_change rpc current) (stamp-apply rpc current)
          (stamp-KeepsHeight rpc current) xs b ys w3 e3 nx ny in
      third
      ∙ ap (Option.map (on_row (stamp_change rpc current b)))
          (second ∙ ap (Option.map (on_row (restore_change rpc current since b))) first)
      ∙ map-map3 _ _ _ (row_at b.height w.store)
