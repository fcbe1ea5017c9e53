-- ===== src/Store/Samples.antt =====
-- api/internal/store/blocks.go: the hashrate samples.
use kamado_pool.Base.{Bool, not, List, [], ◌∷◌, ◌++◌, Option, ◌==◌, if◌then◌else◌}
use kamado_pool.Base.Word.{Int64, lt64, le64}
use kamado_pool.Store.Table.{HashratePoint, BlockStore, exec, query, where_rows, order_by, any_row}

module _ {F : Type 0} where
  -- INSERT OR IGNORE
  unfoldable pub insert_hashrate_sample : Int64 → F → BlockStore F → BlockStore F × Bool
  insert_hashrate_sample t v = exec λ s.
      if any_row (λ p. p.t == t) s.samples
      then s
      else record s { samples = s.samples ++ (record { t = t; v = v } ∷ []) }

  -- DELETE … WHERE t < cutoff
  unfoldable pub prune_hashrate_before : Int64 → BlockStore F → BlockStore F × Bool
  prune_hashrate_before cutoff =
      exec λ s. record s { samples = where_rows (λ p. not (lt64 p.t cutoff)) s.samples }

  -- oldest first
  unfoldable pub hashrate_since :
      Int64 → BlockStore F → BlockStore F × Option (List (HashratePoint F))
  hashrate_since from =
      query λ s. order_by (λ x y. lt64 x.t y.t) (where_rows (λ p. le64 from p.t) s.samples)
