-- ===== src/Tests/Sweeps.antt =====
-- The sweep over recorded blocks at a concrete table.
use mathlib.Core.Option
use kamado_pool.Base.{ℕ, ◌≡◌, ◌≢◌, refl, false, [], ◌∷◌, map, some, arith, String, str_eq, eq_iff}
use kamado_pool.Base.Time.{of_unix}
use kamado_pool.Store.Table.{Row, find_row}
use kamado_pool.Store.Blocks.{Block, scan_row}
use kamado_pool.State.Reconcile.{Sweep, passes, reconcile_blocks}
use kamado_pool.State.Reconcile.Columns.{event_of, reconcile_blocks-keeps}
use kamado_pool.State.Reconcile.Orphans.{row_at, verdict, passes-verdict}
use kamado_pool.State.Reconcile.Verdict.{IsWatched, column, passes-orphaned_at}
use kamado_pool.State.Blocks.Replay.{rows_of}
use kamado_pool.Tests.Data.{whole, start, node, old_row, db}

abbrev block : Block ℕ
block = scan_row old_row

abbrev sweep : Sweep ℕ
sweep = record { store = db; changed = false }

reconcile_blocks-keeps_example :
    map event_of (rows_of (reconcile_blocks ((node, 1_000) ∷ (node, 2_000) ∷ []) start).store)
    ≡ map event_of (old_row ∷ [])
reconcile_blocks-keeps_example = reconcile_blocks-keeps ((node, 1_000) ∷ (node, 2_000) ∷ []) start

passes-verdict_example :
    row_at block.height (passes node "main" 0 1_000 (block ∷ []) sweep).store
    ≡ some (verdict node "main" 0 1_000 block old_row)
unfolding find_row scan_row
passes-verdict_example = passes-verdict node "main" 0 1_000 [] block [] sweep refl tt tt

texts_differ : (s t : String) → str_eq s t ≡ false → s ≢ t
texts_differ s t h e = let same = (eq_iff s t).1 e in ground arith

watched : IsWatched node "main" 0 1_000 block
unfolding scan_row of_unix
watched = record { has_hash = refl; young = refl; local = refl }

passes-orphaned_at_example :
    Option.map Row.orphaned_at
      (row_at block.height (passes node "main" 0 1_000 (block ∷ []) sweep).store)
    ≡ some
        (column node "main" 0 1_000 block (some "new") (some (record { hash = "old"; tx = [] })) 0)
unfolding scan_row find_row
passes-orphaned_at_example =
    passes-orphaned_at node "main" 0 1_000 [] block [] sweep old_row refl tt tt watched refl
