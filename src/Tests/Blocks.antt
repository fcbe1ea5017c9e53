-- ===== src/Tests/Blocks.antt =====
-- Block events at a concrete aggregator.
use kamado_pool.Base.{ℕ, ◌≡◌, refl, inl, List, [], ◌∷◌, Option, none, some, arith}
use kamado_pool.State.Types.{BlockEvent}
use kamado_pool.State.Blocks.{Rpc, ingest_block, ingest_blocks}
use kamado_pool.State.Blocks.History.{IsHistory, ingest_blocks-IsHistory}
use kamado_pool.State.Blocks.Replay.{
  IsFaultless, IsCounted, ingest_block-replay, ingest_blocks-IsCounted,
}
use kamado_pool.State.Refresh.{empty_snapshot}
use kamado_pool.Tests.Data.{whole, codec, start, node, db}

abbrev found : BlockEvent ℕ
found = record {
  height = 10;
  seen_at = 7;
  raw_line = "Solved and confirmed block 10";
  share_diff = 8;
}

abbrev events : List (Option (Rpc ℕ) × BlockEvent ℕ)
events = (none, found) ∷ (some node, record found { height = 9 }) ∷ []

start-IsHistory : IsHistory start
unfolding empty_snapshot
start-IsHistory = record { bounded = omega arith; shown = inl refl }

start-IsFaultless : IsFaultless start
start-IsFaultless = record { store = db; is_store = refl; no_faults = refl }

ingest_blocks-IsHistory_example : IsHistory (ingest_blocks codec events start)
ingest_blocks-IsHistory_example = ingest_blocks-IsHistory codec events start start-IsHistory

ingest_block-replay_example :
    ingest_block codec (some node) found (ingest_block codec none found start)
    ≡ ingest_block codec none found start
ingest_block-replay_example =
    ingest_block-replay codec none (some node) found found start start-IsFaultless refl

ingest_blocks-IsCounted_example : IsCounted start (ingest_blocks codec events start)
ingest_blocks-IsCounted_example = ingest_blocks-IsCounted codec events start start-IsFaultless
