-- ===== src/Store/Blocks.antt =====
-- api/internal/store/blocks.go: the found blocks and the key-value table.
use kamado_pool.Base.{
  ℕ, Bool, not, ◌&&◌, ◌||◌, List, [], ◌∷◌, ◌++◌, map, Option, none, some, String, str_eq, ◌==◌,
  if◌then◌else◌, take,
}
use kamado_pool.Base.Word.{Int64, lt64, le64}
use kamado_pool.Base.Time.{Time, unix, of_unix}
use kamado_pool.Base.Float.{Float64}
use kamado_pool.Store.Table.{
  Row, BlockStore, exec, query, where_rows, order_by, any_row, find_row, update_where,
}

-- store.Block: a zero orphaned_at means not orphaned
pub record Block (F : Type 0) : Type 0 where
  pub height : Int64
  pub hash : String
  pub reward_bt : F
  pub found_at : Time
  pub source : String
  pub share_diff : F
  pub orphaned_at : Time
  pub chain : String
  pub miner : String

module _ {F : Type 0} where
  -- the row that InsertBlock writes; the column orphaned_at has its default
  unfoldable pub new_row : Block F → Row F
  new_row b = record {
    height = b.height;
    hash = b.hash;
    reward_btc = b.reward_bt;
    found_at = unix b.found_at;
    source = b.source;
    share_diff = b.share_diff;
    orphaned_at = 0;
    chain = b.chain;
    miner = b.miner;
  }

  abbrev pub has_height : Int64 → Row F → Bool
  has_height h r = r.height == h

  -- INSERT OR IGNORE: the result is (inserted, nil), or `none` for an error
  unfoldable pub insert_block : Block F → BlockStore F → BlockStore F × Option Bool
  insert_block b s =
      let taken = any_row (has_height b.height) s.blocks in
      let (s', ok) =
        exec (λ t. if taken then t else record t { blocks = t.blocks ++ (new_row b ∷ []) }) s in
      (s', if ok then some (not taken) else none)

  -- rows.Scan into a Block
  unfoldable pub scan_row : Row F → Block F
  scan_row r = record {
    height = r.height;
    hash = r.hash;
    reward_bt = r.reward_btc;
    found_at = of_unix r.found_at;
    source = r.source;
    share_diff = r.share_diff;
    orphaned_at = if lt64 0 r.orphaned_at then of_unix r.orphaned_at else 0;
    chain = r.chain;
    miner = r.miner;
  }

  abbrev pub newer : Row F → Row F → Bool
  newer x y = lt64 y.height x.height

  -- Recent: `limit` blocks at most, newest first
  unfoldable pub recent : ℕ → BlockStore F → BlockStore F × Option (List (Block F))
  recent limit =
      let n : ℕ = if limit == 0 then 256 else limit in
      query (λ s. map scan_row (take n (order_by newer s.blocks)))

  -- UPDATE blocks SET … WHERE height = ?
  unfoldable pub update_blocks : Int64 → (Row F → Row F) → BlockStore F → BlockStore F × Bool
  update_blocks height set =
      exec λ s. record s { blocks = update_where (has_height height) set s.blocks }

  unfoldable pub update_enrichment :
      Int64 → String → F → String → BlockStore F → BlockStore F × Bool
  update_enrichment height hash reward miner =
      update_blocks height λ r. record r { hash = hash; reward_btc = reward; miner = miner }

  unfoldable pub mark_orphaned : Int64 → Time → BlockStore F → BlockStore F × Bool
  mark_orphaned height at = update_blocks height λ r. record r { orphaned_at = unix at }

  unfoldable pub unmark_orphaned : Int64 → BlockStore F → BlockStore F × Bool
  unmark_orphaned height = update_blocks height λ r. record r { orphaned_at = 0 }

  unfoldable pub unmark_orphaned_stamp_chain : Int64 → String → BlockStore F → BlockStore F × Bool
  unmark_orphaned_stamp_chain height chain =
      update_blocks height λ r. record r { orphaned_at = 0; chain = chain }

  unfoldable pub stamp_chain : Int64 → String → BlockStore F → BlockStore F × Bool
  stamp_chain height chain = update_blocks height λ r. record r { chain = chain }

  -- GetKV: "" for an absent key, `none` for an error
  unfoldable pub get_kv : String → BlockStore F → BlockStore F × Option String
  get_kv key = query λ s. elim (find_row (λ (e : String × String). str_eq e.0 key) s.kv) [
    | none ↦ ""
    | some e ↦ e.1
  ]

-- INSERT … ON CONFLICT(key) DO UPDATE
unfoldable pub upsert : String → String → List (String × String) → List (String × String)
upsert key value [] = (key, value) ∷ []
upsert key value ((k, v) ∷ kv) =
    if str_eq k key then (k, value) ∷ kv else (k, v) ∷ upsert key value kv

unfoldable pub set_kv : {F : Type 0} → String → String → BlockStore F → BlockStore F × Bool
set_kv key value = exec λ s. record s { kv = upsert key value s.kv }

module _ {F : Type 0} ⦃fl : Float64 F⦄ where
  -- the WHERE clause of BlocksNeedingEnrichment
  unfoldable pub lacks_data : Time → Row F → Bool
  lacks_data since r =
      le64 (unix since) r.found_at
      && (str_eq r.hash "" || fl.eq r.reward_btc fl.nought || str_eq r.miner "")

  unfoldable pub blocks_needing_enrichment :
      Time → BlockStore F → BlockStore F × Option (List (Block F))
  blocks_needing_enrichment since = query λ s.
      map scan_row
        (order_by (λ x y. lt64 x.height y.height) (where_rows (lacks_data since) s.blocks))
