-- ===== src/Store/Table.antt =====
-- api/internal/store: the schema, and what the SQL clauses in the code mean over lists of rows.
use kamado_pool.Base.{
  Bool, true, false, List, [], ◌∷◌, Option, none, some, String, ◌||◌, if◌then◌else◌,
}
use kamado_pool.Base.Word.{Int64}

-- A row of `blocks`; the times are Unix seconds, and orphaned_at is 0 while unset.
pub record Row (F : Type 0) : Type 0 where
  pub height : Int64
  pub hash : String
  pub reward_btc : F
  pub found_at : Int64
  pub source : String
  pub share_diff : F
  pub orphaned_at : Int64
  pub chain : String
  pub miner : String

-- A row of `hashrate_samples`
pub record HashratePoint (F : Type 0) : Type 0 where
  pub t : Int64
  pub v : F

-- A row of `boosted_txs`
pub record BoostedTx (F : Type 0) : Type 0 where
  pub txid : String
  pub original_feerate : F
  pub boosted_feerate : F
  pub fee_delta : Int64
  pub vsize : Int64
  pub boosted_at : Int64

-- The database. `faults` says of each coming statement whether it fails; past its end none does.
pub record BlockStore (F : Type 0) : Type 0 where
  pub blocks : List (Row F)
  pub samples : List (HashratePoint F)
  pub kv : List (String × String)
  pub boosted : List (BoostedTx F)
  pub faults : List Bool

module _ {F : Type 0} where
  -- db.Exec: the flag is `err == nil`, and a failed statement changes nothing
  abbrev pub exec_on :
      (BlockStore F → BlockStore F) → BlockStore F → List Bool → BlockStore F × Bool
  exec_on statement s [] = (statement s, true)
  exec_on statement s (true ∷ later) = (record s { faults = later }, false)
  exec_on statement s (false ∷ later) = (statement (record s { faults = later }), true)

  abbrev pub exec : (BlockStore F → BlockStore F) → BlockStore F → BlockStore F × Bool
  exec statement s = exec_on statement s s.faults

module _ {ℓ} {F : Type 0} {A : Type ℓ} where
  -- db.Query: `none` is an error
  abbrev pub query_on : (BlockStore F → A) → BlockStore F → List Bool → BlockStore F × Option A
  query_on select s [] = (s, some (select s))
  query_on select s (true ∷ later) = (record s { faults = later }, none)
  query_on select s (false ∷ later) = (record s { faults = later }, some (select s))

  abbrev pub query : (BlockStore F → A) → BlockStore F → BlockStore F × Option A
  query select s = query_on select s s.faults

module _ {A : Type 0} where
  -- WHERE
  unfoldable pub where_rows : (A → Bool) → List A → List A
  where_rows test [] = []
  where_rows test (r ∷ rs) = let rest = where_rows test rs in if test r then r ∷ rest else rest

  -- ORDER BY: `before` compares the keys, and rows with equal keys keep their order
  unfoldable pub insert_by : (A → A → Bool) → A → List A → List A
  insert_by before r [] = r ∷ []
  insert_by before r (x ∷ xs) = if before x r then x ∷ insert_by before r xs else r ∷ x ∷ xs

  unfoldable pub order_by : (A → A → Bool) → List A → List A
  order_by before [] = []
  order_by before (r ∷ rs) = insert_by before r (order_by before rs)

  -- whether some row passes the test
  unfoldable pub any_row : (A → Bool) → List A → Bool
  any_row test [] = false
  any_row test (r ∷ rs) = test r || any_row test rs

  -- the first row that passes the test
  unfoldable pub find_row : (A → Bool) → List A → Option A
  find_row test [] = none
  find_row test (r ∷ rs) = if test r then some r else find_row test rs

  -- UPDATE … WHERE
  unfoldable pub update_where : (A → Bool) → (A → A) → List A → List A
  update_where test f [] = []
  update_where test f (r ∷ rs) = (if test r then f r else r) ∷ update_where test f rs
