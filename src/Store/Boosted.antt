-- ===== src/Store/Boosted.antt =====
-- api/internal/store/accelerator.go: the boosted transactions.
use kamado_pool.Base.{Bool, not, List, [], ◌∷◌, ◌++◌, Option, none, some, String, str_eq}
use kamado_pool.Base.Word.{lt64}
use kamado_pool.Store.Table.{BoostedTx, BlockStore, exec, query, where_rows, order_by, find_row}

-- sql.ErrNoRows, or another error
pub data GetError : Type 0 where
  no_rows : GetError
  other : GetError

pub data Got (A : Type 0) : Type 0 where
  row : A → Got A
  failed : GetError → Got A

module _ {F : Type 0} where
  abbrev pub is_tx : String → BoostedTx F → Bool
  is_tx txid tx = str_eq tx.txid txid

  -- INSERT OR REPLACE: the old row of the same txid goes, and the new one comes last
  unfoldable pub insert_boosted_tx : BoostedTx F → BlockStore F → BlockStore F × Bool
  insert_boosted_tx tx =
      exec
        λ s. record s { boosted = where_rows (λ r. not (is_tx tx.txid r)) s.boosted ++ (tx ∷ []) }

  unfoldable pub remove_boosted_tx : String → BlockStore F → BlockStore F × Bool
  remove_boosted_tx txid =
      exec λ s. record s { boosted = where_rows (λ r. not (is_tx txid r)) s.boosted }

  -- newest first
  unfoldable pub list_boosted_txs : BlockStore F → BlockStore F × Option (List (BoostedTx F))
  list_boosted_txs = query λ s. order_by (λ x y. lt64 y.boosted_at x.boosted_at) s.boosted

  unfoldable pub get_boosted_tx : String → BlockStore F → BlockStore F × Got (BoostedTx F)
  get_boosted_tx txid s =
      let (s', found) = query (λ t. find_row (is_tx txid) t.boosted) s in
      (
        s',
        elim found [ none ↦ failed other | some none ↦ failed no_rows | some (some tx) ↦ row tx ],
      )
