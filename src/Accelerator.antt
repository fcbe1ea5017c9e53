-- ===== src/Accelerator.antt =====
-- api/internal/accelerator/accelerator.go: transaction boosts through prioritisetransaction.
use Prim.Native.String.{◌++◌ as str_append}
use kamado_pool.Base.{
  ◌⊎◌, inl, inr, ◌&&◌, ℕ, ◌+◌, ◌-◌, ◌*◌, ◌/◌, ◌^◌, Bool, true, false, not, List, [], ◌∷◌, ◌++◌,
  Option, none, some, String, str_eq, ◌==◌, if◌then◌else◌,
}
use kamado_pool.Base.Word.{Int64, add64, neg64, div64, lt64, le64}
use kamado_pool.Base.Time.{Time, unix}
use kamado_pool.Base.Float.{Float64}
use kamado_pool.Bitcoind.{RpcError, Result, ok, err, is_rpc_error, rpc_error_message, not_found}
use kamado_pool.Store.Table.{BlockStore, BoostedTx}
use kamado_pool.Store.Boosted.{
  GetError, no_rows, other, Got, row, failed, insert_boosted_tx, remove_boosted_tx,
  list_boosted_txs, get_boosted_tx,
}
pub mod Ledger

-- bitcoind.MempoolEntry: the sizes and the fees, in bitcoins
pub record MempoolEntry (F : Type 0) : Type 0 where
  pub vsize : Int64
  pub base : F
  pub modified : F

pub record TemplateTx : Type 0 where
  pub txid : String
  pub fee : Int64
  pub weight : Int64

-- The calls of bitcoind in one operation: their answers, and a log of the priority changes that
-- bitcoind accepted, newest first.
pub record Node (F : Type 0) : Type 0 where
  pub mempool_entry : String → Result (MempoolEntry F)
  pub template : Result (List TemplateTx)
  pub raw_mempool : Result (List (MempoolEntry F))
  pub prioritise : String → Option RpcError
  pub deltas : List (String × Int64)

-- the errors of Accelerate and Cancel
pub data Failure : Type 0 where
  too_high : Failure
  not_higher : Failure
  no_store : Failure
  not_boosted : Failure
  store_error : Failure
  mempool_error : RpcError → Failure
  prioritise_error : RpcError → Failure
  remove_error : Failure

pub record AccelerateResult (F : Type 0) : Type 0 where
  pub txid : String
  pub original_feerate : F
  pub boosted_feerate : F
  pub fee_delta : Int64
  pub vsize : Int64
  pub fee_lost_sats : Int64
  pub fee_lost_error : String

-- accelerator.Service: `store` is `none` for a nil Store
pub record Service (F : Type 0) : Type 0 where
  pub store : Option (BlockStore F)
  pub node : Node F

unfoldable pub in_template : String → List TemplateTx → Bool
in_template txid [] = false
in_template txid (tx ∷ txs) = if str_eq tx.txid txid then true else in_template txid txs

module _ {F : Type 0} where
  -- RPC.PrioritiseTransaction: the error, if any, and the node after the call
  unfoldable pub prioritise_transaction : String → Int64 → Node F → Node F × Option RpcError
  prioritise_transaction txid delta node = elim (node.prioritise txid) [
    | none ↦ (record node { deltas = (txid, delta) ∷ node.deltas }, none)
    | some e ↦ (node, some e)
  ]

  -- the end of Cancel: the delta is taken back, unless the transaction has left the mempool
  unfoldable pub reverse_boost :
      String → Int64 → BlockStore F → Service F → Service F × Option Failure
  reverse_boost txid delta db s =
      let (node, refused) = prioritise_transaction txid delta s.node in
      let (db', removed) = remove_boosted_tx txid db in
      let gone : Option Failure = if removed then none else some remove_error in
      elim refused [
        | none ↦ (record { store = some db'; node = node }, gone)
        | some e ↦
            if is_rpc_error e not_found
            then (record { store = some db'; node = node }, gone)
            else (record { store = some db; node = node }, some (prioritise_error e))
      ]

  -- Cancel: `none` is success
  unfoldable pub cancel : String → Service F → Service F × Option Failure
  cancel txid s = elim s.store [
    | none ↦ (s, some no_store)
    | some db ↦
        let (db', got) = get_boosted_tx txid db in
        elim got [
          | failed no_rows ↦ (record s { store = some db' }, some not_boosted)
          | failed other ↦ (record s { store = some db' }, some store_error)
          | row rec ↦ reverse_boost txid (neg64 rec.fee_delta) db' s
        ]
  ]

module _ {F : Type 0} ⦃fl : Float64 F⦄ where
  abbrev pub max_feerate_vb : F
  max_feerate_vb = fl.of_int 2000

  -- The first transaction of the template with the lowest fee rate, below the rate found so far.
  unfoldable pub marginal : Option TemplateTx → F → List TemplateTx → Option TemplateTx
  marginal best rate [] = best
  marginal best rate (tx ∷ txs) =
      let vsize = div64 (add64 tx.weight 3) 4 in
      let r = fl.div (fl.of_int tx.fee) (fl.of_int vsize) in
      let lower = lt64 0 vsize && fl.lt r rate in
      marginal (if lower then some tx else best) (if lower then r else rate) txs

module _ (F : Type 0) ⦃fl : Float64 F⦄ where
  -- marginalFeeLost
  unfoldable pub marginal_fee_lost : List TemplateTx → String → Int64
  marginal_fee_lost txs txid =
      if in_template txid txs then 0 else elim (marginal none fl.max_float txs) [
        | none ↦ 0
        | some tx ↦ if lt64 tx.fee 0 then 0 else tx.fee
      ]

  -- the fee that the template loses, and the text of an error
  unfoldable pub fee_impact : Result (List TemplateTx) → String → Int64 × String
  fee_impact (ok txs) txid = (marginal_fee_lost txs txid, "")
  fee_impact (err e) txid = (0, str_append "getblocktemplate: " (rpc_error_message e))

module _ {F : Type 0} ⦃fl : Float64 F⦄ where
  -- the delta of Accelerate, in satoshis
  unfoldable pub delta_of : F → MempoolEntry F → Int64
  delta_of target entry =
      let modified = fl.mul entry.modified (fl.sci 1 8) in
      fl.to_int (fl.ceil (fl.sub (fl.mul target (fl.of_int entry.vsize)) modified))

  unfoldable pub current_feerate : MempoolEntry F → F
  current_feerate entry = fl.div (fl.mul entry.base (fl.sci 1 8)) (fl.of_int entry.vsize)

  -- the boost itself, with its record; a failed insertion is only logged
  unfoldable pub boost :
      Time
      → String
      → F
      → MempoolEntry F
      → Int64
      → Service F
      → Service F × (AccelerateResult F ⊎ Failure)
  boost now txid target entry delta s =
      let (lost, problem) = fee_impact F s.node.template txid in
      let (node, refused) = prioritise_transaction txid delta s.node in
      elim refused [
        | some e ↦ (s, inr (prioritise_error e))
        | none ↦
            let rec : BoostedTx F = record {
              txid = txid;
              original_feerate = current_feerate entry;
              boosted_feerate = target;
              fee_delta = delta;
              vsize = entry.vsize;
              boosted_at = unix now;
            } in
            (
              record {
                store = elim s.store [ none ↦ none | some db ↦ some (insert_boosted_tx rec db).0 ];
                node = node;
              },
              inl (record {
                txid = txid;
                original_feerate = current_feerate entry;
                boosted_feerate = target;
                fee_delta = delta;
                vsize = entry.vsize;
                fee_lost_sats = lost;
                fee_lost_error = problem;
              }),
            )
      ]

  -- Accelerate
  unfoldable pub accelerate :
      Time → String → F → Service F → Service F × (AccelerateResult F ⊎ Failure)
  accelerate now txid target s =
      if fl.lt max_feerate_vb target then (s, inr too_high) else elim (s.node.mempool_entry txid) [
        | err e ↦ (s, inr (mempool_error e))
        | ok entry ↦
            let delta = delta_of target entry in
            if le64 delta 0 then (s, inr not_higher) else boost now txid target entry delta s
      ]

  -- the highest base fee rate of the mempool
  unfoldable pub max_rate : F → List (MempoolEntry F) → F
  max_rate best [] = best
  max_rate best (e ∷ es) =
      let r = fl.div (fl.mul e.base (fl.sci 1 8)) (fl.of_int e.vsize) in
      max_rate (if lt64 0 e.vsize && fl.lt best r then r else best) es

  -- MaxFeerate
  unfoldable pub max_feerate : Service F → Result F
  max_feerate s = elim s.node.raw_mempool [
    | err e ↦ err e
    | ok pool ↦
        let best = max_rate fl.nought pool in
        if fl.eq best fl.nought
        then ok (fl.of_int 100)
        else (let result = fl.ceil (fl.mul best (fl.of_int 2)) in
            ok (if fl.lt max_feerate_vb result then max_feerate_vb else result))
  ]

module _ {F : Type 0} where
  -- List: `none` is an error
  unfoldable pub list : Service F → Service F × Option (List (BoostedTx F))
  list s = elim s.store [
    | none ↦ (s, some [])
    | some db ↦ let (db', txs) = list_boosted_txs db in (record s { store = some db' }, txs)
  ]

  -- whether bitcoind says that a transaction has left the mempool
  unfoldable pub has_left : Node F → String → Bool
  has_left node txid = elim (node.mempool_entry txid) [
    | ok _ ↦ false
    | err e ↦ is_rpc_error e not_found
  ]

  -- the loop of cleanupOnce; a failed removal is only logged
  unfoldable pub remove_left : Node F → List (BoostedTx F) → BlockStore F → BlockStore F
  remove_left node [] db = db
  remove_left node (tx ∷ txs) db =
      remove_left node txs (if has_left node tx.txid then (remove_boosted_tx tx.txid db).0 else db)

  -- cleanupOnce
  unfoldable pub cleanup_once : Service F → Service F
  cleanup_once s = elim s.store [
    | none ↦ s
    | some db ↦
        let (db', txs) = list_boosted_txs db in
        record s {
          store = elim txs [ none ↦ some db' | some bs ↦ some (remove_left s.node bs db') ];
        }
  ]

  -- Cleanup, until the context ends: what the node is at each tick
  unfoldable pub cleanup : List (Node F) → Service F → Service F
  cleanup [] s = s
  cleanup (node ∷ nodes) s = cleanup nodes (cleanup_once (record s { node = node }))
