-- ===== src/Accelerator/Ledger.antt =====
-- The priority that bitcoind holds for a transaction, and the record of its boost.
use kamado_pool.Base.{
  ◌^◌, ◌<◌, ◌≡◌, refl, ap, ◌∙◌, inl, inr, true, false, not, List, [], ◌∷◌, ◌++◌, Option, none, some,
  String, str_eq, arith, if◌then◌else◌, Bool-cases, eq_iff,
}
use kamado_pool.Base.Word.{Int64, add64, neg64, le64}
use kamado_pool.Base.Time.{Time, unix}
use kamado_pool.Base.Float.{Float64}
use kamado_pool.Store.Laws.{
  IsFaultless, exec-faultless, query-faultless, find_row-last, find_row-where,
}
use kamado_pool.Store.Table.{BlockStore, BoostedTx, where_rows, find_row}
use kamado_pool.Store.Boosted.{
  no_rows, row, failed, is_tx, insert_boosted_tx, remove_boosted_tx, get_boosted_tx,
}
use kamado_pool.Bitcoind.{Result, ok}
use kamado_pool.Accelerator.{
  Node, Service, MempoolEntry, delta_of, prioritise_transaction, reverse_boost, cancel, boost,
  accelerate, current_feerate, max_feerate_vb, not_boosted,
}

-- the sum of the accepted changes of a transaction's priority
unfoldable pub net : String → List (String × Int64) → Int64
net txid [] = 0
net txid ((id, delta) ∷ ds) =
    let rest = net txid ds in if str_eq id txid then add64 rest delta else rest

pub net_bound : (txid : String) (ds : List (String × Int64)) → net txid ds < 2 ^ 64
unfolding net add64
net_bound txid [] = omega arith
net_bound txid ((id, delta) ∷ ds) = let ih = net_bound txid ds in ground arith

str_eq_refl : (s : String) → str_eq s s ≡ true
str_eq_refl s = (eq_iff s s).1 refl

add64-neg64 :
    (n delta : Int64) → n < 2 ^ 64 → delta < 2 ^ 64 → add64 (add64 n delta) (neg64 delta) ≡ n
unfolding add64 neg64
add64-neg64 n delta h k = omega arith

net-own :
    (txid : String) (delta : Int64) (ds : List (String × Int64))
    → net txid ((txid, delta) ∷ ds) ≡ add64 (net txid ds) delta
unfolding net
net-own txid delta ds = rw (str_eq_refl txid) refl

-- a change and its reversal
net_undo :
    (id txid : String) (delta : Int64) (ds : List (String × Int64))
    → delta < 2 ^ 64
    → net id ((txid, neg64 delta) ∷ (txid, delta) ∷ ds) ≡ net id ds
unfolding net
net_undo id txid delta ds h = elim (Bool-cases (str_eq txid id)) [
  | inl same ↦ rw same (add64-neg64 (net id ds) delta (net_bound id ds) h)
  | inr differs ↦ rw differs refl
]

module _ {F : Type 0} where
  -- the record of a transaction
  abbrev pub record_in : String → Service F → Option (BoostedTx F)
  record_in txid s = elim s.store [ none ↦ none | some db ↦ find_row (is_tx txid) db.boosted ]

  abbrev without : String → BlockStore F → List (BoostedTx F)
  without txid db = where_rows (λ r. not (is_tx txid r)) db.boosted

  insert_eq :
      (tx : BoostedTx F) (db : BlockStore F)
      → IsFaultless db
      → insert_boosted_tx tx db ≡ (record db { boosted = without tx.txid db ++ (tx ∷ []) }, true)
  unfolding insert_boosted_tx
  insert_eq tx db h =
      exec-faultless (λ s. record s { boosted = without tx.txid s ++ (tx ∷ []) }) db h

  remove_eq :
      (txid : String) (db : BlockStore F)
      → IsFaultless db
      → remove_boosted_tx txid db ≡ (record db { boosted = without txid db }, true)
  unfolding remove_boosted_tx
  remove_eq txid db h = exec-faultless (λ s. record s { boosted = without txid s }) db h

  get_eq :
      (txid : String) (tx : BoostedTx F) (db : BlockStore F)
      → IsFaultless db
      → find_row (is_tx txid) db.boosted ≡ some tx
      → get_boosted_tx txid db ≡ (db, row tx)
  unfolding get_boosted_tx
  get_eq txid tx db h e = rw (query-faultless (λ t. find_row (is_tx txid) t.boosted) db h, e) refl

  -- Cancel, where the record is found and bitcoind accepts the call
  cancel_eq :
      (txid : String) (tx : BoostedTx F) (db : BlockStore F) (node : Node F)
      → IsFaultless db
      → find_row (is_tx txid) db.boosted ≡ some tx
      → node.prioritise txid ≡ none
      → cancel txid (record { store = some db; node = node }) ≡ (
        record {
          store = some (record db { boosted = without txid db });
          node = record node { deltas = (txid, neg64 tx.fee_delta) ∷ node.deltas };
        },
        none,
      )
  unfolding cancel reverse_boost prioritise_transaction
  cancel_eq txid tx db node h e p =
      simp (
        get_eq txid tx db h e,
        p,
        remove_eq txid db h,
        cancel,
        reverse_boost,
        prioritise_transaction,
      )

module _ {F : Type 0} ⦃fl : Float64 F⦄ where
  -- the record that Accelerate writes
  abbrev record_of : Time → String → F → MempoolEntry F → BoostedTx F
  record_of now txid target entry = record {
    txid = txid;
    original_feerate = current_feerate entry;
    boosted_feerate = target;
    fee_delta = delta_of target entry;
    vsize = entry.vsize;
    boosted_at = unix now;
  }

  -- Accelerate, where its checks pass
  accelerate_eq :
      (now : Time) (txid : String) (target : F) (entry : MempoolEntry F) (db : BlockStore F)
      (node : Node F)
      → fl.lt max_feerate_vb target ≡ false
      → node.mempool_entry txid ≡ ok entry
      → le64 (delta_of target entry) 0 ≡ false
      → node.prioritise txid ≡ none
      → IsFaultless db
      → (accelerate now txid target (record { store = some db; node = node })).0 ≡ record {
        store =
            some
              (record db { boosted = without txid db ++ (record_of now txid target entry ∷ []) });
        node = record node { deltas = (txid, delta_of target entry) ∷ node.deltas };
      }
  unfolding accelerate boost prioritise_transaction
  accelerate_eq now txid target entry db node h m d p f = simp (
    h,
    m,
    d,
    p,
    insert_eq (record_of now txid target entry) db f,
    accelerate,
    boost,
    prioritise_transaction,
  )

  -- What Accelerate needs for a boost: a target within the limit and above the modified fee, an entry
  -- in the mempool, and a bitcoind that takes the change.
  pub record IsBoost (txid : String) (target : F) (entry : MempoolEntry F) (node : Node F)
      : Type 0 where
    pub within : fl.lt max_feerate_vb target ≡ false
    pub in_mempool : node.mempool_entry txid ≡ ok entry
    pub higher : le64 (delta_of target entry) 0 ≡ false
    pub word : delta_of target entry < 2 ^ 64
    pub accepted : node.prioritise txid ≡ none

  -- the service after Accelerate
  abbrev boosted_by : Time → String → F → MempoolEntry F → BlockStore F → Node F → Service F
  boosted_by now txid target entry db node = record {
    store =
        some (record db { boosted = without txid db ++ (record_of now txid target entry ∷ []) });
    node = record node { deltas = (txid, delta_of target entry) ∷ node.deltas };
  }

  boost_eq :
      (now : Time) (txid : String) (target : F) (entry : MempoolEntry F) (db : BlockStore F)
      (node : Node F)
      → IsBoost txid target entry node
      → IsFaultless db
      → (accelerate now txid target (record { store = some db; node = node })).0
        ≡ boosted_by now txid target entry db node
  boost_eq now txid target entry db node b f =
      accelerate_eq now txid target entry db node b.within b.in_mempool b.higher b.accepted f

  -- the service after a boost and its Cancel
  abbrev cancelled : Time → String → F → MempoolEntry F → BlockStore F → Node F → Service F
  cancelled now txid target entry db node =
      let s = boosted_by now txid target entry db node in
      let db1 : BlockStore F = record db {
        boosted = without txid db ++ (record_of now txid target entry ∷ []);
      } in
      record {
        store = some (record db1 { boosted = without txid db1 });
        node = record node {
          deltas =
              (txid, neg64 (delta_of target entry)) ∷ (txid, delta_of target entry) ∷ node.deltas;
        };
      }

  cancelled_eq :
      (now : Time) (txid : String) (target : F) (entry : MempoolEntry F) (db : BlockStore F)
      (node : Node F)
      → IsBoost txid target entry node
      → IsFaultless db
      → cancel txid (accelerate now txid target (record { store = some db; node = node })).0
        ≡ (cancelled now txid target entry db node, none)
  cancelled_eq now txid target entry db node b f =
      let rec = record_of now txid target entry in
      let s = boosted_by now txid target entry db node in
      let db1 : BlockStore F = record db { boosted = without txid db ++ (rec ∷ []) } in
      let found = find_row-last (is_tx txid) rec db.boosted (str_eq_refl txid) in
      ap (cancel txid) (boost_eq now txid target entry db node b f)
      ∙ cancel_eq txid rec db1 s.node f found b.accepted

  get-missing :
      (txid : String) (db : BlockStore F)
      → IsFaultless db
      → find_row (is_tx txid) db.boosted ≡ none
      → get_boosted_tx txid db ≡ (db, failed no_rows)
  unfolding get_boosted_tx
  get-missing txid db h e = rw (query-faultless (λ t. find_row (is_tx txid) t.boosted) db h, e) refl

  cancel-missing :
      (txid : String) (db : BlockStore F) (node : Node F)
      → IsFaultless db
      → find_row (is_tx txid) db.boosted ≡ none
      → (cancel txid (record { store = some db; node = node })).1 ≡ some not_boosted
  unfolding cancel
  cancel-missing txid db node h e = simp (get-missing txid db h e, cancel)

  -- Cancel takes an accepted boost back, where no statement of the database fails: it succeeds,
  -- bitcoind's priority of every transaction is that of before the boost, and the table has no record
  -- of the transaction.
  pub accelerate-cancel :
      (now : Time) (txid : String) (target : F) (entry : MempoolEntry F) (db : BlockStore F)
      (node : Node F)
      → IsBoost txid target entry node
      → IsFaultless db
      → let s = (accelerate now txid target (record { store = some db; node = node })).0 in
        let r = cancel txid s in
        (r.1 ≡ none)
        × ((id : String) → net id r.0.node.deltas ≡ net id node.deltas)
        × (record_in txid r.0 ≡ none)
  accelerate-cancel now txid target entry db node b f =
      let db1 : BlockStore F = record db {
        boosted = without txid db ++ (record_of now txid target entry ∷ []);
      } in
      let done = cancelled_eq now txid target entry db node b f in
      (
        ap (λ r. r.1) done,
        λ id.
            ap (λ r. net id r.0.node.deltas) done
            ∙ net_undo id txid (delta_of target entry) node.deltas b.word,
        ap (λ r. record_in txid r.0) done ∙ find_row-where (is_tx txid) db1.boosted,
      )

  -- the service, where bitcoind's mempool answers otherwise from now on
  abbrev pub with_mempool : (String → Result (MempoolEntry F)) → Service F → Service F
  with_mempool answers s = record s { node = record s.node { mempool_entry = answers } }

  -- After two accepted boosts of a transaction, where no statement of the database fails, Cancel takes
  -- the second one back only: it succeeds and removes the record, the delta of the first boost stays
  -- in bitcoind, and another Cancel answers that the transaction is not boosted.
  pub accelerate-twice :
      (t1 t2 : Time) (txid : String) (x1 x2 : F) (e1 e2 : MempoolEntry F) (db : BlockStore F)
      (node : Node F) (answers : String → Result (MempoolEntry F))
      → IsBoost txid x1 e1 node
      → IsBoost txid x2 e2 (record node { mempool_entry = answers })
      → IsFaultless db
      → let s1 = (accelerate t1 txid x1 (record { store = some db; node = node })).0 in
        let s2 = (accelerate t2 txid x2 (with_mempool answers s1)).0 in
        let r = cancel txid s2 in
        (r.1 ≡ none)
        × (net txid r.0.node.deltas ≡ add64 (net txid node.deltas) (delta_of x1 e1))
        × ((cancel txid r.0).1 ≡ some not_boosted)
  accelerate-twice t1 t2 txid x1 x2 e1 e2 db node answers b1 b2 f =
      let s1 = boosted_by t1 txid x1 e1 db node in
      let rec : BoostedTx F = record_of t1 txid x1 e1 in
      let db1 : BlockStore F = record db { boosted = without txid db ++ (rec ∷ []) } in
      let db2 : BlockStore F = record db1 {
        boosted = without txid db1 ++ (record_of t2 txid x2 e2 ∷ []);
      } in
      let node1 : Node F = (with_mempool answers s1).node in
      let again : IsBoost txid x2 e2 node1 = record {
        within = b2.within;
        in_mempool = b2.in_mempool;
        higher = b2.higher;
        word = b2.word;
        accepted = b2.accepted;
      } in
      let done = cancelled_eq t2 txid x2 e2 db1 node1 again f in
      let last = cancelled t2 txid x2 e2 db1 node1 in
      rw (boost_eq t1 txid x1 e1 db node b1 f, done)
        (
          refl,
          net_undo txid txid (delta_of x2 e2) node1.deltas b2.word
              ∙ net-own txid (delta_of x1 e1) node.deltas,
          cancel-missing txid (record db2 { boosted = without txid db2 }) last.node f
              (find_row-where (is_tx txid) db2.boosted),
        )
