-- ===== src/Tests/Boosts.antt =====
-- Boosts of a transaction at a concrete node.
use kamado_pool.Base.{ℕ, ◌≡◌, refl, [], ◌∷◌, none, some, String, arith}
use kamado_pool.Base.Word.{add64, le64}
use kamado_pool.Bitcoind.{ok}
use kamado_pool.Accelerator.{Node, MempoolEntry, accelerate, cancel, not_boosted, delta_of}
use kamado_pool.Accelerator.Ledger.{
  IsBoost, net, record_in, with_mempool, accelerate-cancel, accelerate-twice,
}
use kamado_pool.Tests.Data.{whole, db}

abbrev entry : MempoolEntry ℕ
entry = record { vsize = 100; base = 0; modified = 0 }

-- one that was boosted by hand before
abbrev bitcoind : Node ℕ
bitcoind = record {
  mempool_entry = λ txid. ok entry;
  template = ok [];
  raw_mempool = ok [];
  prioritise = λ txid. none;
  deltas = ("t", 7) ∷ [];
}

low : IsBoost "t" 20 entry bitcoind
unfolding delta_of le64
low = record {
  within = refl;
  in_mempool = refl;
  higher = refl;
  word = omega arith;
  accepted = refl;
}

high : IsBoost "t" 30 entry (record bitcoind { mempool_entry = λ txid. ok entry })
unfolding delta_of le64
high = record {
  within = refl;
  in_mempool = refl;
  higher = refl;
  word = omega arith;
  accepted = refl;
}

accelerate-cancel_example :
    let s = (accelerate 1_000 "t" 20 (record { store = some db; node = bitcoind })).0 in
    let r = cancel "t" s in
    (r.1 ≡ none)
    × ((id : String) → net id r.0.node.deltas ≡ net id bitcoind.deltas)
    × (record_in "t" r.0 ≡ none)
accelerate-cancel_example = accelerate-cancel 1_000 "t" 20 entry db bitcoind low refl

accelerate-twice_example :
    let s1 = (accelerate 1_000 "t" 20 (record { store = some db; node = bitcoind })).0 in
    let s2 = (accelerate 2_000 "t" 30 (with_mempool (λ txid. ok entry) s1)).0 in
    let r = cancel "t" s2 in
    (r.1 ≡ none)
    × (net "t" r.0.node.deltas ≡ add64 (net "t" bitcoind.deltas) 2_000)
    × ((cancel "t" r.0).1 ≡ some not_boosted)
unfolding delta_of
accelerate-twice_example =
    accelerate-twice 1_000 2_000 "t" 20 30 entry entry db bitcoind (λ txid. ok entry) low high refl
