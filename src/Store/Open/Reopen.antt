-- ===== src/Store/Open/Reopen.antt =====
-- Open succeeds: the file is complete, and opening it again changes nothing.
use mathlib.Core.Path.{subst}
use kamado_pool.Base.{◌≡◌, refl, sym, Bool, true, List, [], ◌∷◌, some, String, All}
use kamado_pool.Base.Float.{Float64}
use kamado_pool.Store.Open.{
  BlocksTable, File, exec, ◌>>◌, create_blocks, create_index, create_schema, add_missing,
  migrate_accelerator, migrate, open_store,
}
use kamado_pool.Store.Open.Grown.{IsGrown, open_store-IsGrown}
use kamado_pool.Store.Open.Complete.{
  HasColumn, Ensures, exec_on-Ensures, then_step, migrate-Reached, IsComplete, IsCreated,
  create_schema-IsCreated,
}

abbrev version_columns : List String
version_columns = "miner" ∷ "chain" ∷ "orphaned_at" ∷ "share_diff" ∷ []

module _ {F : Type 0} ⦃fl : Float64 F⦄ where
  -- after the first migration
  IsMigrated : File F → Type 0
  IsMigrated e = (d : File F) × IsCreated d × IsGrown d e × All (λ n. HasColumn n e) version_columns

  boosted-IsComplete :
      (e : File F) (later : List Bool)
      → IsMigrated e
      → IsComplete (record e { has_boosted = true; faults = later })
  unfolding IsMigrated
  boosted-IsComplete e later (d, made, g, (miner, (chain, (orphaned_at, (share_diff, _))))) =
      let (t, there) = made.table in
      let (u, there', _) = g.wider t there in
      record {
        table = (u, there');
        share_diff = share_diff;
        orphaned_at = orphaned_at;
        chain = chain;
        miner = miner;
        index = g.index made.index;
        samples = g.samples made.samples;
        kv = g.kv made.kv;
        boosted = refl;
      }

  open_store-Ensures : (d : File F) → Ensures IsComplete (open_store d)
  unfolding open_store migrate_accelerator IsMigrated
  open_store-Ensures d =
      let p₀ = exec (λ (e : File F). e) d in
      let p₁ = p₀ >> create_schema in
      let p₂ = p₁ >> migrate in
      let boost = λ (e : File F). record e { has_boosted = true } in
      let s₁ =
        then_step (λ _. Unit {0}) IsCreated p₀ create_schema (λ _. tt)
          (λ e _. create_schema-IsCreated e) in
      let s₂ =
        then_step IsCreated IsMigrated p₁ migrate s₁
          (λ e made ok. let (g, hs) = migrate-Reached e made.table ok in (e, made, g, hs)) in
      then_step IsMigrated IsComplete p₂ (exec boost) s₂ (λ e q.
        exec_on-Ensures IsComplete boost e e.faults (boosted-IsComplete e e.faults q)
          (λ l. boosted-IsComplete e l q))

  -- a complete file around a table
  abbrev around : BlocksTable F → File F
  around t = record {
    blocks = some t;
    has_index = true;
    has_samples = true;
    has_kv = true;
    has_boosted = true;
    faults = [];
  }

  around-eq :
      (t : BlocksTable F) (e : File F)
      → IsComplete e
      → e.blocks ≡ some t
      → around t ≡ record e { faults = [] }
  around-eq t e h there = λ i. record {
    blocks = sym there i;
    has_index = sym h.index i;
    has_samples = sym h.samples i;
    has_kv = sym h.kv i;
    has_boosted = sym h.boosted i;
    faults = [];
  }

  IsComplete-around :
      (t : BlocksTable F) (e : File F) → IsComplete e → e.blocks ≡ some t → IsComplete (around t)
  IsComplete-around t e h there = subst IsComplete (sym (around-eq t e h there)) (record {
    table = h.table;
    share_diff = h.share_diff;
    orphaned_at = h.orphaned_at;
    chain = h.chain;
    miner = h.miner;
    index = h.index;
    samples = h.samples;
    kv = h.kv;
    boosted = h.boosted;
  })

  open_store-around :
      (t : BlocksTable F) → IsComplete (around t) → open_store (around t) ≡ (around t, true)
  unfolding open_store create_schema create_blocks create_index migrate add_missing
      migrate_accelerator
  open_store-around t h = simp (h.share_diff, h.orphaned_at, h.chain, h.miner)

  -- Where Open succeeds, whatever the file was, the tables, the index and the four columns that
  -- versions added are there; the rows of `blocks` are those from before, each with the same new cells
  -- behind its own; and opening the file again without failing statements succeeds and changes
  -- nothing.
  pub open_store-IsComplete :
      (d : File F)
      → (open_store d).1 ≡ true
      → IsComplete (open_store d).0
        × IsGrown d (open_store d).0
        × (open_store (record (open_store d).0 { faults = [] })
            ≡ (record (open_store d).0 { faults = [] }, true))
  open_store-IsComplete d ok =
      let e = (open_store d).0 in
      let h = open_store-Ensures d ok in
      let (t, there) = h.table in
      (
        h,
        open_store-IsGrown d,
        subst (λ x. open_store x ≡ (x, true)) (around-eq t e h there)
            (open_store-around t (IsComplete-around t e h there)),
      )
