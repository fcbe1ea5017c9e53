-- ===== src/State/Blocks/Replay.antt =====
-- Block events against the table: a height counts once.
use kamado_pool.Base.{
  ◌+◌, ◌%◌, ◌^◌, ◌≡◌, refl, ap, Bool, true, false, ◌||◌, List, [], ◌∷◌, ◌++◌, Option, none, some,
  arith, inl, inr, Bool-cases, length, length-append,
}
use kamado_pool.Base.Word.{Int64, add64}
use kamado_pool.Base.Float.{Float64}
use kamado_pool.Store.Table.{BlockStore, Row, any_row}
use kamado_pool.Store.Blocks.{has_height, insert_block, new_row, set_kv, upsert}
use kamado_pool.State.Types.{Aggregator, BlockRecord, BlockEvent}
use kamado_pool.State.Codec.{Codec}
use kamado_pool.State.Shares.{save_kv}
use kamado_pool.State.Blocks.{
  Rpc, append_block, look_up, event_record, to_block, persist_block, record_block, ingest_block,
  ingest_blocks,
}

-- There is a store, and none of its statements fails.
pub record IsFaultless {F : Type 0} (a : Aggregator F) : Type 0 where
  pub store : BlockStore F
  pub is_store : a.store ≡ some store
  pub no_faults : store.faults ≡ []

abbrev pub rows_of : {F : Type 0} → Option (BlockStore F) → List (Row F)
rows_of none = []
rows_of (some s) = s.blocks

-- whether a height is in the table
abbrev pub is_recorded : {F : Type 0} → Int64 → Aggregator F → Bool
is_recorded h a = any_row (has_height h) (rows_of a.store)

any_row-snoc :
    {A : Type 0} (test : A → Bool) (rs : List A) (r : A)
    → any_row test (rs ++ (r ∷ [])) ≡ any_row test rs || test r
unfolding any_row
any_row-snoc test [] r = ground arith
any_row-snoc test (x ∷ rs) r = ground (arith, any_row-snoc test rs r)

-- The number of rows and the counter of confirmed blocks move together.
abbrev pub IsCounted : {F : Type 0} → Aggregator F → Aggregator F → Type 0
IsCounted a a' =
    (a'.block_submits_confirmed + length (rows_of a.store)) % 2 ^ 64
    ≡ (a.block_submits_confirmed + length (rows_of a'.store)) % 2 ^ 64

module _ {F : Type 0} ⦃fl : Float64 F⦄ (codec : Codec F) where
  -- the record that an event becomes
  abbrev recorded : Option (Rpc F) → BlockEvent F → Aggregator F → BlockRecord F
  recorded rpc ev a = elim rpc [
    | none ↦ event_record a ev
    | some node ↦ look_up node a.snap.workers (event_record a ev)
  ]

  recorded-height :
      (rpc : Option (Rpc F)) (ev : BlockEvent F) (a : Aggregator F)
      → (recorded rpc ev a).height ≡ ev.height
  unfolding look_up
  recorded-height none ev a = refl
  recorded-height (some node) ev a = ground arith

  -- What an event does where no statement fails.
  ingest_block-known :
      (rpc : Option (Rpc F)) (ev : BlockEvent F) (a : Aggregator F)
      → IsFaultless a
      → is_recorded ev.height a ≡ true
      → ingest_block codec rpc ev a ≡ a
  unfolding ingest_block persist_block insert_block
  ingest_block-known rpc ev a f known = ground (arith, recorded-height rpc ev a)

  ingest_block-new :
      (rpc : Option (Rpc F)) (ev : BlockEvent F) (a : Aggregator F)
      → IsFaultless a
      → is_recorded ev.height a ≡ false
      → let a' = ingest_block codec rpc ev a in
        IsFaultless a'
        × (rows_of a'.store ≡ rows_of a.store ++ (new_row (to_block (recorded rpc ev a)) ∷ []))
        × (a'.block_submits_confirmed ≡ add64 a.block_submits_confirmed 1)
  unfolding ingest_block persist_block insert_block record_block append_block save_kv set_kv
  ingest_block-new rpc ev a f fresh =
      let row = new_row (to_block (recorded rpc ev a)) in
      let n = codec.format_int (add64 a.block_submits_confirmed 1) in
      let inserted : BlockStore F = record f.store { blocks = f.store.blocks ++ (row ∷ []) } in
      let saved : BlockStore F = record inserted {
        kv = upsert "block_submits_confirmed" n inserted.kv;
      } in
      let at = recorded-height rpc ev a in
      (
        record { store = saved; is_store = ground arith; no_faults = f.no_faults },
        ground arith,
        ground arith,
      )

  ingest_block-IsCounted :
      (rpc : Option (Rpc F)) (ev : BlockEvent F) (a : Aggregator F)
      → IsFaultless a
      → let a' = ingest_block codec rpc ev a in
        IsFaultless a' × IsCounted a a' × (is_recorded ev.height a' ≡ true)
  unfolding add64 new_row
  ingest_block-IsCounted rpc ev a f = elim (Bool-cases (is_recorded ev.height a)) [
    | inl known ↦ rw (ingest_block-known rpc ev a f known) (f, refl, known)
    | inr fresh ↦
        let (f', rows, n) = ingest_block-new rpc ev a f fresh in
        let row = new_row (to_block (recorded rpc ev a)) in
        let old = rows_of a.store in
        let at = recorded-height rpc ev a in
        (
          f',
          omega (arith, ap length rows, length-append old (row ∷ []), n),
          ground (arith, any_row-snoc (has_height ev.height) old row),
        )
  ]

  -- Where no statement of the store fails, a block event that comes after another one of the same
  -- height changes nothing at all, whatever the node answers to either: a replayed line of the log is
  -- not counted twice.
  pub ingest_block-replay :
      (rpc rpc' : Option (Rpc F)) (ev ev' : BlockEvent F) (a : Aggregator F)
      → IsFaultless a
      → ev'.height ≡ ev.height
      → let a' = ingest_block codec rpc ev a in ingest_block codec rpc' ev' a' ≡ a'
  ingest_block-replay rpc rpc' ev ev' a f e =
      let (f', _, known) = ingest_block-IsCounted rpc ev a f in
      ingest_block-known rpc' ev' (ingest_block codec rpc ev a) f' (rw e known)

  -- Over any sequence of block events, where no statement of the store fails, the counter of confirmed
  -- blocks rises by exactly the number of rows that the sequence adds to the table, in int64
  -- arithmetic.
  pub ingest_blocks-IsCounted :
      (evs : List (Option (Rpc F) × BlockEvent F)) (a : Aggregator F)
      → IsFaultless a
      → IsCounted a (ingest_blocks codec evs a)
  unfolding ingest_blocks
  ingest_blocks-IsCounted [] a f = refl
  ingest_blocks-IsCounted ((rpc, ev) ∷ evs) a f =
      let (f', one, _) = ingest_block-IsCounted rpc ev a f in
      omega (arith, one, ingest_blocks-IsCounted evs (ingest_block codec rpc ev a) f')
