-- ===== src/Store/Open/Grown.antt =====
-- What a statement of Open may change: it adds tables and columns, and keeps every cell.
use kamado_pool.Base.{
  ◌≡◌, refl, sym, ap, ◌∙◌, Bool, true, false, ◌||◌, List, [], ◌∷◌, ◌++◌, map, some, String,
  Bool-cases, inl, inr, arith, append_nil, append_assoc,
}
use kamado_pool.Base.Float.{Float64}
use kamado_pool.Store.Open.{
  Cell, text, integer, real, BlocksTable, File, exec_on, exec, ◌>>◌, create_blocks, index_blocks,
  create_index, create_schema, add_column, have, columns_of, add_missing, migrate_accelerator,
  migrate, open_store,
}

pub have-append :
    (name : String) (cs ds : List String) → have name (cs ++ ds) ≡ (have name cs || have name ds)
unfolding have
have-append name [] ds = refl
have-append name (c ∷ cs) ds = ground (arith, have-append name cs ds)

module _ {F : Type 0} where
  -- The second table is the first one with columns behind its own, and a cell for each in every row.
  pub record IsWider (t t' : BlocksTable F) : Type 0 where
    pub names : List String
    pub cells : List (Cell F)
    pub columns : t'.columns ≡ t.columns ++ names
    pub rows : t'.rows ≡ map (λ r. r ++ cells) t.rows

  map_nil : (rows : List (List (Cell F))) → rows ≡ map (λ r. r ++ []) rows
  map_nil [] = refl
  map_nil (r ∷ rows) =
      ap (λ x. x ∷ rows) (sym (append_nil r)) ∙ ap (λ x. (r ++ []) ∷ x) (map_nil rows)

  map_twice :
      (xs ys : List (Cell F)) (rows : List (List (Cell F)))
      → map (λ r. r ++ ys) (map (λ r. r ++ xs) rows) ≡ map (λ r. r ++ (xs ++ ys)) rows
  map_twice xs ys [] = refl
  map_twice xs ys (r ∷ rows) =
      ap (λ x. x ∷ map (λ q. q ++ ys) (map (λ q. q ++ xs) rows)) (append_assoc r xs ys)
      ∙ ap (λ x. (r ++ (xs ++ ys)) ∷ x) (map_twice xs ys rows)

  pub IsWider-refl : (t : BlocksTable F) → IsWider t t
  IsWider-refl t = record {
    names = [];
    cells = [];
    columns = sym (append_nil t.columns);
    rows = map_nil t.rows;
  }

  IsWider-trans : (t u v : BlocksTable F) → IsWider t u → IsWider u v → IsWider t v
  IsWider-trans t u v h k = record {
    names = h.names ++ k.names;
    cells = h.cells ++ k.cells;
    columns = k.columns ∙ ap (λ c. c ++ k.names) h.columns ∙ append_assoc t.columns h.names k.names;
    rows = k.rows ∙ ap (map (λ r. r ++ k.cells)) h.rows ∙ map_twice h.cells k.cells t.rows;
  }

  pub record IsGrown (d d' : File F) : Type 0 where
    pub wider :
        (t : BlocksTable F)
        → d.blocks ≡ some t
        → (t' : BlocksTable F) × (d'.blocks ≡ some t') × IsWider t t'
    pub index : d.has_index ≡ true → d'.has_index ≡ true
    pub samples : d.has_samples ≡ true → d'.has_samples ≡ true
    pub kv : d.has_kv ≡ true → d'.has_kv ≡ true
    pub boosted : d.has_boosted ≡ true → d'.has_boosted ≡ true

  -- the same table, and no flag taken back
  with_flags :
      (d d' : File F)
      → d'.blocks ≡ d.blocks
      → (d.has_index ≡ true → d'.has_index ≡ true)
      → (d.has_samples ≡ true → d'.has_samples ≡ true)
      → (d.has_kv ≡ true → d'.has_kv ≡ true)
      → (d.has_boosted ≡ true → d'.has_boosted ≡ true)
      → IsGrown d d'
  with_flags d d' same index samples kv boosted = record {
    wider = λ t h. (t, same ∙ h, IsWider-refl t);
    index = index;
    samples = samples;
    kv = kv;
    boosted = boosted;
  }

  pub IsGrown-refl : (d : File F) → IsGrown d d
  IsGrown-refl d = with_flags d d refl (λ h. h) (λ h. h) (λ h. h) (λ h. h)

  pub IsGrown-trans : (d e f : File F) → IsGrown d e → IsGrown e f → IsGrown d f
  IsGrown-trans d e f h k = record {
    wider = λ t there.
        let (u, mid, first) = h.wider t there in
        let (v, last, second) = k.wider u mid in (v, last, IsWider-trans t u v first second);
    index = λ x. k.index (h.index x);
    samples = λ x. k.samples (h.samples x);
    kv = λ x. k.kv (h.kv x);
    boosted = λ x. k.boosted (h.boosted x);
  }

  -- a step of Open, which may fail
  abbrev pub Grows : (File F → File F × Bool) → Type 0
  Grows step = (d : File F) → IsGrown d (step d).0

  without_faults : (d : File F) (later : List Bool) → IsGrown d (record d { faults = later })
  without_faults d later =
      with_flags d (record d { faults = later }) refl (λ h. h) (λ h. h) (λ h. h) (λ h. h)

  exec_on-IsGrown :
      (f : File F → File F) (d : File F) (faults : List Bool)
      → ((d : File F) → IsGrown d (f d))
      → IsGrown d (exec_on f d faults).0
  exec_on-IsGrown f d [] h = h d
  exec_on-IsGrown f d (true ∷ later) h = without_faults d later
  exec_on-IsGrown f d (false ∷ later) h =
      let d' : File F = record d { faults = later } in
      IsGrown-trans d d' (f d') (without_faults d later) (h d')

  pub exec-Grows : (f : File F → File F) → ((d : File F) → IsGrown d (f d)) → Grows (exec f)
  exec-Grows f h d = exec_on-IsGrown f d d.faults h

  pub then_Grown :
      (d : File F) (p : File F × Bool) (next : File F → File F × Bool)
      → IsGrown d p.0
      → Grows next
      → IsGrown d (p >> next).0
  then_Grown d (e, true) next h k = IsGrown-trans d e (next e).0 h (k e)
  then_Grown d (e, false) next h k = h

  create_blocks-IsGrown : (d : File F) → IsGrown d (create_blocks d)
  unfolding create_blocks
  create_blocks-IsGrown d = record {
    wider = λ t h. (t, rw h refl, IsWider-refl t);
    index = λ h. h;
    samples = λ h. h;
    kv = λ h. h;
    boosted = λ h. h;
  }

  add_column-IsGrown :
      (name : String) (default : Cell F) (d : File F) → IsGrown d (add_column name default d)
  unfolding add_column
  add_column-IsGrown name default d = record {
    wider = λ t h.
        let t' : BlocksTable F = record {
          columns = t.columns ++ name ∷ [];
          rows = map (λ r. r ++ default ∷ []) t.rows;
        } in
        (
          t',
          rw h refl,
          record { names = name ∷ []; cells = default ∷ []; columns = refl; rows = refl },
        );
    index = λ h. h;
    samples = λ h. h;
    kv = λ h. h;
    boosted = λ h. h;
  }

  pub add_missing-Grows :
      (had : List String) (name : String) (default : Cell F) → Grows (add_missing had name default)
  unfolding add_missing
  add_missing-Grows had name default d = elim (Bool-cases (have name had)) [
    | inl e ↦ rw e (IsGrown-refl d)
    | inr e ↦ rw e (exec-Grows (add_column name default) (add_column-IsGrown name default) d)
  ]

  flag_Grown :
      (f : File F → File F)
      → ((d : File F) → IsGrown d (f d))
      → (d : File F) (p : File F × Bool) → IsGrown d p.0
      → IsGrown d (p >> exec f).0
  flag_Grown f h d p g = then_Grown d p (exec f) g (exec-Grows f h)

  create_index-Grows : Grows create_index
  unfolding create_index
  create_index-Grows d = elim (Bool-cases (d.has_index || have "found_at" (columns_of d))) [
    | inl h ↦ rw h (
        exec-Grows index_blocks
          (λ e. with_flags e (index_blocks e) refl (λ _. refl) (λ h. h) (λ h. h) (λ h. h)) d)
    | inr h ↦ rw h (exec-Grows (λ e. e) IsGrown-refl d)
  ]

  pub create_schema-Grows : Grows create_schema
  unfolding create_schema
  create_schema-Grows d =
      let samples = λ (e : File F). record e { has_samples = true } in
      let kv = λ (e : File F). record e { has_kv = true } in
      let p₀ = exec create_blocks d in
      let p₁ = p₀ >> create_index in
      let p₂ = p₁ >> exec samples in
      let g₁ =
        then_Grown d p₀ create_index (exec-Grows create_blocks create_blocks-IsGrown d)
          create_index-Grows in
      let g₂ =
        flag_Grown samples
          (λ e. with_flags e (samples e) refl (λ h. h) (λ _. refl) (λ h. h) (λ h. h)) d p₁ g₁ in
      flag_Grown kv (λ e. with_flags e (kv e) refl (λ h. h) (λ h. h) (λ _. refl) (λ h. h)) d p₂ g₂

  pub migrate_accelerator-Grows : Grows migrate_accelerator
  unfolding migrate_accelerator
  migrate_accelerator-Grows =
      exec-Grows (λ e. record e { has_boosted = true })
        (λ e.
          with_flags e (record e { has_boosted = true }) refl (λ h. h) (λ h. h) (λ h. h)
            (λ _. refl))

module _ {F : Type 0} ⦃fl : Float64 F⦄ where
  pub migrate-Grows : Grows (migrate {F = F})
  unfolding migrate
  migrate-Grows d =
      let had = columns_of d in
      let more = λ (name : String) (default : Cell F) (p : File F × Bool) (g : IsGrown d p.0).
        then_Grown d p (add_missing had name default) g (add_missing-Grows had name default) in
      let p₀ = exec (λ (e : File F). e) d in
      let p₁ = p₀ >> add_missing had "share_diff" (real fl.nought) in
      let p₂ = p₁ >> add_missing had "orphaned_at" (integer 0) in
      let p₃ = p₂ >> add_missing had "chain" (text "") in
      let g₁ = more "share_diff" (real fl.nought) p₀ (exec-Grows (λ e. e) IsGrown-refl d) in
      let g₂ = more "orphaned_at" (integer 0) p₁ g₁ in
      let g₃ = more "chain" (text "") p₂ g₂ in more "miner" (text "") p₃ g₃

  -- Whatever statements fail, Open takes no table and no column away: the rows of `blocks` stay, in
  -- their order, each with the cells it had, and each with the same new cells behind them.
  pub open_store-IsGrown : (d : File F) → IsGrown d (open_store d).0
  unfolding open_store
  open_store-IsGrown d =
      let p₀ = exec (λ (e : File F). e) d in
      let p₁ = p₀ >> create_schema in
      let p₂ = p₁ >> migrate in
      let g₀ = exec-Grows (λ e. e) IsGrown-refl d in
      let g₁ = then_Grown d p₀ create_schema g₀ create_schema-Grows in
      let g₂ = then_Grown d p₁ migrate g₁ migrate-Grows in
      then_Grown d p₂ migrate_accelerator g₂ migrate_accelerator-Grows
