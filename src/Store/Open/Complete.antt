-- ===== src/Store/Open/Complete.antt =====
-- What Open has made of the file where it succeeds.
use kamado_pool.Base.{
  ◌≡◌, refl, ap, ◌∙◌, Bool, true, false, ◌||◌, List, [], ◌∷◌, none, some, String, eq_iff,
  Bool-cases, Option-cases, inl, inr, arith, All,
}
use kamado_pool.Base.Float.{Float64}
use kamado_pool.Store.Open.{
  Cell, text, integer, real, BlocksTable, File, exec_on, exec, ◌>>◌, create_blocks, index_blocks,
  create_index, create_schema, add_column, have, columns_of, add_missing, migrate,
}
use kamado_pool.Store.Open.Grown.{
  IsGrown, have-append, add_missing-Grows, exec-Grows, IsGrown-refl, IsGrown-trans,
}

module _ {F : Type 0} where
  abbrev pub HasTable : File F → Type 0
  HasTable d = (t : BlocksTable F) × (d.blocks ≡ some t)

  abbrev pub HasColumn : String → File F → Type 0
  HasColumn name d = have name (columns_of d) ≡ true

  HasTable-grown : {d e : File F} → IsGrown d e → HasTable d → HasTable e
  HasTable-grown g (t, h) = let (u, k, _) = g.wider t h in (u, k)

  HasColumn-grown :
      (name : String) (d e : File F) → IsGrown d e → HasColumn name d → HasColumn name e
  HasColumn-grown name d e g h = elim (Option-cases d.blocks) [
    | inl gone ↦
        let empty = ap (λ o. have name (elim o [ none ↦ [] | some t ↦ t.columns ])) gone in
        absurd (unfold have in ground (arith, h, empty))
    | inr (t, there) ↦
        let (u, there', w) = g.wider t there in
        let before = ap (λ o. have name (elim o [ none ↦ [] | some t ↦ t.columns ])) there in
        let after = ap (λ o. have name (elim o [ none ↦ [] | some t ↦ t.columns ])) there' in
        let longer = ap (have name) w.columns ∙ have-append name t.columns w.names in
        ground (arith, h, before, after, longer)
  ]

  -- what holds where a step succeeds
  abbrev pub Ensures : (File F → Type 0) → File F × Bool → Type 0
  Ensures Q p = p.1 ≡ true → Q p.0

  pub exec_on-Ensures :
      (Q : File F → Type 0) (f : File F → File F) (d : File F) (faults : List Bool)
      → Q (f d)
      → ((later : List Bool) → Q (f (record d { faults = later })))
      → Ensures Q (exec_on f d faults)
  exec_on-Ensures Q f d [] h k _ = h
  exec_on-Ensures Q f d (true ∷ later) h k e = absurd (ground (arith, e))
  exec_on-Ensures Q f d (false ∷ later) h k _ = k later

  pub then_step :
      (Q R : File F → Type 0) (p : File F × Bool) (next : File F → File F × Bool)
      → Ensures Q p
      → ((e : File F) → Q e → Ensures R (next e))
      → Ensures R (p >> next)
  then_step Q R (d, true) next h k e = k d (h refl) e
  then_step Q R (d, false) next h k e = absurd (ground (arith, e))

  HasColumn-add_column :
      (name : String) (default : Cell F) (e : File F)
      → HasTable e
      → HasColumn name (add_column name default e)
  unfolding add_column have
  HasColumn-add_column name default e (t, there) =
      let same = (eq_iff name name).1 refl in
      let split = have-append name t.columns (name ∷ []) in rw there (ground (arith, split, same))

  add_missing-HasColumn :
      (had : List String) (name : String) (default : Cell F) (e : File F)
      → HasTable e
      → (have name had ≡ true → HasColumn name e)
      → Ensures (HasColumn name) (add_missing had name default e)
  unfolding add_missing
  add_missing-HasColumn had name default e there kept = elim (Bool-cases (have name had)) [
    | inl h ↦ rw h (λ _. kept h)
    | inr h ↦ rw h (
        exec_on-Ensures (HasColumn name) (add_column name default) e e.faults
          (HasColumn-add_column name default e there)
          (λ l. HasColumn-add_column name default (record e { faults = l }) there))
  ]

-- All that the server reads is there.
pub record IsComplete {F : Type 0} (d : File F) : Type 0 where
  pub table : (t : BlocksTable F) × (d.blocks ≡ some t)
  pub share_diff : have "share_diff" (columns_of d) ≡ true
  pub orphaned_at : have "orphaned_at" (columns_of d) ≡ true
  pub chain : have "chain" (columns_of d) ≡ true
  pub miner : have "miner" (columns_of d) ≡ true
  pub index : d.has_index ≡ true
  pub samples : d.has_samples ≡ true
  pub kv : d.has_kv ≡ true
  pub boosted : d.has_boosted ≡ true

module _ {F : Type 0} ⦃fl : Float64 F⦄ where
  -- grown from d, with these columns
  abbrev pub Reached : File F → List String → File F → Type 0
  Reached d names e = IsGrown d e × All (λ n. HasColumn n e) names

  All-grown :
      (d e : File F) (names : List String)
      → IsGrown d e
      → All (λ n. HasColumn n d) names
      → All (λ n. HasColumn n e) names
  All-grown d e [] g h = tt
  All-grown d e (n ∷ names) g (h, hs) = (HasColumn-grown n d e g h, All-grown d e names g hs)

  add_missing-Reached :
      (d : File F) (names : List String) (name : String) (default : Cell F) (e : File F)
      → HasTable d
      → Reached d names e
      → Ensures (Reached d (name ∷ names)) (add_missing (columns_of d) name default e)
  add_missing-Reached d names name default e there (g, hs) ok =
      let had = columns_of d in
      let step = add_missing-Grows had name default e in
      (
        IsGrown-trans d e (add_missing had name default e).0 g step,
        (
          add_missing-HasColumn had name default e (HasTable-grown g there)
              (HasColumn-grown name d e g) ok,
          All-grown e (add_missing had name default e).0 names step hs,
        ),
      )

  next-Reached :
      (d : File F) (names : List String) (name : String) (default : Cell F) (p : File F × Bool)
      → HasTable d
      → Ensures (Reached d names) p
      → Ensures (Reached d (name ∷ names)) (p >> add_missing (columns_of d) name default)
  next-Reached d names name default p there h =
      then_step (Reached d names) (Reached d (name ∷ names)) p
        (add_missing (columns_of d) name default) h
        (λ e. add_missing-Reached d names name default e there)

  pub migrate-Reached :
      (d : File F)
      → HasTable d
      → Ensures (Reached d ("miner" ∷ "chain" ∷ "orphaned_at" ∷ "share_diff" ∷ [])) (migrate d)
  unfolding migrate
  migrate-Reached d there =
      let had = columns_of d in
      let p₀ = exec (λ (e : File F). e) d in
      let p₁ = p₀ >> add_missing had "share_diff" (real fl.nought) in
      let p₂ = p₁ >> add_missing had "orphaned_at" (integer 0) in
      let p₃ = p₂ >> add_missing had "chain" (text "") in
      let s₀ : Ensures (Reached d []) p₀ = λ _. (exec-Grows (λ e. e) IsGrown-refl d, tt) in
      let s₁ = next-Reached d [] "share_diff" (real fl.nought) p₀ there s₀ in
      let s₂ = next-Reached d ("share_diff" ∷ []) "orphaned_at" (integer 0) p₁ there s₁ in
      let s₃ = next-Reached d ("orphaned_at" ∷ "share_diff" ∷ []) "chain" (text "") p₂ there s₂ in
      next-Reached d ("chain" ∷ "orphaned_at" ∷ "share_diff" ∷ []) "miner" (text "") p₃ there s₃

  -- what create_schema makes
  pub record IsCreated (d : File F) : Type 0 where
    pub table : HasTable d
    pub index : d.has_index ≡ true
    pub samples : d.has_samples ≡ true
    pub kv : d.has_kv ≡ true

  HasTable-create_blocks : (d : File F) → HasTable (create_blocks d)
  unfolding create_blocks
  HasTable-create_blocks d = elim (Option-cases d.blocks) [
    | inl e ↦ rw e (_, refl)
    | inr (t, e) ↦ rw e (t, refl)
  ]

  -- a table and its index
  abbrev IsIndexed : File F → Type 0
  IsIndexed e = HasTable e × (e.has_index ≡ true)

  create_index-IsIndexed : (e : File F) → HasTable e → Ensures IsIndexed (create_index e)
  unfolding create_index
  create_index-IsIndexed e t = elim (Bool-cases (e.has_index || have "found_at" (columns_of e))) [
    | inl h ↦ rw h (exec_on-Ensures IsIndexed index_blocks e e.faults (t, refl) (λ l. (t, refl)))
    | inr h ↦ rw h (λ ok. absurd (ground (arith, ok)))
  ]

  pub create_schema-IsCreated : (d : File F) → Ensures IsCreated (create_schema d)
  unfolding create_schema
  create_schema-IsCreated d =
      let samples = λ (e : File F). record e { has_samples = true } in
      let kv = λ (e : File F). record e { has_kv = true } in
      let p₀ = exec create_blocks d in
      let p₁ = p₀ >> create_index in
      let p₂ = p₁ >> exec samples in
      let A₂ = λ (e : File F). HasTable e × (e.has_index ≡ true) × (e.has_samples ≡ true) in
      let s₀ =
        exec_on-Ensures HasTable create_blocks d d.faults (HasTable-create_blocks d)
          (λ l. HasTable-create_blocks (record d { faults = l })) in
      let s₁ = then_step HasTable IsIndexed p₀ create_index s₀ create_index-IsIndexed in
      let s₂ =
        then_step IsIndexed A₂ p₁ (exec samples) s₁
          (λ e q. exec_on-Ensures A₂ samples e e.faults (q.0, q.1, refl) (λ l. (q.0, q.1, refl))) in
      then_step A₂ IsCreated p₂ (exec kv) s₂ (λ e q.
        exec_on-Ensures IsCreated kv e e.faults
          (record { table = q.0; index = q.1; samples = q.2; kv = refl })
          (λ l. record { table = q.0; index = q.1; samples = q.2; kv = refl }))
