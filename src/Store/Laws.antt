-- ===== src/Store/Laws.antt =====
-- Statements where none fails, and the row of a key that is inserted last.
use kamado_pool.Base.{
  ◌≡◌, refl, Bool, true, not, List, [], ◌∷◌, ◌++◌, none, some, arith, inl, inr, Bool-cases,
}
use kamado_pool.Store.Table.{BlockStore, exec, query, where_rows, find_row}

-- No statement on the database fails.
abbrev pub IsFaultless : {F : Type 0} → BlockStore F → Type 0
IsFaultless db = db.faults ≡ []

module _ {F : Type 0} where
  pub exec-faultless :
      (f : BlockStore F → BlockStore F) (db : BlockStore F)
      → IsFaultless db
      → exec f db ≡ (f db, true)
  exec-faultless f db h = rw h refl

  pub query-faultless :
      {A : Type 0} (f : BlockStore F → A) (db : BlockStore F)
      → IsFaultless db
      → query f db ≡ (db, some (f db))
  query-faultless f db h = rw h refl

module _ {A : Type 0} where
  pub find_row-last :
      (test : A → Bool) (r : A) (rows : List A)
      → test r ≡ true
      → find_row test (where_rows (λ x. not (test x)) rows ++ (r ∷ [])) ≡ some r
  unfolding find_row where_rows
  find_row-last test r [] e = ground arith
  find_row-last test r (x ∷ rows) e =
      let ih = find_row-last test r rows e in
      elim (Bool-cases (test x)) [ inl h ↦ ground arith | inr h ↦ ground arith ]

  pub find_row-where :
      (test : A → Bool) (rows : List A) → find_row test (where_rows (λ x. not (test x)) rows) ≡ none
  unfolding find_row where_rows
  find_row-where test [] = refl
  find_row-where test (x ∷ rows) =
      let ih = find_row-where test rows in
      elim (Bool-cases (test x)) [ inl h ↦ ground arith | inr h ↦ ground arith ]
