-- ===== src/Store/Open.antt =====
-- api/internal/store/blocks.go and accelerator.go: Open, which creates the tables and adds the columns
-- that older versions of the table `blocks` lack.
use kamado_pool.Base.{
  ◌≡◌, refl, sym, ap, ◌∙◌, Bool, true, false, not, ◌||◌, ◌&&◌, List, [], ◌∷◌, ◌++◌, map, Option,
  none, some, String, str_eq, if◌then◌else◌, Bool-cases, inl, inr, arith,
}
use kamado_pool.Base.Word.{Int64}
use kamado_pool.Base.Float.{Float64}
pub mod Grown
pub mod Complete
pub mod Reopen

pub data Cell (F : Type 0) : Type 0 where
  text : String → Cell F
  integer : Int64 → Cell F
  real : F → Cell F

-- the table `blocks`: its columns, and in each row a cell for every column
pub record BlocksTable (F : Type 0) : Type 0 where
  pub columns : List String
  pub rows : List (List (Cell F))

-- The file. `faults` says of each coming statement whether it fails; past its end none does.
pub record File (F : Type 0) : Type 0 where
  pub blocks : Option (BlocksTable F)
  pub has_index : Bool
  pub has_samples : Bool
  pub has_kv : Bool
  pub has_boosted : Bool
  pub faults : List Bool

-- the columns of the table in the schema
pub base_columns : List String
base_columns =
    "height" ∷ "hash" ∷ "reward_btc" ∷ "found_at" ∷ "source" ∷ "share_diff" ∷ "orphaned_at"
    ∷ "chain" ∷ []

-- have[name]
unfoldable pub have : String → List String → Bool
have name [] = false
have name (c ∷ cs) = str_eq c name || have name cs

module _ {F : Type 0} where
  -- a statement; the flag is `err == nil`
  abbrev pub exec_on : (File F → File F) → File F → List Bool → File F × Bool
  exec_on statement d [] = (statement d, true)
  exec_on statement d (true ∷ later) = (record d { faults = later }, false)
  exec_on statement d (false ∷ later) = (statement (record d { faults = later }), true)

  abbrev pub exec : (File F → File F) → File F → File F × Bool
  exec statement d = exec_on statement d d.faults

  -- `if err != nil { return … }`
  infixl 5 ◌>>◌
  abbrev pub ◌>>◌ : File F × Bool → (File F → File F × Bool) → File F × Bool
  (d, true) >> next = next d
  (d, false) >> next = (d, false)

  -- the columns that PRAGMA table_info lists
  abbrev pub columns_of : File F → List String
  columns_of d = elim d.blocks [ none ↦ [] | some t ↦ t.columns ]

  -- schema: CREATE … IF NOT EXISTS
  unfoldable pub create_blocks : File F → File F
  create_blocks d = record d {
    blocks = elim d.blocks [
      | none ↦ some (record { columns = base_columns; rows = [] })
      | some t ↦ some t
    ];
  }

  abbrev pub index_blocks : File F → File F
  index_blocks d = record d { has_index = true }

  -- an index on a column that is not there is an error, unless the index is there already
  unfoldable pub create_index : File F → File F × Bool
  create_index d =
      if d.has_index || have "found_at" (columns_of d)
      then exec index_blocks d
      else ((exec (λ d. d) d).0, false)

  unfoldable pub create_schema : File F → File F × Bool
  create_schema d =
      exec create_blocks d
      >> create_index
      >> exec (λ d. record d { has_samples = true })
      >> exec (λ d. record d { has_kv = true })

  -- ALTER TABLE blocks ADD COLUMN … DEFAULT
  unfoldable pub add_column : String → Cell F → File F → File F
  add_column name default d = record d {
    blocks = elim d.blocks [
      | none ↦ none
      | some t ↦
          some (record {
            columns = t.columns ++ name ∷ [];
            rows = map (λ r. r ++ default ∷ []) t.rows;
          })
    ];
  }

  unfoldable pub add_missing : List String → String → Cell F → File F → File F × Bool
  add_missing had name default d =
      if have name had then (d, true) else exec (add_column name default) d

  -- migrateAccelerator
  unfoldable pub migrate_accelerator : File F → File F × Bool
  migrate_accelerator = exec (λ d. record d { has_boosted = true })

module _ {F : Type 0} ⦃fl : Float64 F⦄ where
  unfoldable pub migrate : File F → File F × Bool
  migrate d =
      let had = columns_of d in
      exec (λ d. d) d
      >> add_missing had "share_diff" (real fl.nought)
      >> add_missing had "orphaned_at" (integer 0)
      >> add_missing had "chain" (text "")
      >> add_missing had "miner" (text "")

  -- Open: sql.Open, the schema, and the two migrations; without its flag the file is closed again
  unfoldable pub open_store : File F → File F × Bool
  open_store d = exec (λ d. d) d >> create_schema >> migrate >> migrate_accelerator
