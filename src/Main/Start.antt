-- ===== src/Main/Start.antt =====
-- api/cmd/kamado-api/main.go: main, as the list of what it does, in order.
use kamado_pool.Base.{
  ◌≡◌, refl, ℕ, Bool, true, false, not, ◌||◌, ◌&&◌, List, [], ◌∷◌, ◌++◌, Option, none, some, String,
  str_eq, if◌then◌else◌, arith,
}
use kamado_pool.Config.{Config, Loaded, url_required, credentials_required, loaded}

-- The steps of main. A `go` step starts a goroutine; `attach_store` sets agg.Store, `new_accelerator`
-- makes the accelerator's service, `attach_cursor` sets LoadCursor and SaveCursor, and
-- `declare_servers` has the number of the servers declared.
pub data Step : Type 0 where
  exit : Step
  open_database attach_store new_accelerator close_database : Step
  declare_servers : ℕ → Step
  go_zmq load_persisted go_refresh go_reconcile attach_cursor wait_ready : Step
  go_tailer go_ingest_blocks go_ingest_attempts go_ingest_latencies go_ingest_shares : Step
  go_cleanup go_shutdown listen : Step

-- the outcome of the `select` on Ready
pub data Wait : Type 0 where
  ready timed_out cancelled : Wait

-- What main meets: FromEnv, whether store.Open succeeds, the servers that json.Unmarshal reads, the
-- wait, and whether ListenAndServe ends in http.ErrServerClosed.
pub record World : Type 0 where
  pub config : Loaded
  pub is_opened : Bool
  pub servers : String → Option ℕ
  pub wait : Wait
  pub is_server_closed : Bool

-- whether there is a block store
unfoldable pub has_store : World → Config → Bool
has_store w cfg = not (str_eq cfg.db_path "") && w.is_opened

abbrev pub only_if : Bool → List Step → List Step
only_if b steps = if b then steps else []

-- up to the wait
unfoldable pub prepare : World → Config → List Step
unfolding has_store
prepare w cfg =
    only_if (not (str_eq cfg.db_path "")) (open_database ∷ [])
    ++ (only_if (has_store w cfg) (attach_store ∷ [])
        ++ ((if str_eq cfg.stratum_servers_json ""
              then []
              else elim (w.servers cfg.stratum_servers_json) [
                | none ↦ []
                | some n ↦ declare_servers n ∷ []
              ])
            ++ (only_if (has_store w cfg) (new_accelerator ∷ [])
                ++ (go_zmq
                    ∷ load_persisted
                    ∷ go_refresh
                    ∷ go_reconcile
                    ∷ only_if (has_store w cfg) (attach_cursor ∷ [])))))

-- after the wait
unfoldable pub serve : World → Config → List Step
unfolding has_store
serve w cfg =
    go_tailer
      ∷ go_ingest_blocks
      ∷ go_ingest_attempts
      ∷ go_ingest_latencies
      ∷ go_ingest_shares
      ∷ only_if (has_store w cfg) (go_cleanup ∷ [])
    ++ (go_shutdown ∷ listen ∷ only_if (not w.is_server_closed) (exit ∷ []))

-- with a configuration; the database is closed when main returns, not when it exits
unfoldable pub with_config : World → Config → List Step
unfolding has_store
with_config w cfg =
    let close = only_if (has_store w cfg) (close_database ∷ []) in
    prepare w cfg
    ++ (wait_ready
        ∷ elim w.wait [ cancelled ↦ close | _ ↦ serve w cfg ++ only_if w.is_server_closed close ])

unfoldable pub main : World → List Step
main w = elim w.config [ loaded cfg ↦ with_config w cfg | _ ↦ exit ∷ [] ]

-- the goroutines that change the counters which LoadPersisted restores
abbrev pub is_writer : Step → Bool
is_writer go_refresh = true
is_writer go_ingest_blocks = true
is_writer go_ingest_attempts = true
is_writer go_ingest_latencies = true
is_writer go_ingest_shares = true
is_writer _ = false

abbrev pub is_ingest : Step → Bool
is_ingest go_refresh = false
is_ingest s = is_writer s

-- what has happened before a step
pub record Past : Type 0 where
  pub has_loaded : Bool
  pub has_waited : Bool

unfoldable pub note : Step → Past → Past
note load_persisted p = record p { has_loaded = true }
note wait_ready p = record p { has_waited = true }
note _ p = p

-- Writers start after LoadPersisted, and the ingest goroutines after the wait too.
unfoldable pub is_ordered : Past → List Step → Bool
unfolding note
is_ordered p [] = true
is_ordered p (s ∷ steps) =
    (not (is_writer s) || p.has_loaded)
    && (not (is_ingest s) || p.has_waited)
    && is_ordered (note s p) steps

with_config-ordered :
    (w : World) (cfg : Config)
    → is_ordered (record { has_loaded = false; has_waited = false }) (with_config w cfg) ≡ true
unfolding is_ordered with_config prepare serve note
with_config-ordered w cfg = ground arith

-- In every run of main, each goroutine that changes the counters starts after LoadPersisted has
-- restored them, and those that read the log's events also after the wait for the first snapshot.
pub main-ordered :
    (w : World) → is_ordered (record { has_loaded = false; has_waited = false }) (main w) ≡ true
unfolding main is_ordered note
main-ordered w =
    elim w.config
      as (λ c.
        is_ordered (record { has_loaded = false; has_waited = false })
          (elim c [ loaded cfg ↦ with_config w cfg | _ ↦ exit ∷ [] ])
        ≡ true) [
          | url_required ↦ refl
          | credentials_required ↦ refl
          | loaded cfg ↦ with_config-ordered w cfg
        ]
