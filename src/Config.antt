-- ===== src/Config.antt =====
-- api/internal/config/config.go: the configuration, read from the environment. `env` is os.Getenv,
-- which is "" for a name that is not set, and `parse_duration` is time.ParseDuration.
use kamado_pool.Base.{
  ◌≡◌, ◌≢◌, ◌*◌, ◌%◌, ◌^◌, ◌<◌, ◌⊎◌, inl, inr, false, ◌||◌, Option, none, some, String, str_eq,
  eq_iff, if◌then◌else◌, arith, Bool-cases, ap, sym, ◌∙◌,
}
use kamado_pool.Base.Word.{Int64}
use kamado_pool.Base.Time.{second}
use kamado_pool.Base.Decimal.{parse_int, format_int, parse_int-format_int}

pub record Config : Type 0 where
  pub listen_addr : String
  pub ckpool_sock_dir : String
  pub bitcoin_rpc_url : String
  pub bitcoin_rpc_user : String
  pub bitcoin_rpc_password : String
  pub bitcoin_rpc_timeout : Int64
  pub bitcoin_zmq_block : String
  pub ckpool_log_file : String
  pub db_path : String
  pub poll_interval : Int64
  pub mempool_base_url : String
  pub stratum_servers_json : String

-- the results of FromEnv
pub data Loaded : Type 0 where
  url_required credentials_required : Loaded
  loaded : Config → Loaded

module _ (env : String → String) where
  unfoldable pub getenv : String → String → String
  getenv key def = if str_eq (env key) "" then def else env key

  module _ (parse_duration : String → Option Int64) where
    -- Durations are in nanoseconds; the product of bare seconds wraps around.
    unfoldable pub getenv_duration : String → Int64 → Int64
    getenv_duration key def = if str_eq (env key) "" then def else elim (parse_duration (env key)) [
      | some d ↦ d
      | none ↦ elim (parse_int (env key)) [ some n ↦ n * second % 2 ^ 64 | none ↦ def ]
    ]

    abbrev pub read_config : Config
    read_config = record {
      listen_addr = getenv "LISTEN_ADDR" ":8080";
      ckpool_sock_dir = getenv "CKPOOL_SOCKDIR" "/run/ckpool";
      bitcoin_rpc_url = env "BITCOIN_RPC_URL";
      bitcoin_rpc_user = env "BITCOIN_RPC_USER";
      bitcoin_rpc_password = env "BITCOIN_RPC_PASSWORD";
      bitcoin_rpc_timeout = getenv_duration "BITCOIN_RPC_TIMEOUT" (10 * second);
      bitcoin_zmq_block = env "BITCOIN_ZMQ_BLOCK";
      ckpool_log_file = getenv "CKPOOL_LOGFILE" "/var/log/ckpool/ckpool.log";
      db_path = getenv "DB_PATH" "/var/lib/kamado/kamado.db";
      poll_interval = getenv_duration "POLL_INTERVAL" (5 * second);
      mempool_base_url = env "MEMPOOL_BASE_URL";
      stratum_servers_json = env "STRATUM_SERVERS";
    }

    unfoldable pub from_env : Loaded
    from_env =
        let cfg = read_config in
        if str_eq cfg.bitcoin_rpc_url ""
        then url_required
        else if str_eq cfg.bitcoin_rpc_user "" || str_eq cfg.bitcoin_rpc_password ""
        then credentials_required
        else loaded cfg

    -- FromEnv succeeds where the three values of bitcoind are set, and only there; a missing URL is
    -- reported before missing credentials.
    pub from_env_lem :
        ((env "BITCOIN_RPC_URL" ≡ "") → from_env ≡ url_required)
        × ((env "BITCOIN_RPC_URL" ≢ "")
            → ((env "BITCOIN_RPC_USER" ≡ "") ⊎ (env "BITCOIN_RPC_PASSWORD" ≡ ""))
            → from_env ≡ credentials_required)
        × ((env "BITCOIN_RPC_URL" ≢ "")
            → (env "BITCOIN_RPC_USER" ≢ "")
            → (env "BITCOIN_RPC_PASSWORD" ≢ "")
            → from_env ≡ loaded read_config)
    unfolding from_env
    from_env_lem =
        let url = eq_iff (env "BITCOIN_RPC_URL") "" in
        let user = eq_iff (env "BITCOIN_RPC_USER") "" in
        let password = eq_iff (env "BITCOIN_RPC_PASSWORD") "" in
        (
          λ u. ground (arith, u, url),
          λ u c. ground (arith, u, c, url, user, password),
          λ u c d. ground (arith, u, c, d, url, user, password),
        )

    -- A number of seconds as strconv prints it is read as that duration, where ParseDuration refuses
    -- it and it is short enough for a Duration.
    pub getenv_duration-seconds :
        (key : String) (def n : Int64)
        → env key ≡ format_int n
        → parse_duration (format_int n) ≡ none
        → n * second < 2 ^ 63
        → getenv_duration key def ≡ n * second
    unfolding getenv_duration
    getenv_duration-seconds key def n there refused short =
        let read = parse_int-format_int n (omega (arith, short)) in
        let some_text : str_eq (format_int n) "" ≡ false =
          elim (Bool-cases (str_eq (format_int n) "")) [
            | inl e ↦
                let empty = ap parse_int (sym ((eq_iff (format_int n) "").0 e)) ∙ read in
                absurd (unfold parse_int in ground (arith, empty))
            | inr e ↦ e
          ] in
        simp (there, some_text, refused, read) (omega (arith, short))
