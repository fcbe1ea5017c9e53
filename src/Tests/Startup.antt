-- ===== src/Tests/Startup.antt =====
-- The program entry, the configuration, the ZMQ monitor and the opening of the database at concrete
-- inputs.
use Prim.Native.Nat.{zero, suc}
use kamado_pool.Base.{
  ℕ, ◌*◌, ◌≡◌, if◌then◌else◌, refl, true, false, [], ◌∷◌, none, some, String, str_eq, arith, length,
}
use kamado_pool.Base.Cut.{join}
use kamado_pool.Base.Time.{second}
use kamado_pool.Base.Text.{after_by, strip_by}
use kamado_pool.Base.Decimal.{
  digit_char, put_digits, format_uint, format_int, parse_uint, parse_int, scan_digits, with_sign,
}
use kamado_pool.Store.Open.{
  File, open_store, create_schema, create_blocks, create_index, migrate, migrate_accelerator,
  add_missing, add_column, have, Cell,
}
use kamado_pool.Store.Open.Grown.{IsGrown}
use kamado_pool.Store.Open.Complete.{IsComplete}
use kamado_pool.Store.Open.Reopen.{open_store-IsComplete}
use kamado_pool.Config.{getenv_duration, from_env}
use kamado_pool.Main.Cursor.{load_cursor, save_cursor, print_cursor, load_cursor-save_cursor}
use kamado_pool.Main.Kill.{Proc, ckpool_pid, kill_first, kill_ckpool, terminate, signalled}
use kamado_pool.Main.Start.{World, ready, main, is_ordered, main-ordered}
use kamado_pool.Zmq.{
  new_monitor, dial_failed, connected, Round, run, run_once, receive_all, tip_hash, is_text,
  encode_to_string, IsLost, IsBackoff, run-IsBackoff,
}
use kamado_pool.Tests.Data.{whole, db}

prints_cursor : print_cursor 42 7 ≡ "42:7"
unfolding print_cursor format_uint format_int put_digits digit_char join
prints_cursor = refl

load_cursor-save_cursor_example : (load_cursor (save_cursor 42 7 db)).1 ≡ some (42, 7)
load_cursor-save_cursor_example = load_cursor-save_cursor 42 7 db (omega arith) (omega arith) refl

-- an old file, whose table lacks the four columns
abbrev old_file : File ℕ
old_file = record {
  blocks = some (record {
    columns = "height" ∷ "hash" ∷ "found_at" ∷ [];
    rows = (Cell.integer 9 ∷ Cell.text "ab" ∷ Cell.integer 100 ∷ []) ∷ [];
  });
  has_index = false;
  has_samples = false;
  has_kv = false;
  has_boosted = false;
  faults = [];
}

open_store-IsComplete_example :
    IsComplete (open_store old_file).0
    × IsGrown old_file (open_store old_file).0
    × (open_store (record (open_store old_file).0 { faults = [] })
        ≡ (record (open_store old_file).0 { faults = [] }, true))
unfolding open_store create_schema create_blocks create_index migrate migrate_accelerator
    add_missing add_column have
open_store-IsComplete_example = open_store-IsComplete old_file refl

-- without the column of the index, Open fails
older :
    (open_store (record old_file { blocks = some (record { columns = []; rows = [] }) })).1 ≡ false
unfolding open_store create_schema create_blocks create_index have
older = refl

-- the first process is no ckpool
abbrev two_processes : Proc
two_processes = record {
  entries = some (("1", true) ∷ ("version", false) ∷ ("20", true) ∷ []);
  cmdline = λ pid. some (elim pid [ suc zero ↦ "init" | _ ↦ "/bin/ckpool -L" ]);
  finds = λ pid. true;
  signals = λ pid. true;
}

kills : kill_ckpool two_processes ≡ signalled 20 true
unfolding kill_ckpool kill_first ckpool_pid terminate parse_int parse_uint scan_digits with_sign
    after_by strip_by
kills = refl

abbrev env : String → String
env key =
    if str_eq key "BITCOIN_RPC_URL"
    then "http://node"
    else if str_eq key "BITCOIN_RPC_USER"
    then "u"
    else if str_eq key "BITCOIN_RPC_PASSWORD"
    then "p"
    else if str_eq key "POLL_INTERVAL"
    then "0"
    else ""

-- An interval of 0 is accepted.
no_interval : getenv_duration env (λ t. none) "POLL_INTERVAL" (5 * second) ≡ 0
unfolding getenv_duration parse_int parse_uint scan_digits with_sign
no_interval = refl

abbrev world : World
world = record {
  config = from_env env (λ t. none);
  is_opened = true;
  servers = λ t. none;
  wait = ready;
  is_server_closed = true;
}

main-ordered_example :
    is_ordered (record { has_loaded = false; has_waited = false }) (main world) ≡ true
main-ordered_example = main-ordered world

abbrev lost_round : Round
lost_round = record { session = dial_failed; is_cancelled = false; is_woken = true }

lost_round-IsLost : IsLost lost_round
unfolding run_once
lost_round-IsLost = record { fails = λ m. refl; lives = refl; wakes = refl }

relays :
    (run_once
      (connected
        (record {
          frames = (104 ∷ 97 ∷ 115 ∷ 104 ∷ 98 ∷ 108 ∷ 111 ∷ 99 ∷ 107 ∷ []) ∷ (0 ∷ 171 ∷ []) ∷ [];
          now = 5;
          is_done = false;
        }
          ∷ [])
        false)
      (new_monitor "tcp://node")).0.events
    ≡ record { hash = "00ab"; seen_at = 5 } ∷ []
unfolding run_once receive_all tip_hash is_text encode_to_string new_monitor digit_char
relays = refl

run-IsBackoff_example :
    IsBackoff 0 (run (lost_round ∷ lost_round ∷ []) (new_monitor "tcp://node")).1
    × (length (run (lost_round ∷ lost_round ∷ []) (new_monitor "tcp://node")).1 ≡ 2)
unfolding new_monitor
run-IsBackoff_example =
    run-IsBackoff (lost_round ∷ lost_round ∷ []) (new_monitor "tcp://node") refl
      (lost_round-IsLost, (lost_round-IsLost, tt))
