-- ===== src/Lib.antt =====
-- KamadoPool's API server (`api/`): a Bitcoin solo pool's dashboard back end. It polls ckpool and
-- bitcoind, follows ckpool's log, keeps statistics and found blocks in SQLite, and pushes
-- snapshots over WebSockets.
--
-- Parts and files. The state of the server is one aggregator, which all goroutines share under a
-- mutex; a goroutine's critical section is one step here, a function from the aggregator to the
-- aggregator.
--
-- State/Types: the structs of `api/internal/state`, of the answers of ckpool and bitcoind, and of
-- the log events, with the fields that the modelled code reads. The fields of Snapshot that only
-- pass through (Users, Clients, StratumServers, MempoolBaseURL) are left out.
--
-- State/Shares: `api/internal/state/aggregator.go`, IngestShareEvents (`ingest_share` for one
-- event, `ingest_shares` for the channel), persistShareStats, resetSessionShareStats and
-- RebuildShareStatsFromLog.
--
-- State/Blocks: `api/internal/state/blocks.go`, IngestBlockEvents, IngestAttemptEvents,
-- IngestLatencyEvents, ResetLatency, loadPersistedBlocks and the two readers.
--
-- State/Reconcile: reconcileOnce of the same file, with its four passes `enrich`, `detect`,
-- `restore` and `stamp`; `for_each` is the loop of a pass.
--
-- State/Refresh: refresh of `api/internal/state/aggregator.go`, cut at its stages: what it is
-- given (Refresh/Answers), the calls before the lock (Refresh/Polling), the counters and the
-- history under it (Refresh/Tracking), and the end (Refresh). Its stages are `poll_ckpool`,
-- `poll_chain`, `retarget`, `raise_best`, `integrate_work`, `integrate_counts`, `sample_hashrate`,
-- `refresh_reward`, `attach`, `failover`; `rounds` for a sequence of rounds, and Refresh/Loop for
-- the loop of Run with its ticks and tips (`run_aggregator`).
--
-- Store: `api/internal/store`. Store/Open is Open with the schema and the migrations
-- (`open_store`), on a file that may be of an older version; the other modules are the statements
-- on the open database. A table is a list of rows, a statement a function on it. The database
-- holds a list of faults that says of each coming statement whether it fails; theorems that do not
-- mention it hold for all faults. Aggregator and accelerator use the store through these
-- statements.
--
-- Accelerator: `api/internal/accelerator/accelerator.go`, all operations of Service, over a node
-- that answers and that remembers the changes of priority it took.
--
-- State/Restore: `api/internal/state/aggregator.go`, loadPersistedState (`load_persisted_state`)
-- in its order, with its two backfills from the log, and the acknowledged best difficulty. A key
-- that is absent or unreadable leaves its field, as in the code. Restore/Rebuilt puts it after
-- RebuildShareStatsFromLog.
--
-- Bitcoind: `api/internal/bitcoind/rpc.go`, Call with its retries (`call`), isRetryable and
-- callOnce, over the outcomes of net/http. Ckpool: `api/internal/ckpool/client.go`, Send and what
-- is built on it, over a socket whose calls may fail and a peer that answers bytes.
--
-- Logmon: `api/internal/logmon/tailer.go`, its patterns (over Base/Regexp), handleLine
-- (Logmon/Tail), scanLines over the reads of bufio (Logmon/Lines) and the scans of a log
-- (Logmon/Scan). Logmon/Follow is Run (`run`): what the operating system, the context and the
-- clock answer in a round of its loop is a `Turn`, and the reader's buffer is modelled, since the
-- saved cursor is the file's offset behind it. Logmon/Watch puts the tailer and the aggregator
-- together: the lines come in batches, and the aggregator empties the channel of shares after
-- each.
--
-- HttpApi/Frame: `api/internal/httpapi/ws.go`, writeFrame and readFrame, over lists of bytes and a
-- connection whose writes may fail. HttpApi/Hub: the hub with its clients and their two
-- goroutines, a list of clients and events that act on it in any order; a panic is no result.
-- HttpApi/Requests, Handlers and Routes: security.go, server.go and accelerate.go of the same
-- directory, the routes as a function from a request and the server to the server and a response.
-- The aggregator and the accelerator each have their own copy of the database there, since no
-- handler uses both.
--
-- Main: `api/cmd/kamado-api/main.go`. Main/Cursor is the tailer's cursor in the table kv
-- (LoadCursor and SaveCursor), Main/Kill is killCKPool over what /proc answers, and Main/Start is
-- main as the list of its steps, in order, for every outcome of what it calls. Config:
-- `api/internal/config/config.go`, FromEnv over an environment. Zmq:
-- `api/internal/zmqmon/zmqmon.go`, Run and runOnce over what happens in each session of the socket
-- library; `rounds` gives the waits between the sessions.
--
-- Base: names from the libraries, 64-bit words, times in nanoseconds, floats, maps as association
-- lists. Tests: the theorems at concrete inputs.
--
-- Conventions. An int64 is its bit pattern, a number below 2^64, with the wrap-around written out
-- in Base/Word. float64 is an abstract type with the operations that the code uses; a theorem that
-- needs laws of the order takes them as IsOrdered, IsLinear (values that are not NaN) and
-- IsAscending (the limits of the histogram). JSON and number formats are the parameter Codec, the
-- answers of bitcoind and ckpool are Rpc, Polls and Node, and a log scan's result is an argument.
-- A Go map is an association list, so that its order is one of those Go may choose. The clock is
-- an argument and is read once in a step. Logging is left out. Loops are structural recursion on
-- lists, texts or a number of attempts. scan_lines takes fuel; one more than the text has
-- characters is enough, since each read takes a character or more. read_string takes fuel too, and
-- its caller gives one more than twice what the file has left and what is buffered, since each
-- refill moves a character and each full buffer is emptied once. A printed number has twenty
-- digits at most.
--
-- Not modelled: wsAcceptKey, securityHeaders and the JSON of the responses; the typed wrappers
-- that name a method of bitcoind or a command of ckpool, whose answers enter as parameters; the
-- signals and the timeouts of the HTTP server in main; time.ParseDuration, which is a parameter;
-- and what is not Go (`ui`, `ckpool`, `test`).
--
-- Coarser than the code: a rebuild from the log is one step, though the code scans the log outside
-- the lock and other goroutines may count shares meanwhile; the answers of the node are one
-- function for a whole sweep, though each pass asks GetBlock again; and the reader of the hub ends
-- by an error of readFrame, and it has no outcome for the panic that readFrame has in
-- HttpApi/Frame.
pub mod Base
pub mod HttpApi
pub mod Store
pub mod Logmon
pub mod State
pub mod Bitcoind
pub mod Ckpool
pub mod Accelerator
pub mod Main
pub mod Config
pub mod Zmq
pub mod Tests
