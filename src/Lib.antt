-- ===== src/Lib.antt =====
-- A model of daikon, a key-value server with expiry, eviction, transactions, sketches, a
-- write-ahead log, replication, publish/subscribe and scripts. Paths are from the repository's
-- root.
--
-- The store is src/kv_store.rs. `Store` has its state, `KvStore`, with the fields of the
-- source, and the helpers that the operations share; the operations are in the modules below
-- it, by what they work on: `Store.Strings` (set, set_with_ttl, get_string and its kin, delete,
-- incr, decr, incrby, append, getset, mget, mset, exists), `Store.Expiry` (expire, persist,
-- ttl_seconds, pttl_millis, cleanup_expired), `Store.Transactions` (multi, exec, discard),
-- `Store.Lists`, `Store.Hashes`, `Store.Sketches` (the pf operations) and `Store.Scan` (keys,
-- iter, memory_profile, statistics). Below each of them are the modules on it. `Store.Validity`
-- is the invariant, `Store.Eviction` is enforce_memory_limit, and `Store.Calls` has sequences
-- of calls. `Value` has the values, entries and queued operations, `Glob` the matcher of
-- `keys`, `HyperLogLog` is src/hyperloglog.rs, `Config` src/config.rs and `Error` src/error.rs.
--
-- `Files` has save_to_file and load_from_file, and `Files.Versions` save_with_version, on a
-- directory of names and bytes.
--
-- A method that changes the store and can fail is an action of `Exec`: a function from the
-- store to a result and a store, since what was written before an error stays written. A panic
-- is a result too. `Exec.Keeps` has the rules by which an action keeps an invariant. A method
-- that only reads is a function of the store.
--
-- `Crypto` is src/crypto.rs, and `Wal` is src/wal.rs: the log is the bytes of its file, which
-- the entries are appended to as lines. An `Attempt` says how one append goes: its nonce,
-- whether the file opens, and where its write is cut off, in which case the part that was
-- written stays. `Replay` applies a logged operation to a store, as apply_wal_entry of
-- src/replication.rs and src/pitr.rs does. `Replication` is the replica of src/replication.rs,
-- which fetches the entries of the master, applies them through `Replay` and appends them to
-- its own log through `Wal`; `Replication.Master` is the master. `Pitr.Snapshots` makes
-- snapshots. `Pitr` is src/pitr.rs: it picks a snapshot, loads it, and replays the log of `Wal`
-- on it up to a time. `PubSub` is src/pubsub.rs: each of its methods holds its locks to the
-- end, but publish, which is two steps, between which other threads may run.
--
-- `Api` is src/api.rs: the state that the requests share (the store, the log, the channels and
-- the directory of snapshots), the check of the API key, and the steps that handlers are put
-- together of: append to the log, write the store, publish the keyspace events, answer. A
-- handler is a function from that state to a response and a state; its parameters are what
-- actix extracts from the request. The handlers are in the modules below it, by what they work
-- on: `Api.Strings`, `Api.Expiry` (with transactions), `Api.Lists`, `Api.Hashes`,
-- `Api.Sketches`, `Api.Pipeline`, `Api.Channels`, `Api.Snapshots`, `Api.Scripts`, `Api.Reports`
-- (health, statistics, metrics) and `Api.Master` (replication). `Json` has the bodies of the
-- responses. `Lua` is src/lua.rs: a script is the calls that it makes, one after the other, of
-- the functions that the host gives it. `Stats` is src/stats.rs, each method one step.
-- `Startup` is what src/server.rs does before it serves, the replay of the log on the loaded
-- store above all, and its background clean-up; `Routes` is the sequence of requests and rounds
-- that a server runs, each to its end.
--
-- `Api.Writes` collects the handlers that log each change before they make it.
-- `Startup.Recovery` compares their log with their store. It stands on `Exec.Steady` and
-- `Store.Quiet` (panics and keyspace events), `Store.AnyTime` and `Startup.Clock` (the clock of
-- a replay), `Wal.Lossless` (what an encoder and a cipher must do for the log to read back),
-- and `Startup.Effect` and `Startup.Handlers` (what a handler does to the log and to the
-- store). `Api.Pipeline.Replayed` does so for a pipeline and the recovery of `Pitr`,
-- `Store.Transactions.Order` describes EXEC by what each operation does to an entry, and
-- `Pitr.Recovery` a recovery by the entries that it runs. `Startup.Losses` and `Startup.Ttl`
-- are on requests after which log and store part.
--
-- Conventions. `now` is the clock in seconds; an operation that reads it more than once gets
-- the same second. A request is handled in one second, and a replay takes the second of each
-- entry from a parameter. Counters of type u64 and usize wrap at 2 ^ 64 and those of type i64
-- in two's complement, as in a release build; sums of the sizes of texts that are in memory are
-- plain numbers. The length of a text in bytes is `len`. A HashMap is an association list,
-- whose order stands for the iteration order of the map. The eviction loop goes down the list
-- of keys, which it shortens in every round. Decimal printing runs on fuel, of which the number
-- itself and one is enough; the search for the free name of a snapshot runs on one round more
-- than there are files. The operations on sketches answer a panic where an index is out of
-- range, and then leave the store as it was.
--
-- Outside the repository, and so parameters: `Platform` (f64, serde_json::Value, the standard
-- hasher), `Cipher` (the environment, hex, base64, AES-GCM, random bytes), `Codec` (JSON of log
-- entries, UTF-8), `ValueCodec` (JSON of the values of the store), `Archive` (compression and
-- the JSON of a store), `Network` (what a replica gets for its requests) and the interpreter of
-- scripts (`load`, from a text to the calls that it makes). `Tests.Samples` has concrete
-- functions for the most of them, `Tests.Plain` an encoder whose texts read back, and `Tests`
-- the runs on concrete inputs.
--
-- Not modelled: the file of the configuration, the routing, CORS, rate limits, sockets, signals
-- and timers of src/server.rs, the headers of responses, and the programs. Locks, logging and
-- durations leave no trace in the model, other than the steps of publish. The source takes the
-- lock of the store after it has appended to the log, so that another request may come between;
-- here an append and the change that it logs are one step, and requests run one after the
-- other. Reading the file of the log does not fail, and its creation is left out.
pub mod Api
pub mod Config
pub mod Crypto
pub mod Error
pub mod Exec
pub mod Files
pub mod Glob
pub mod HashMap
pub mod HyperLogLog
pub mod Json
pub mod Lua
pub mod Pitr
pub mod Platform
pub mod Prelude
pub mod PubSub
pub mod Replay
pub mod Replication
pub mod Routes
pub mod Startup
pub mod Stats
pub mod Store
pub mod Tests
pub mod Value
pub mod Wal
