-- ===== src/Startup.antt =====
-- server.rs: what the server does before it serves: the store that was loaded gets its
-- configuration, and the write-ahead log is replayed on it. Here the values of SET, GETSET and MSET
-- in the log are read as JSON, unlike in `apply_wal_entry`. The file of the store, the environment
-- and the network are left out.
pub mod Clock
pub mod Effect
pub mod Handlers
pub mod Recovery
pub mod Losses
pub mod Ttl
use daikon.Prelude.{
  ℕ, String, Bool, true, Option, none, some, List, [], ◌∷◌, ◌++◌, if◌then◌else◌, ltb,
}
use daikon.Platform.{Platform}
use daikon.Error.{Result, ok, err, panic, ◌>>=◌}
use daikon.Exec.{Exec, pure, modify, ◌>>◌}
use daikon.Config.{StoreConfig}
use daikon.Value.{Value, display}
use daikon.Store.{KvStore}
use daikon.Store.Strings.{set, set_with_ttl, delete, incr, decr, incrby, append, getset, mset}
use daikon.Store.Expiry.{expire, persist, cleanup_expired}
use daikon.Store.Lists.{lpush, rpush, lpop, rpop}
use daikon.Store.Hashes.{hset, hdel, hincrby}
use daikon.Store.Sketches.{pfadd, pfmerge}
use daikon.Store.Scan.{set_config, set_keyspace_notifications_enabled}
use daikon.Crypto.{Bytes, Cipher}
use daikon.Wal.{
  WalOperation, op_set, op_delete, op_incr, op_decr, op_incr_by, op_append, op_get_set, op_mset,
  op_pf_add, op_pf_merge, op_lpush, op_rpush, op_lpop, op_rpop, op_expire, op_persist, op_hset,
  op_hdel, op_hincr_by, WalEntry, Codec, read_all,
}
use daikon.Replay.{ignore}
use daikon.Json.{ValueCodec}
use daikon.Api.{App, publish_keyspace_events}

module _ ⦃P : Platform⦄ where
  -- A value that does not parse is skipped.
  unfoldable pub restore_set : ℕ → String → Option Value → Option ℕ → Exec KvStore (Unit {0})
  restore_set now key none ttl_secs = pure tt
  restore_set now key (some value) none = set now key value
  restore_set now key (some value) (some ttl) = set_with_ttl now key value ttl

  unfoldable pub restore_getset : ℕ → String → Option Value → Exec KvStore (Unit {0})
  restore_getset now key none = pure tt
  restore_getset now key (some value) = ignore (getset now key value)

  unfoldable pub restore_mset : ℕ → Option (List (String × String)) → Exec KvStore (Unit {0})
  restore_mset now none = pure tt
  restore_mset now (some pairs) = ignore (mset now pairs)

module _ ⦃P : Platform⦄ ⦃V : ValueCodec⦄ where
  unfoldable pair_up :
      String → Option Value → Option (List (String × String)) → Option (List (String × String))
  pair_up key (some value) (some pairs) = some ((key, display value) ∷ pairs)
  pair_up key value pairs = none

  -- `collect::<Result<Vec<_>, _>>` and the texts of the values: none when one does not parse.
  unfoldable pub parse_pairs : List (String × String) → Option (List (String × String))
  unfolding pair_up
  parse_pairs [] = some []
  parse_pairs ((key, value) ∷ pairs) = pair_up key (V.value_from_json value) (parse_pairs pairs)

  -- One entry; a SET that fails ends the replay, the others' errors are ignored.
  unfoldable pub restore : ℕ → WalOperation → Exec KvStore (Unit {0})
  restore now (op_set key value ttl_secs) = restore_set now key (V.value_from_json value) ttl_secs
  restore now (op_delete key) = modify (λ s. (delete now key s).1)
  restore now (op_incr key) = ignore (incr key)
  restore now (op_decr key) = ignore (decr key)
  restore now (op_incr_by key amount) = ignore (incrby key amount)
  restore now (op_append key value) = ignore (append now key value)
  restore now (op_get_set key value) = restore_getset now key (V.value_from_json value)
  restore now (op_mset pairs) = restore_mset now (parse_pairs pairs)
  restore now (op_pf_add key values) = ignore (pfadd key values)
  restore now (op_pf_merge destination sources) = ignore (pfmerge destination sources)
  restore now (op_lpush key values) = ignore (lpush key values)
  restore now (op_rpush key values) = ignore (rpush key values)
  restore now (op_lpop key) = ignore (lpop key)
  restore now (op_rpop key) = ignore (rpop key)
  restore now (op_expire key ttl_secs) = modify (λ s. (expire now key ttl_secs s).1)
  restore now (op_persist key) = modify (λ s. (persist now key s).1)
  restore now (op_hset key fields) = ignore (hset key fields)
  restore now (op_hdel key fields) = ignore (hdel key fields)
  restore now (op_hincr_by key field amount) = ignore (hincrby key field amount)

  -- `clock` gives the second in which the round of an entry runs.
  unfoldable pub restore_all : (WalEntry → ℕ) → List WalEntry → Exec KvStore (Unit {0})
  restore_all clock [] = pure tt
  restore_all clock (entry ∷ entries) =
      restore (clock entry) entry.operation >> restore_all clock entries

abbrev pub result_store : {A : Type 0} → Result (Unit {0}) × A → Result A
result_store (ok done, s) = ok s
result_store (err e, s) = err e
result_store (panic, s) = panic

module _ ⦃P : Platform⦄ ⦃C : Cipher⦄ ⦃S : Codec⦄ ⦃V : ValueCodec⦄ where
  -- The error keeps its type, where the code goes on with its text.
  unfoldable pub replay_wal : (WalEntry → ℕ) → Bytes → KvStore → Result KvStore
  replay_wal clock wal s = read_all wal >>= λ entries. result_store (restore_all clock entries s)

  -- `main`, from the store that was loaded to the store that is served.
  unfoldable pub start : (WalEntry → ℕ) → StoreConfig → Bool → Bytes → KvStore → Result KvStore
  start clock config keyspace_notifications_enabled wal loaded =
      replay_wal clock wal (set_config config loaded) >>= λ s.
      ok (if keyspace_notifications_enabled then set_keyspace_notifications_enabled true s else s)

module _ ⦃P : Platform⦄ where
  -- A round of the background TTL cleanup of `main`.
  unfoldable pub cleanup_round : ℕ → App → App
  cleanup_round now a =
      let (expired, s) = cleanup_expired now a.store in
      let a' : App = record a { store = s } in
      if ltb 0 expired then publish_keyspace_events now a' else a'
