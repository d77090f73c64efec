-- ===== src/Replay.antt =====
-- `apply_wal_entry` of pitr.rs and of replication.rs: a logged operation on a store, at the time of
-- the replay. The two functions apply the same operations; the replica's logs the entry afterwards.
pub mod Validity
use daikon.Prelude.{ℕ, String, Option, none, some, List, [], ◌∷◌, map}
use daikon.Platform.{Platform}
use daikon.Error.{Result, ok, err, panic}
use daikon.Exec.{Exec, pure, modify, ◌>>◌}
use daikon.Value.{str}
use daikon.Store.{KvStore}
use daikon.Store.Strings.{set, set_with_ttl, delete, incr, decr, incrby, append, getset, mset}
use daikon.Store.Expiry.{expire, persist}
use daikon.Store.Lists.{lpush, rpush, lpop, rpop}
use daikon.Store.Hashes.{hset, hdel, hincrby}
use daikon.Store.Sketches.{pfadd, pfmerge}
use daikon.Wal.{
  WalOperation, op_set, op_delete, op_incr, op_decr, op_incr_by, op_append, op_get_set, op_mset,
  op_pf_add, op_pf_merge, op_lpush, op_rpush, op_lpop, op_rpop, op_expire, op_persist, op_hset,
  op_hdel, op_hincr_by,
}

module _ {S A : Type 0} where
  -- `m?;`
  abbrev pub run : Exec S A → Exec S (Unit {0})
  run m = m >> pure tt

  unfoldable pub ignore_result : Result A × S → Result (Unit {0}) × S
  ignore_result (ok a, s) = (ok tt, s)
  ignore_result (err e, s) = (ok tt, s)
  ignore_result (panic, s) = (panic, s)

  -- `let _ = m;`
  unfoldable pub ignore : Exec S A → Exec S (Unit {0})
  unfolding ignore_result
  ignore m s = ignore_result (m s)

module _ ⦃P : Platform⦄ where
  unfoldable pub apply_set : ℕ → String → String → Option ℕ → Exec KvStore (Unit {0})
  apply_set now key value none = set now key (str value)
  apply_set now key value (some ttl) = set_with_ttl now key (str value) ttl

  unfoldable pub apply_operation : ℕ → WalOperation → Exec KvStore (Unit {0})
  apply_operation now (op_set key value ttl_secs) = apply_set now key value ttl_secs
  apply_operation now (op_delete key) = modify (λ s. (delete now key s).1)
  apply_operation now (op_incr key) = run (incr key)
  apply_operation now (op_decr key) = run (decr key)
  apply_operation now (op_incr_by key amount) = run (incrby key amount)
  apply_operation now (op_append key value) = run (append now key value)
  apply_operation now (op_get_set key value) = run (getset now key (str value))
  apply_operation now (op_mset pairs) = mset now pairs
  apply_operation now (op_pf_add key values) = ignore (pfadd key values)
  apply_operation now (op_pf_merge destination sources) = ignore (pfmerge destination sources)
  apply_operation now (op_lpush key values) = ignore (lpush key values)
  apply_operation now (op_rpush key values) = ignore (rpush key values)
  apply_operation now (op_lpop key) = ignore (lpop key)
  apply_operation now (op_rpop key) = ignore (rpop key)
  apply_operation now (op_expire key ttl_secs) = modify (λ s. (expire now key ttl_secs s).1)
  apply_operation now (op_persist key) = modify (λ s. (persist now key s).1)
  apply_operation now (op_hset key fields) = ignore (hset key fields)
  apply_operation now (op_hdel key fields) = ignore (hdel key fields)
  apply_operation now (op_hincr_by key field amount) = ignore (hincrby key field amount)
