-- ===== src/Store/Calls.antt =====
-- Sequences of calls of the writers of kv_store.rs: every store that a sequence reaches from an
-- empty one is well formed.
use daikon.Prelude.{ℕ, String, List, [], ◌∷◌}
use daikon.Prelude.Int.{ℤ}
use daikon.Platform.{Platform}
use daikon.Config.{StoreConfig}
use daikon.HashMap.{HashMap}
use daikon.Value.{Value, TransactionOp}
use daikon.Store.{KvStore, with_config, queue_operation}
use daikon.Store.Strings.{set, set_with_ttl, delete, incrby, append, getset, mset}
use daikon.Store.Strings.Validity.{
  set-IsValid, set_with_ttl-IsValid, delete-IsValid, incrby-IsValid, append-IsValid, getset-IsValid,
  mset-IsValid,
}
use daikon.Store.Expiry.{expire, persist, cleanup_expired}
use daikon.Store.Expiry.Validity.{expire-IsValid, persist-IsValid, cleanup_expired-IsValid}
use daikon.Store.Transactions.{multi, discard, exec}
use daikon.Store.Transactions.Validity.{multi-IsValid, discard-IsValid, exec-IsValid}
use daikon.Store.Lists.{lpush, rpush, lpop, rpop}
use daikon.Store.Lists.Validity.{lpush-IsValid, rpush-IsValid, lpop-IsValid, rpop-IsValid}
use daikon.Store.Hashes.{hset, hdel, hincrby, hincrbyfloat}
use daikon.Store.Hashes.Validity.{hset-IsValid, hdel-IsValid, hincrby-IsValid, hincrbyfloat-IsValid}
use daikon.Store.Sketches.{pfreserve, pfadd, pfmerge}
use daikon.Store.Sketches.Validity.{pfreserve-IsValid, pfadd-IsValid, pfmerge-IsValid}
use daikon.Store.Scan.{reset_stats, set_config}
use daikon.Store.Validity.{IsValid, Valid-empty}
use daikon.Store.Validity.Rules.{queue-IsValid}

module _ ⦃P : Platform⦄ where
  -- A call of a writer. `incr` and `decr` are `incrby` of 1 and -1.
  pub data Call : Type 0 where
    call_set : String → Value → Call
    call_set_with_ttl : String → Value → ℕ → Call
    call_delete : String → Call
    call_incrby : String → ℤ → Call
    call_append : String → String → Call
    call_getset : String → Value → Call
    call_mset : List (String × String) → Call
    call_expire : String → ℕ → Call
    call_persist : String → Call
    call_cleanup : Call
    call_multi call_exec call_discard : Call
    call_queue : TransactionOp → Call
    call_lpush call_rpush : String → List String → Call
    call_lpop call_rpop : String → Call
    call_hset : String → HashMap String → Call
    call_hdel : String → List String → Call
    call_hincrby : String → String → ℤ → Call
    call_hincrbyfloat : String → String → P.Float → Call
    call_pfreserve : String → ℕ → Call
    call_pfadd : String → List String → Call
    call_pfmerge : String → List String → Call
    call_reset_stats : Call
    call_set_config : StoreConfig → Call

  -- The store that a call at a time leaves.
  pub call : ℕ → Call → KvStore → KvStore
  call now (call_set key value) s = (set now key value s).1
  call now (call_set_with_ttl key value ttl) s = (set_with_ttl now key value ttl s).1
  call now (call_delete key) s = (delete now key s).1
  call now (call_incrby key amount) s = (incrby key amount s).1
  call now (call_append key value) s = (append now key value s).1
  call now (call_getset key value) s = (getset now key value s).1
  call now (call_mset pairs) s = (mset now pairs s).1
  call now (call_expire key ttl) s = (expire now key ttl s).1
  call now (call_persist key) s = (persist now key s).1
  call now call_cleanup s = (cleanup_expired now s).1
  call now call_multi s = (multi s).1
  call now call_exec s = (exec s).1
  call now call_discard s = (discard s).1
  call now (call_queue op) s = (queue_operation op s).1
  call now (call_lpush key values) s = (lpush key values s).1
  call now (call_rpush key values) s = (rpush key values s).1
  call now (call_lpop key) s = (lpop key s).1
  call now (call_rpop key) s = (rpop key s).1
  call now (call_hset key fields) s = (hset key fields s).1
  call now (call_hdel key fields) s = (hdel key fields s).1
  call now (call_hincrby key field amount) s = (hincrby key field amount s).1
  call now (call_hincrbyfloat key field amount) s = (hincrbyfloat key field amount s).1
  call now (call_pfreserve key precision) s = (pfreserve key precision s).1
  call now (call_pfadd key values) s = (pfadd key values s).1
  call now (call_pfmerge destination sources) s = (pfmerge destination sources s).1
  call now call_reset_stats s = reset_stats s
  call now (call_set_config config) s = set_config config s

  call-IsValid : (now : ℕ) (c : Call) (s : KvStore) → IsValid s → IsValid (call now c s)
  unfolding call reset_stats set_config
  call-IsValid now (call_set key value) = (set-IsValid now key value).after
  call-IsValid now (call_set_with_ttl key value ttl) =
      (set_with_ttl-IsValid now key value ttl).after
  call-IsValid now (call_delete key) = delete-IsValid now key
  call-IsValid now (call_incrby key amount) = (incrby-IsValid key amount).after
  call-IsValid now (call_append key value) = (append-IsValid now key value).after
  call-IsValid now (call_getset key value) = (getset-IsValid now key value).after
  call-IsValid now (call_mset pairs) = (mset-IsValid now pairs).after
  call-IsValid now (call_expire key ttl) = expire-IsValid now key ttl
  call-IsValid now (call_persist key) = persist-IsValid now key
  call-IsValid now call_cleanup = cleanup_expired-IsValid now
  call-IsValid now call_multi = multi-IsValid.after
  call-IsValid now call_exec = exec-IsValid.after
  call-IsValid now call_discard = discard-IsValid.after
  call-IsValid now (call_queue op) = (queue-IsValid op).after
  call-IsValid now (call_lpush key values) = (lpush-IsValid key values).after
  call-IsValid now (call_rpush key values) = (rpush-IsValid key values).after
  call-IsValid now (call_lpop key) = (lpop-IsValid key).after
  call-IsValid now (call_rpop key) = (rpop-IsValid key).after
  call-IsValid now (call_hset key fields) = (hset-IsValid key fields).after
  call-IsValid now (call_hdel key fields) = (hdel-IsValid key fields).after
  call-IsValid now (call_hincrby key field amount) = (hincrby-IsValid key field amount).after
  call-IsValid now (call_hincrbyfloat key field amount) =
      (hincrbyfloat-IsValid key field amount).after
  call-IsValid now (call_pfreserve key precision) = (pfreserve-IsValid key precision).after
  call-IsValid now (call_pfadd key values) = (pfadd-IsValid key values).after
  call-IsValid now (call_pfmerge destination sources) = (pfmerge-IsValid destination sources).after
  call-IsValid now call_reset_stats = λ s v. v
  call-IsValid now (call_set_config config) = λ s v. v

  -- The calls, each with the time at which it runs.
  pub calls : List (ℕ × Call) → KvStore → KvStore
  calls [] s = s
  calls ((now, c) ∷ rest) s = calls rest (call now c s)

  calls-keep : (cs : List (ℕ × Call)) (s : KvStore) → IsValid s → IsValid (calls cs s)
  unfolding calls
  calls-keep [] s v = v
  calls-keep ((now, c) ∷ rest) s v = calls-keep rest (call now c s) (call-IsValid now c s v)

  -- From an empty store under any configuration, any calls at any times, failing ones included,
  -- reach a well-formed store: no key is stored twice, and every stored key is in the eviction
  -- order.
  pub calls-IsValid :
      (config : StoreConfig) (cs : List (ℕ × Call)) → IsValid (calls cs (with_config config))
  calls-IsValid config cs = calls-keep cs _ Valid-empty
