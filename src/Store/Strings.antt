-- ===== src/Store/Strings.antt =====
-- kv_store.rs: `set`, `set_with_ttl`, the getters, `delete`, the counters, `append`, `getset` and
-- the batch operations.
pub mod Validity
pub mod Quiet
pub mod AnyTime
pub mod Writes
use daikon.Prelude.{
  ℕ, ◌+◌, String, Bool, true, false, ◌&&◌, Option, none, some, is_some, List, [], ◌∷◌, map, len,
  ltb, if◌then◌else◌, add_u64, add_i64, checked_add, str_append,
}
use daikon.Prelude.Int.{ℤ, pos, negsuc}
use daikon.Platform.{Platform}
use daikon.Error.{Result, ok, err, key_not_found, type_mismatch}
use daikon.Exec.{Exec, pure, gets, modify, lift, fail, ◌>>=◌, ◌>>◌}
use daikon.HashMap
use daikon.Value.{
  Value, str, int, float, bool, ValueWithTtl, TransactionOp, op_set, op_delete, KeyspaceEventKind,
  type_name, estimate_value_size,
}
use daikon.Store.{
  KvStore, count_write, count_keys, count_memory, put, lasting, validate_key, validate_value,
  emit_keyspace_event, update_lru, enforce_memory_limit, in_transaction, queue_operation, get,
}
use mathlib.Core.Option

module _ ⦃P : Platform⦄ where
  -- The part of `set` and of `set_with_ttl` behind the checks.
  unfoldable pub write : ℕ → String → Value → Option ℕ → KvStore → KvStore
  write now key value expires_at s =
      let s' = count_memory (estimate_value_size value) (
        count_keys (
          count_write
            (update_lru key (put key (record { value = value; expires_at = expires_at }) s)))) in
      emit_keyspace_event now KeyspaceEventKind.set key (
        if ltb 0 s'.config.max_memory_bytes && s'.config.lru_eviction_enabled
        then enforce_memory_limit now s'
        else s')

  unfoldable pub set_expiring : ℕ → String → Value → Option ℕ → Exec KvStore (Unit {0})
  set_expiring now key value expires_at = do
    config ← gets (λ s. s.config)
    lift (validate_key config key)
    lift (validate_value config value)
    queueing ← gets in_transaction
    if queueing
        then queue_operation (op_set key value expires_at)
        else modify (write now key value expires_at)

  unfoldable pub set : ℕ → String → Value → Exec KvStore (Unit {0})
  unfolding set_expiring
  set now key value = set_expiring now key value none

  -- `ttl` is in seconds; a sum past 2 ^ 64 leaves the key without an expiry.
  unfoldable pub set_with_ttl : ℕ → String → Value → ℕ → Exec KvStore (Unit {0})
  unfolding set_expiring
  set_with_ttl now key value ttl = set_expiring now key value (checked_add now ttl)

  as_string : Option Value → Option String
  as_string (some (str s)) = some s
  as_string _ = none

  as_i64 : Option Value → Option ℤ
  as_i64 (some (int i)) = some i
  as_i64 _ = none

  as_f64 : Option Value → Option P.Float
  as_f64 (some (float x)) = some x
  as_f64 _ = none

  as_bool : Option Value → Option Bool
  as_bool (some (bool b)) = some b
  as_bool _ = none

  unfoldable pub get_string : ℕ → String → KvStore → Option String
  unfolding as_string
  get_string now key s = as_string (get now key s)

  unfoldable pub get_i64 : ℕ → String → KvStore → Option ℤ
  unfolding as_i64
  get_i64 now key s = as_i64 (get now key s)

  unfoldable pub get_f64 : ℕ → String → KvStore → Option P.Float
  unfolding as_f64
  get_f64 now key s = as_f64 (get now key s)

  unfoldable pub get_bool : ℕ → String → KvStore → Option Bool
  unfolding as_bool
  get_bool now key s = as_bool (get now key s)

  -- The value under a key, expired or not.
  abbrev pub stored : String → KvStore → Option Value
  stored key s = Option.map (λ e. e.value) (HashMap.get key s.store)

  unfoldable pub delete_now : ℕ → String → KvStore → Option Value × KvStore
  delete_now now key s =
      let result = stored key s in
      let s' = record s { store = HashMap.remove key s.store } in
      (
        result,
        if is_some result
            then emit_keyspace_event now KeyspaceEventKind.delete key (record s' {
              stats = record s.stats { total_deletes = add_u64 s.stats.total_deletes 1 };
            })
            else s',
      )

  unfoldable pub delete : ℕ → String → KvStore → Option Value × KvStore
  unfolding delete_now
  delete now key s =
      if in_transaction s
      then (stored key s, (queue_operation (op_delete key) s).1)
      else delete_now now key s

  -- What `incr`, `decr` and `incrby` do with the entry that they find.
  add_to_value : String → ℤ → ValueWithTtl → Value → Exec KvStore ℤ
  add_to_value key amount entry (int val) = do
    let new_val = add_i64 val amount
    modify (λ s. update_lru key (count_write (put key (record entry { value = int new_val }) s)))
    pure new_val
  add_to_value key amount entry other = fail (type_mismatch key "Int" (type_name other))

  add_to_entry : String → ℤ → Option ValueWithTtl → Exec KvStore ℤ
  add_to_entry key amount none = fail (key_not_found key)
  add_to_entry key amount (some entry) = add_to_value key amount entry entry.value

  unfoldable pub incrby : String → ℤ → Exec KvStore ℤ
  unfolding add_to_entry add_to_value
  incrby key amount s = add_to_entry key amount (HashMap.get key s.store) s

  unfoldable pub incr : String → Exec KvStore ℤ
  unfolding incrby
  incr key = incrby key (pos 1)

  unfoldable pub decr : String → Exec KvStore ℤ
  unfolding incrby
  decr key = incrby key (negsuc 0)

  append_to_value : String → String → ValueWithTtl → Value → Exec KvStore ℕ
  append_to_value key value entry (str s) = do
    let text = str_append s value
    modify (λ s. update_lru key (count_write (put key (record entry { value = str text }) s)))
    pure (len text)
  append_to_value key value entry other = fail (type_mismatch key "Str" (type_name other))

  append_to_entry : ℕ → String → String → Option ValueWithTtl → Exec KvStore ℕ
  append_to_entry now key value none = do set now key (str value); pure (len value)
  append_to_entry now key value (some entry) = append_to_value key value entry entry.value

  unfoldable pub append : ℕ → String → String → Exec KvStore ℕ
  unfolding append_to_entry append_to_value
  append now key value s = append_to_entry now key value (HashMap.get key s.store) s

  unfoldable pub getset : ℕ → String → Value → Exec KvStore (Option Value)
  getset now key value = do old_value ← gets (stored key); set now key value; pure old_value

  unfoldable pub mget : ℕ → List String → KvStore → List (Option Value)
  mget now keys s = map (λ k. get now k s) keys

  mset_queue : List (String × String) → Exec KvStore (Unit {0})
  mset_queue [] = pure tt
  mset_queue ((key, value) ∷ pairs) = do
    config ← gets (λ s. s.config)
    lift (validate_key config key)
    lift (validate_value config (str value))
    queue_operation (op_set key (str value) none)
    mset_queue pairs

  mset_set : ℕ → List (String × String) → Exec KvStore (Unit {0})
  mset_set now [] = pure tt
  mset_set now ((key, value) ∷ pairs) = do set now key (str value); mset_set now pairs

  unfoldable pub mset : ℕ → List (String × String) → Exec KvStore (Unit {0})
  unfolding mset_queue mset_set
  mset now pairs s = if in_transaction s then mset_queue pairs s else mset_set now pairs s

  unfoldable pub exists : ℕ → String → KvStore → Bool
  exists now key s = is_some (get now key s)

  unfoldable pub exists_many : ℕ → List String → KvStore → ℕ
  exists_many now [] s = 0
  exists_many now (k ∷ keys) s = (if exists now k s then 1 else 0) + exists_many now keys s
