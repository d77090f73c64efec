-- ===== src/Store/Sketches.antt =====
-- kv_store.rs: the HyperLogLog operations. A panic of a sketch, which Sketches/Safety rules out
-- for well-formed ones, is taken to leave the store as it was.
pub mod Validity
use daikon.Prelude.{
  ℕ, ◌+◌, String, Bool, true, false, Option, none, some, is_some, List, [], ◌∷◌, length, is_empty,
  not, if◌then◌else◌, ◌==◌, format,
}
use daikon.Platform.{Platform}
use daikon.Error.{
  Result, ok, err, panic, type_mismatch, key_not_found, invalid_value, operation_failed,
}
use daikon.Error.{◌>>=◌ as and_then}
use daikon.Exec.{Exec, pure, gets, modify, lift, fail, ◌>>=◌, ◌>>◌}
use daikon.HashMap
use daikon.HashMap.{HashMap}
use daikon.HyperLogLog
use daikon.HyperLogLog.{HyperLogLog}
use daikon.Value.{Value, hyper_log_log, ValueWithTtl, type_name, estimate_value_size}
use daikon.Store.{
  KvStore, count_write, count_keys, count_memory, put, lasting, validate_key, update_lru, get,
}
use mathlib.Core.Option

pub record HllInfo : Type 0 where
  pub precision : ℕ
  pub registers : ℕ
  pub memory_bytes : ℕ
  pub estimated_count : ℕ

module _ ⦃P : Platform⦄ where
  unfoldable pub pfreserve : String → ℕ → Exec KvStore (Unit {0})
  pfreserve key precision = do
    config ← gets (λ s. s.config)
    lift (validate_key config key)
    present ← gets (λ s. HashMap.contains_key key s.store)
    if present
        then fail (operation_failed (format ("Key '" ∷ key ∷ "' already exists" ∷ [])))
        else modify λ s.
          let hll = hyper_log_log (HyperLogLog.new precision) in
          update_lru key (
            count_write
              (count_keys (put key (lasting hll) (count_memory (estimate_value_size hll) s))))

  -- A panic is `none`.
  or_panic : Option HyperLogLog → Result HyperLogLog
  or_panic none = panic
  or_panic (some hll) = ok hll

  pfadd_value : String → List String → ValueWithTtl → Value → Exec KvStore ℕ
  pfadd_value key values entry (hyper_log_log hll) = do
    hll' ← lift (or_panic (HyperLogLog.add_all hll values))
    modify
        λ s. update_lru key (count_write (put key (record entry { value = hyper_log_log hll' }) s))
    pure (HyperLogLog.count hll')
  pfadd_value key values entry other = fail (type_mismatch key "HyperLogLog" (type_name other))

  pfadd_entry : String → List String → Option ValueWithTtl → Exec KvStore ℕ
  pfadd_entry key values none = do
    hll ← lift (or_panic (HyperLogLog.add_all HyperLogLog.default values))
    modify λ s. update_lru key (
        count_write (
          count_keys (
            count_memory (estimate_value_size (hyper_log_log HyperLogLog.default))
              (put key (lasting (hyper_log_log hll)) s))))
    pure (HyperLogLog.count hll)
  pfadd_entry key values (some entry) = pfadd_value key values entry entry.value

  unfoldable pub pfadd : String → List String → Exec KvStore ℕ
  unfolding pfadd_entry pfadd_value or_panic
  pfadd key values = do
    config ← gets (λ s. s.config)
    lift (validate_key config key)
    found ← gets (λ s. HashMap.get key s.store)
    if is_empty values
        then fail (invalid_value "PFADD requires at least one value")
        else pfadd_entry key values found

  read_sketch : {A : Type 0} → (HyperLogLog → A) → String → Option Value → Result A
  read_sketch f key none = err (key_not_found key)
  read_sketch f key (some (hyper_log_log hll)) = ok (f hll)
  read_sketch f key (some other) = err (type_mismatch key "HyperLogLog" (type_name other))

  unfoldable pub pfcount : ℕ → String → KvStore → Result ℕ
  unfolding read_sketch
  pfcount now key s = read_sketch HyperLogLog.count key (get now key s)

  unfoldable pub hll_info : ℕ → String → KvStore → Result HllInfo
  unfolding read_sketch
  hll_info now key s =
      read_sketch
        (λ hll. record {
          precision = hll.precision;
          registers = HyperLogLog.register_count hll;
          memory_bytes = HyperLogLog.memory_bytes hll;
          estimated_count = HyperLogLog.count hll;
        })
        key (get now key s)

  -- The sketch that the merge starts from.
  destination_sketch : String → Option Value → Result HyperLogLog
  destination_sketch key none = ok HyperLogLog.default
  destination_sketch key (some (hyper_log_log hll)) = ok hll
  destination_sketch key (some other) = err (type_mismatch key "HyperLogLog" (type_name other))

  merge_source : HyperLogLog → String → Option Value → Result HyperLogLog
  merge_source merged key none = ok merged
  merge_source merged key (some (hyper_log_log hll)) = HyperLogLog.merge merged hll
  merge_source merged key (some other) = err (type_mismatch key "HyperLogLog" (type_name other))

  abbrev stored_value : HashMap ValueWithTtl → String → Option Value
  stored_value store key = Option.map (λ e. e.value) (HashMap.get key store)

  -- `if source_key == &destination { continue; }`
  merge_sources : HashMap ValueWithTtl → String → HyperLogLog → List String → Result HyperLogLog
  merge_sources store destination merged [] = ok merged
  merge_sources store destination merged (source_key ∷ source_keys) =
      and_then
        (if source_key == destination
          then ok merged
          else merge_source merged source_key (stored_value store source_key))
        (λ m. merge_sources store destination m source_keys)

  store_merged : String → HyperLogLog → Bool → KvStore → KvStore
  store_merged destination merged created s =
      let s' = put destination (lasting (hyper_log_log merged)) s in
      update_lru destination (
        count_write (
          if created
          then count_keys (count_memory (estimate_value_size (hyper_log_log merged)) s')
          else s'))

  unfoldable pub pfmerge : String → List String → Exec KvStore ℕ
  unfolding destination_sketch merge_source merge_sources store_merged
  pfmerge destination source_keys = do
    config ← gets (λ s. s.config)
    lift (validate_key config destination)
    lift (
        if is_empty source_keys
        then err (invalid_value "PFMERGE requires at least one source key")
        else ok tt)
    store ← gets (λ s. s.store)
    start ← lift (destination_sketch destination (stored_value store destination))
    merged ← lift (merge_sources store destination start source_keys)
    modify λ s. store_merged destination merged (not (HashMap.contains_key destination s.store)) s
    pure (HyperLogLog.count merged)
