-- ===== src/Store.antt =====
-- kv_store.rs: the store and the helpers that its operations share. The operations are in the
-- modules below. `now` is the clock in seconds: an operation that reads it more than once gets the
-- same second. `Instant`s, logging and formatting of log lines leave no trace in the state.
pub mod Strings
pub mod Expiry
pub mod Transactions
pub mod Lists
pub mod Hashes
pub mod Sketches
pub mod Scan
pub mod Validity
pub mod Eviction
pub mod Calls
pub mod Quiet
pub mod AnyTime
use daikon.Prelude.{
  ℕ, ◌+◌, ◌-◌, String, Bool, true, false, ◌&&◌, not, Option, none, some, is_some, List, [], ◌∷◌,
  ◌++◌, length, len, ltb, eqb, retain, ◌==◌, if◌then◌else◌, add_u64,
}
use daikon.Platform.{Platform}
use daikon.Error.{Result, ok, err, key_too_large, value_too_large, invalid_key, operation_failed}
use daikon.Exec.{Exec, pure, gets, modify, lift, fail, ◌>>=◌, ◌>>◌}
use daikon.Config.{StoreConfig, default_config}
use daikon.HashMap
use daikon.HashMap.{HashMap}
use daikon.Value.{
  Value, ValueWithTtl, TransactionOp, KeyspaceEvent, KeyspaceEventKind, evicted,
  estimate_value_size,
}

pub record StoreStats : Type 0 where
  pub total_keys : ℕ
  pub expired_keys : ℕ
  pub total_reads : ℕ
  pub total_writes : ℕ
  pub total_deletes : ℕ
  pub hits : ℕ
  pub misses : ℕ
  pub memory_bytes : ℕ
  pub evictions : ℕ

abbrev pub default_stats : StoreStats
default_stats = record {
  total_keys = 0;
  expired_keys = 0;
  total_reads = 0;
  total_writes = 0;
  total_deletes = 0;
  hits = 0;
  misses = 0;
  memory_bytes = 0;
  evictions = 0;
}

unfoldable pub validate_key : StoreConfig → String → Result (Unit {0})
validate_key config key =
    if key == ""
    then err (invalid_key "Key cannot be empty")
    else if ltb config.max_key_size (len key)
    then err (key_too_large (len key) config.max_key_size)
    else ok tt

-- The eviction order, oldest first, after a use of the key.
unfoldable pub touch : String → List String → List String
touch key order = retain (λ k. not (k == key)) order ++ key ∷ []

module _ ⦃P : Platform⦄ where
  pub record KvStore : Type 0 where
    pub store : HashMap ValueWithTtl
    pub stats : StoreStats
    pub config : StoreConfig
    pub lru_order : List String
    pub transaction_queue : Option (List TransactionOp)
    pub pending_keyspace_events : List KeyspaceEvent

  abbrev pub with_config : StoreConfig → KvStore
  with_config config = record {
    store = [];
    stats = default_stats;
    config = config;
    lru_order = [];
    transaction_queue = none;
    pending_keyspace_events = [];
  }

  abbrev pub new : KvStore
  new = with_config default_config

  -- Counters and maps of the store, changed in place.
  abbrev pub count_write : KvStore → KvStore
  count_write s = record s {
    stats = record s.stats { total_writes = add_u64 s.stats.total_writes 1 };
  }

  abbrev pub count_keys : KvStore → KvStore
  count_keys s = record s { stats = record s.stats { total_keys = length s.store } }

  abbrev pub count_memory : ℕ → KvStore → KvStore
  count_memory size s = record s {
    stats = record s.stats { memory_bytes = add_u64 s.stats.memory_bytes size };
  }

  abbrev pub put : String → ValueWithTtl → KvStore → KvStore
  put key entry s = record s { store = HashMap.insert key entry s.store }

  abbrev pub lasting : Value → ValueWithTtl
  lasting value = record { value = value; expires_at = none }

  unfoldable pub validate_value : StoreConfig → Value → Result (Unit {0})
  validate_value config value =
      let value_size = estimate_value_size value in
      if ltb config.max_value_size value_size
      then err (value_too_large value_size config.max_value_size)
      else ok tt

  unfoldable pub emit_keyspace_event : ℕ → KeyspaceEventKind → String → KvStore → KvStore
  emit_keyspace_event now kind key s =
      if s.config.keyspace_notifications_enabled
      then record s {
        pending_keyspace_events =
            s.pending_keyspace_events ++ record { kind = kind; key = key; timestamp = now } ∷ [];
      }
      else s

  unfoldable pub drain_keyspace_events : KvStore → List KeyspaceEvent × KvStore
  drain_keyspace_events s = (s.pending_keyspace_events, record s { pending_keyspace_events = [] })

  abbrev pub update_lru : String → KvStore → KvStore
  update_lru key s = record s { lru_order = touch key s.lru_order }

  -- The removal of an entry that memory pressure evicts.
  unfoldable pub evict_entry : ℕ → String → Option ValueWithTtl → KvStore → KvStore
  evict_entry now lru_key none s = s
  evict_entry now lru_key (some entry) s =
      let left = HashMap.remove lru_key s.store in
      emit_keyspace_event now evicted lru_key (record s {
        store = left;
        stats = record s.stats {
          memory_bytes = s.stats.memory_bytes - estimate_value_size entry.value;
          evictions = add_u64 s.stats.evictions 1;
          total_keys = length left;
        };
      })

  -- One round of the loop of `enforce_memory_limit`: the oldest key leaves the order, and the store
  -- if it is there.
  unfoldable pub evict : ℕ → String → List String → KvStore → KvStore
  unfolding evict_entry
  evict now lru_key rest s = record (evict_entry now lru_key (HashMap.get lru_key s.store) s) {
    lru_order = rest;
  }

  -- The loop goes down the order, which each round shortens by one.
  unfoldable pub evict_loop : ℕ → List String → KvStore → KvStore
  evict_loop now [] s = s
  evict_loop now (lru_key ∷ rest) s =
      let next = evict_loop now rest (evict now lru_key rest s) in
      if ltb s.config.max_memory_bytes s.stats.memory_bytes then next else s

  unfoldable pub enforce_memory_limit : ℕ → KvStore → KvStore
  enforce_memory_limit now s =
      if eqb s.config.max_memory_bytes 0 then s else evict_loop now s.lru_order s

  unfoldable pub in_transaction : KvStore → Bool
  in_transaction s = is_some s.transaction_queue

  unfoldable pub queue_operation : TransactionOp → Exec KvStore (Unit {0})
  queue_operation op s = elim s.transaction_queue [
    | none ↦ (err (operation_failed "No transaction in progress"), s)
    | some queue ↦ (ok tt, record s { transaction_queue = some (queue ++ op ∷ []) })
  ]

  -- An entry is gone once the clock has passed its last second.
  abbrev pub expired_at : ℕ → Option ℕ → Bool
  expired_at now none = false
  expired_at now (some exp) = ltb exp now

  unfoldable pub live : ℕ → Option ValueWithTtl → Option Value
  live now none = none
  live now (some entry) = if expired_at now entry.expires_at then none else some entry.value

  unfoldable pub get : ℕ → String → KvStore → Option Value
  unfolding live
  get now key s = live now (HashMap.get key s.store)
