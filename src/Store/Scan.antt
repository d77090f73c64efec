-- ===== src/Store/Scan.antt =====
-- kv_store.rs: what reads the whole store, its statistics and its configuration. The capacity of
-- the hash table, which the standard library chooses, is an argument of `memory_profile`.
use daikon.Prelude.{
  ℕ, ◌+◌, ◌-◌, String, Bool, ◌&&◌, not, is_some, List, [], ◌∷◌, length, len, ltb, is_empty,
  if◌then◌else◌,
}
use daikon.Platform.{Platform}
use daikon.Config.{StoreConfig}
use daikon.Glob.{matches_glob}
use daikon.HashMap.{HashMap}
use daikon.HyperLogLog
use daikon.Value.{
  Value, str, int, float, bool, json, hyper_log_log, list, hash, ValueWithTtl, sum_len,
  sum_len_fields,
}
use daikon.Store.{KvStore, default_stats, expired_at}

module _ ⦃P : Platform⦄ where
  keys_in : ℕ → String → HashMap ValueWithTtl → List String
  keys_in now pattern [] = []
  keys_in now pattern ((key, entry) ∷ m) =
      let rest = keys_in now pattern m in
      if not (expired_at now entry.expires_at) && matches_glob key pattern then key ∷ rest else rest

  unfoldable pub keys : ℕ → String → KvStore → List String
  unfolding keys_in
  keys now pattern s = keys_in now pattern s.store

  iter_in : ℕ → HashMap ValueWithTtl → List (String × Value)
  iter_in now [] = []
  iter_in now ((k, v) ∷ m) =
      let rest = iter_in now m in if expired_at now v.expires_at then rest else (k, v.value) ∷ rest

  unfoldable pub iter : ℕ → KvStore → List (String × Value)
  unfolding iter_in
  iter now s = iter_in now s.store

  unfoldable pub len_store : KvStore → ℕ
  len_store s = length s.store

  unfoldable pub is_empty_store : KvStore → Bool
  is_empty_store s = is_empty s.store

  unfoldable pub reset_stats : KvStore → KvStore
  reset_stats s = record s { stats = default_stats }

  unfoldable pub set_config : StoreConfig → KvStore → KvStore
  set_config config s = record s { config = config }

  unfoldable pub keyspace_notifications_enabled : KvStore → Bool
  keyspace_notifications_enabled s = s.config.keyspace_notifications_enabled

  unfoldable pub set_keyspace_notifications_enabled : Bool → KvStore → KvStore
  set_keyspace_notifications_enabled enabled s = record s {
    config = record s.config { keyspace_notifications_enabled = enabled };
  }

  pub record MemoryProfile : Type 0 where
    pub total_bytes : ℕ
    pub key_bytes : ℕ
    pub value_bytes : ℕ
    pub string_values : ℕ
    pub int_values : ℕ
    pub float_values : ℕ
    pub bool_values : ℕ
    pub json_values : ℕ
    pub hyperloglog_values : ℕ
    pub list_values : ℕ
    pub ttl_entries : ℕ
    pub heap_fragmentation_ratio : P.Float

  abbrev pub default_profile : MemoryProfile
  default_profile = record {
    total_bytes = 0;
    key_bytes = 0;
    value_bytes = 0;
    string_values = 0;
    int_values = 0;
    float_values = 0;
    bool_values = 0;
    json_values = 0;
    hyperloglog_values = 0;
    list_values = 0;
    ttl_entries = 0;
    heap_fragmentation_ratio = P.float_lit 0 0;
  }

  profile_value : Value → MemoryProfile → MemoryProfile
  profile_value (str s) p = record p {
    value_bytes = p.value_bytes + len s;
    string_values = p.string_values + 1;
  }
  profile_value (int _) p = record p {
    value_bytes = p.value_bytes + 8;
    int_values = p.int_values + 1;
  }
  profile_value (float _) p = record p {
    value_bytes = p.value_bytes + 8;
    float_values = p.float_values + 1;
  }
  profile_value (bool _) p = record p {
    value_bytes = p.value_bytes + 1;
    bool_values = p.bool_values + 1;
  }
  profile_value (json j) p = record p {
    value_bytes = p.value_bytes + len (P.json_text j);
    json_values = p.json_values + 1;
  }
  profile_value (hyper_log_log h) p = record p {
    value_bytes = p.value_bytes + HyperLogLog.memory_bytes h;
    hyperloglog_values = p.hyperloglog_values + 1;
  }
  profile_value (list items) p = record p {
    value_bytes = p.value_bytes + (sum_len items + 24);
    list_values = p.list_values + 1;
  }
  profile_value (hash fields) p = record p {
    value_bytes = p.value_bytes + (sum_len_fields fields + 48);
  }

  profile_entry : String → ValueWithTtl → MemoryProfile → MemoryProfile
  profile_entry key entry p =
      let p' = profile_value entry.value (record p { key_bytes = p.key_bytes + len key }) in
      if is_some entry.expires_at then record p' { ttl_entries = p'.ttl_entries + 8 } else p'

  profile_in : HashMap ValueWithTtl → MemoryProfile → MemoryProfile
  profile_in [] p = p
  profile_in ((key, entry) ∷ m) p = profile_in m (profile_entry key entry p)

  -- The sum of the parts is overwritten by the tracked memory.
  unfoldable pub memory_profile : ℕ → KvStore → MemoryProfile
  unfolding profile_in profile_entry profile_value
  memory_profile capacity s =
      let p = profile_in s.store default_profile in
      record p {
        heap_fragmentation_ratio =
            if ltb 0 capacity
            then P.float_div (P.float_of_nat (capacity - length s.store)) (P.float_of_nat capacity)
            else p.heap_fragmentation_ratio;
        total_bytes = s.stats.memory_bytes;
      }
