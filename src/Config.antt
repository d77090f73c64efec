-- ===== src/Config.antt =====
-- config.rs: the configuration, its defaults and its validation. Paths are texts. Reading and
-- writing the file is I/O.
use daikon.Prelude.{ℕ, ◌*◌, String, Bool, true, false, ltb, eqb, if◌then◌else◌}

pub record StoreConfig : Type 0 where
  pub max_key_size : ℕ
  pub max_value_size : ℕ
  pub max_memory_bytes : ℕ
  pub max_keys : ℕ
  pub lru_eviction_enabled : Bool
  pub ttl_cleanup_interval_secs : ℕ
  pub persist_path : String
  pub snapshot_interval_secs : ℕ
  pub backup_versions : ℕ
  pub enable_logging : Bool
  pub keyspace_notifications_enabled : Bool

abbrev pub default_config : StoreConfig
default_config = record {
  max_key_size = 1024;
  max_value_size = 10 * 1024 * 1024;
  max_memory_bytes = 1024 * 1024 * 1024;
  max_keys = 1_000_000;
  lru_eviction_enabled = true;
  ttl_cleanup_interval_secs = 60;
  persist_path = "store.json";
  snapshot_interval_secs = 0;
  backup_versions = 3;
  enable_logging = true;
  keyspace_notifications_enabled = false;
}

pub data Validation : Type 0 where
  accepted : Validation
  rejected : String → Validation

unfoldable pub validate : StoreConfig → Validation
validate c =
    if eqb c.max_key_size 0
    then rejected "max_key_size must be greater than 0"
    else if eqb c.max_value_size 0
    then rejected "max_value_size must be greater than 0"
    else if ltb c.max_value_size c.max_key_size
    then rejected "max_key_size cannot be larger than max_value_size"
    else if eqb c.backup_versions 0
    then rejected "backup_versions must be at least 1"
    else accepted
