-- ===== src/Replication/Status.antt =====
-- replication.rs: the status of a replica.
use daikon.Prelude.{ℕ, String, Option}
use daikon.Platform.{Platform}
use daikon.Replication.{Replica}

pub record ReplicationStatus : Type 0 where
  pub replica_id : String
  pub master_url : String
  pub last_applied_index : ℕ
  pub lag_entries : ℕ
  pub last_successful_sync_unix_secs : Option ℕ
  pub last_sync_duration_ms : Option ℕ

module _ ⦃P : Platform⦄ where
  -- The id and the address do not change, and are no part of the state.
  unfoldable pub get_status : String → String → Replica → ReplicationStatus
  get_status replica_id master_url r = record {
    replica_id = replica_id;
    master_url = master_url;
    last_applied_index = r.last_applied_index;
    lag_entries = r.lag_entries;
    last_successful_sync_unix_secs = r.last_successful_sync_unix_secs;
    last_sync_duration_ms = r.last_sync_duration_ms;
  }
