-- ===== src/Api/Snapshots.antt =====
-- api.rs: the handlers of the recovery to a point in time. A recovery puts another store in the
-- place of the one that is served, and leaves the log as it is.
use daikon.Prelude.{ℕ, String, [], ◌∷◌}
use daikon.Platform.{Platform}
use daikon.Error.{Result, ok, err, panic, error_text}
use daikon.Store.{KvStore}
use daikon.Crypto.{Cipher}
use daikon.Wal.{Codec}
use daikon.Pitr.{
  Archive, SnapshotMetadata, SnapshotCompression, list_snapshots, recover_to_timestamp,
  recover_to_latest_snapshot, cleanup_old_snapshots,
}
use daikon.Pitr.Snapshots.{RecoveryStats, create_snapshot, get_recovery_stats}
use daikon.Json.{JsonValue, json_nat, json_text, json_object, json_option, json_list}
use daikon.Api.{
  Request, Response, response, json, Handler, success, internal_error, no_response, answer, guarded,
}

module _ ⦃P : Platform⦄ where
  abbrev metadata_json : SnapshotMetadata → JsonValue
  metadata_json metadata = json_object (
      ("timestamp", json_nat metadata.timestamp)
      ∷ ("num_keys", json_nat metadata.num_keys)
      ∷ ("num_operations", json_nat metadata.num_operations)
      ∷ ("snapshot_file", json_text metadata.snapshot_file)
      ∷ [])

  unfoldable pub pitr_list_snapshots : Handler
  pitr_list_snapshots a = (success (json_list metadata_json (list_snapshots a.snapshots)), a)

  -- `now` of the request is in seconds, like the cut-off.
  unfoldable pub pitr_cleanup_old_snapshots : Request → ℕ → Handler
  pitr_cleanup_old_snapshots req max_age_secs = guarded req λ a.
      let (deleted, snapshots) = cleanup_old_snapshots req.now max_age_secs a.snapshots in
      (
        success (
            json_object
              (("status", json_text "OK") ∷ ("deleted_snapshots", json_nat deleted) ∷ [])),
        record a { snapshots = snapshots },
      )

  abbrev stats_json : RecoveryStats → JsonValue
  stats_json stats = json_object (
      ("total_snapshots", json_nat stats.total_snapshots)
      ∷ ("total_wal_entries", json_nat stats.total_wal_entries)
      ∷ ("earliest_recovery_point", json_option json_nat stats.earliest_recovery_point)
      ∷ ("latest_recovery_point", json_option json_nat stats.latest_recovery_point)
      ∷ ("wal_file_size", json_nat stats.wal_file_size)
      ∷ [])

  abbrev pub recovery_error : String → Response
  recovery_error message =
      response 400
        (json (json_object (("status", json_text "ERROR") ∷ ("error", json_text message) ∷ [])))

  -- `*store.write() = recovered_store`, where there is one.
  unfoldable pub replace_store : Response → Result KvStore → Handler
  replace_store reply (ok recovered_store) a = (reply, record a { store = recovered_store })
  replace_store reply (err e) a = (recovery_error (error_text e), a)
  replace_store reply panic a = (no_response, a)

module _ ⦃P : Platform⦄ ⦃C : Cipher⦄ ⦃S : Codec⦄ where
  unfoldable pub pitr_stats : Handler
  pitr_stats a = (
    answer (λ stats. success (stats_json stats)) internal_error
        (get_recovery_stats a.snapshots a.wal),
    a,
  )

module _ ⦃P : Platform⦄ ⦃C : Cipher⦄ ⦃S : Codec⦄ ⦃A : Archive⦄ where
  -- `nanos`: the clock in nanoseconds.
  unfoldable pub pitr_create_snapshot : Request → SnapshotCompression → ℕ → Handler
  pitr_create_snapshot req compression nanos = guarded req λ a.
      let (metadata, snapshots) =
        create_snapshot compression nanos ((req.attempts 0).random) a.wal a.store a.snapshots in
      (
        answer (λ m. success (metadata_json m)) internal_error metadata,
        record a { snapshots = snapshots },
      )

  unfoldable pub pitr_recover_to_timestamp : Request → ℕ → Handler
  pitr_recover_to_timestamp req target = guarded req λ a.
      replace_store
        (success
          (json_object (("status", json_text "OK") ∷ ("recovered_to", json_nat target) ∷ [])))
        (recover_to_timestamp req.now target a.snapshots a.wal) a

  unfoldable pub pitr_recover_latest_snapshot : Request → Handler
  pitr_recover_latest_snapshot req = guarded req λ a.
      replace_store
        (success (
          json_object (
            ("status", json_text "OK")
            ∷ ("message", json_text "Recovered to latest snapshot")
            ∷ [])))
        (recover_to_latest_snapshot req.now a.snapshots a.wal) a
