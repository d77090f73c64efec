-- ===== src/Api/Master.antt =====
-- api.rs: the handlers of the replication, on the master and on the replica.
use daikon.Prelude.{ℕ, String, Option, List, [], ◌∷◌, length, format, decimal, if◌then◌else◌}
use mathlib.Core.Option
use daikon.Platform.{Platform}
use daikon.Error.{Result, ok, ◌>>=◌}
use daikon.Crypto.{Cipher}
use daikon.Wal.{Attempt, WalEntry, Codec}
use daikon.Replication.{Replica, Network, sync}
use daikon.Replication.Status.{get_status}
use daikon.Replication.Master.{
  Master, ReplicaInfo, ReplicaStatus, healthy, lagging, disconnected, verify_auth, register_replica,
  get_wal_entries, get_total_entries, get_replicas_info,
}
use daikon.Json.{JsonValue, json_nat, json_text, json_entry, json_object, json_option, json_list}
use daikon.Api.{Request, Response, response, json, success, internal_error, answer, bearer}

module _ ⦃P : Platform⦄ where
  abbrev bad_token : Response
  bad_token =
      response 401
        (json (json_object (("error", json_text "Invalid or missing authentication token") ∷ [])))

  -- `if !master.verify_auth(token) { return … }`
  unfoldable pub with_token : Request → (Master → Response × Master) → Master → Response × Master
  with_token req handler m =
      if verify_auth (bearer req.headers) m then handler m else (bad_token, m)

  abbrev status_text : ReplicaStatus → String
  status_text healthy = "healthy"
  status_text lagging = "lagging"
  status_text disconnected = "disconnected"

  abbrev info_json : ReplicaInfo → JsonValue
  info_json info = json_object (
      ("replica_id", json_text info.replica_id)
      ∷ ("last_applied_index", json_nat info.last_applied_index)
      ∷ ("last_heartbeat", json_nat info.last_heartbeat)
      ∷ ("lag", json_nat info.lag)
      ∷ ("status", json_text (status_text info.status))
      ∷ [])

  unfoldable pub replication_list_replicas : Request → Master → Response × Master
  replication_list_replicas req m =
      let (replicas, m') = get_replicas_info req.now m in
      (
        success (
            json_object (
              ("replicas", json_list info_json replicas)
              ∷ ("count", json_nat (length replicas))
              ∷ [])),
        m',
      )

module _ ⦃P : Platform⦄ ⦃C : Cipher⦄ ⦃S : Codec⦄ where
  unfoldable pub replication_heartbeat : Request → String → ℕ → Master → Response × Master
  replication_heartbeat req replica_id last_applied_index = with_token req λ m.
      let (r, m') = register_replica req.now replica_id last_applied_index m in
      (
        answer
            (λ done. success (
              json_object
                (("status", json_text "OK") ∷ ("message", json_text "Heartbeat received") ∷ [])))
            internal_error r,
        m',
      )

  -- The entries, and then the number of all entries.
  abbrev entries_and_total : ℕ → ℕ → Master → Result (List WalEntry × ℕ)
  entries_and_total from_index limit m = get_wal_entries from_index limit m >>= λ entries.
      get_total_entries m >>= λ total. ok (entries, total)

  unfoldable pub replication_get_wal : Request → ℕ → Option ℕ → Master → Response × Master
  replication_get_wal req from_index limit = with_token req λ m. (
    answer
        (λ page. success (
          json_object
            (("entries", json_list json_entry page.0) ∷ ("total_entries", json_nat page.1) ∷ [])))
        internal_error (entries_and_total from_index (Option.get_or limit 100) m),
    m,
  )

  abbrev sync_error : String → Response
  sync_error message =
      response 500
        (json (json_object (("status", json_text "ERROR") ∷ ("error", json_text message) ∷ [])))

  unfoldable pub replication_sync :
      Request → ℕ → (WalEntry → Attempt) → Network → Replica → Response × Replica
  replication_sync req elapsed attempts network r =
      let (applied, r') = sync req.now elapsed attempts network r in
      (
        answer
            (λ applied_count. success (
              json_object (
                ("status", json_text "OK")
                ∷ ("applied_entries", json_nat applied_count)
                ∷ (
                  "message",
                  json_text
                      (format ("Synced " ∷ decimal applied_count ∷ " entries from master" ∷ [])),
                )
                ∷ [])))
            sync_error applied,
        r',
      )

module _ ⦃P : Platform⦄ where
  unfoldable pub replication_status : String → String → Replica → Response
  replication_status replica_id master_url r =
      let status = get_status replica_id master_url r in
      success (
        json_object (
          ("replica_id", json_text status.replica_id)
          ∷ ("master_url", json_text status.master_url)
          ∷ ("last_applied_index", json_nat status.last_applied_index)
          ∷ ("lag_entries", json_nat status.lag_entries)
          ∷ (
            "last_successful_sync_unix_secs",
            json_option json_nat status.last_successful_sync_unix_secs,
          )
          ∷ ("last_sync_duration_ms", json_option json_nat status.last_sync_duration_ms)
          ∷ []))
