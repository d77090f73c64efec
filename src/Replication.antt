-- ===== src/Replication.antt =====
-- replication.rs: the replica, which pulls the entries of the master's log. HTTP is outside the
-- repository: what the client gets for its two requests is the parameter `Network`.
pub mod Master
pub mod Dedup
pub mod Stalls
pub mod Validity
pub mod Status
use daikon.Prelude.{
  ℕ, ◌+◌, ◌-◌, String, Bool, true, false, not, ◌&&◌, ◌||◌, Option, none, some, List, [], ◌∷◌, eqb,
  leb, ltb, is_empty, add_u64, length, format, if◌then◌else◌, ◌⊎◌, inl, inr,
}
use daikon.Platform.{Platform}
use daikon.Error.{Result, ok, err, panic, replication_error}
use daikon.Exec.{Exec, pure, lift, modify, ◌>>=◌, ◌>>◌}
use daikon.Store.{KvStore}
use daikon.Crypto.{Bytes, Cipher}
use daikon.Wal.{Attempt, WalEntry, Codec}
use daikon.Wal
use daikon.Replay.{apply_operation}

-- A response: its status, the text of the status, and what `response.json()` gives.
pub record Response : Type 0 where
  pub status : ℕ
  pub status_text : String
  pub json : String ⊎ (List WalEntry × ℕ)

-- The answers to a heartbeat and to a request for the log, by the index that is sent.
pub record Network : Type 0 where
  pub heartbeat : ℕ → String ⊎ Response
  pub wal : ℕ → String ⊎ Response

abbrev success : Response → Bool
success response = leb 200 response.status && ltb response.status 300

module _ ⦃P : Platform⦄ where
  -- `ReplicationReplica`; the two counters for the status are of its last synchronisation.
  pub record Replica : Type 0 where
    pub store : KvStore
    pub wal : Bytes
    pub last_applied_index : ℕ
    pub applied_entry_timestamps : List ℕ
    pub last_successful_sync_unix_secs : Option ℕ
    pub last_sync_duration_ms : Option ℕ
    pub lag_entries : ℕ

-- `HashSet::contains` of a set of times.
abbrev pub seen_in : ℕ → List ℕ → Bool
seen_in t [] = false
seen_in t (x ∷ xs) = eqb x t || seen_in t xs

heartbeat_answer : String ⊎ Response → Result (Unit {0})
heartbeat_answer (inl e) = err (replication_error (format ("Failed to send heartbeat: " ∷ e ∷ [])))
heartbeat_answer (inr response) =
    if eqb response.status 401
    then err (
        replication_error "Heartbeat rejected: authentication failed. Check KV_REPLICATION_SECRET.")
    else (if success response
        then ok tt
        else err (
            replication_error
              (format ("Heartbeat failed with status: " ∷ response.status_text ∷ []))))

unfoldable pub send_heartbeat : Network → ℕ → Result (Unit {0})
unfolding heartbeat_answer
send_heartbeat network last_applied_index = heartbeat_answer (network.heartbeat last_applied_index)

parsed : String ⊎ (List WalEntry × ℕ) → Result (List WalEntry × ℕ)
parsed (inl e) = err (replication_error (format ("Failed to parse WAL response: " ∷ e ∷ [])))
parsed (inr wal_response) = ok wal_response

wal_answer : String ⊎ Response → Result (List WalEntry × ℕ)
unfolding parsed
wal_answer (inl e) = err (replication_error (format ("Failed to fetch WAL entries: " ∷ e ∷ [])))
wal_answer (inr response) =
    if eqb response.status 401
    then err (
        replication_error "WAL fetch rejected: authentication failed. Check KV_REPLICATION_SECRET.")
    else (if success response
        then parsed response.json
        else err (
            replication_error
              (format ("Fetch WAL failed with status: " ∷ response.status_text ∷ []))))

unfoldable pub fetch_wal_entries : Network → ℕ → Result (List WalEntry × ℕ)
unfolding wal_answer
fetch_wal_entries network from_index = wal_answer (network.wal from_index)

module _ ⦃P : Platform⦄ ⦃C : Cipher⦄ ⦃S : Codec⦄ where
  abbrev pub on_store : {A : Type 0} → Exec KvStore A → Exec Replica A
  on_store m r = let (a, s) = m r.store in (a, record r { store = s })

  abbrev append_local : Attempt → WalEntry → Exec Replica (Unit {0})
  append_local attempt entry r =
      let (done, file) = Wal.append attempt entry r.wal in (done, record r { wal = file })

  -- The entry is applied to the store and then appended to the replica's own log.
  unfoldable pub apply_wal_entry : ℕ → (WalEntry → Attempt) → WalEntry → Exec Replica (Unit {0})
  apply_wal_entry now attempts entry =
      on_store (apply_operation now entry.operation) >> append_local (attempts entry) entry

  -- Neither twice in the batch nor applied since the process started.
  unfoldable pub is_fresh : WalEntry → List ℕ → Replica → Bool
  is_fresh entry batch_seen r =
      not (seen_in entry.timestamp batch_seen)
      && not (seen_in entry.timestamp r.applied_entry_timestamps)

  abbrev pub mark_applied : ℕ → Replica → Replica
  mark_applied timestamp r = record r {
    applied_entry_timestamps = timestamp ∷ r.applied_entry_timestamps;
  }

  unfoldable pub after_apply : ℕ → Exec Replica ℕ → Result (Unit {0}) × Replica → Result ℕ × Replica
  after_apply timestamp rest (ok done, r) = rest (mark_applied timestamp r)
  after_apply timestamp rest (err e, r) = (err e, r)
  after_apply timestamp rest (panic, r) = (panic, r)

  -- `for entry in &entries`: the number of entries applied.
  unfoldable pub sync_entries :
      ℕ → (WalEntry → Attempt) → List WalEntry → List ℕ → ℕ → Exec Replica ℕ
  sync_entries now attempts [] batch_seen applied_count r = (ok applied_count, r)
  sync_entries now attempts (entry ∷ entries) batch_seen applied_count r =
      elim (is_fresh entry batch_seen r) [
        | true ↦
            after_apply entry.timestamp
              (sync_entries now attempts entries (entry.timestamp ∷ batch_seen) (applied_count + 1))
              (apply_wal_entry now attempts entry r)
        | false ↦ sync_entries now attempts entries (entry.timestamp ∷ batch_seen) applied_count r
      ]

  -- `sync_started.elapsed()` in milliseconds is the parameter `elapsed`.
  abbrev finish : ℕ → ℕ → ℕ → ℕ → ℕ → Exec Replica ℕ
  finish now elapsed total_entries index applied_count r = (
    ok applied_count,
    record r {
      last_applied_index = index;
      lag_entries = total_entries - index;
      last_successful_sync_unix_secs = some now;
      last_sync_duration_ms = some elapsed;
    },
  )

  unfoldable sync_fetched : ℕ → ℕ → (WalEntry → Attempt) → List WalEntry × ℕ → Exec Replica ℕ
  sync_fetched now elapsed attempts (entries, total_entries) r =
      if is_empty entries
      then finish now elapsed total_entries r.last_applied_index 0 r
      else (sync_entries now attempts entries [] 0 >>= λ applied_count s.
            finish now elapsed total_entries (add_u64 s.last_applied_index applied_count)
              applied_count s)
          r

  unfoldable pub sync : ℕ → ℕ → (WalEntry → Attempt) → Network → Exec Replica ℕ
  unfolding sync_fetched
  sync now elapsed attempts network r =
      (lift (send_heartbeat network r.last_applied_index) >>= λ done.
      lift (fetch_wal_entries network r.last_applied_index) >>= λ fetched.
      sync_fetched now elapsed attempts fetched)
        r
