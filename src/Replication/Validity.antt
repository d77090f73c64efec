-- ===== src/Replication/Validity.antt =====
-- The replica of replication.rs keeps the invariant of its store.
use daikon.Prelude.{ℕ, ◌+◌, add_u64, List, [], ◌∷◌, is_empty, Bool-cases, inl, inr}
use daikon.Platform.{Platform}
use daikon.Exec.{lift, ◌>>=◌}
use daikon.Exec.Keeps.{Keeps, Keeps-bind, Keeps-lift}
use daikon.Crypto.{Cipher}
use daikon.Wal.{Attempt, WalEntry, Codec}
use daikon.Store.Validity.{IsValid}
use daikon.Replay.{apply_operation}
use daikon.Replay.Validity.{apply_operation-IsValid}
use daikon.Replication.{
  Network, Replica, send_heartbeat, fetch_wal_entries, sync, sync_fetched, is_fresh, mark_applied,
  sync_entries, apply_wal_entry, append_local, finish, on_store,
}
use daikon.Replication.Dedup.{after_apply-case}

module _ ⦃P : Platform⦄ ⦃C : Cipher⦄ ⦃S : Codec⦄ (now : ℕ) (attempts : WalEntry → Attempt) where
  StoreIsValid : Replica → Type 0
  StoreIsValid r = IsValid r.store

  apply_wal_entry-IsValid :
      (entry : WalEntry) → Keeps StoreIsValid (apply_wal_entry now attempts entry)
  unfolding apply_wal_entry StoreIsValid
  apply_wal_entry-IsValid entry =
      Keeps-bind (on_store (apply_operation now entry.operation))
        (λ done. append_local (attempts entry) entry)
        (record { after = λ r v. (apply_operation-IsValid now entry.operation).after r.store v })
        (λ done. record { after = λ r v. v })

  sync_entries-IsValid :
      (entries : List WalEntry) (seen : List ℕ) (count : ℕ) (r : Replica)
      → StoreIsValid r
      → StoreIsValid ((sync_entries now attempts entries seen count r).1)
  unfolding sync_entries StoreIsValid
  sync_entries-IsValid [] seen count r v = v
  sync_entries-IsValid (entry ∷ entries) seen count r v =
      elim (Bool-cases (is_fresh entry seen r)) [
        | inr stale ↦
            rw (sync_entries, stale)
              (sync_entries-IsValid entries (entry.timestamp ∷ seen) count r v)
        | inl fresh ↦
            let done = apply_wal_entry now attempts entry r in
            let kept = (apply_wal_entry-IsValid entry).after r v in
            rw (sync_entries, fresh)
              (after_apply-case now attempts (λ x. StoreIsValid (x.1)) entry.timestamp
                (sync_entries now attempts entries (entry.timestamp ∷ seen) (count + 1)) done
                (sync_entries-IsValid entries (entry.timestamp ∷ seen) (count + 1)
                  (mark_applied entry.timestamp (done.1)) kept)
                (λ e. kept) kept)
      ]

  sync_fetched-IsValid :
      (elapsed : ℕ) (fetched : List WalEntry × ℕ)
      → Keeps StoreIsValid (sync_fetched now elapsed attempts fetched)
  unfolding sync_fetched StoreIsValid
  sync_fetched-IsValid elapsed (entries, total) = record {
    after = λ r v. elim (Bool-cases (is_empty entries)) [
      | inl nothing ↦ rw nothing v
      | inr sent ↦ rw sent (
          (Keeps-bind {P = StoreIsValid} (sync_entries now attempts entries [] 0)
              (λ count s. finish now elapsed total (add_u64 s.last_applied_index count) count s)
              (record { after = sync_entries-IsValid entries [] 0 })
              (λ count. record { after = λ s kept. kept })).after
            r v)
    ];
  }

  -- A synchronisation leaves the store well formed, whatever the master answers and also where it
  -- stops at an entry that fails.
  pub sync-IsValid :
      (elapsed : ℕ) (network : Network) (r : Replica)
      → IsValid r.store
      → IsValid (sync now elapsed attempts network r).1.store
  unfolding sync StoreIsValid
  sync-IsValid elapsed network r v =
      (Keeps-bind {P = StoreIsValid} (lift (send_heartbeat network r.last_applied_index))
          (λ done. lift (fetch_wal_entries network r.last_applied_index) >>= λ fetched.
            sync_fetched now elapsed attempts fetched)
          (Keeps-lift (send_heartbeat network r.last_applied_index))
          (λ done.
            Keeps-bind (lift (fetch_wal_entries network r.last_applied_index))
              (λ fetched. sync_fetched now elapsed attempts fetched)
              (Keeps-lift (fetch_wal_entries network r.last_applied_index))
              (sync_fetched-IsValid elapsed))).after
        r v
