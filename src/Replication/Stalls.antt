-- ===== src/Replication/Stalls.antt =====
-- What the deduplication of the replica of replication.rs leaves out.
use daikon.Prelude.{
  ℕ, ◌-◌, ◌<◌, u64_mod, add_u64, add_u64-eq-add, false, ◌≡◌, refl, ◌∙◌, ap, List, [], ◌∷◌, is_empty,
  arith,
}
use daikon.Platform.{Platform}
use daikon.Error.{ok}
use daikon.Crypto.{Cipher}
use daikon.Wal.{Attempt, WalEntry, Codec}
use daikon.Replication.{
  Network, Replica, send_heartbeat, fetch_wal_entries, sync, sync_fetched, seen_in, is_fresh,
  mark_applied, after_apply, sync_entries, apply_wal_entry,
}
use daikon.Replication.Dedup.{AllApplied, sync_entries_skip}

module _ ⦃P : Platform⦄ ⦃C : Cipher⦄ ⦃S : Codec⦄ (now : ℕ) (attempts : WalEntry → Attempt) where
  -- All of a second: every entry has the given time.
  abbrev pub AllAt : ℕ → List WalEntry → Type 0
  AllAt t [] = Unit
  AllAt t (entry ∷ entries) = (entry.timestamp ≡ t) × AllAt t entries

  same_second_applied :
      (t : ℕ) (entries : List WalEntry) (r : Replica)
      → AllAt t entries
      → AllApplied entries (mark_applied t r)
  same_second_applied t [] r h = tt
  same_second_applied t (entry ∷ entries) r h =
      (let e = h.0 in ground (arith, e), same_second_applied t entries r h.1)

  -- Of entries that the master logged in one second, a second of which the replica has
  -- applied none, only the first is applied when it goes through: the others are taken for
  -- copies of it, whatever they say.
  pub sync_drops_same_second :
      (entry : WalEntry) (entries : List WalEntry) (r s : Replica)
      → seen_in entry.timestamp r.applied_entry_timestamps ≡ false
      → AllAt entry.timestamp entries
      → apply_wal_entry now attempts entry r ≡ (ok tt, s)
      → sync_entries now attempts (entry ∷ entries) [] 0 r ≡ (ok 1, mark_applied entry.timestamp s)
  unfolding sync_entries is_fresh after_apply
  sync_drops_same_second entry entries r s new same applied =
      rw (sync_entries, new, applied)
        (sync_entries_skip now attempts entries (entry.timestamp ∷ []) 1
          (mark_applied entry.timestamp s) (same_second_applied entry.timestamp entries s same))

  -- When the master answers and every entry of a batch that is not empty has a time that is
  -- marked, a synchronisation succeeds and applies nothing to the store, and the index from
  -- which the next one asks stays.
  pub sync_stalls :
      (elapsed total : ℕ) (network : Network) (entries : List WalEntry) (r : Replica)
      → send_heartbeat network r.last_applied_index ≡ ok tt
      → fetch_wal_entries network r.last_applied_index ≡ ok (entries, total)
      → is_empty entries ≡ false
      → AllApplied entries r
      → r.last_applied_index < u64_mod
      → ((sync now elapsed attempts network r).0 ≡ ok 0)
        × ((sync now elapsed attempts network r).1.store ≡ r.store)
        × ((sync now elapsed attempts network r).1.last_applied_index ≡ r.last_applied_index)
        × ((sync now elapsed attempts network r).1.lag_entries ≡ total - r.last_applied_index)
  unfolding sync sync_fetched
  sync_stalls elapsed total network entries r beat fetched sent marked small =
      let same : add_u64 r.last_applied_index 0 ≡ r.last_applied_index =
        add_u64-eq-add r.last_applied_index 0 (omega arith) ∙ omega arith in
      rw (beat, fetched, sent, sync_entries_skip now attempts entries [] 0 r marked)
        (refl, refl, same, ap (λ i. total - i) same)
