-- ===== src/Replication/Dedup.antt =====
-- The deduplication of the replica of replication.rs.
use daikon.Prelude.{
  ℕ, ◌+◌, true, false, ◌≡◌, refl, sym, List, [], ◌∷◌, eqb, eqb_iff, arith, Bool-cases, inl, inr,
}
use daikon.Platform.{Platform}
use daikon.Error.{KvStoreError, Result, ok, err, panic}
use daikon.Exec.{Exec}
use daikon.Exec.Keeps.{Keeps-bind}
use daikon.Crypto.{Cipher}
use daikon.Wal.{Attempt, WalEntry, Codec}
use daikon.Replay.{apply_operation}
use daikon.Replication.{
  Replica, seen_in, is_fresh, mark_applied, after_apply, sync_entries, apply_wal_entry,
  append_local, on_store,
}

pub seen_in_self : (t : ℕ) (ts : List ℕ) → seen_in t (t ∷ ts) ≡ true
seen_in_self t ts = ground arith

seen_in_more : (t x : ℕ) (ts : List ℕ) → seen_in t ts ≡ true → seen_in t (x ∷ ts) ≡ true
seen_in_more t x ts h = ground arith

module _ ⦃P : Platform⦄ where
  -- The time of every entry is among those that the replica has applied.
  abbrev pub AllApplied : List WalEntry → Replica → Type 0
  AllApplied [] r = Unit
  AllApplied (entry ∷ entries) r =
      (seen_in entry.timestamp r.applied_entry_timestamps ≡ true) × AllApplied entries r

  abbrev SeenApplied : List ℕ → Replica → Type 0
  SeenApplied seen r = (t : ℕ) → seen_in t seen ≡ true → seen_in t r.applied_entry_timestamps ≡ true

module _ ⦃P : Platform⦄ ⦃C : Cipher⦄ ⦃S : Codec⦄ (now : ℕ) (attempts : WalEntry → Attempt) where
  applied_is_stale :
      (entry : WalEntry) (seen : List ℕ) (r : Replica)
      → seen_in entry.timestamp r.applied_entry_timestamps ≡ true
      → is_fresh entry seen r ≡ false
  unfolding is_fresh
  applied_is_stale entry seen r h = rw h (ground arith)

  stale_is_applied :
      (entry : WalEntry) (seen : List ℕ) (r : Replica)
      → SeenApplied seen r
      → is_fresh entry seen r ≡ false
      → seen_in entry.timestamp r.applied_entry_timestamps ≡ true
  unfolding is_fresh
  stale_is_applied entry seen r h stale = elim (Bool-cases (seen_in entry.timestamp seen)) [
    | inl before ↦ h entry.timestamp before
    | inr new ↦ ground (arith, stale, new)
  ]

  seen_more :
      (timestamp : ℕ) (seen : List ℕ) (r : Replica)
      → SeenApplied seen r
      → seen_in timestamp r.applied_entry_timestamps ≡ true
      → SeenApplied (timestamp ∷ seen) r
  seen_more timestamp seen r h marked t among = elim (Bool-cases (eqb timestamp t)) [
    | inl same ↦ rw (sym ((eqb_iff timestamp t).0 same)) marked
    | inr other ↦ h t (rw other at among)
  ]

  pub sync_entries_skip :
      (entries : List WalEntry) (seen : List ℕ) (count : ℕ) (r : Replica)
      → AllApplied entries r
      → sync_entries now attempts entries seen count r ≡ (ok count, r)
  unfolding sync_entries
  sync_entries_skip [] seen count r h = refl
  sync_entries_skip (entry ∷ entries) seen count r h =
      rw (sync_entries, applied_is_stale entry seen r h.0)
        (sync_entries_skip entries (entry.timestamp ∷ seen) count r h.1)

  apply_wal_entry_applied :
      (entry : WalEntry) (r : Replica)
      → (apply_wal_entry now attempts entry r).1.applied_entry_timestamps
        ≡ r.applied_entry_timestamps
  unfolding apply_wal_entry
  apply_wal_entry_applied entry r =
      let kept =
        Keeps-bind {P = λ s. s.applied_entry_timestamps ≡ r.applied_entry_timestamps}
          (on_store (apply_operation now entry.operation))
          (λ done. append_local (attempts entry) entry) (record { after = λ s h. h })
          (λ done. record { after = λ s h. h }) in
      kept.after r refl

  pub after_apply-case :
      (Q : Result ℕ × Replica → Type 0) (timestamp : ℕ) (rest : Exec Replica ℕ)
      (done : Result (Unit {0}) × Replica)
      → Q (rest (mark_applied timestamp done.1))
      → ((e : KvStoreError) → Q (err e, done.1))
      → Q (panic, done.1)
      → Q (after_apply timestamp rest done)
  unfolding after_apply
  after_apply-case Q timestamp rest (ok done, r) h on_err on_panic = h
  after_apply-case Q timestamp rest (err e, r) h on_err on_panic = on_err e
  after_apply-case Q timestamp rest (panic, r) h on_err on_panic = on_panic

  -- A time that is marked stays marked, whichever way the entries go.
  sync_entries_monotone :
      (entries : List WalEntry) (seen : List ℕ) (count : ℕ) (r : Replica) (t : ℕ)
      → seen_in t r.applied_entry_timestamps ≡ true
      → seen_in t ((sync_entries now attempts entries seen count r).1.applied_entry_timestamps)
        ≡ true
  unfolding sync_entries
  sync_entries_monotone [] seen count r t h = h
  sync_entries_monotone (entry ∷ entries) seen count r t h =
      elim (Bool-cases (is_fresh entry seen r)) [
        | inr stale ↦
            rw (sync_entries, stale)
              (sync_entries_monotone entries (entry.timestamp ∷ seen) count r t h)
        | inl fresh ↦
            let done = apply_wal_entry now attempts entry r in
            let kept : seen_in t (done.1.applied_entry_timestamps) ≡ true =
              rw (apply_wal_entry_applied entry r) h in
            rw (sync_entries, fresh)
              (after_apply-case (λ x. seen_in t (x.1.applied_entry_timestamps) ≡ true)
                entry.timestamp
                (sync_entries now attempts entries (entry.timestamp ∷ seen) (count + 1)) done
                (sync_entries_monotone entries (entry.timestamp ∷ seen) (count + 1)
                  (mark_applied entry.timestamp (done.1)) t (seen_in_more t entry.timestamp _ kept))
                (λ e. kept) kept)
      ]

  -- When every entry of a batch went through, all their times are marked.
  sync_entries_marks :
      (entries : List WalEntry) (seen : List ℕ) (count n : ℕ) (r : Replica)
      → SeenApplied seen r
      → (sync_entries now attempts entries seen count r).0 ≡ ok n
      → AllApplied entries ((sync_entries now attempts entries seen count r).1)
  unfolding sync_entries
  sync_entries_marks [] seen count n r h = λ e. tt
  sync_entries_marks (entry ∷ entries) seen count n r h =
      elim (Bool-cases (is_fresh entry seen r)) [
        | inr stale ↦
            let marked : seen_in entry.timestamp r.applied_entry_timestamps ≡ true =
              stale_is_applied entry seen r h stale in
            rw (sync_entries, stale)
              (λ e. (
                sync_entries_monotone entries (entry.timestamp ∷ seen) count r entry.timestamp
                    marked,
                sync_entries_marks entries (entry.timestamp ∷ seen) count n r
                    (seen_more entry.timestamp seen r h marked) e,
              ))
        | inl fresh ↦
            let done = apply_wal_entry now attempts entry r in
            let next = mark_applied entry.timestamp (done.1) in
            let marked : seen_in entry.timestamp next.applied_entry_timestamps ≡ true =
              seen_in_self entry.timestamp _ in
            rw (sync_entries, fresh)
              (after_apply-case (λ x. x.0 ≡ ok n → AllApplied (entry ∷ entries) (x.1))
                entry.timestamp
                (sync_entries now attempts entries (entry.timestamp ∷ seen) (count + 1)) done
                (λ e. (
                  sync_entries_monotone entries (entry.timestamp ∷ seen) (count + 1) next
                      entry.timestamp marked,
                  sync_entries_marks entries (entry.timestamp ∷ seen) (count + 1) n next
                      (seen_more entry.timestamp seen next
                        (λ t s.
                          seen_in_more t entry.timestamp _
                            (rw (apply_wal_entry_applied entry r) (h t s)))
                        marked)
                      e,
                ))
                (λ error e. cc) (λ e. cc))
      ]

  -- A batch that went through and is sent again changes nothing: no entry is applied twice.
  pub sync_entries_again :
      (entries : List WalEntry) (n : ℕ) (r : Replica)
      → (sync_entries now attempts entries [] 0 r).0 ≡ ok n
      → sync_entries now attempts entries [] 0 ((sync_entries now attempts entries [] 0 r).1)
        ≡ (ok 0, (sync_entries now attempts entries [] 0 r).1)
  sync_entries_again entries n r e =
      sync_entries_skip entries [] 0 _
        (sync_entries_marks entries [] 0 n r (λ t no. ground arith) e)
