-- ===== src/Startup/Recovery.antt =====
-- The log against the store: whatever requests a server has served, what it finds in its log when it
-- starts again gives it the store that it had.
use daikon.Prelude.{ℕ, ◌≡◌, refl, ap, ◌∙◌, List, [], ◌∷◌, ◌++◌}
use daikon.Platform.{Platform}
use daikon.Error.{Result, ok, err, panic, ◌>>=◌}
use daikon.Exec.{Exec, continue, pure, ◌>>◌}
use daikon.Store.{KvStore}
use daikon.Store.Quiet.{quiet}
use daikon.Crypto.{Cipher}
use daikon.Wal
use daikon.Wal.{WalOperation, WalEntry, Codec, new_entry, read_all}
use daikon.Wal.Lines.{IsComplete}
use daikon.Wal.Lossless.{Lossless, append_reads}
use daikon.Json.{ValueCodec}
use daikon.Api.{Request, App}
use daikon.Api.Writes.{Write, serve, AllAccepted}
use daikon.Startup.{restore, restore_all, result_store, replay_wal}
use daikon.Startup.Clock.{Punctual, restore_any_time}
use daikon.Startup.Effect.{Effect, nothing, one_entry}
use daikon.Startup.Handlers.{TextsReadBack, handle-Effect}

module _ ⦃P : Platform⦄ ⦃V : ValueCodec⦄ where
  abbrev Step : Type 0
  Step = Exec KvStore (Unit {0})

  continue_then :
      (r : Result (Unit {0})) (m m1 m2 : Step) (s : KvStore)
      → ((t : KvStore) → m t ≡ (m1 >> m2) t)
      → continue r (λ _. m) s ≡ ((λ t. continue r (λ _. m1) t) >> m2) s
  continue_then (ok done) m m1 m2 s h = h s
  continue_then (err e) m m1 m2 s h = refl
  continue_then panic m m1 m2 s h = refl

  pub restore_all-append :
      (clock : WalEntry → ℕ) (xs ys : List WalEntry) (s : KvStore)
      → restore_all clock (xs ++ ys) s ≡ (restore_all clock xs >> restore_all clock ys) s
  unfolding restore_all
  restore_all-append clock [] ys s = refl
  restore_all-append clock (x ∷ xs) ys s =
      let (r, s') = restore (clock x) x.operation s in
      continue_then r _ (restore_all clock xs) _ s' (restore_all-append clock xs ys)

  -- One more entry, where the entries before it are replayed without an error.
  pub restore_all-snoc :
      (clock : WalEntry → ℕ) (entries : List WalEntry) (entry : WalEntry) (s s' s'' : KvStore)
      → restore_all clock entries s ≡ (ok tt, s')
      → restore (clock entry) entry.operation s' ≡ (ok tt, s'')
      → restore_all clock (entries ++ entry ∷ []) s ≡ (ok tt, s'')
  unfolding restore_all
  restore_all-snoc clock entries entry s s' s'' e f =
      restore_all-append clock entries (entry ∷ []) s
      ∙ ap (λ r. continue r.0 (λ _. restore_all clock (entry ∷ [])) r.1) e
      ∙ ap (λ r. continue r.0 (λ _. pure tt) r.1) f

  abbrev pub Replays : (WalEntry → ℕ) → Result (List WalEntry) → KvStore → KvStore → Type 0
  Replays clock read s s' =
      (entries : List WalEntry) × (read ≡ ok entries) × (restore_all clock entries s ≡ (ok tt, s'))

  result_store-ok :
      (r : Result (Unit {0}) × KvStore) (s' : KvStore) → result_store r ≡ ok s' → r ≡ (ok tt, s')
  result_store-ok (ok done, s) s' h = cc
  result_store-ok (err e, s) s' h = cc
  result_store-ok (panic, s) s' h = cc

  pub replayed :
      (clock : WalEntry → ℕ) (read : Result (List WalEntry)) (s s' : KvStore)
      → (read >>= λ entries. result_store (restore_all clock entries s)) ≡ ok s'
      → Replays clock read s s'
  replayed clock (ok entries) s s' h = (entries, refl, result_store-ok _ s' h)
  replayed clock (err e) s s' h = cc
  replayed clock panic s s' h = cc

module _ ⦃P : Platform⦄ ⦃C : Cipher⦄ ⦃S : Codec⦄ ⦃V : ValueCodec⦄ where
  -- The log is made of whole lines, and a start with it on the store `base` gives the store that is
  -- served, up to its keyspace events.
  pub record Restorable (clock : WalEntry → ℕ) (base : KvStore) (a : App) : Type 0 where
    pub complete : IsComplete a.wal
    pub restores : replay_wal clock a.wal base ≡ ok (quiet a.store)

module _ ⦃P : Platform⦄ ⦃C : Cipher⦄ ⦃S : Codec⦄ ⦃V : ValueCodec⦄ (lossless : Lossless)
    (texts : TextsReadBack) (base : KvStore) (clock : WalEntry → ℕ)
    (punctual : Punctual clock) where
  pub one_entry-restores :
      (req : Request) (op : WalOperation) (a a' : App)
      → Restorable clock base a
      → Wal.append (req.attempts 0) (new_entry req.now op) a.wal ≡ (ok tt, a'.wal)
      → restore req.now op (quiet a.store) ≡ (ok tt, quiet a'.store)
      → Restorable clock base a'
  unfolding replay_wal
  one_entry-restores req op a a' before logged applied =
      let entry = new_entry req.now op in
      let applied_later =
        restore_any_time (clock entry) req.now op a.store (punctual entry) ∙ applied in
      let (complete, reads) =
        append_reads lossless (req.attempts 0) entry a.wal a'.wal before.complete logged in
      let (entries, read, replays) = replayed clock (read_all a.wal) base _ before.restores in
      record {
        complete = complete;
        restores =
            rw (reads, read, restore_all-snoc clock entries entry base _ _ replays applied_later)
              refl;
      }

  Effect-Restorable :
      (req : Request) (a a' : App)
      → Restorable clock base a
      → Effect req a a'
      → Restorable clock base a'
  Effect-Restorable req a a' before (nothing same_wal same_store) = record {
    complete = rw same_wal before.complete;
    restores = rw (same_wal, same_store) before.restores;
  }
  Effect-Restorable req a a' before (one_entry op logged applied) =
      one_entry-restores req op a a' before logged applied

  serve-Restorable :
      (ws : List (Request × Write)) (a : App)
      → AllAccepted ws a
      → Restorable clock base a
      → Restorable clock base (serve ws a)
  serve-Restorable [] a accepted before = before
  serve-Restorable ((req, w) ∷ ws) a accepted before =
      serve-Restorable ws _ accepted.2
        (Effect-Restorable req a _ before (handle-Effect texts req w a accepted.0 accepted.1))

  -- What a server that starts from the store `base` and the log of another finds: after any
  -- requests among SET, DELETE, INCR, DECR, INCRBY, APPEND, EXPIRE, PERSIST and the writers of lists
  -- and hashes, at any times and one after the other, authorised or not, with failing and refused ones and
  -- with entries that were not written since the log did not open or the entry did not serialise or
  -- encrypt, the replay of the log gives the store that the other served, up to its keyspace events:
  -- no acknowledged change is lost, and none is invented. No write of a line is cut off by an error;
  -- the log could be replayed before; the entries that set a time to live are replayed in the second
  -- in which they were logged, and the others at any time; every SET among the requests is one that
  -- the store accepts; and the texts and lines that were written read back.
  pub replay_wal-serve :
      (ws : List (Request × Write)) (a : App)
      → AllAccepted ws a
      → Restorable clock base a
      → replay_wal clock (serve ws a).wal base ≡ ok (quiet (serve ws a).store)
  replay_wal-serve ws a accepted before = (serve-Restorable ws a accepted before).restores
