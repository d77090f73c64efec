-- ===== src/Pitr/Recovery.antt =====
-- What the recovery of pitr.rs replays, and what its clean-up removes.
use daikon.Prelude.{
  ℕ, ◌+◌, ◌-◌, ◌≤◌, ◌<◌, false, ◌≡◌, ◌↔◌, refl, ap, Option, none, some, List, [], ◌∷◌, ltb, length,
  if◌then◌else◌, arith, Bool-cases, inl, inr,
}
use daikon.Platform.{Platform}
use daikon.Exec.Steady.{is_panic}
use daikon.Error.{Result, ok, err, panic, ◌>>=◌}
use daikon.Store.{KvStore}
use daikon.Store.Validity.{IsValid}
use daikon.Crypto.{Bytes, Cipher}
use daikon.Wal.{WalEntry, Codec, read_all}
use daikon.Replay.{apply_operation}
use daikon.Replay.Validity.{apply_operation-IsValid}
use daikon.Pitr.{
  Archive, Directory, load_base, find_base, list_snapshots, replay, replay_step,
  recover_to_timestamp, is_old, remove_old, snapshot_time, cleanup_old_snapshots,
}

-- Logged in the order of their times.
abbrev pub Ordered : List WalEntry → Type 0
Ordered [] = Unit
Ordered (e ∷ []) = Unit
Ordered (e ∷ f ∷ entries) = (e.timestamp ≤ f.timestamp) × Ordered (f ∷ entries)

-- The entries up to a time.
pub upto : ℕ → List WalEntry → List WalEntry
upto target [] = []
upto target (e ∷ entries) =
    let rest = upto target entries in if ltb target e.timestamp then rest else e ∷ rest

module _ ⦃P : Platform⦄ where
  -- Every entry was run, one after the other, on what the ones before it left: an entry that fails
  -- is no end, and what it wrote before its error stays. None panicked.
  pub Recovered : ℕ → List WalEntry → KvStore → KvStore → Type 0
  Recovered now [] s s' = s ≡ s'
  Recovered now (e ∷ entries) s s' =
      let (r, t) = apply_operation now e.operation s in
      (is_panic r ≡ false) × Recovered now entries t s'

  upto-late :
      (target : ℕ) (e : WalEntry) (entries : List WalEntry)
      → Ordered (e ∷ entries)
      → target < e.timestamp
      → upto target entries ≡ []
  unfolding upto
  upto-late target e [] o late = refl
  upto-late target e (f ∷ entries) o late =
      let later : target < f.timestamp = omega (arith, o.0) in
      ground (arith, later, upto-late target f entries o.1 later)

  tail-Ordered : (e : WalEntry) (entries : List WalEntry) → Ordered (e ∷ entries) → Ordered entries
  tail-Ordered e [] o = tt
  tail-Ordered e (f ∷ entries) o = o.1

  replay_step-ok :
      (rest : KvStore → Result KvStore) (Q : KvStore → Type 0) (s' : KvStore)
      (ran : Result (Unit {0}) × KvStore)
      → ((t : KvStore) → (rest t ≡ ok s') ↔ Q t)
      → (replay_step rest ran ≡ ok s') ↔ ((is_panic ran.0 ≡ false) × Q ran.1)
  unfolding replay_step
  replay_step-ok rest Q s' (ok u, t) h = (λ r. (refl, (h t).0 r), λ q. (h t).1 q.1)
  replay_step-ok rest Q s' (err e, t) h = (λ r. (refl, (h t).0 r), λ q. (h t).1 q.1)
  replay_step-ok rest Q s' (panic, t) h = (λ r. cc, λ q. let e = q.0 in cc)

  ok_iff : (s s' : KvStore) → (ok s ≡ ok s') ↔ (s ≡ s')
  ok_iff s s' = (λ e. cc, λ e. ap ok e)

  pub replay-Recovered :
      (now target : ℕ) (entries : List WalEntry) (s s' : KvStore)
      → Ordered entries
      → (replay now target entries s ≡ ok s') ↔ Recovered now (upto target entries) s s'
  unfolding replay Recovered upto
  replay-Recovered now target [] s s' o = ok_iff s s'
  replay-Recovered now target (e ∷ entries) s s' o = elim (Bool-cases (ltb target e.timestamp)) [
    | inl late ↦
        rw (replay, late, upto-late target e entries o (ground (arith, late))) (ok_iff s s')
    | inr early ↦
        rw (replay, early)
          (replay_step-ok (replay now target entries)
            (λ t. Recovered now (upto target entries) t s') s' (apply_operation now e.operation s)
            (λ t. replay-Recovered now target entries t s' (tail-Ordered e entries o)))
  ]

  abbrev pub ValidResult : Result KvStore → Type 0
  ValidResult (ok s) = IsValid s
  ValidResult (err e) = Unit
  ValidResult panic = Unit

  replay_step-IsValid :
      (rest : KvStore → Result KvStore) (done : Result (Unit {0}) × KvStore)
      → ((s : KvStore) → IsValid s → ValidResult (rest s))
      → IsValid done.1
      → ValidResult (replay_step rest done)
  unfolding replay_step
  replay_step-IsValid rest (ok u, s) h v = h s v
  replay_step-IsValid rest (err e, s) h v = h s v
  replay_step-IsValid rest (panic, s) h v = tt

  replay-IsValid :
      (now target : ℕ) (entries : List WalEntry) (s : KvStore)
      → IsValid s
      → ValidResult (replay now target entries s)
  unfolding replay
  replay-IsValid now target [] s v = v
  replay-IsValid now target (e ∷ entries) s v = elim (Bool-cases (ltb target e.timestamp)) [
    | inl late ↦ rw (replay, late) v
    | inr early ↦
        rw (replay, early)
          (replay_step-IsValid (replay now target entries) (apply_operation now e.operation s)
            (replay-IsValid now target entries)
            ((apply_operation-IsValid now e.operation).after s v))
  ]

  after_reading :
      (now target : ℕ) (base : KvStore) (log : Result (List WalEntry))
      → IsValid base
      → ValidResult (log >>= λ entries. replay now target entries base)
  after_reading now target base (ok entries) v = replay-IsValid now target entries base v
  after_reading now target base (err e) v = tt
  after_reading now target base panic v = tt

module _ ⦃P : Platform⦄ ⦃C : Cipher⦄ ⦃S : Codec⦄ ⦃A : Archive⦄ where
  -- From a log in the order of its times, and a base that loads, the recovery to a time gives a store
  -- exactly where it is what the entries up to that time leave of the base, from the first entry of
  -- the log on and so also those that the snapshot has seen, when they run one after the other without
  -- a panic: an entry that fails does not end the recovery, and what it wrote before its error stays.
  -- No later entry is run.
  pub recover_to_timestamp_iff :
      (now target : ℕ) (dir : Directory) (wal : Bytes) (entries : List WalEntry) (base s : KvStore)
      → load_base dir (find_base target (list_snapshots dir)) ≡ ok base
      → read_all wal ≡ ok entries
      → Ordered entries
      → (recover_to_timestamp now target dir wal ≡ ok s)
        ↔ Recovered now (upto target entries) base s
  unfolding recover_to_timestamp
  recover_to_timestamp_iff now target dir wal entries base s loads reads o =
      rw (loads, reads) (replay-Recovered now target entries base s o)

  -- From a base that loads and is well formed, a recovery that succeeds gives a well-formed store.
  pub recover_to_timestamp-ValidResult :
      (now target : ℕ) (dir : Directory) (wal : Bytes) (base : KvStore)
      → load_base dir (find_base target (list_snapshots dir)) ≡ ok base
      → IsValid base
      → ValidResult (recover_to_timestamp now target dir wal)
  unfolding recover_to_timestamp
  recover_to_timestamp-ValidResult now target dir wal base loads v =
      rw loads (after_reading now target base (read_all wal) v)

-- The files that a clean-up keeps.
pub kept : ℕ → Directory → Directory
kept cutoff [] = []
kept cutoff ((name, bytes) ∷ files) =
    let rest = kept cutoff files in
    if is_old cutoff (snapshot_time name) then rest else (name, bytes) ∷ rest

remove_old_lem :
    (cutoff : ℕ) (dir : Directory)
    → ((remove_old cutoff dir).1 ≡ kept cutoff dir)
      × ((remove_old cutoff dir).0 + length (kept cutoff dir) ≡ length dir)
unfolding remove_old kept
remove_old_lem cutoff [] = (refl, omega arith)
remove_old_lem cutoff ((name, bytes) ∷ files) =
    let rest = remove_old_lem cutoff files in
    elim (Bool-cases (is_old cutoff (snapshot_time name))) [
      | inl old ↦ rw old (rest.0, omega (arith, rest.1))
      | inr recent ↦ rw recent (ap (λ l. (name, bytes) ∷ l) (rest.0), omega (arith, rest.1))
    ]

-- The clean-up removes exactly the snapshots whose timestamp is below the time now less the age,
-- keeps every other file in its place, and answers the number removed.
pub cleanup_old_snapshots_lem :
    (now max_age_secs : ℕ) (dir : Directory)
    → ((cleanup_old_snapshots now max_age_secs dir).1 ≡ kept (now - max_age_secs) dir)
      × ((cleanup_old_snapshots now max_age_secs dir).0 + length (kept (now - max_age_secs) dir)
          ≡ length dir)
unfolding cleanup_old_snapshots
cleanup_old_snapshots_lem now max_age_secs dir = remove_old_lem (now - max_age_secs) dir

-- Every snapshot has a timestamp that is not below the number: so it is with the time in seconds,
-- since `create_snapshot` writes nanoseconds.
abbrev pub NotBelow : ℕ → Directory → Type 0
NotBelow now [] = Unit
NotBelow now ((name, bytes) ∷ files) =
    (is_old now (snapshot_time name) ≡ false) × NotBelow now files

is_old_mono : (a b : ℕ) (time : Option ℕ) → a ≤ b → is_old b time ≡ false → is_old a time ≡ false
unfolding is_old
is_old_mono a b none h k = refl
is_old_mono a b (some t) h k = ground arith

remove_old_nothing :
    (now cutoff : ℕ) (dir : Directory)
    → cutoff ≤ now
    → NotBelow now dir
    → remove_old cutoff dir ≡ (0, dir)
unfolding remove_old
remove_old_nothing now cutoff [] h n = refl
remove_old_nothing now cutoff ((name, bytes) ∷ files) h n =
    rw
      (is_old_mono cutoff now (snapshot_time name) h n.0, remove_old_nothing now cutoff files h n.1)
      refl

-- Where the timestamps of the snapshots are in a finer unit than the time now, no age is great or
-- small enough for the clean-up to remove one.
pub cleanup_removes_nothing :
    (now max_age_secs : ℕ) (dir : Directory)
    → NotBelow now dir
    → cleanup_old_snapshots now max_age_secs dir ≡ (0, dir)
unfolding cleanup_old_snapshots
cleanup_removes_nothing now max_age_secs dir n =
    remove_old_nothing now (now - max_age_secs) dir (omega arith) n
