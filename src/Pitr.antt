-- ===== src/Pitr.antt =====
-- pitr.rs: recovery to a point in time. The directory of the snapshots is a list of file names and
-- contents, in the order in which it is read. A name is taken apart as its code points.
pub mod Base
pub mod Snapshots
pub mod Recovery
use daikon.Prelude.{
  ℕ, ◌+◌, ◌-◌, ◌*◌, String, Bool, true, false, ◌&&◌, ◌||◌, Option, none, some, is_some, List, [],
  ◌∷◌, codes, eqb, leb, ltb, is_empty, u64_mod, format, ◌==◌, if◌then◌else◌, inl, inr,
}
use mathlib.Core.Option
use daikon.Platform.{Platform}
use daikon.Error.{Result, ok, err, panic, io_error, operation_failed, ◌>>=◌}
use daikon.Store.{KvStore, new}
use daikon.Crypto.{Bytes, Cipher, Outcome, decrypt}
use daikon.Wal.{WalEntry, Codec, read_all}
use daikon.Replay.{apply_operation}

abbrev pub Name : Type 0
Name = List ℕ

abbrev pub Directory : Type 0
Directory = List (String × Bytes)

-- `flate2`, `zstd` and the JSON of a store.
pub record Archive ⦃P : Platform⦄ : Type 1 where
  pub gunzip : Bytes → Result Bytes
  pub unzstd : Bytes → Result Bytes
  pub parse_store : Bytes → Result KvStore
  pub gzip_bytes : Bytes → Result Bytes
  pub zstd_bytes : Bytes → Result Bytes
  pub store_json : KvStore → Result Bytes

pub data SnapshotCompression : Type 0 where
  uncompressed gzip zstd : SnapshotCompression

pub record SnapshotMetadata : Type 0 where
  pub timestamp : ℕ
  pub num_keys : ℕ
  pub num_operations : ℕ
  pub snapshot_file : String

unfoldable pub strip_prefix : Name → Name → Option Name
strip_prefix [] xs = some xs
strip_prefix (p ∷ ps) [] = none
strip_prefix (p ∷ ps) (x ∷ xs) = let rest = strip_prefix ps xs in if eqb p x then rest else none

unfoldable pub is_name : Name → Name → Bool
is_name [] [] = true
is_name [] (y ∷ ys) = false
is_name (x ∷ xs) [] = false
is_name (x ∷ xs) (y ∷ ys) = eqb x y && is_name xs ys

unfoldable pub strip_suffix : Name → Name → Option Name
unfolding is_name
strip_suffix suffix [] = if is_empty suffix then some [] else none
strip_suffix suffix (x ∷ xs) =
    let rest = Option.map (λ l. x ∷ l) (strip_suffix suffix xs) in
    if is_name suffix (x ∷ xs) then some [] else rest

abbrev ends_with : Name → Name → Bool
ends_with suffix name = is_some (strip_suffix suffix name)

-- `filename.strip_suffix(".enc").unwrap_or(filename)`
abbrev plain_name : String → Name
plain_name name = Option.get_or (strip_suffix (codes ".enc") (codes name)) (codes name)

unfoldable pub from_snapshot_filename : String → Option SnapshotCompression
from_snapshot_filename name =
    let plain = plain_name name in
    if ends_with (codes ".json") plain
    then some uncompressed
    else if ends_with (codes ".json.gz") plain
    then some gzip
    else if ends_with (codes ".json.zst") plain
    then some zstd
    else none

abbrev or_else : {A : Type 0} → Option A → Option A → Option A
or_else none b = b
or_else (some a) b = some a

abbrev and_then : {A B : Type 0} → Option A → (A → Option B) → Option B
and_then none f = none
and_then (some a) f = f a

-- `core.split('_').next()`
first_part : Name → Name
first_part [] = []
first_part (c ∷ cs) = let rest = first_part cs in if eqb c b'_' then [] else c ∷ rest

parse_digits : ℕ → Name → Option ℕ
parse_digits acc [] = some acc
parse_digits acc (c ∷ cs) =
    let next = acc * 10 + (c - 48) in
    let rest = parse_digits next cs in
    if (leb 48 c && leb c 57) && ltb next u64_mod then rest else none

-- `parse::<u64>()`: a plus sign may stand first, and there is a digit.
parse_u64 : Name → Option ℕ
unfolding parse_digits
parse_u64 [] = none
parse_u64 (c ∷ cs) =
    if eqb c b'+'
    then (if is_empty cs then none else parse_digits 0 cs)
    else parse_digits 0 (c ∷ cs)

unfoldable pub extract_snapshot_timestamp : String → Option ℕ
unfolding first_part parse_u64
extract_snapshot_timestamp name =
    let plain = plain_name name in
    and_then (strip_prefix (codes "snapshot_") plain) λ core.
      and_then
        (or_else (strip_suffix (codes ".json") core)
          (or_else (strip_suffix (codes ".json.gz") core) (strip_suffix (codes ".json.zst") core)))
        λ stem. parse_u64 (first_part stem)

-- The timestamp of a file that is a snapshot.
unfoldable pub snapshot_time : String → Option ℕ
snapshot_time name =
    if is_some (strip_prefix (codes "snapshot_") (codes name))
    then extract_snapshot_timestamp name
    else none

add_snapshot : String → Option ℕ → List SnapshotMetadata → List SnapshotMetadata
add_snapshot name none snapshots = snapshots
add_snapshot name (some time) snapshots =
    record { timestamp = time; num_keys = 0; num_operations = 0; snapshot_file = name } ∷ snapshots

unfoldable pub scan : Directory → List SnapshotMetadata
unfolding add_snapshot
scan [] = []
scan ((name, bytes) ∷ files) = add_snapshot name (snapshot_time name) (scan files)

-- `sort_by_key(|s| Reverse(s.timestamp))`, which keeps the order of equal times.
unfoldable pub insert_by_time : SnapshotMetadata → List SnapshotMetadata → List SnapshotMetadata
insert_by_time x [] = x ∷ []
insert_by_time x (y ∷ ys) =
    let rest = insert_by_time x ys in if leb y.timestamp x.timestamp then x ∷ y ∷ ys else y ∷ rest

unfoldable pub sort_by_time : List SnapshotMetadata → List SnapshotMetadata
sort_by_time [] = []
sort_by_time (x ∷ xs) = insert_by_time x (sort_by_time xs)

unfoldable pub list_snapshots : Directory → List SnapshotMetadata
list_snapshots dir = sort_by_time (scan dir)

-- `snapshots.iter().find(|s| s.timestamp <= target_timestamp)`
unfoldable pub find_base : ℕ → List SnapshotMetadata → Option SnapshotMetadata
find_base target [] = none
find_base target (s ∷ snapshots) =
    let rest = find_base target snapshots in if leb s.timestamp target then some s else rest

unfoldable pub read_file : String → Directory → Result Bytes
read_file name [] = err (io_error "No such file or directory (os error 2)")
read_file name ((other, bytes) ∷ files) =
    let rest = read_file name files in if other == name then ok bytes else rest

of_outcome : Outcome Bytes → Result Bytes
of_outcome (inl message) = err (operation_failed message)
of_outcome (inr bytes) = ok bytes

module _ ⦃P : Platform⦄ ⦃A : Archive⦄ where
  decompress : String → Option SnapshotCompression → Bytes → Result KvStore
  decompress name none bytes =
      err (operation_failed (format ("Unsupported snapshot extension: " ∷ name ∷ [])))
  decompress name (some uncompressed) bytes = A.parse_store bytes
  decompress name (some gzip) bytes = A.gunzip bytes >>= A.parse_store
  decompress name (some zstd) bytes = A.unzstd bytes >>= A.parse_store

module _ ⦃P : Platform⦄ ⦃C : Cipher⦄ ⦃S : Codec⦄ ⦃A : Archive⦄ where
  unfoldable pub load_base : Directory → Option SnapshotMetadata → Result KvStore
  unfolding of_outcome decompress
  load_base dir none = ok new
  load_base dir (some snapshot) = read_file snapshot.snapshot_file dir >>= λ bytes.
      of_outcome (decrypt bytes)
      >>= decompress snapshot.snapshot_file (from_snapshot_filename snapshot.snapshot_file)

module _ ⦃P : Platform⦄ where
  -- An operation that fails is only logged.
  unfoldable pub replay_step :
      (KvStore → Result KvStore) → Result (Unit {0}) × KvStore → Result KvStore
  replay_step rest (ok done, s) = rest s
  replay_step rest (err e, s) = rest s
  replay_step rest (panic, s) = panic

  unfoldable pub replay : ℕ → ℕ → List WalEntry → KvStore → Result KvStore
  replay now target [] s = ok s
  replay now target (entry ∷ entries) s = elim (ltb target entry.timestamp) [
    | true ↦ ok s
    | false ↦ replay_step (replay now target entries) (apply_operation now entry.operation s)
  ]

module _ ⦃P : Platform⦄ ⦃C : Cipher⦄ ⦃S : Codec⦄ ⦃A : Archive⦄ where
  unfoldable pub recover_to_timestamp : ℕ → ℕ → Directory → Bytes → Result KvStore
  recover_to_timestamp now target dir wal =
      load_base dir (find_base target (list_snapshots dir)) >>= λ s.
      read_all wal >>= λ entries. replay now target entries s

  recover_latest : ℕ → List SnapshotMetadata → Directory → Bytes → Result KvStore
  recover_latest now [] dir wal = err (operation_failed "No snapshots available for recovery")
  recover_latest now (latest ∷ snapshots) dir wal =
      recover_to_timestamp now latest.timestamp dir wal

  unfoldable pub recover_to_latest_snapshot : ℕ → Directory → Bytes → Result KvStore
  unfolding recover_latest
  recover_to_latest_snapshot now dir wal = recover_latest now (list_snapshots dir) dir wal

-- `now` in seconds; a file that is no snapshot stays.
unfoldable pub is_old : ℕ → Option ℕ → Bool
is_old cutoff_time none = false
is_old cutoff_time (some timestamp) = ltb timestamp cutoff_time

unfoldable pub remove_old : ℕ → Directory → ℕ × Directory
remove_old cutoff_time [] = (0, [])
remove_old cutoff_time ((name, bytes) ∷ files) =
    let (deleted, left) = remove_old cutoff_time files in
    if is_old cutoff_time (snapshot_time name)
    then (deleted + 1, left)
    else (deleted, (name, bytes) ∷ left)

unfoldable pub cleanup_old_snapshots : ℕ → ℕ → Directory → ℕ × Directory
cleanup_old_snapshots now max_age_secs dir = remove_old (now - max_age_secs) dir
