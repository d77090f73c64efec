-- ===== src/Pitr/Snapshots.antt =====
-- pitr.rs: the creation of a snapshot, and the statistics on what can be recovered.
pub mod Names
pub mod Extensions
pub mod Roundtrip
use daikon.Prelude.{
  ℕ, ◌%◌, ◌||◌, ◌==◌, u64_mod, zero, suc, ◌+◌, String, Bool, Option, none, some, List, [], ◌∷◌,
  ◌++◌, length, is_some, format, decimal, if◌then◌else◌,
}
use daikon.Platform.{Platform}
use daikon.Error.{Result, ok, err, panic, ◌>>=◌}
use daikon.Store.{KvStore}
use daikon.Store.Scan.{len_store}
use daikon.Crypto.{Bytes, Cipher, enabled, encrypt}
use daikon.Wal
use daikon.Wal.{WalEntry, Codec, read_all}
use daikon.HashMap
use daikon.Pitr.{
  Archive, Directory, SnapshotMetadata, SnapshotCompression, uncompressed, gzip, zstd,
  list_snapshots, of_outcome,
}

-- `from_env_var`: the compression by the text of the variable in lower case.
unfoldable pub from_env_var : String → SnapshotCompression
from_env_var value =
    if value == "gzip" || value == "gz"
    then gzip
    else if value == "zstd" || value == "zst"
    then zstd
    else uncompressed

unfoldable pub file_suffix : SnapshotCompression → String
file_suffix uncompressed = ".json"
file_suffix gzip = ".json.gz"
file_suffix zstd = ".json.zst"

module _ ⦃C : Cipher⦄ where
  unfoldable pub encrypted_suffix : SnapshotCompression → String
  encrypted_suffix compression =
      let suffix = file_suffix compression in
      if enabled then format (suffix ∷ ".enc" ∷ []) else suffix

abbrev pub exists : String → Directory → Bool
exists name dir = is_some (HashMap.get name dir)

-- `while snapshot_path.exists()`, from the suffix `k`: each round takes a name that is there, so one
-- more round than there are files is enough.
unfoldable pub free_name : (ℕ → String) → Directory → ℕ → ℕ → String
free_name name dir zero k = name k
free_name name dir (suc rounds) k =
    let rest = free_name name dir rounds (k + 1) in if exists (name k) dir then rest else name k

abbrev pub suffixed : ℕ → String → ℕ → String
suffixed timestamp extension k =
    format ("snapshot_" ∷ decimal timestamp ∷ "_" ∷ decimal k ∷ extension ∷ [])

unfoldable pub snapshot_filename : ℕ → String → Directory → String
snapshot_filename timestamp extension dir =
    let first = format ("snapshot_" ∷ decimal timestamp ∷ extension ∷ []) in
    let other = free_name (suffixed timestamp extension) dir (length dir + 1) 1 in
    if exists first dir then other else first

module _ ⦃P : Platform⦄ ⦃A : Archive⦄ where
  unfoldable pub compress : SnapshotCompression → Bytes → Result Bytes
  compress uncompressed bytes = ok bytes
  compress gzip bytes = A.gzip_bytes bytes
  compress zstd bytes = A.zstd_bytes bytes

module _ ⦃C : Cipher⦄ ⦃S : Codec⦄ where
  -- `fs::write`, and what follows it: the file stays where the log cannot be read.
  unfoldable pub write_snapshot :
      ℕ → String → ℕ → Bytes → Result Bytes → Directory → Result SnapshotMetadata × Directory
  write_snapshot timestamp filename num_keys wal (ok snapshot_bytes) dir = (
    read_all wal >>= λ entries. ok (record {
      timestamp = timestamp;
      num_keys = num_keys;
      num_operations = length entries;
      snapshot_file = filename;
    }),
    dir ++ (filename, snapshot_bytes) ∷ [],
  )
  write_snapshot timestamp filename num_keys wal (err e) dir = (err e, dir)
  write_snapshot timestamp filename num_keys wal panic dir = (panic, dir)

module _ ⦃P : Platform⦄ ⦃C : Cipher⦄ ⦃S : Codec⦄ ⦃A : Archive⦄ where
  -- The bytes of the file.
  unfoldable pub snapshot_bytes : SnapshotCompression → Option Bytes → KvStore → Result Bytes
  unfolding of_outcome
  snapshot_bytes compression random store = A.store_json store >>= λ json.
      compress compression json >>= λ compressed. of_outcome (encrypt random compressed)

  -- `nanos`: the time since the epoch.
  unfoldable pub create_snapshot :
      SnapshotCompression
      → ℕ
      → Option Bytes
      → Bytes
      → KvStore
      → Directory
      → Result SnapshotMetadata × Directory
  create_snapshot compression nanos random wal store dir =
      let timestamp = nanos % u64_mod in
      let filename = snapshot_filename timestamp (encrypted_suffix compression) dir in
      write_snapshot timestamp filename (len_store store) wal
        (snapshot_bytes compression random store) dir

pub record RecoveryStats : Type 0 where
  pub total_snapshots : ℕ
  pub total_wal_entries : ℕ
  pub earliest_recovery_point : Option ℕ
  pub latest_recovery_point : Option ℕ
  pub wal_file_size : ℕ

abbrev first : List WalEntry → Option ℕ
first [] = none
first (entry ∷ entries) = some entry.timestamp

abbrev last : List WalEntry → Option ℕ
last [] = none
last (entry ∷ []) = some entry.timestamp
last (entry ∷ next ∷ entries) = last (next ∷ entries)

module _ ⦃C : Cipher⦄ ⦃S : Codec⦄ where
  unfoldable pub get_recovery_stats : Directory → Bytes → Result RecoveryStats
  get_recovery_stats dir wal = read_all wal >>= λ wal_entries. ok (record {
    total_snapshots = length (list_snapshots dir);
    total_wal_entries = length wal_entries;
    earliest_recovery_point = first wal_entries;
    latest_recovery_point = last wal_entries;
    wal_file_size = Wal.size wal;
  })
