-- ===== src/Tests/Recoveries.antt =====
-- A directory with two snapshots and a file that is none, and a recovery between them.
use daikon.Store.Strings.{delete}
use daikon.Prelude.{◌↔◌, ◌≡◌, refl, some, [], ◌∷◌, arith}
use daikon.Error.{ok}
use daikon.Crypto.{decrypt, starts_with}
use daikon.Pitr.{
  Directory, load_base, find_base, list_snapshots, scan, recover_to_timestamp, snapshot_time,
  extract_snapshot_timestamp, from_snapshot_filename, strip_prefix, strip_suffix, insert_by_time,
  sort_by_time, read_file,
}
use daikon.Pitr.Base.{IsBest, Listed, find_base-list_snapshots}
use daikon.Pitr.Recovery.{upto, Recovered, recover_to_timestamp_iff}
use daikon.Tests.Samples.{whole_numbers, no_cipher, byte_codec, no_compression, small}
use daikon.Tests.Logs.{file, two_entries, reads_two}

abbrev dir : Directory
dir =
    ("snapshot_2.json", 1 ∷ []) ∷ ("notes.txt", 2 ∷ []) ∷ ("snapshot_9_1.json.gz.enc", 3 ∷ []) ∷ []

finds_first :
    find_base 3 (list_snapshots dir)
    ≡ some (record {
      timestamp = 2;
      num_keys = 0;
      num_operations = 0;
      snapshot_file = "snapshot_2.json";
    })
unfolding find_base list_snapshots scan snapshot_time extract_snapshot_timestamp strip_prefix
    strip_suffix insert_by_time sort_by_time
finds_first = refl

loads_small : load_base dir (find_base 3 (list_snapshots dir)) ≡ ok small
unfolding load_base read_file from_snapshot_filename strip_suffix decrypt starts_with
loads_small = rw finds_first refl

recover_to_timestamp_iff_example :
    (recover_to_timestamp 20 3 dir file ≡ ok (delete 20 "x" small).1)
    ↔ Recovered 20 (upto 3 two_entries) small (delete 20 "x" small).1
recover_to_timestamp_iff_example =
    recover_to_timestamp_iff 20 3 dir file two_entries small (delete 20 "x" small).1 loads_small
      reads_two (omega arith, tt)

find_base-list_snapshots_example :
    Listed (scan dir) (find_base 3 (list_snapshots dir))
    × IsBest 3 (scan dir) (find_base 3 (list_snapshots dir))
find_base-list_snapshots_example = find_base-list_snapshots 3 dir
