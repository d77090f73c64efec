-- ===== src/Tests/Snapshots.antt =====
-- An archive of stores with one number, and a snapshot in a directory that has its name.
use daikon.Prelude.{
  ℕ, String, ◌≡◌, ◌≢◌, refl, ap, sym, [], ◌∷◌, ◌++◌, some, none, arith, true, false, inr,
  if◌then◌else◌, ◌==◌, format, decimal, starts_with as begins_with,
}
use daikon.Error.{Result, ok, err, operation_failed, ◌>>=◌}
use daikon.HashMap.{HashMap, insert, remove, get as get_bytes}
use daikon.Prelude.Int.{pos}
use daikon.Value.{Value, int, ValueWithTtl}
use daikon.Store.{KvStore, StoreStats, new, get}
use daikon.Store.Scan.{len_store}
use daikon.Store.Validity.{IsValid}
use daikon.Files.{
  save_to_file, written, packed_store, compression_for_path, extension, after_dot, load_from_file,
}
use daikon.Files.Versions.{
  backup_prefix, tmp_path, backups, sort_by_age, remove_oldest, back_up, renamed, save_with_version,
}
use daikon.Files.Versions.Saved.{save_with_version-load_from_file}
use daikon.Files.Roundtrip.{reloaded, save_to_file-load_from_file}
use daikon.Crypto.{
  Bytes, encrypt, encrypt_with, seal, decrypt, decrypt_with, open_payload, key_from_env, prefix,
  starts_with,
}
use daikon.Pitr.{is_name, Archive, Directory, SnapshotMetadata, gzip, load_base, read_file}
use daikon.Pitr.Snapshots.{exists, compress, create_snapshot}
use daikon.Pitr.Snapshots.Roundtrip.{ReadsBack, serialized, create_snapshot-load_base}
use daikon.Tests.Samples.{whole_numbers, no_cipher, byte_codec, nonce}
use daikon.Tests.Logs.{file, two_entries, reads_two}

abbrev stats_bytes : StoreStats → Bytes
stats_bytes stats =
    stats.total_keys ∷ stats.expired_keys ∷ stats.total_reads ∷ stats.total_writes
    ∷ stats.total_deletes ∷ stats.hits ∷ stats.misses ∷ stats.memory_bytes ∷ stats.evictions ∷ []

abbrev write_number : Value → StoreStats → Result Bytes
write_number (int (pos n)) stats = ok (n ∷ stats_bytes stats)
write_number _ stats = err (operation_failed "not a number")

abbrev write_entries : HashMap ValueWithTtl → StoreStats → Result Bytes
write_entries ((key, entry) ∷ []) stats = write_number entry.value stats
write_entries _ stats = err (operation_failed "not one entry")

-- A store with a number under n.
abbrev numbered : ℕ → KvStore
numbered n = record new {
  store = ("n", record { value = int (pos n); expires_at = none }) ∷ [];
  lru_order = "n" ∷ [];
}

abbrev read_numbered : Bytes → Result KvStore
read_numbered
      (n ∷ keys ∷ expired ∷ reads ∷ writes ∷ deletes ∷ hits ∷ misses ∷ memory ∷ evictions ∷ []) =
    ok (record new {
      store = (numbered n).store;
      stats = record {
        total_keys = keys;
        expired_keys = expired;
        total_reads = reads;
        total_writes = writes;
        total_deletes = deletes;
        hits = hits;
        misses = misses;
        memory_bytes = memory;
        evictions = evictions;
      };
    })
read_numbered _ = err (operation_failed "not ten numbers")

abbrev six : KvStore
six = numbered 6

six-IsValid : IsValid six
unfolding get_bytes
six-IsValid = record { distinct = (refl, tt); tracked = λ k h. ground (arith, h) }

-- What is packed has a mark in front.
abbrev unpack : Bytes → Result Bytes
unpack (mark ∷ bytes) = ok bytes
unpack [] = err (operation_failed "not packed")

instance abbrev one_number : Archive
one_number = record {
  gunzip = unpack;
  unzstd = unpack;
  parse_store = read_numbered;
  gzip_bytes = λ bytes. ok (1 ∷ bytes);
  zstd_bytes = λ bytes. ok (1 ∷ bytes);
  store_json = λ s. write_entries s.store s.stats;
}

unpacks : (bytes packed : Bytes) → ok (1 ∷ bytes) ≡ ok packed → unpack packed ≡ ok bytes
unpacks bytes packed h = ap (λ r. r >>= unpack) (sym h)

reads_back : ReadsBack six
unfolding serialized
reads_back = record {
  gunzips = unpacks;
  unzstds = unpacks;
  parses = λ json h. ap (λ r. r >>= read_numbered) (sym h);
}

abbrev dir : Directory
dir = ("snapshot_7.json.gz.enc", []) ∷ ("snapshot_7_1.json.gz.enc", []) ∷ []

abbrev packed_six : Bytes
packed_six = 1 ∷ 6 ∷ 0 ∷ 0 ∷ 0 ∷ 0 ∷ 0 ∷ 0 ∷ 0 ∷ 0 ∷ 0 ∷ []

packs : compress gzip (6 ∷ 0 ∷ 0 ∷ 0 ∷ 0 ∷ 0 ∷ 0 ∷ 0 ∷ 0 ∷ 0 ∷ []) ≡ ok packed_six
unfolding compress
packs = refl

abbrev sealed_six : Bytes
sealed_six = prefix ++ (nonce ++ packed_six)

seals_six : encrypt (some nonce) packed_six ≡ inr sealed_six
unfolding encrypt encrypt_with seal key_from_env
seals_six = refl

opens_six : decrypt sealed_six ≡ inr packed_six
unfolding decrypt decrypt_with open_payload key_from_env starts_with
opens_six = refl

create_snapshot-load_base_example :
    let (r, dir') = create_snapshot gzip 7 (some nonce) file six dir in
    (snapshot : SnapshotMetadata) × (r ≡ ok snapshot)
    × (snapshot.num_keys ≡ 1)
    × (snapshot.num_operations ≡ 2)
    × (load_base dir' (some snapshot) ≡ ok (serialized six))
    × ((name : String) → exists name dir ≡ true → read_file name dir' ≡ read_file name dir)
unfolding len_store
create_snapshot-load_base_example =
    create_snapshot-load_base six reads_back gzip 7 (some nonce) file dir _ packed_six sealed_six
      two_entries refl packs seals_six opens_six reads_two

-- A packed file beside another.
abbrev saved_files : Directory
saved_files = ("store.json.gz", packed_six) ∷ ("notes.txt", []) ∷ []

saves_six :
    save_to_file "store.json.gz" six (("store.json.gz", []) ∷ ("notes.txt", []) ∷ [])
    ≡ (ok tt, saved_files)
unfolding save_to_file written packed_store compression_for_path extension after_dot insert is_name
saves_six = refl

save_to_file-load_from_file_example :
    (load_from_file "store.json.gz" saved_files ≡ ok (reloaded six))
    × IsValid (reloaded six)
    × ((now : ℕ) (key : String) → get now key (reloaded six) ≡ get now key six)
    × ((other : String)
        → "store.json.gz" ≢ other
        → read_file other saved_files
          ≡ read_file other (("store.json.gz", []) ∷ ("notes.txt", []) ∷ []))
save_to_file-load_from_file_example =
    save_to_file-load_from_file six reads_back "store.json.gz" _ saved_files six-IsValid saves_six

-- A save in second 9, where the file is there with two backups, and one backup may stay.
abbrev versions : Directory
versions = ("s.gz", 1 ∷ []) ∷ ("s.gz.bak.5", []) ∷ ("notes.txt", []) ∷ ("s.gz.bak.2", []) ∷ []

abbrev ages : String → ℕ
ages name = if name == "s.gz.bak.9" then 9 else if name == "s.gz.bak.5" then 5 else 2

abbrev new_version : Directory
new_version = ("s.gz", packed_six) ∷ ("notes.txt", []) ∷ ("s.gz.bak.9", 1 ∷ []) ∷ []

versions_saved : save_with_version ages 9 "s.gz" 1 six versions ≡ (ok tt, new_version)
unfolding save_with_version renamed back_up remove_oldest sort_by_age backups packed_store
    compression_for_path extension after_dot insert remove get_bytes is_name format decimal
versions_saved = refl

save_with_version-load_from_file_example :
    (load_from_file "s.gz" new_version ≡ ok (reloaded six))
    × IsValid (reloaded six)
    × ((other : String)
        → "s.gz" ≢ other
        → tmp_path "s.gz" ≢ other
        → begins_with other (backup_prefix "s.gz") ≡ false
        → read_file other new_version ≡ read_file other versions)
save_with_version-load_from_file_example =
    save_with_version-load_from_file six reads_back ages 9 1 "s.gz" versions new_version six-IsValid
      versions_saved
