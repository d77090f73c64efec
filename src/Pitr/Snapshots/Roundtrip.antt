-- ===== src/Pitr/Snapshots/Roundtrip.antt =====
-- A snapshot that was written loads, and the earlier ones are untouched.
use daikon.Prelude.{
  ℕ, ◌%◌, u64_mod, String, true, false, ◌≡◌, refl, ◌∙◌, Option, some, List, [], ◌∷◌, ◌++◌, length,
  arith, inr, eq_refl,
}
use daikon.Platform.{Platform}
use daikon.Error.{ok}
use daikon.Store.{KvStore, new}
use daikon.Store.Scan.{len_store}
use daikon.Crypto.{Bytes, Cipher, encrypt, decrypt}
use daikon.HashMap
use daikon.Wal.{WalEntry, Codec, read_all}
use daikon.Pitr.{
  Archive, Directory, SnapshotMetadata, SnapshotCompression, uncompressed, gzip, zstd, read_file,
  decompress, load_base, of_outcome, from_snapshot_filename,
}
use daikon.Pitr.Snapshots.{
  exists, compress, write_snapshot, snapshot_bytes, snapshot_filename, encrypted_suffix,
  create_snapshot,
}
use daikon.Pitr.Snapshots.Names.{snapshot_filename_free}
use daikon.Pitr.Snapshots.Extensions.{snapshot_filename-EndsIn, from_snapshot_filename_lem}

read_file-append_new :
    (name : String) (bytes : Bytes) (dir : Directory)
    → exists name dir ≡ false
    → read_file name (dir ++ (name, bytes) ∷ []) ≡ ok bytes
unfolding read_file HashMap.get
read_file-append_new name bytes [] h = rw (eq_refl name) refl
read_file-append_new name bytes ((other, found) ∷ files) h =
    ground (arith, h, read_file-append_new name bytes files)

read_file-append_old :
    (name new_name : String) (bytes : Bytes) (dir : Directory)
    → exists name dir ≡ true
    → read_file name (dir ++ (new_name, bytes) ∷ []) ≡ read_file name dir
unfolding read_file HashMap.get
read_file-append_old name new_name bytes [] h = cc
read_file-append_old name new_name bytes ((other, found) ∷ files) h =
    ground (arith, h, read_file-append_old name new_name bytes files)

module _ ⦃P : Platform⦄ where
  -- What the JSON of a store keeps of it: `serde` skips the other fields.
  unfoldable pub serialized : KvStore → KvStore
  serialized s = record new { store = s.store; stats = s.stats }

module _ ⦃P : Platform⦄ ⦃A : Archive⦄ where
  -- The compressors read what they wrote, and `serde_json` the JSON of this store: it writes some
  -- numbers, such as NaN, so that they do not read back.
  pub record ReadsBack (s : KvStore) : Type 0 where
    pub gunzips :
        (bytes packed : Bytes) → A.gzip_bytes bytes ≡ ok packed → A.gunzip packed ≡ ok bytes
    pub unzstds :
        (bytes packed : Bytes) → A.zstd_bytes bytes ≡ ok packed → A.unzstd packed ≡ ok bytes
    pub parses : (json : Bytes) → A.store_json s ≡ ok json → A.parse_store json ≡ ok (serialized s)

  decompress-compress :
      (s : KvStore) (reads : ReadsBack s) (compression : SnapshotCompression) (name : String)
      (json packed : Bytes)
      → A.store_json s ≡ ok json
      → compress compression json ≡ ok packed
      → decompress name (some compression) packed ≡ ok (serialized s)
  unfolding compress decompress
  decompress-compress s reads uncompressed name json packed j c = reads.parses packed (j ∙ c)
  decompress-compress s reads gzip name json packed j c =
      rw (reads.gunzips json packed c, reads.parses json j) refl
  decompress-compress s reads zstd name json packed j c =
      rw (reads.unzstds json packed c, reads.parses json j) refl

module _ ⦃P : Platform⦄ ⦃C : Cipher⦄ ⦃S : Codec⦄ ⦃A : Archive⦄ where
  -- A snapshot whose bytes are made, and sealed so that they open, is answered with its metadata, and
  -- the file that these name loads the entries and the statistics of the store, in each of the three
  -- compressions, encrypted or not, whatever files there are. The metadata count the entries of the
  -- store and those of the log, which is readable. Every earlier file reads as before. What the
  -- compressors wrote reads back, and so does the JSON of this store.
  pub create_snapshot-load_base :
      (store : KvStore) (reads : ReadsBack store) (compression : SnapshotCompression) (nanos : ℕ)
      (random : Option Bytes) (wal : Bytes) (dir : Directory) (json packed sealed : Bytes)
      (entries : List WalEntry)
      → A.store_json store ≡ ok json
      → compress compression json ≡ ok packed
      → encrypt random packed ≡ inr sealed
      → decrypt sealed ≡ inr packed
      → read_all wal ≡ ok entries
      → let (r, dir') = create_snapshot compression nanos random wal store dir in
        (snapshot : SnapshotMetadata) × (r ≡ ok snapshot)
        × (snapshot.num_keys ≡ len_store store)
        × (snapshot.num_operations ≡ length entries)
        × (load_base dir' (some snapshot) ≡ ok (serialized store))
        × ((name : String) → exists name dir ≡ true → read_file name dir' ≡ read_file name dir)
  unfolding create_snapshot write_snapshot snapshot_bytes of_outcome load_base
  create_snapshot-load_base store reads compression nanos random wal dir json packed sealed entries
        j c e d w =
      let timestamp = nanos % u64_mod in
      let name = snapshot_filename timestamp (encrypted_suffix compression) dir in
      let free = snapshot_filename_free timestamp (encrypted_suffix compression) dir in
      let kind : from_snapshot_filename name ≡ some compression =
        from_snapshot_filename_lem compression name
          (snapshot_filename-EndsIn timestamp (encrypted_suffix compression) dir) in
      rw (j, c, e, w)
        (
          _,
          refl,
          refl,
          refl,
          rw
              (
                read_file-append_new name sealed dir free,
                d,
                kind,
                decompress-compress store reads compression name json packed j c,
              )
              refl,
          λ other there. read_file-append_old other name sealed dir there,
        )
