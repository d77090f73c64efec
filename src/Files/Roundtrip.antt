-- ===== src/Files/Roundtrip.antt =====
-- A store that was saved loads.
use daikon.Prelude.{
  ℕ, String, true, ◌≡◌, ◌≢◌, refl, sym, ap, [], ◌∷◌, eq_iff, eq_refl, contains, arith,
}
use daikon.Platform.{Platform}
use daikon.Error.{Result, ok, err, panic, ◌>>=◌}
use daikon.HashMap
use daikon.HashMap.{HashMap, Distinct}
use daikon.Store.{KvStore, get}
use daikon.Store.Validity.{IsValid}
use daikon.Crypto.{Bytes}
use daikon.Pitr.{Archive, Directory, read_file}
use daikon.Pitr.Snapshots.Roundtrip.{ReadsBack, serialized}
use daikon.Files.{
  FileCompression, plain, gz, zst, compression_for_path, packed_store, unpacked_store, written,
  save_to_file, load_from_file,
}

read_file-insert :
    (name : String) (bytes : Bytes) (dir : Directory)
    → read_file name (HashMap.insert name bytes dir) ≡ ok bytes
unfolding read_file HashMap.insert
read_file-insert name bytes [] = rw (eq_refl name) refl
read_file-insert name bytes ((other, found) ∷ files) =
    ground (arith, read_file-insert name bytes files)

pub read_file-insert_ne :
    (name other : String) (bytes : Bytes) (dir : Directory)
    → name ≢ other
    → read_file other (HashMap.insert name bytes dir) ≡ read_file other dir
unfolding read_file HashMap.insert
read_file-insert_ne name other bytes [] h = ground (arith, h, eq_iff name other)
read_file-insert_ne name other bytes ((first, found) ∷ files) h = ground (
  arith,
  h,
  eq_iff name other,
  eq_iff first name,
  eq_iff first other,
  read_file-insert_ne name other bytes files h,
)

keys_tracked :
    {V : Type 0}
    → (m : HashMap V) (k : String) → HashMap.contains_key k m ≡ true
    → contains (HashMap.keys m) k ≡ true
unfolding HashMap.get
keys_tracked [] k h = cc
keys_tracked ((j, v) ∷ m) k h = ground (arith, h, keys_tracked m k)

module _ ⦃P : Platform⦄ where
  -- A store as its file gives it back.
  unfoldable pub reloaded : KvStore → KvStore
  unfolding serialized
  reloaded s = record (serialized s) { lru_order = HashMap.keys s.store }

  pub reloaded-IsValid : (s : KvStore) → Distinct s.store → IsValid (reloaded s)
  unfolding reloaded serialized
  reloaded-IsValid s d = record { distinct = d; tracked = λ k h. keys_tracked s.store k h }

bound :
    (r : Result Bytes) (f : Bytes → Result Bytes) (out : Bytes)
    → (r >>= f) ≡ ok out
    → (bytes : Bytes) × (r ≡ ok bytes) × (f bytes ≡ ok out)
bound (ok bytes) f out h = (bytes, refl, h)
bound (err e) f out h = cc
bound panic f out h = cc

module _ ⦃P : Platform⦄ ⦃A : Archive⦄ where
  reads_packed :
      (s : KvStore) (reads : ReadsBack s) (compression : FileCompression) (bytes : Bytes)
      → packed_store compression s ≡ ok bytes
      → unpacked_store compression bytes ≡ ok (serialized s)
  unfolding packed_store unpacked_store
  reads_packed s reads plain bytes h = reads.parses bytes h
  reads_packed s reads gz bytes h =
      let (json, j, p) = bound (A.store_json s) A.gzip_bytes bytes h in
      rw (reads.gunzips json bytes p, reads.parses json j) refl
  reads_packed s reads zst bytes h =
      let (json, j, p) = bound (A.store_json s) A.zstd_bytes bytes h in
      rw (reads.unzstds json bytes p, reads.parses json j) refl

  abbrev pub Saved : String → KvStore → Directory → Directory → Type 0
  Saved path s dir dir' =
      (load_from_file path dir' ≡ ok (reloaded s))
      × ((other : String) → path ≢ other → read_file other dir' ≡ read_file other dir)

  pub written_lem :
      (s : KvStore) (reads : ReadsBack s) (path : String) (dir dir' : Directory)
      (packed : Result Bytes)
      → packed_store (compression_for_path path) s ≡ packed
      → written path packed dir ≡ (ok tt, dir')
      → Saved path s dir dir'
  unfolding written load_from_file reloaded serialized
  written_lem s reads path dir dir' (ok bytes) p h =
      let e : HashMap.insert path bytes dir ≡ dir' = ap (λ r. r.1) h in
      (
        rw
            (
              sym e,
              read_file-insert path bytes dir,
              reads_packed s reads (compression_for_path path) bytes p,
            )
            refl,
        λ other differs. rw (sym e) (read_file-insert_ne path other bytes dir differs),
      )
  written_lem s reads path dir dir' (err e) p h = let refused = ap (λ r. r.0) h in cc
  written_lem s reads path dir dir' panic p h = let refused = ap (λ r. r.0) h in cc

  -- A well-formed store that was saved, in whichever compression the name of the file asks for, is
  -- loaded with the same entries and statistics, so that every key reads as before at any time, and
  -- is well formed again, with an order of eviction made anew. No other file changes. What the
  -- compressors wrote reads back, and so does the JSON of this store.
  pub save_to_file-load_from_file :
      (s : KvStore) (reads : ReadsBack s) (path : String) (dir dir' : Directory)
      → IsValid s
      → save_to_file path s dir ≡ (ok tt, dir')
      → (load_from_file path dir' ≡ ok (reloaded s))
        × IsValid (reloaded s)
        × ((now : ℕ) (key : String) → get now key (reloaded s) ≡ get now key s)
        × ((other : String) → path ≢ other → read_file other dir' ≡ read_file other dir)
  unfolding save_to_file get reloaded serialized
  save_to_file-load_from_file s reads path dir dir' v h =
      let (loads, others) = written_lem s reads path dir dir' _ refl h in
      (loads, reloaded-IsValid s v.distinct, λ now key. refl, others)
