-- ===== src/Files.antt =====
-- kv_store.rs: the file of a store, `save_to_file` and `load_from_file`. A path is the name of its
-- file. A write that fails is taken to leave the created file empty.
pub mod Roundtrip
pub mod Versions
use daikon.Prelude.{
  ℕ, String, Bool, ◌==◌, eqb, Option, none, some, List, [], ◌∷◌, codes, if◌then◌else◌,
}
use daikon.Platform.{Platform}
use daikon.Error.{Result, ok, err, panic, ◌>>=◌}
use daikon.HashMap
use daikon.Store.{KvStore}
use daikon.Crypto.{Bytes}
use daikon.Pitr.{Archive, Directory, Name, is_name, read_file}

pub data FileCompression : Type 0 where
  plain gz zst : FileCompression

or_here : ℕ → Name → Option Name → Option Name
or_here c cs (some later) = some later
or_here c cs none = if eqb c b'.' then some cs else none

-- What follows the last dot.
unfoldable pub after_dot : Name → Option Name
unfolding or_here
after_dot [] = none
after_dot (c ∷ cs) = or_here c cs (after_dot cs)

-- `Path::extension`: a dot at the start of the name begins no extension.
unfoldable pub extension : Name → Option Name
extension [] = none
extension (c ∷ cs) = after_dot cs

compression_of : Option Name → FileCompression
compression_of none = plain
compression_of (some e) =
    if is_name (codes "gz") e then gz else if is_name (codes "zst") e then zst else plain

unfoldable pub compression_for_path : String → FileCompression
unfolding compression_of
compression_for_path path = compression_of (extension (codes path))

module _ ⦃P : Platform⦄ ⦃A : Archive⦄ where
  unfoldable pub packed_store : FileCompression → KvStore → Result Bytes
  packed_store plain s = A.store_json s
  packed_store gz s = A.store_json s >>= A.gzip_bytes
  packed_store zst s = A.store_json s >>= A.zstd_bytes

  unfoldable pub unpacked_store : FileCompression → Bytes → Result KvStore
  unpacked_store plain bytes = A.parse_store bytes
  unpacked_store gz bytes = A.gunzip bytes >>= A.parse_store
  unpacked_store zst bytes = A.unzstd bytes >>= A.parse_store

  unfoldable pub written : String → Result Bytes → Directory → Result (Unit {0}) × Directory
  written path (ok bytes) dir = (ok tt, HashMap.insert path bytes dir)
  written path (err e) dir = (err e, HashMap.insert path [] dir)
  written path panic dir = (panic, HashMap.insert path [] dir)

  unfoldable pub save_to_file : String → KvStore → Directory → Result (Unit {0}) × Directory
  save_to_file path s dir = written path (packed_store (compression_for_path path) s) dir

  -- The order of eviction is not in the file: it is that of the map.
  unfoldable pub load_from_file : String → Directory → Result KvStore
  load_from_file path dir = read_file path dir >>= λ bytes.
      unpacked_store (compression_for_path path) bytes >>= λ s.
      ok (record s { lru_order = HashMap.keys s.store })
