-- ===== src/Files/Versions.antt =====
-- kv_store.rs: `save_with_version`, which copies the file that is there to a backup, removes the
-- oldest backups, and writes the store to a second file that it renames.
pub mod Saved
use daikon.Prelude.{
  ℕ, String, Bool, true, false, ◌≡◌, ◌≢◌, refl, sym, ap, ◌∙◌, Option, some, none, List, [], ◌∷◌,
  length, starts_with, format, decimal, ltb, leb, ◌==◌, eq_iff, if◌then◌else◌, arith, Bool-cases,
  inl, inr, Option-cases,
}
use daikon.Platform.{Platform}
use daikon.Error.{Result, ok, err, panic}
use daikon.HashMap
use daikon.Store.{KvStore}
use daikon.Store.Validity.{IsValid}
use daikon.Crypto.{Bytes}
use daikon.Pitr.{Archive, Directory, read_file}
use daikon.Pitr.Snapshots.Roundtrip.{ReadsBack}
use daikon.Files.{compression_for_path, packed_store, load_from_file}
use daikon.Files.Roundtrip.{reloaded}

abbrev pub backup_prefix : String → String
backup_prefix path = format (path ∷ ".bak." ∷ [])

abbrev backup_name : String → ℕ → String
backup_name path epoch = format (path ∷ ".bak." ∷ decimal epoch ∷ [])

-- `with_extension`: the extension that there is, if any, stays before the new one.
abbrev pub tmp_path : String → String
tmp_path path = format (path ∷ ".tmp" ∷ [])

unfoldable pub backups : String → Directory → List String
backups prefix [] = []
backups prefix ((name, bytes) ∷ files) =
    let rest = backups prefix files in if starts_with name prefix then name ∷ rest else rest

-- `sort_by_key` by the time of the last change, the oldest first.
insert_by_age : (String → ℕ) → String → List String → List String
insert_by_age modified x [] = x ∷ []
insert_by_age modified x (y ∷ ys) =
    let rest = insert_by_age modified x ys in
    if leb (modified x) (modified y) then x ∷ y ∷ ys else y ∷ rest

unfoldable pub sort_by_age : (String → ℕ) → List String → List String
unfolding insert_by_age
sort_by_age modified [] = []
sort_by_age modified (x ∷ xs) = insert_by_age modified x (sort_by_age modified xs)

unfoldable pub remove_oldest : ℕ → List String → Directory → Directory
remove_oldest max_versions [] dir = dir
remove_oldest max_versions (oldest ∷ rest) dir =
    let next = remove_oldest max_versions rest (HashMap.remove oldest dir) in
    if ltb max_versions (length (oldest ∷ rest)) then next else dir

-- `modified` is the time of the last change of each file, with the new backup among them.
unfoldable pub back_up : (String → ℕ) → ℕ → ℕ → String → Option Bytes → Directory → Directory
back_up modified epoch max_versions path none dir = dir
back_up modified epoch max_versions path (some bytes) dir =
    let copied = HashMap.insert (backup_name path epoch) bytes dir in
    remove_oldest max_versions (sort_by_age modified (backups (backup_prefix path) copied)) copied

-- The second file stays where the write fails.
unfoldable pub renamed : String → Result Bytes → Directory → Result (Unit {0}) × Directory
renamed path (ok bytes) dir =
    (ok tt, HashMap.insert path bytes (HashMap.remove (tmp_path path) dir))
renamed path (err e) dir = (err e, HashMap.insert (tmp_path path) [] dir)
renamed path panic dir = (panic, HashMap.insert (tmp_path path) [] dir)

module _ ⦃P : Platform⦄ ⦃A : Archive⦄ where
  unfoldable pub save_with_version :
      (String → ℕ) → ℕ → String → ℕ → KvStore → Directory → Result (Unit {0}) × Directory
  save_with_version modified epoch path max_versions s dir =
      renamed path (packed_store (compression_for_path path) s)
        (back_up modified epoch max_versions path (HashMap.get path dir) dir)
