-- ===== src/Files/Versions/Saved.antt =====
-- What `save_with_version` leaves.
use daikon.Prelude.{
  ℕ, String, true, false, ◌≡◌, ◌≢◌, refl, sym, ap, ◌∙◌, Option, some, none, List, [], ◌∷◌, length,
  starts_with, format, decimal, str_append, ltb, leb, eq_iff, arith, Bool-cases, inl, inr,
}
use text.Mathlib.TextPositions.{starts_with-append}
use text.Mathlib.TextLemmas.{append_assoc}
use daikon.Platform.{Platform}
use daikon.Error.{Result, ok, err, panic}
use daikon.HashMap
use daikon.Store.{KvStore}
use daikon.Store.Validity.{IsValid}
use daikon.Crypto.{Bytes}
use daikon.Pitr.{Archive, Directory, read_file}
use daikon.Pitr.Snapshots.Roundtrip.{ReadsBack}
use daikon.Files.{written, compression_for_path, packed_store, load_from_file}
use daikon.Files.Roundtrip.{Saved, written_lem, reloaded, reloaded-IsValid, read_file-insert_ne}
use daikon.Files.Versions.{
  backup_prefix, backup_name, tmp_path, backups, insert_by_age, sort_by_age, remove_oldest, back_up,
  renamed, save_with_version,
}

read_file-remove_ne :
    (name other : String) (dir : Directory)
    → name ≢ other
    → read_file other (HashMap.remove name dir) ≡ read_file other dir
unfolding read_file HashMap.remove
read_file-remove_ne name other [] h = refl
read_file-remove_ne name other ((first, found) ∷ files) h =
    ground (arith, h, eq_iff first name, eq_iff first other, read_file-remove_ne name other files h)

abbrev AllStart : String → List String → Type 0
AllStart prefix [] = Unit
AllStart prefix (x ∷ xs) = (starts_with x prefix ≡ true) × AllStart prefix xs

backups-AllStart : (prefix : String) (dir : Directory) → AllStart prefix (backups prefix dir)
unfolding backups
backups-AllStart prefix [] = tt
backups-AllStart prefix ((name, bytes) ∷ files) = elim (Bool-cases (starts_with name prefix)) [
  | inl backup ↦ rw backup (backup, backups-AllStart prefix files)
  | inr other ↦ rw other (backups-AllStart prefix files)
]

insert_by_age-AllStart :
    (prefix : String) (modified : String → ℕ) (x : String) (xs : List String)
    → starts_with x prefix ≡ true
    → AllStart prefix xs
    → AllStart prefix (insert_by_age modified x xs)
unfolding insert_by_age
insert_by_age-AllStart prefix modified x [] h all = (h, tt)
insert_by_age-AllStart prefix modified x (y ∷ ys) h all =
    elim (Bool-cases (leb (modified x) (modified y))) [
      | inl older ↦ rw older (h, all)
      | inr newer ↦ rw newer (all.0, insert_by_age-AllStart prefix modified x ys h all.1)
    ]

sort_by_age-AllStart :
    (prefix : String) (modified : String → ℕ) (xs : List String)
    → AllStart prefix xs
    → AllStart prefix (sort_by_age modified xs)
unfolding sort_by_age
sort_by_age-AllStart prefix modified [] all = tt
sort_by_age-AllStart prefix modified (x ∷ xs) all =
    insert_by_age-AllStart prefix modified x _ all.0 (sort_by_age-AllStart prefix modified xs all.1)

differs : (prefix x y : String) → starts_with x prefix ≡ true → starts_with y prefix ≡ false → x ≢ y
differs prefix x y h k e =
    let same : starts_with x prefix ≡ starts_with y prefix = ap (λ z. starts_with z prefix) e in cc

remove_oldest-read :
    (prefix other : String) (max_versions : ℕ) (names : List String) (dir : Directory)
    → AllStart prefix names
    → starts_with other prefix ≡ false
    → read_file other (remove_oldest max_versions names dir) ≡ read_file other dir
unfolding remove_oldest
remove_oldest-read prefix other max_versions [] dir all h = refl
remove_oldest-read prefix other max_versions (x ∷ xs) dir all h =
    elim (Bool-cases (ltb max_versions (length (x ∷ xs)))) [
      | inl many ↦ rw many (
          remove_oldest-read prefix other max_versions xs (HashMap.remove x dir) all.1 h
          ∙ read_file-remove_ne x other dir (differs prefix x other all.0 h))
      | inr few ↦ rw few refl
    ]

backup_name_starts :
    (path : String) (epoch : ℕ) → starts_with (backup_name path epoch) (backup_prefix path) ≡ true
unfolding format
backup_name_starts path epoch =
    rw (sym (append_assoc path ".bak." (str_append (decimal epoch) "")))
      (starts_with-append (str_append path ".bak.") (str_append (decimal epoch) ""))

back_up-read :
    (modified : String → ℕ) (epoch max_versions : ℕ) (path other : String) (found : Option Bytes)
    (dir : Directory)
    → starts_with other (backup_prefix path) ≡ false
    → read_file other (back_up modified epoch max_versions path found dir) ≡ read_file other dir
unfolding back_up
back_up-read modified epoch max_versions path other none dir h = refl
back_up-read modified epoch max_versions path other (some bytes) dir h =
    let copied = HashMap.insert (backup_name path epoch) bytes dir in
    remove_oldest-read (backup_prefix path) other max_versions _ copied
      (sort_by_age-AllStart (backup_prefix path) modified _
        (backups-AllStart (backup_prefix path) copied))
      h
    ∙ read_file-insert_ne (backup_name path epoch) other bytes dir
        (differs (backup_prefix path) _ other (backup_name_starts path epoch) h)

module _ ⦃P : Platform⦄ ⦃A : Archive⦄ where
  renamed_lem :
      (s : KvStore) (reads : ReadsBack s) (path : String) (dir dir' : Directory)
      (packed : Result Bytes)
      → packed_store (compression_for_path path) s ≡ packed
      → renamed path packed dir ≡ (ok tt, dir')
      → Saved path s (HashMap.remove (tmp_path path) dir) dir'
  unfolding renamed written
  renamed_lem s reads path dir dir' (ok bytes) p h =
      written_lem s reads path (HashMap.remove (tmp_path path) dir) dir' (ok bytes) p h
  renamed_lem s reads path dir dir' (err e) p h = let refused = ap (λ r. r.0) h in cc
  renamed_lem s reads path dir dir' panic p h = let refused = ap (λ r. r.0) h in cc

  -- A well-formed store that was saved with backups, in whichever compression the name of the file
  -- asks for and however many backups there were, is loaded with the same entries and statistics,
  -- well formed again. Every other file, the backups and the second file of the save excepted, reads
  -- as before: the removal of the oldest backups takes nothing else. What the compressors wrote reads
  -- back, and so does the JSON of this store.
  pub save_with_version-load_from_file :
      (s : KvStore) (reads : ReadsBack s) (modified : String → ℕ) (epoch max_versions : ℕ)
      (path : String) (dir dir' : Directory)
      → IsValid s
      → save_with_version modified epoch path max_versions s dir ≡ (ok tt, dir')
      → (load_from_file path dir' ≡ ok (reloaded s))
        × IsValid (reloaded s)
        × ((other : String)
            → path ≢ other
            → tmp_path path ≢ other
            → starts_with other (backup_prefix path) ≡ false
            → read_file other dir' ≡ read_file other dir)
  unfolding save_with_version
  save_with_version-load_from_file s reads modified epoch max_versions path dir dir' v h =
      let found = HashMap.get path dir in
      let kept = back_up modified epoch max_versions path found dir in
      let (loads, others) = renamed_lem s reads path kept dir' _ refl h in
      (
        loads,
        reloaded-IsValid s v.distinct,
        λ other not_path not_tmp not_backup.
            others other not_path
            ∙ read_file-remove_ne (tmp_path path) other kept not_tmp
            ∙ back_up-read modified epoch max_versions path other found dir not_backup,
      )
