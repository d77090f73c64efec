-- ===== src/Pitr/Snapshots/Extensions.antt =====
-- The extension of a snapshot tells how it was written.
use daikon.Prelude.{
  ℕ, zero, suc, ◌+◌, String, true, false, ◌≡◌, refl, sym, ap, ◌∙◌, none, some, List, [], ◌∷◌, ◌++◌,
  length, length-append, eqb, eqb_iff, arith, Bool-cases, inl, inr, codes, codes-append, format,
  decimal,
}
use mathlib.Core.List.{append-nil, append_assoc}
use daikon.Crypto.{Cipher, enabled}
use daikon.Pitr.{
  Name, plain_name, Directory, SnapshotCompression, uncompressed, gzip, zstd, is_name, strip_suffix,
  from_snapshot_filename,
}
use daikon.Pitr.Snapshots.{
  file_suffix, encrypted_suffix, free_name, suffixed, snapshot_filename, exists,
}

is_name_refl : (xs : Name) → is_name xs xs ≡ true
unfolding is_name
is_name_refl [] = refl
is_name_refl (x ∷ xs) = ground (arith, is_name_refl xs)

is_name-length : (xs ys : Name) → is_name xs ys ≡ true → length xs ≡ length ys
unfolding is_name
is_name-length [] [] h = refl
is_name-length [] (y ∷ ys) h = cc
is_name-length (x ∷ xs) [] h = cc
is_name-length (x ∷ xs) (y ∷ ys) h = ground (arith, h, is_name-length xs ys)

longer : (x : ℕ) (xs suffix : Name) → is_name suffix (x ∷ xs ++ suffix) ≡ false
longer x xs suffix = elim (Bool-cases (is_name suffix (x ∷ xs ++ suffix))) [
  | inl same ↦ absurd (omega (arith, is_name-length suffix _ same, length-append (x ∷ xs) suffix))
  | inr other ↦ other
]

strip_suffix-append : (c : ℕ) (cs xs : Name) → strip_suffix (c ∷ cs) (xs ++ c ∷ cs) ≡ some xs
unfolding strip_suffix
strip_suffix-append c cs [] = rw (is_name_refl (c ∷ cs)) refl
strip_suffix-append c cs (x ∷ xs) = rw (longer x xs (c ∷ cs), strip_suffix-append c cs xs) refl

-- The last code point.
final : Name → ℕ
final [] = 0
final (x ∷ []) = x
final (x ∷ y ∷ ys) = final (y ∷ ys)

same_head : (x y : ℕ) (xs ys : Name) → x ≡ y → xs ≡ ys → (x ∷ xs) ≡ (y ∷ ys)
same_head x y xs ys e f = ap (λ z. z ∷ xs) e ∙ ap (λ zs. y ∷ zs) f

is_name_sound : (xs ys : Name) → is_name xs ys ≡ true → xs ≡ ys
unfolding is_name
is_name_sound [] [] h = refl
is_name_sound [] (y ∷ ys) h = cc
is_name_sound (x ∷ xs) [] h = cc
is_name_sound (x ∷ xs) (y ∷ ys) h = elim (Bool-cases (eqb x y)) [
  | inl same ↦ same_head x y xs ys ((eqb_iff x y).0 same) (is_name_sound xs ys (rw same at h))
  | inr other ↦ ground (arith, h, other)
]

not_named : (suffix xs : Name) → eqb (final xs) (final suffix) ≡ false → is_name suffix xs ≡ false
not_named suffix xs h = elim (Bool-cases (is_name suffix xs)) [
  | inl same ↦
      let e : suffix ≡ xs = is_name_sound suffix xs same in absurd (ground (arith, h, ap final e))
  | inr other ↦ other
]

strip_suffix_other :
    (c : ℕ) (cs xs : Name)
    → eqb (final xs) (final (c ∷ cs)) ≡ false
    → strip_suffix (c ∷ cs) xs ≡ none
unfolding strip_suffix
strip_suffix_other c cs [] h = refl
strip_suffix_other c cs (x ∷ []) h = rw (not_named (c ∷ cs) (x ∷ []) h) refl
strip_suffix_other c cs (x ∷ y ∷ ys) h =
    rw (not_named (c ∷ cs) (x ∷ y ∷ ys) h, strip_suffix_other c cs (y ∷ ys) (unfold final in h))
      refl

final-append : (xs : Name) (c : ℕ) (cs : Name) → final (xs ++ c ∷ cs) ≡ final (c ∷ cs)
unfolding final
final-append [] c cs = refl
final-append (x ∷ []) c cs = refl
final-append (x ∷ y ∷ ys) c cs = final-append (y ∷ ys) c cs

-- A name that ends with an extension.
abbrev pub EndsIn : String → String → Type 0
EndsIn extension name = (stem : Name) × (codes name ≡ stem ++ codes extension)

format-EndsIn :
    (parts : List String) (extension : String) → EndsIn extension (format (parts ++ extension ∷ []))
unfolding format
format-EndsIn [] extension = ([], codes-append extension "" ∙ append-nil (codes extension))
format-EndsIn (part ∷ parts) extension =
    let (stem, e) = format-EndsIn parts extension in
    (
      codes part ++ stem,
      codes-append part (format (parts ++ extension ∷ []))
          ∙ ap (λ l. codes part ++ l) e
          ∙ sym (append_assoc (codes part) stem (codes extension)),
    )

free_name-EndsIn :
    (timestamp : ℕ) (extension : String) (dir : Directory) (rounds k : ℕ)
    → EndsIn extension (free_name (suffixed timestamp extension) dir rounds k)
unfolding free_name
free_name-EndsIn timestamp extension dir zero k =
    format-EndsIn ("snapshot_" ∷ decimal timestamp ∷ "_" ∷ decimal k ∷ []) extension
free_name-EndsIn timestamp extension dir (suc rounds) k =
    elim (Bool-cases (exists (suffixed timestamp extension k) dir)) [
      | inl there ↦ rw there (free_name-EndsIn timestamp extension dir rounds (k + 1))
      | inr free ↦
          rw free (format-EndsIn ("snapshot_" ∷ decimal timestamp ∷ "_" ∷ decimal k ∷ []) extension)
    ]

pub snapshot_filename-EndsIn :
    (timestamp : ℕ) (extension : String) (dir : Directory)
    → EndsIn extension (snapshot_filename timestamp extension dir)
unfolding snapshot_filename
snapshot_filename-EndsIn timestamp extension dir =
    elim (Bool-cases (exists (format ("snapshot_" ∷ decimal timestamp ∷ extension ∷ [])) dir)) [
      | inl there ↦ rw there (free_name-EndsIn timestamp extension dir (length dir + 1) 1)
      | inr free ↦ rw free (format-EndsIn ("snapshot_" ∷ decimal timestamp ∷ []) extension)
    ]

other_ending :
    (c d : ℕ) (cs ds stem : Name)
    → eqb (final (d ∷ ds)) (final (c ∷ cs)) ≡ false
    → strip_suffix (c ∷ cs) (stem ++ d ∷ ds) ≡ none
other_ending c d cs ds stem h = strip_suffix_other c cs _ (rw (final-append stem d ds) h)

-- No extension of a plain snapshot ends like `.enc`.
not_sealed :
    (compression : SnapshotCompression) (stem : Name)
    → strip_suffix (codes ".enc") (stem ++ codes (file_suffix compression)) ≡ none
unfolding file_suffix final
not_sealed uncompressed stem = other_ending _ _ _ _ stem refl
not_sealed gzip stem = other_ending _ _ _ _ stem refl
not_sealed zstd stem = other_ending _ _ _ _ stem refl

plain_kind :
    (compression : SnapshotCompression) (stem : Name) (name : String)
    → plain_name name ≡ stem ++ codes (file_suffix compression)
    → from_snapshot_filename name ≡ some compression
unfolding from_snapshot_filename file_suffix final
plain_kind uncompressed stem name h = rw (h, strip_suffix-append 46 (codes "json") stem) refl
plain_kind gzip stem name h =
    rw
      (
        h,
        other_ending 46 46 (codes "json") (codes "json.gz") stem refl,
        strip_suffix-append 46 (codes "json.gz") stem,
      )
      refl
plain_kind zstd stem name h =
    rw
      (
        h,
        other_ending 46 46 (codes "json") (codes "json.zst") stem refl,
        other_ending 46 46 (codes "json.gz") (codes "json.zst") stem refl,
        strip_suffix-append 46 (codes "json.zst") stem,
      )
      refl

plain_name_unsealed :
    (compression : SnapshotCompression) (stem : Name) (name : String)
    → codes name ≡ stem ++ codes (file_suffix compression)
    → plain_name name ≡ stem ++ codes (file_suffix compression)
plain_name_unsealed compression stem name e = rw (e, not_sealed compression stem) refl

plain_name_sealed :
    (suffix : String) (stem : Name) (name : String)
    → codes name ≡ stem ++ codes (format (suffix ∷ ".enc" ∷ []))
    → plain_name name ≡ stem ++ codes suffix
unfolding format
plain_name_sealed suffix stem name e =
    let whole : codes name ≡ (stem ++ codes suffix) ++ codes ".enc" =
      e
      ∙ ap (λ l. stem ++ l) (codes-append suffix ".enc")
      ∙ sym (append_assoc stem (codes suffix) (codes ".enc")) in
    rw (whole, strip_suffix-append 46 (codes "enc") (stem ++ codes suffix)) refl

module _ ⦃C : Cipher⦄ where
  -- A name with the extension that a new snapshot gets is read as that of its compression.
  pub from_snapshot_filename_lem :
      (compression : SnapshotCompression) (name : String)
      → EndsIn (encrypted_suffix compression) name
      → from_snapshot_filename name ≡ some compression
  unfolding encrypted_suffix
  from_snapshot_filename_lem compression name (stem, e) = elim (Bool-cases enabled) [
    | inl sealed ↦
        plain_kind compression stem name
          (plain_name_sealed (file_suffix compression) stem name (rw sealed at e))
    | inr unsealed ↦
        plain_kind compression stem name
          (plain_name_unsealed compression stem name (rw unsealed at e))
  ]
