-- ===== src/Wal/Roundtrip.antt =====
-- What wal.rs appends, it reads back, and what it reads of a log that was cut off.
use mathlib.Core.List.{append-nil}
use daikon.Prelude.{
  ℕ, ◌+◌, String, true, false, ◌≡◌, refl, ◌∙◌, ap, Option, none, some, List, [], ◌∷◌, ◌++◌,
  is_empty, length, arith, Bool-cases, inl, inr, format, decimal,
}
use daikon.Error.{Result, ok, err, panic, operation_failed, ◌>>=◌}
use daikon.Crypto.{Bytes, Cipher, encrypt, decrypt}
use daikon.Wal.{
  WalEntry, Codec, Attempt, whole, encoded, append_opened, newline, split_lines, append, read_all,
  read_line, read_lines, add_entry, of_outcome,
}
use daikon.Wal.Lines.{IsComplete, IsLine, split_lines-append, split_lines-line, split_lines-torn}

module _ ⦃C : Cipher⦄ ⦃S : Codec⦄ where
  add_entry-append :
      (entry : Option WalEntry) (xs ys : List WalEntry)
      → add_entry entry (xs ++ ys) ≡ add_entry entry xs ++ ys
  unfolding add_entry
  add_entry-append none xs ys = refl
  add_entry-append (some entry) xs ys = refl

  read_then :
      (entry : Result (Option WalEntry)) (first more : Result (List WalEntry))
      → (entry >>= λ e.
          (first >>= λ xs. more >>= λ ys. ok (xs ++ ys)) >>= λ xs. ok (add_entry e xs))
        ≡ ((entry >>= λ e. first >>= λ xs. ok (add_entry e xs)) >>= λ xs.
            more >>= λ ys. ok (xs ++ ys))
  read_then (err e) first more = refl
  read_then panic first more = refl
  read_then (ok e) (err f) more = refl
  read_then (ok e) panic more = refl
  read_then (ok e) (ok xs) (err f) = refl
  read_then (ok e) (ok xs) panic = refl
  read_then (ok e) (ok xs) (ok ys) = ap ok (add_entry-append e xs ys)

  read_nothing : (r : Result (List WalEntry)) → r ≡ (ok [] >>= λ xs. r >>= λ ys. ok (xs ++ ys))
  read_nothing (ok xs) = refl
  read_nothing (err e) = refl
  read_nothing panic = refl

  read_lines-append :
      (n : ℕ) (xs ys : List Bytes)
      → read_lines n (xs ++ ys) ≡ (
          read_lines n xs >>= λ entries.
          read_lines (n + length xs) ys >>= λ more. ok (entries ++ more))
  unfolding read_lines
  read_lines-append n [] ys =
      let e : n ≡ n + 0 = omega arith in
      read_nothing (read_lines n ys) ∙ ap (λ k. read_lines k ys >>= λ more. ok more) e
  read_lines-append n (x ∷ xs) ys =
      let e : (n + 1) + length xs ≡ n + length (x ∷ xs) = omega arith in
      ap (λ r. read_line n x >>= λ entry. r >>= λ entries. ok (add_entry entry entries))
        (read_lines-append (n + 1) xs ys)
      ∙ read_then (read_line n x) (read_lines (n + 1) xs) (read_lines (n + 1 + length xs) ys)
      ∙ ap
          (λ k.
            read_lines n (x ∷ xs) >>= λ entries. read_lines k ys >>= λ more. ok (entries ++ more))
          e

  read_all-append :
      (file more : Bytes) (line : Bytes)
      → IsComplete file
      → split_lines more ≡ line ∷ []
      → read_all (file ++ more) ≡ (
          read_all file >>= λ entries.
          read_lines (length (split_lines file)) (line ∷ []) >>= λ last. ok (entries ++ last))
  unfolding read_all
  read_all-append file more line complete e =
      let zero_add : 0 + length (split_lines file) ≡ length (split_lines file) = omega arith in
      rw (split_lines-append file more complete, e)
        (read_lines-append 0 (split_lines file) (line ∷ [])
          ∙ ap
              (λ k. read_all file >>= λ entries.
                read_lines k (line ∷ []) >>= λ last. ok (entries ++ last))
              zero_add)

  read_good_line :
      (n : ℕ) (line json : Bytes) (entry : WalEntry)
      → S.is_utf8 line ≡ true
      → S.is_blank line ≡ false
      → decrypt line ≡ inr json
      → S.from_slice json ≡ some entry
      → read_lines n (line ∷ []) ≡ ok (entry ∷ [])
  unfolding read_lines read_line of_outcome add_entry
  read_good_line n line json entry u b d p = rw (u, b, d, p) refl

  pub read_all-append_line :
      (entry : WalEntry) (file json line : Bytes)
      → IsComplete file
      → S.from_slice json ≡ some entry
      → decrypt line ≡ inr json
      → IsLine line
      → S.is_utf8 line ≡ true
      → S.is_blank line ≡ false
      → read_all (file ++ (line ++ newline ∷ []))
        ≡ (read_all file >>= λ entries. ok (entries ++ entry ∷ []))
  read_all-append_line entry file json line complete p d is_line u b =
      read_all-append file (line ++ newline ∷ []) line complete (split_lines-line line is_line)
      ∙ ap (λ r. read_all file >>= λ entries. r >>= λ last. ok (entries ++ last))
          (read_good_line (length (split_lines file)) line json entry u b d p)

  -- An entry appended to a log whose lines are complete is read back after the entries that were
  -- there, and in their order; where the log could not be read before, the same error comes. The
  -- file opens and the write goes through. The encryption gives a line that decrypts to the entry's
  -- JSON, which parses to the entry.
  pub read_all-append_entry :
      (attempt : Attempt) (entry : WalEntry) (file json line : Bytes)
      → attempt.open_error ≡ none
      → attempt.writing ≡ whole
      → IsComplete file
      → S.to_vec entry ≡ ok json
      → S.from_slice json ≡ some entry
      → encrypt attempt.random json ≡ inr line
      → decrypt line ≡ inr json
      → IsLine line
      → S.is_utf8 line ≡ true
      → S.is_blank line ≡ false
      → let (r, file') = append attempt entry file in
        (r ≡ ok tt) × (read_all file' ≡ (read_all file >>= λ entries. ok (entries ++ entry ∷ [])))
  unfolding append append_opened encoded of_outcome
  read_all-append_entry attempt entry file json line opens writes complete v p e d is_line u b =
      rw (opens, writes, v, e)
        (refl, read_all-append_line entry file json line complete p d is_line u b)

  read_malformed_line :
      (n : ℕ) (line json : Bytes)
      → S.is_utf8 line ≡ true
      → decrypt line ≡ inr json
      → S.from_slice json ≡ none
      → read_lines n (line ∷ []) ≡ ok []
  unfolding read_lines read_line of_outcome add_entry
  read_malformed_line n line json u d p = elim (Bool-cases (S.is_blank line)) [
    | inl blank ↦ rw (u, blank) refl
    | inr other ↦ rw (u, other, d, p) refl
  ]

  bind_nothing : (r : Result (List WalEntry)) → (r >>= λ xs. ok (xs ++ [])) ≡ r
  bind_nothing (ok xs) = ap ok (append-nil xs)
  bind_nothing (err e) = refl
  bind_nothing panic = refl

  -- A last line that was cut off, and that is not encrypted or decrypts, changes nothing when it
  -- does not parse: the entries before it are read as they were.
  pub read_all-torn_skipped :
      (file line json : Bytes)
      → IsComplete file
      → IsLine line
      → is_empty line ≡ false
      → S.is_utf8 line ≡ true
      → decrypt line ≡ inr json
      → S.from_slice json ≡ none
      → read_all (file ++ line) ≡ read_all file
  read_all-torn_skipped file line json complete is_line some_byte u d p =
      read_all-append file line line complete (split_lines-torn line is_line some_byte)
      ∙ ap (λ r. read_all file >>= λ entries. r >>= λ last. ok (entries ++ last))
          (read_malformed_line (length (split_lines file)) line json u d p)
      ∙ bind_nothing (read_all file)

  -- A last line that was cut off and does not decrypt makes the whole log unreadable: the entries
  -- before it are lost with it, and the error names the line.
  pub read_all-torn_fails :
      (file line : Bytes) (entries : List WalEntry) (message : String)
      → IsComplete file
      → IsLine line
      → is_empty line ≡ false
      → S.is_utf8 line ≡ true
      → S.is_blank line ≡ false
      → decrypt line ≡ inl message
      → read_all file ≡ ok entries
      → read_all (file ++ line)
        ≡ err (
            operation_failed (
              format (
                "Failed to decrypt WAL line "
                ∷ decimal (length (split_lines file))
                ∷ ": "
                ∷ message
                ∷ [])))
  unfolding read_lines read_line of_outcome
  read_all-torn_fails file line entries message complete is_line some_byte u b d before =
      read_all-append file line line complete (split_lines-torn line is_line some_byte)
      ∙ rw (before, u, b, d) refl
