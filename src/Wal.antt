-- ===== src/Wal.antt =====
-- wal.rs: the write-ahead log, a file of bytes with a line for every entry.
pub mod Lines
pub mod Roundtrip
pub mod Lossless
use daikon.Prelude.{
  ℕ, suc, ◌+◌, String, Bool, true, false, Option, none, some, List, [], ◌∷◌, ◌++◌, length, take,
  eqb, format, ◌&&◌, if◌then◌else◌, ◌⊎◌, inl, inr, decimal,
}
use daikon.Prelude.Int.{ℤ}
use daikon.Error.{KvStoreError, Result, ok, err, panic, operation_failed, io_error, ◌>>=◌}
use daikon.Exec.{Exec}
use daikon.HashMap.{HashMap}
use daikon.Crypto.{Bytes, Cipher, Outcome, encrypt, decrypt}

pub data WalOperation : Type 0 where
  op_set : String → String → Option ℕ → WalOperation
  op_delete op_incr op_decr : String → WalOperation
  op_incr_by : String → ℤ → WalOperation
  op_append op_get_set : String → String → WalOperation
  op_mset : List (String × String) → WalOperation
  op_pf_add op_pf_merge op_lpush op_rpush : String → List String → WalOperation
  op_lpop op_rpop : String → WalOperation
  op_expire : String → ℕ → WalOperation
  op_persist : String → WalOperation
  op_hset : String → HashMap String → WalOperation
  op_hdel : String → List String → WalOperation
  op_hincr_by : String → String → ℤ → WalOperation

pub record WalEntry : Type 0 where
  pub timestamp : ℕ
  pub operation : WalOperation

-- `serde_json` on entries, and `String` of the standard library on the bytes of a line.
pub record Codec : Type 1 where
  pub to_vec : WalEntry → Result Bytes
  pub from_slice : Bytes → Option WalEntry
  pub is_utf8 : Bytes → Bool
  -- `line.trim().is_empty()`
  pub is_blank : Bytes → Bool

abbrev pub new_entry : ℕ → WalOperation → WalEntry
new_entry now operation = record { timestamp = now; operation = operation }

abbrev pub newline : ℕ
newline = 10

abbrev pub prepend : ℕ → List Bytes → List Bytes
prepend b [] = (b ∷ []) ∷ []
prepend b (line ∷ lines) = (b ∷ line) ∷ lines

abbrev pub starts_line : Bytes → Bool
starts_line [] = false
starts_line (b ∷ bs) = eqb b newline

-- `BufRead::lines`: the lines of a file without their newlines, and without a carriage return
-- before one; a file that does not end in a newline has a last line.
unfoldable pub split_lines : Bytes → List Bytes
split_lines [] = []
split_lines (b ∷ bs) =
    let rest = split_lines bs in
    if eqb b newline
    then [] ∷ rest
    else (if eqb b 13 && starts_line bs then rest else prepend b rest)

unfoldable pub of_outcome : {A : Type 0} → (String → KvStoreError) → Outcome A → Result A
of_outcome wrap (inl message) = err (wrap message)
of_outcome wrap (inr a) = ok a

-- How the two calls of `write_all` go: `cut n message` is an error after n bytes of the line, or
-- after all of it where it has no more, and in any case before its newline.
pub data Writing : Type 0 where
  whole : Writing
  cut : ℕ → String → Writing

-- What the system does in one `append`: the nonce of the encryption, the error of opening the file if
-- there is one, and the write.
pub record Attempt : Type 0 where
  pub random : Option Bytes
  pub open_error : Option String
  pub writing : Writing

write_line : Writing → Bytes → Exec Bytes (Unit {0})
write_line whole line file = (ok tt, file ++ (line ++ newline ∷ []))
write_line (cut n message) line file = (err (io_error message), file ++ take n line)

write_encoded : Writing → Result Bytes → Exec Bytes (Unit {0})
write_encoded writing (ok line) file = write_line writing line file
write_encoded writing (err e) file = (err e, file)
write_encoded writing panic file = (panic, file)

unfoldable pub append_opened : Option String → Writing → Result Bytes → Exec Bytes (Unit {0})
unfolding write_encoded write_line
append_opened (some message) writing line file = (err (io_error message), file)
append_opened none writing line file = write_encoded writing line file

module _ ⦃C : Cipher⦄ ⦃S : Codec⦄ where
  -- The line of an entry, without its newline.
  unfoldable pub encoded : Option Bytes → WalEntry → Result Bytes
  unfolding of_outcome
  encoded random entry =
      S.to_vec entry >>= λ json_line. of_outcome operation_failed (encrypt random json_line)

  -- The file is opened first; what was written before an error stays in it.
  unfoldable pub append : Attempt → WalEntry → Exec Bytes (Unit {0})
  unfolding append_opened
  append attempt entry =
      append_opened attempt.open_error attempt.writing (encoded attempt.random entry)

  add_entry : Option WalEntry → List WalEntry → List WalEntry
  add_entry none entries = entries
  add_entry (some entry) entries = entry ∷ entries

  -- A line of the log: none for a blank or a malformed one, which are skipped.
  unfoldable pub read_line : ℕ → Bytes → Result (Option WalEntry)
  unfolding of_outcome
  read_line line_no line =
      if S.is_utf8 line
      then (if S.is_blank line
          then ok none
          else of_outcome
              (λ e.
                operation_failed
                  (format ("Failed to decrypt WAL line " ∷ decimal line_no ∷ ": " ∷ e ∷ [])))
              (decrypt line)
            >>= λ decrypted. ok (S.from_slice decrypted))
      else err (
          operation_failed (
            format (
              "Failed to read WAL line "
              ∷ decimal line_no
              ∷ ": stream did not contain valid UTF-8"
              ∷ [])))

  unfoldable pub read_lines : ℕ → List Bytes → Result (List WalEntry)
  unfolding add_entry
  read_lines line_no [] = ok []
  read_lines line_no (line ∷ lines) =
      let rest = read_lines (line_no + 1) lines in
      read_line line_no line >>= λ entry. rest >>= λ entries. ok (add_entry entry entries)

  unfoldable pub read_all : Bytes → Result (List WalEntry)
  read_all file = read_lines 0 (split_lines file)

  abbrev pub clear : Bytes → Bytes
  clear file = []

  abbrev pub size : Bytes → ℕ
  size file = length file
