-- ===== src/Tests/Logs.antt =====
-- A log with two entries, whole and cut off.
use daikon.Prelude.{
  ◌≡◌, refl, none, some, List, [], ◌∷◌, ◌++◌, length, inl, inr, format, decimal, arith,
}
use daikon.Error.{Result, ok, err, operation_failed}
use daikon.Error
use daikon.Crypto.{
  Bytes, Cipher, Outcome, prefix, starts_with, encrypt, decrypt, key_from_env, encrypt_with, seal,
  decrypt_with, open_payload,
}
use daikon.Crypto
use daikon.Crypto.Roundtrip.{decrypt-encrypt}
use daikon.Wal.{
  Attempt, whole, WalEntry, op_delete, append, read_all, split_lines, read_line, read_lines,
}
use daikon.Wal.Lines.{IsLine}
use daikon.Wal.Roundtrip.{read_all-append_entry, read_all-torn_fails}
use daikon.Tests.Samples.{no_cipher, byte_codec, zeros, nonce}

abbrev entry : WalEntry
entry = record { timestamp = 7; operation = op_delete "x" }

-- The entries of the seconds 3 and 4, in plain text.
abbrev pub file : Bytes
file = 3 ∷ 10 ∷ 4 ∷ 10 ∷ []

abbrev sealed : Bytes
sealed = prefix ++ (nonce ++ 7 ∷ [])

the_key : key_from_env ≡ inr (some zeros)
unfolding key_from_env
the_key = refl

decrypt-encrypt_example : Crypto.◌>>=◌ (encrypt (some nonce) (7 ∷ [])) decrypt ≡ inr (7 ∷ [])
decrypt-encrypt_example =
    decrypt-encrypt zeros nonce (7 ∷ []) (7 ∷ []) tt the_key refl refl refl refl refl

seals : encrypt (some nonce) (7 ∷ []) ≡ inr sealed
unfolding encrypt encrypt_with seal key_from_env
seals = refl

opens : decrypt sealed ≡ inr (7 ∷ [])
unfolding decrypt decrypt_with open_payload key_from_env starts_with
opens = refl

sealed-IsLine : IsLine sealed
sealed-IsLine = ground arith

abbrev attempt : Attempt
attempt = record { random = some nonce; open_error = none; writing = whole }

read_all-append_entry_example :
    let (r, file') = append attempt entry file in
    (r ≡ ok tt)
    × (read_all file' ≡ Error.◌>>=◌ (read_all file) (λ entries. ok (entries ++ entry ∷ [])))
read_all-append_entry_example =
    read_all-append_entry attempt entry file (7 ∷ []) sealed refl refl refl refl refl seals opens
      sealed-IsLine refl refl

plain_opens : decrypt (8 ∷ 8 ∷ []) ≡ inr (8 ∷ 8 ∷ [])
unfolding decrypt starts_with
plain_opens = refl

-- The first bytes of an encrypted line.
prefix_fails : decrypt prefix ≡ inl "invalid encrypted data"
unfolding decrypt decrypt_with open_payload key_from_env starts_with
prefix_fails = refl

abbrev pub two_entries : List WalEntry
two_entries =
    record { timestamp = 3; operation = op_delete "x" }
    ∷ record { timestamp = 4; operation = op_delete "x" }
    ∷ []

pub reads_two : read_all file ≡ ok two_entries
unfolding read_all read_lines read_line split_lines decrypt starts_with
reads_two = refl

read_all-torn_fails_example :
    read_all (file ++ prefix)
    ≡ err (
        operation_failed (
          format (
            "Failed to decrypt WAL line "
            ∷ decimal (length (split_lines file))
            ∷ ": "
            ∷ "invalid encrypted data"
            ∷ [])))
read_all-torn_fails_example =
    read_all-torn_fails file prefix two_entries "invalid encrypted data" refl (ground arith) refl
      refl refl prefix_fails reads_two
