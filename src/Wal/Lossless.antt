-- ===== src/Wal/Lossless.antt =====
-- A log whose lines read back: what the serializer, the cipher and the texts of the standard
-- library are relied on for.
use daikon.Prelude.{
  String, none, true, false, ◌≡◌, refl, sym, subst, ◌∙◌, ap, Option, some, [], ◌∷◌, ◌++◌, inl, inr,
}
use daikon.Error.{Result, ok, err, panic, ◌>>=◌, operation_failed}
use daikon.Exec.Steady.{is_panic}
use daikon.Crypto.{Bytes, Cipher, Outcome, encrypt, decrypt}
use daikon.Wal.{
  WalEntry, Codec, Attempt, Writing, whole, cut, append, append_opened, encoded, read_all, newline,
  of_outcome,
}
use daikon.Wal.Lines.{IsComplete, IsLine, append-IsComplete}
use daikon.Wal.Roundtrip.{read_all-append_line}

module _ ⦃C : Cipher⦄ ⦃S : Codec⦄ where
  -- A line of JSON, sealed, that opens to the JSON of its entry.
  pub record Opens (entry : WalEntry) (json line : Bytes) : Type 0 where
    pub parses : S.from_slice json ≡ some entry
    pub decrypts : decrypt line ≡ inr json
    pub one_line : IsLine line
    pub utf8 : S.is_utf8 line ≡ true
    pub not_blank : S.is_blank line ≡ false

  pub record Lossless : Type 0 where
    pub opens :
        (random : Option Bytes) (entry : WalEntry) (json line : Bytes)
        → S.to_vec entry ≡ ok json
        → encrypt random json ≡ inr line
        → Opens entry json line

  abbrev Appended : Attempt → WalEntry → Bytes → Bytes → Type 0
  Appended attempt entry file file' =
      (json : Bytes) × (line : Bytes) × (S.to_vec entry ≡ ok json)
      × (encrypt attempt.random json ≡ inr line)
      × (file' ≡ file ++ (line ++ newline ∷ []))

  sealed_line :
      (outcome : Outcome Bytes) (line : Bytes)
      → of_outcome operation_failed outcome ≡ ok line
      → outcome ≡ inr line
  unfolding of_outcome
  sealed_line (inl message) line h = cc
  sealed_line (inr other) line h = cc

  encoded_line :
      (random : Option Bytes) (r : Result Bytes) (line : Bytes)
      → (r >>= λ json. of_outcome operation_failed (encrypt random json)) ≡ ok line
      → (json : Bytes) × (r ≡ ok json) × (encrypt random json ≡ inr line)
  encoded_line random (ok json) line h = (json, refl, sealed_line (encrypt random json) line h)
  encoded_line random (err e) line h = cc
  encoded_line random panic line h = cc

  -- An append that succeeds has written a whole line.
  opened_line :
      (open_error : Option String) (writing : Writing) (r : Result Bytes) (file file' : Bytes)
      → append_opened open_error writing r file ≡ (ok tt, file')
      → (line : Bytes) × (r ≡ ok line) × (file' ≡ file ++ (line ++ newline ∷ []))
  unfolding append_opened
  opened_line (some message) writing r file file' h = let e = ap (λ d. d.0) h in cc
  opened_line none whole (ok line) file file' h = (line, refl, sym (ap (λ d. d.1) h))
  opened_line none (cut n message) (ok line) file file' h = let e = ap (λ d. d.0) h in cc
  opened_line none writing (err e) file file' h = let f = ap (λ d. d.0) h in cc
  opened_line none writing panic file file' h = let e = ap (λ d. d.0) h in cc

  append-Appended :
      (attempt : Attempt) (entry : WalEntry) (file file' : Bytes)
      → append attempt entry file ≡ (ok tt, file')
      → Appended attempt entry file file'
  unfolding append encoded
  append-Appended attempt entry file file' h =
      let (line, e, same) = opened_line attempt.open_error attempt.writing _ file file' h in
      let (json, v, s) = encoded_line attempt.random (S.to_vec entry) line e in
      (json, line, v, s, same)

  -- What is appended to a file of whole lines leaves whole lines, and is read last.
  pub append_reads :
      (lossless : Lossless) (attempt : Attempt) (entry : WalEntry) (file file' : Bytes)
      → IsComplete file
      → append attempt entry file ≡ (ok tt, file')
      → IsComplete file'
        × (read_all file' ≡ (read_all file >>= λ entries. ok (entries ++ entry ∷ [])))
  append_reads lossless attempt entry file file' complete h =
      let (json, line, v, e, same) = append-Appended attempt entry file file' h in
      let o = lossless.opens attempt.random entry json line v e in
      (
        subst IsComplete (sym same) (append-IsComplete file line),
        ap read_all same
            ∙ read_all-append_line entry file json line complete o.parses o.decrypts o.one_line
                o.utf8 o.not_blank,
      )

  -- Where the write is not cut off, an append that fails has not written.
  abbrev pub Unwritten : Result (Unit {0}) × Bytes → Bytes → Type 0
  Unwritten (ok done, file') file = Unit
  Unwritten (err e, file') file = file' ≡ file
  Unwritten (panic, file') file = file' ≡ file

  opened-Unwritten :
      (open_error : Option String) (r : Result Bytes) (file : Bytes)
      → Unwritten (append_opened open_error whole r file) file
  unfolding append_opened
  opened-Unwritten (some message) r file = refl
  opened-Unwritten none (ok line) file = tt
  opened-Unwritten none (err e) file = refl
  opened-Unwritten none panic file = refl

  pub append-Unwritten :
      (attempt : Attempt) (entry : WalEntry) (file : Bytes)
      → attempt.writing ≡ whole
      → Unwritten (append attempt entry file) file
  unfolding append
  append-Unwritten attempt entry file uncut =
      rw uncut (opened-Unwritten attempt.open_error (encoded attempt.random entry) file)

  encoded_returns :
      (outcome : Outcome Bytes) → is_panic (of_outcome operation_failed outcome) ≡ false
  unfolding of_outcome
  encoded_returns (inl message) = refl
  encoded_returns (inr line) = refl

  serialized_returns :
      (random : Option Bytes) (r : Result Bytes)
      → is_panic r ≡ false
      → is_panic (r >>= λ json. of_outcome operation_failed (encrypt random json)) ≡ false
  serialized_returns random (ok json) h = encoded_returns (encrypt random json)
  serialized_returns random (err e) h = refl
  serialized_returns random panic h = h

  opened_returns :
      (open_error : Option String) (writing : Writing) (r : Result Bytes) (file : Bytes)
      → is_panic r ≡ false
      → is_panic (append_opened open_error writing r file).0 ≡ false
  unfolding append_opened
  opened_returns (some message) writing r file h = refl
  opened_returns none whole (ok line) file h = refl
  opened_returns none (cut n message) (ok line) file h = refl
  opened_returns none writing (err e) file h = refl
  opened_returns none writing panic file h = h

  -- An entry that serializes is appended, or there is an error.
  pub append_returns :
      (attempt : Attempt) (entry : WalEntry) (file : Bytes)
      → is_panic (S.to_vec entry) ≡ false
      → is_panic (append attempt entry file).0 ≡ false
  unfolding append encoded
  append_returns attempt entry file h =
      opened_returns attempt.open_error attempt.writing _ file
        (serialized_returns attempt.random (S.to_vec entry) h)
