-- ===== src/Tests/Plain.antt =====
-- A log in plain text with one byte for each entry, for the few entries that it can hold, and a JSON
-- of the texts of a store.
use mathlib.Core.Option
use daikon.Prelude.{
  ℕ, String, Bool, true, false, ◌≡◌, refl, ap, ◌∙◌, ◌&&◌, Option, none, some, [], ◌∷◌, eqb, eqb_iff,
  ◌==◌, eq_iff, str_append, arith, is_empty, Bool-cases, inl, inr, if◌then◌else◌,
}
use daikon.Error.{Result, ok, err, operation_failed}
use daikon.Exec.Steady.{is_panic}
use daikon.Value.{Value, str}
use daikon.Crypto.{Bytes, Cipher, encrypt, encrypt_with, decrypt, key_from_env, starts_with}
use daikon.Wal.{WalEntry, WalOperation, op_set, op_delete, op_get_set, Codec}
use daikon.Wal.Lossless.{Lossless, Opens}
use daikon.Json.{ValueCodec}
use daikon.Api.{strip_prefix}
use daikon.Api.Auth.{strip_prefix-append}
use daikon.Startup.Handlers.{TextsReadBack}
use daikon.Tests.Samples.{whole_numbers}

instance abbrev pub no_key : Cipher
no_key = record {
  env_key = none;
  is_blank = λ s. false;
  hex_decode = λ s. none;
  base64_decode_text = λ s. none;
  base64_encode = λ bs. bs;
  base64_decode = λ bs. some bs;
  Aes = Unit {0};
  new_from_slice = λ key. some tt;
  encrypt = λ cipher nonce plain. some plain;
  decrypt = λ cipher nonce bytes. some bytes;
}

-- A mark, and then the text.
abbrev texts_to_json : Value → Result String
texts_to_json (str s) = ok (str_append "T" s)
texts_to_json _ = err (operation_failed "not a text")

abbrev texts_from_json : String → Option Value
texts_from_json json = Option.map str (strip_prefix "T" json)

instance abbrev pub marked_texts : ValueCodec
marked_texts = record { value_to_json = texts_to_json; value_from_json = texts_from_json }

pub texts : TextsReadBack
texts = record {
  read_back = λ value json h.
      let e : json ≡ str_append "T" value = cc in
      ap texts_from_json e ∙ ap (Option.map str) (strip_prefix-append "T" value);
}

abbrev entry_at : WalOperation → WalEntry
entry_at op = record { timestamp = 7; operation = op }

-- The entries that have a byte.
abbrev by_byte : ℕ → Option WalEntry
by_byte b =
    if eqb b 1
    then some (entry_at (op_set "a" "T2" none))
    else if eqb b 2
    then some (entry_at (op_delete "b"))
    else if eqb b 3
    then some (entry_at (op_get_set "a" ""))
    else if eqb b 4
    then some (entry_at (op_set "" "T2" none))
    else if eqb b 5
    then some (entry_at (op_set "a" "T2" (some 3)))
    else none

abbrev unknown : Result Bytes
unknown = err (operation_failed "no byte for this entry")

abbrev coded : Bool → ℕ → Result Bytes → Result Bytes
coded known byte other = if known then ok (byte ∷ []) else other

abbrev to_byte : ℕ → WalOperation → Result Bytes
to_byte now (op_set key value none) =
    coded (eqb now 7 && (key == "a" && value == "T2")) 1
      (coded (eqb now 7 && (key == "" && value == "T2")) 4 unknown)
to_byte now (op_set key value (some ttl)) =
    coded (eqb now 7 && (key == "a" && (value == "T2" && eqb ttl 3))) 5 unknown
to_byte now (op_delete key) = coded (eqb now 7 && key == "b") 2 unknown
to_byte now (op_get_set key value) = coded (eqb now 7 && (key == "a" && value == "")) 3 unknown
to_byte now _ = unknown

abbrev parse_entry : Bytes → Option WalEntry
parse_entry [] = none
parse_entry (b ∷ bs) = if is_empty bs then by_byte b else none

instance abbrev pub entry_bytes : Codec
entry_bytes = record {
  to_vec = λ entry. to_byte entry.timestamp entry.operation;
  from_slice = parse_entry;
  is_utf8 = λ bs. true;
  is_blank = is_empty;
}

Reads : ℕ → WalOperation → Bytes → Type 0
Reads now op json =
    (b : ℕ) × (json ≡ b ∷ [])
    × (by_byte b ≡ some (record { timestamp = now; operation = op }))
    × (eqb b 10 ≡ false)
    × (eqb b 13 ≡ false)

text_read_back :
    (now : ℕ) (op : WalOperation) (json : Bytes) → to_byte now op ≡ ok json → Reads now op json
unfolding Reads
text_read_back now (op_set key value none) json h =
    elim (Bool-cases (eqb now 7 && (key == "a" && value == "T2"))) [
      | inl first ↦
          let k : key ≡ "a" = ground (arith, eq_iff key "a", first) in
          let v : value ≡ "T2" = ground (arith, eq_iff value "T2", first) in
          let t : now ≡ 7 = ground (arith, eqb_iff now 7, first) in
          (1, ground (arith, h, first), rw (t, k, v) refl, refl, refl)
      | inr later ↦ elim (Bool-cases (eqb now 7 && (key == "" && value == "T2"))) [
        | inl second ↦
            let k : key ≡ "" = ground (arith, eq_iff key "", second) in
            let v : value ≡ "T2" = ground (arith, eq_iff value "T2", second) in
            let t : now ≡ 7 = ground (arith, eqb_iff now 7, second) in
            (4, ground (arith, h, later, second), rw (t, k, v) refl, refl, refl)
        | inr other ↦ ground (arith, h, later, other)
      ]
    ]
text_read_back now (op_set key value (some ttl)) json h =
    elim (Bool-cases (eqb now 7 && (key == "a" && (value == "T2" && eqb ttl 3)))) [
      | inl known ↦
          let k : key ≡ "a" = ground (arith, eq_iff key "a", known) in
          let v : value ≡ "T2" = ground (arith, eq_iff value "T2", known) in
          let t : now ≡ 7 = ground (arith, eqb_iff now 7, known) in
          let l : ttl ≡ 3 = ground (arith, eqb_iff ttl 3, known) in
          (5, ground (arith, h, known), rw (t, k, v, l) refl, refl, refl)
      | inr other ↦ ground (arith, h, other)
    ]
text_read_back now (op_delete key) json h = elim (Bool-cases (eqb now 7 && key == "b")) [
  | inl known ↦
      let k : key ≡ "b" = ground (arith, eq_iff key "b", known) in
      let t : now ≡ 7 = ground (arith, eqb_iff now 7, known) in
      (2, ground (arith, h, known), rw (t, k) refl, refl, refl)
  | inr other ↦ ground (arith, h, other)
]
text_read_back now (op_get_set key value) json h =
    elim (Bool-cases (eqb now 7 && (key == "a" && value == ""))) [
      | inl known ↦
          let k : key ≡ "a" = ground (arith, eq_iff key "a", known) in
          let v : value ≡ "" = ground (arith, eq_iff value "", known) in
          let t : now ≡ 7 = ground (arith, eqb_iff now 7, known) in
          (3, ground (arith, h, known), rw (t, k, v) refl, refl, refl)
      | inr other ↦ ground (arith, h, other)
    ]
text_read_back now _ json h = cc

plain_line :
    (random : Option Bytes) (now b : ℕ) (op : WalOperation) (json line : Bytes)
    → json ≡ b ∷ []
    → by_byte b ≡ some (record { timestamp = now; operation = op })
    → eqb b 10 ≡ false
    → eqb b 13 ≡ false
    → encrypt random json ≡ inr line
    → Opens (record { timestamp = now; operation = op }) json line
unfolding encrypt encrypt_with decrypt key_from_env starts_with
plain_line random now b op json line j e n r h =
    let unsealed : json ≡ line = cc in
    let same : line ≡ b ∷ [] = cc in
    record {
      parses = rw j e;
      decrypts =
          rw (same, j) (elim (Bool-cases (eqb 68 b)) [ inl d ↦ rw d refl | inr d ↦ rw d refl ]);
      one_line = rw same (n, r, tt);
      utf8 = refl;
      not_blank = rw same refl;
    }

pub lossless : Lossless
unfolding Reads
lossless = record {
  opens = λ random entry json line v h.
      let (b, j, e, n, r) = text_read_back entry.timestamp entry.operation json v in
      plain_line random entry.timestamp b entry.operation json line j e n r h;
}

coded_returns :
    (known : Bool) (b : ℕ) (rest : Result Bytes)
    → is_panic rest ≡ false
    → is_panic (coded known b rest) ≡ false
coded_returns true b rest h = refl
coded_returns false b rest h = h

pub to_byte_returns : (now : ℕ) (op : WalOperation) → is_panic (to_byte now op) ≡ false
to_byte_returns now (op_set key value none) = search coded_returns
to_byte_returns now (op_set key value (some ttl)) = search coded_returns
to_byte_returns now (op_delete key) = search coded_returns
to_byte_returns now (op_get_set key value) = search coded_returns
to_byte_returns now _ = refl
