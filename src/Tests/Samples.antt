-- ===== src/Tests/Samples.antt =====
-- Code outside the repository at concrete functions, and a small store.
use daikon.Prelude.{
  ℕ, ◌+◌, ◌*◌, ◌/◌, ◌%◌, String, true, false, Option, none, some, [], ◌∷◌, len, replicate, ◌^◌,
  if◌then◌else◌, leb, ltb, decimal, u64_mod, arith, is_empty,
}
use daikon.Platform.{Platform}
use daikon.Error.{ok}
use daikon.Config.{default_config}
use daikon.Value.{str, list}
use daikon.Store.{KvStore, with_config}
use daikon.Crypto.{Bytes, Cipher}
use daikon.Pitr.{Archive}
use daikon.Wal.{WalEntry, op_delete, Codec}

-- Whole numbers for `f64`, and the length for the hash.
instance abbrev pub whole_numbers : Platform
whole_numbers = record {
  Json = String;
  json_text = λ j. j;
  Float = ℕ;
  float_lit = λ m d. m;
  float_of_nat = λ n. n;
  float_round = λ x. x;
  float_add = λ x y. x + y;
  float_mul = λ x y. x * y;
  float_div = λ x y. x / y;
  float_ln = λ x. x;
  float_pow2_neg = λ n. 1;
  float_leb = leb;
  float_ltb = ltb;
  float_text = decimal;
  float_parse = λ s. none;
  hash_value = λ s. len s * 2 ^ 54 % u64_mod;
  hash_value_lt = λ s. omega arith;
}

-- A key of 32 zeros, and a cipher that leaves the bytes as they are.
abbrev pub zeros : Bytes
zeros = replicate 32 0

instance abbrev pub no_cipher : Cipher
no_cipher = record {
  env_key = some "key";
  is_blank = λ s. false;
  hex_decode = λ s. some zeros;
  base64_decode_text = λ s. none;
  base64_encode = λ bs. bs;
  base64_decode = λ bs. some bs;
  Aes = Unit {0};
  new_from_slice = λ key. some tt;
  encrypt = λ cipher nonce plain. some plain;
  decrypt = λ cipher nonce bytes. some bytes;
}

-- One text for one entry: a deletion of "x" in the second that its byte tells.
abbrev pub parse_byte : Bytes → Option WalEntry
parse_byte [] = none
parse_byte (t ∷ bs) =
    if is_empty bs then some (record { timestamp = t; operation = op_delete "x" }) else none

instance abbrev pub byte_codec : Codec
byte_codec = record {
  to_vec = λ entry. ok (entry.timestamp ∷ []);
  from_slice = parse_byte;
  is_utf8 = λ bs. true;
  is_blank = is_empty;
}

abbrev pub nonce : Bytes
nonce = replicate 12 1

-- A store with the text "1" under a, one item under b, and c gone since the second 5.
abbrev pub small : KvStore
small = record (with_config default_config) {
  store =
      ("a", record { value = str "1"; expires_at = none })
      ∷ ("b", record { value = list ("x" ∷ "y" ∷ []); expires_at = none })
      ∷ ("c", record { value = str "3"; expires_at = some 5 })
      ∷ [];
  lru_order = "a" ∷ "b" ∷ "c" ∷ [];
}

-- Compression that leaves the bytes as they are, and one text for the small store.
instance abbrev pub no_compression : Archive
no_compression = record {
  gunzip = ok;
  unzstd = ok;
  parse_store = λ bs. ok small;
  gzip_bytes = ok;
  zstd_bytes = ok;
  store_json = λ s. ok (5 ∷ []);
}
