-- ===== src/Crypto.antt =====
-- crypto.rs: encryption at rest. Bytes are numbers. The environment variable, `hex`, `base64`,
-- `aes_gcm` and `getrandom` are outside the repository, and so parameters.
pub mod Roundtrip
use daikon.Prelude.{
  ℕ, String, Bool, true, false, Option, none, some, List, [], ◌∷◌, ◌++◌, length, take, drop, ltb,
  eqb, if◌then◌else◌, ◌⊎◌, inl, inr,
}

abbrev pub Bytes : Type 0
Bytes = List ℕ

pub record Cipher : Type 1 where
  -- `KV_AT_REST_KEY`, with `trim().is_empty()` of a text.
  pub env_key : Option String
  pub is_blank : String → Bool
  pub hex_decode : String → Option Bytes
  pub base64_decode_text : String → Option Bytes
  pub base64_encode : Bytes → Bytes
  pub base64_decode : Bytes → Option Bytes
  pub Aes : Type 0
  pub new_from_slice : Bytes → Option Aes
  pub encrypt : Aes → Bytes → Bytes → Option Bytes
  pub decrypt : Aes → Bytes → Bytes → Option Bytes

-- `Result<A, String>`: a message or a value.
abbrev pub Outcome : Type 0 → Type 0
Outcome A = String ⊎ A

infixl 5 ◌>>=◌
abbrev pub ◌>>=◌ : {A B : Type 0} → Outcome A → (A → Outcome B) → Outcome B
inl message >>= f = inl message
inr a >>= f = f a

abbrev pub ok_or : {A : Type 0} → String → Option A → Outcome A
ok_or message none = inl message
ok_or message (some a) = inr a

abbrev pub or_else : {A : Type 0} → Option A → Option A → Option A
or_else none b = b
or_else (some a) b = some a

-- DAIKON-ENC1:
abbrev pub prefix : Bytes
prefix = 68 ∷ 65 ∷ 73 ∷ 75 ∷ 79 ∷ 78 ∷ 45 ∷ 69 ∷ 78 ∷ 67 ∷ 49 ∷ 58 ∷ []

abbrev pub nonce_size : ℕ
nonce_size = 12

unfoldable pub starts_with : Bytes → Bytes → Bool
starts_with [] bs = true
starts_with (p ∷ ps) [] = false
starts_with (p ∷ ps) (b ∷ bs) = let rest = starts_with ps bs in if eqb p b then rest else false

module _ ⦃C : Cipher⦄ where
  -- `decoded.try_into()` to 32 bytes.
  abbrev sized_key : Bytes → Outcome (Option Bytes)
  sized_key decoded =
      if eqb (length decoded) 32
      then inr (some decoded)
      else inl "KV_AT_REST_KEY must decode to exactly 32 bytes"

  key_from_text : Option String → Outcome (Option Bytes)
  key_from_text none = inr none
  key_from_text (some raw) =
      if C.is_blank raw
      then inr none
      else ok_or "KV_AT_REST_KEY must be 32-byte hex or base64"
          (or_else (C.hex_decode raw) (C.base64_decode_text raw))
        >>= sized_key

  unfoldable pub key_from_env : Outcome (Option Bytes)
  unfolding key_from_text
  key_from_env = key_from_text C.env_key

  is_key : Outcome (Option Bytes) → Bool
  is_key (inr (some key)) = true
  is_key _ = false

  unfoldable pub enabled : Bool
  unfolding is_key
  enabled = is_key key_from_env

  -- `Nonce::try_from`: a nonce has 12 bytes.
  abbrev pub nonce_from : String → Bytes → Outcome Bytes
  nonce_from message bs = if eqb (length bs) nonce_size then inr bs else inl message

  unfoldable pub seal : Option Bytes → Bytes → Bytes → Outcome Bytes
  seal random plain key = ok_or "invalid encryption key" (C.new_from_slice key) >>= λ cipher.
      ok_or "random nonce generation failed" random >>= λ nonce_bytes.
      nonce_from "invalid nonce" nonce_bytes >>= λ nonce.
      ok_or "encryption failed" (C.encrypt cipher nonce plain) >>= λ ciphertext.
      inr (prefix ++ C.base64_encode (nonce_bytes ++ ciphertext))

  unfoldable pub encrypt_with : Option Bytes → Bytes → Option Bytes → Outcome Bytes
  encrypt_with random plain none = inr plain
  encrypt_with random plain (some key) = seal random plain key

  -- `random`: what `getrandom::fill` puts into the 12 bytes, or its failure.
  unfoldable pub encrypt : Option Bytes → Bytes → Outcome Bytes
  encrypt random plain = key_from_env >>= encrypt_with random plain

  unfoldable pub open_payload : Bytes → Bytes → Outcome Bytes
  open_payload key payload =
      if ltb (length payload) nonce_size
      then inl "invalid encrypted data"
      else ok_or "invalid encryption key" (C.new_from_slice key) >>= λ cipher.
          nonce_from "invalid encrypted data" (take nonce_size payload) >>= λ nonce.
          ok_or "decryption failed; check KV_AT_REST_KEY"
            (C.decrypt cipher nonce (drop nonce_size payload))

  unfoldable pub decrypt_with : Bytes → Option Bytes → Outcome Bytes
  decrypt_with plain none = inl "encrypted data requires KV_AT_REST_KEY"
  decrypt_with plain (some key) =
      ok_or "invalid encrypted data" (C.base64_decode (drop (length prefix) plain))
      >>= open_payload key

  unfoldable pub decrypt : Bytes → Outcome Bytes
  decrypt plain =
      if starts_with prefix plain then key_from_env >>= decrypt_with plain else inr plain
