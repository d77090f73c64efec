-- ===== src/Crypto/Roundtrip.antt =====
-- What crypto.rs encrypts, it decrypts.
use daikon.Prelude.{
  true, false, ◌≤◌, ◌≡◌, refl, ap, Option, none, some, [], ◌∷◌, ◌++◌, length, length-append, take,
  drop, arith, inr, ltb-eq-false,
}
use daikon.Crypto.{
  Bytes, Cipher, ◌>>=◌, prefix, nonce_size, starts_with, key_from_env, seal, encrypt_with, encrypt,
  open_payload, decrypt_with, decrypt,
}

starts_with-append : (p bs : Bytes) → starts_with p (p ++ bs) ≡ true
unfolding starts_with
starts_with-append [] bs = refl
starts_with-append (b ∷ p) bs = ground (arith, starts_with-append p bs)

drop-append : (xs ys : Bytes) → drop (length xs) (xs ++ ys) ≡ ys
drop-append [] ys = refl
drop-append (x ∷ xs) ys = drop-append xs ys

take-append : (xs ys : Bytes) → take (length xs) (xs ++ ys) ≡ xs
take-append [] ys = refl
take-append (x ∷ xs) ys = ap (λ l. x ∷ l) (take-append xs ys)

module _ ⦃C : Cipher⦄ where
  -- Without a key nothing is encrypted, and a text that does not look encrypted comes back.
  pub decrypt-encrypt_plain :
      (random : Option Bytes) (plain : Bytes)
      → key_from_env ≡ inr none
      → starts_with prefix plain ≡ false
      → encrypt random plain >>= decrypt ≡ inr plain
  unfolding encrypt encrypt_with decrypt
  decrypt-encrypt_plain random plain no_key other = rw (no_key, other) refl

  encrypt-eq :
      (key nonce plain ciphertext : Bytes) (cipher : C.Aes)
      → key_from_env ≡ inr (some key)
      → C.new_from_slice key ≡ some cipher
      → length nonce ≡ nonce_size
      → C.encrypt cipher nonce plain ≡ some ciphertext
      → encrypt (some nonce) plain ≡ inr (prefix ++ C.base64_encode (nonce ++ ciphertext))
  unfolding encrypt encrypt_with seal
  encrypt-eq key nonce plain ciphertext cipher k c n e = rw (k, c, n, e) refl

  open_payload-eq :
      (key nonce plain ciphertext : Bytes) (cipher : C.Aes)
      → C.new_from_slice key ≡ some cipher
      → length nonce ≡ nonce_size
      → C.decrypt cipher nonce ciphertext ≡ some plain
      → open_payload key (nonce ++ ciphertext) ≡ inr plain
  unfolding open_payload
  open_payload-eq key nonce plain ciphertext cipher c n d =
      let front : take 12 (nonce ++ ciphertext) ≡ nonce = rw n at (take-append nonce ciphertext) in
      let back : drop 12 (nonce ++ ciphertext) ≡ ciphertext =
        rw n at (drop-append nonce ciphertext) in
      let long : 12 ≤ length (nonce ++ ciphertext) =
        omega (arith, length-append nonce ciphertext) in
      rw (ltb-eq-false (length (nonce ++ ciphertext)) 12 long, c, front, n, back, d) refl

  -- With a key, what `encrypt` gives with a nonce decrypts to the bytes encrypted, when base64 and
  -- the cipher under that key and nonce decode what they encode.
  pub decrypt-encrypt :
      (key nonce plain ciphertext : Bytes) (cipher : C.Aes)
      → key_from_env ≡ inr (some key)
      → C.new_from_slice key ≡ some cipher
      → length nonce ≡ nonce_size
      → C.encrypt cipher nonce plain ≡ some ciphertext
      → C.decrypt cipher nonce ciphertext ≡ some plain
      → C.base64_decode (C.base64_encode (nonce ++ ciphertext)) ≡ some (nonce ++ ciphertext)
      → encrypt (some nonce) plain >>= decrypt ≡ inr plain
  unfolding decrypt decrypt_with
  decrypt-encrypt key nonce plain ciphertext cipher k c n e d b =
      let encoded = C.base64_encode (nonce ++ ciphertext) in
      let opened = open_payload-eq key nonce plain ciphertext cipher c n d in
      rw
        (
          encrypt-eq key nonce plain ciphertext cipher k c n e,
          starts_with-append prefix encoded,
          k,
          b,
          opened,
        )
        refl
