-- ===== src/Error.antt =====
-- error.rs: `KvStoreError`, with `IoError` and `SerializationError` carrying the text of the error
-- that they wrap. `panic` is a Rust panic: an index out of range.
use daikon.Prelude.{ℕ, String, [], ◌∷◌, format, decimal}

pub data KvStoreError : Type 0 where
  key_not_found : String → KvStoreError
  type_mismatch : String → String → String → KvStoreError
  key_too_large : ℕ → ℕ → KvStoreError
  value_too_large : ℕ → ℕ → KvStoreError
  memory_limit_exceeded : ℕ → ℕ → KvStoreError
  invalid_key : String → KvStoreError
  invalid_value : String → KvStoreError
  io_error : String → KvStoreError
  serialization_error : String → KvStoreError
  data_corruption : String → KvStoreError
  read_only : KvStoreError
  replication_error : String → KvStoreError
  operation_failed : String → KvStoreError

-- `to_string`
unfoldable pub error_text : KvStoreError → String
error_text (key_not_found key) = format ("Key '" ∷ key ∷ "' not found" ∷ [])
error_text (type_mismatch key expected got) =
    format ("Type mismatch for key '" ∷ key ∷ "': expected " ∷ expected ∷ ", got " ∷ got ∷ [])
error_text (key_too_large size limit) =
    format ("Key too large: " ∷ decimal size ∷ " bytes (max: " ∷ decimal limit ∷ " bytes)" ∷ [])
error_text (value_too_large size limit) =
    format ("Value too large: " ∷ decimal size ∷ " bytes (max: " ∷ decimal limit ∷ " bytes)" ∷ [])
error_text (memory_limit_exceeded current limit) =
    format (
      "Memory limit exceeded: "
      ∷ decimal current
      ∷ " bytes (max: "
      ∷ decimal limit
      ∷ " bytes)"
      ∷ [])
error_text (invalid_key e) = format ("Invalid key: " ∷ e ∷ [])
error_text (invalid_value e) = format ("Invalid value: " ∷ e ∷ [])
error_text (io_error e) = format ("IO error: " ∷ e ∷ [])
error_text (serialization_error e) = format ("Serialization error: " ∷ e ∷ [])
error_text (data_corruption e) = format ("Data corruption detected: " ∷ e ∷ [])
error_text read_only = "Store is read-only"
error_text (replication_error e) = format ("Replication error: " ∷ e ∷ [])
error_text (operation_failed e) = format ("Operation failed: " ∷ e ∷ [])

pub data Result {ℓ} (A : Type ℓ) : Type ℓ where
  ok : A → Result A
  err : KvStoreError → Result A
  panic : Result A

-- `?`
infixl 5 ◌>>=◌ ◌>>◌
abbrev pub ◌>>=◌ {ℓ κ} : {A : Type ℓ} {B : Type κ} → Result A → (A → Result B) → Result B
ok a >>= f = f a
err e >>= f = err e
panic >>= f = panic

abbrev pub ◌>>◌ {ℓ} : {B : Type ℓ} → Result (Unit {0}) → Result B → Result B
m >> k = m >>= λ _. k
