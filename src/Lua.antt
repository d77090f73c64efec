-- ===== src/Lua.antt =====
-- lua.rs: scripts on the store. The interpreter is not in the repository: a script is what it asks
-- of the host, one call after the other, each next step depending on what the host answered.
pub mod Validity
use daikon.Prelude.{
  ℕ, ◌+◌, String, Bool, true, false, Option, none, some, is_some, List, [], ◌∷◌, format, map,
  decimal_i64, ltb, ◌==◌, if◌then◌else◌,
}
use daikon.Prelude.Int.{ℤ, pos}
use mathlib.Core.Option
use daikon.Platform.{Platform}
use daikon.Error.{KvStoreError, Result, ok, err, panic, error_text, operation_failed}
use daikon.Exec.{Exec, pure, gets, modify, ◌>>=◌, ◌>>◌}
use daikon.HashMap.{HashMap}
use daikon.Value.{Value, str, display}
use daikon.Store.{KvStore, get}
use daikon.Store.Strings.{set, set_with_ttl, delete, incr, exists}
use daikon.Store.Expiry.{ttl_seconds, pttl_millis}
use daikon.Store.Hashes.{hset, hget, hdel, hgetall}
use daikon.Crypto.{Bytes, Cipher}
use daikon.Wal
use daikon.Wal.{Attempt, WalOperation, Codec, new_entry, op_set, op_delete, op_incr}
use daikon.Json.{ValueCodec}

-- The functions that a script finds among its globals.
pub data HostCall : Type 0 where
  call_get call_delete call_incr call_exists call_ttl call_pttl call_hgetall call_print :
      String → HostCall
  call_set call_hget call_hdel : String → String → HostCall
  call_setex : String → String → ℕ → HostCall
  call_hset : String → String → String → HostCall

module _ ⦃P : Platform⦄ where
  pub data LuaValue : Type 0 where
    nil : LuaValue
    boolean : Bool → LuaValue
    integer : ℤ → LuaValue
    number : P.Float → LuaValue
    string : String → LuaValue
    -- A text that is not UTF-8.
    binary : LuaValue
    table : HashMap String → LuaValue
    other : LuaValue

  -- A script that ends with values or with an error, or that calls the host, whose error it may
  -- catch.
  pub data Script : Type 0 where
    returns : List LuaValue → Script
    raises : String → Script
    calls : HostCall → (Result LuaValue → Script) → Script

  unfoldable pub lua_value_to_string : LuaValue → String
  lua_value_to_string nil = "nil"
  lua_value_to_string (boolean true) = "true"
  lua_value_to_string (boolean false) = "false"
  lua_value_to_string (integer i) = decimal_i64 i
  lua_value_to_string (number x) = P.float_text x
  lua_value_to_string (string s) = s
  lua_value_to_string binary = "<binary>"
  lua_value_to_string (table fields) = "<complex>"
  lua_value_to_string other = "<complex>"

  -- The store and the log that the calls share, the number of calls of `append`, and what was printed.
  pub record Host : Type 0 where
    pub store : KvStore
    pub wal : Option Bytes
    pub entries : ℕ
    pub output : String

  abbrev pub mapped : {A B : Type 0} → (A → B) → Result A → Result B
  mapped f (ok a) = ok (f a)
  mapped f (err e) = err e
  mapped f panic = panic

  unfoldable pub on_store : {A B : Type 0} → (Result A → Result B) → Exec KvStore A → Exec Host B
  on_store f m h = let (r, s) = m h.store in (f r, record h { store = s })

  abbrev looked_up : {A : Type 0} → (KvStore → Result A) → Exec Host A
  looked_up f h = (f h.store, h)

  abbrev pub deleted : ℕ → String → Exec KvStore Bool
  deleted now key s = let (old, s') = delete now key s in (ok (is_some old), s')

  abbrev optional_string : Option String → LuaValue
  optional_string none = nil
  optional_string (some s) = string s

  -- `unwrap_or` of a result.
  unfoldable pub recovered : {A : Type 0} → A → Result A → Result A
  recovered default (ok a) = ok a
  recovered default (err e) = ok default
  recovered default panic = panic

  abbrev pub add_line : String → String → String
  add_line output line = if output == "" then line else format (output ∷ "\n" ∷ line ∷ [])

module _ ⦃P : Platform⦄ ⦃C : Cipher⦄ ⦃S : Codec⦄ where
  unfoldable pub after_append : Result (Unit {0}) × Bytes → Exec Host (Unit {0})
  after_append (r, file) h = (r, record h { wal = some file; entries = h.entries + 1 })

  unfoldable pub append_to : ℕ → (ℕ → Attempt) → WalOperation → Option Bytes → Exec Host (Unit {0})
  unfolding after_append
  append_to now attempts op none h = (ok tt, h)
  append_to now attempts op (some file) h =
      after_append (Wal.append (attempts h.entries) (new_entry now op) file) h

  -- `if let Some(wal) = wal { wal.append(&entry)?; }`
  unfoldable pub log_entry : ℕ → (ℕ → Attempt) → WalOperation → Exec Host (Unit {0})
  unfolding append_to
  log_entry now attempts op h = append_to now attempts op h.wal h

  module _ ⦃V : ValueCodec⦄ where
    -- `serde_json::to_string(…).unwrap_or_else(…)`
    abbrev serialized : String → Result String → String
    serialized value (ok json) = json
    serialized value _ = format ("\"" ∷ value ∷ "\"" ∷ [])

    abbrev pub json_of : String → String
    json_of value = serialized value (V.value_to_json (str value))

    -- A call. An error is the error of the operation, where the script gets its text.
    unfoldable pub host_call : ℕ → (ℕ → Attempt) → HostCall → Exec Host LuaValue
    host_call now attempts (call_get key) =
        gets λ h. optional_string (Option.map display (get now key h.store))
    host_call now attempts (call_set key value) = do
      log_entry now attempts (op_set key (json_of value) none)
      on_store (mapped (λ done. boolean true)) (set now key (str value))
    host_call now attempts (call_setex key value ttl_secs) = do
      log_entry now attempts (op_set key (json_of value) (some ttl_secs))
      on_store (mapped (λ done. boolean true)) (set_with_ttl now key (str value) ttl_secs)
    host_call now attempts (call_delete key) = do
      log_entry now attempts (op_delete key)
      on_store (mapped boolean) (deleted now key)
    host_call now attempts (call_incr key) = do
      log_entry now attempts (op_incr key)
      on_store (mapped integer) (incr key)
    host_call now attempts (call_exists key) = gets λ h. boolean (exists now key h.store)
    host_call now attempts (call_ttl key) = gets λ h. integer (ttl_seconds now key h.store)
    host_call now attempts (call_pttl key) = gets λ h. integer (pttl_millis now key h.store)
    host_call now attempts (call_hset key field value) =
        on_store (λ r. recovered (boolean false) (mapped (λ n. boolean true) r))
          (hset key ((field, value) ∷ []))
    host_call now attempts (call_hget key field) =
        looked_up λ s. recovered nil (mapped optional_string (hget now key field s))
    host_call now attempts (call_hdel key field) =
        on_store (λ r. recovered (boolean false) (mapped (λ n. boolean (ltb 0 n)) r))
          (hdel key (field ∷ []))
    host_call now attempts (call_hgetall key) =
        looked_up λ s. recovered (table []) (mapped table (hgetall now key s))
    host_call now attempts (call_print message) = do
      modify (λ h. record h { output = add_line h.output message })
      pure nil

    abbrev joined : List String → String
    joined [] = ""
    joined (s ∷ []) = s
    joined (s ∷ next ∷ rest) = format (s ∷ " " ∷ joined (next ∷ rest) ∷ [])

    -- What the script printed, and then its values.
    abbrev rendered : String → List LuaValue → String
    rendered output [] = output
    rendered output (value ∷ values) =
        add_line output (joined (map lua_value_to_string (value ∷ values)))

    abbrev failed : String → KvStoreError
    failed message = operation_failed (format ("Lua setup failed: " ∷ message ∷ []))

    unfoldable pub run_script : ℕ → (ℕ → Attempt) → Script → Exec Host String
    run_script now attempts (returns values) h = (ok (rendered h.output values), h)
    run_script now attempts (raises message) h =
        (err (failed (format ("Lua execution failed: " ∷ message ∷ []))), h)
    run_script now attempts (calls call next) h =
        let (r, h') = host_call now attempts call h in
        elim r [
          | ok value ↦ run_script now attempts (next (ok value)) h'
          | err e ↦ run_script now attempts (next (err e)) h'
          | panic ↦ (panic, h')
        ]

    unfoldable pub execute_script :
        ℕ → (ℕ → Attempt) → Script → Option Bytes → KvStore → Result String × Host
    execute_script now attempts script wal store =
        run_script now attempts script
          (record { store = store; wal = wal; entries = 0; output = "" })
