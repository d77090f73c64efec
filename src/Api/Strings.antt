-- ===== src/Api/Strings.antt =====
-- api.rs: the handlers of the text and number operations.
pub mod Stored
use daikon.Prelude.{
  ℕ, zero, String, Bool, true, false, Option, none, some, List, [], ◌∷◌, format, map,
}
use daikon.Prelude.Int.{ℤ}
use daikon.Platform.{Platform}
use daikon.Error.{Result, ok, err, panic, error_text}
use daikon.Value.{Value, str, display}
use daikon.Store.{KvStore, get}
use daikon.Store.Strings.{
  set, set_with_ttl, delete, incr, decr, incrby, append, getset, mget, mset, exists,
}
use daikon.Store.Scan.{keys, iter}
use daikon.Exec.{Exec}
use daikon.Crypto.{Cipher}
use daikon.Wal.{
  Codec, op_set, op_delete, op_incr, op_decr, op_incr_by, op_append, op_get_set, op_mset,
}
use daikon.Json.{
  JsonValue, ValueCodec, json_null, json_bool, json_nat, json_int, json_text, json_object,
  json_option, json_list,
}
use daikon.Api.{
  Request, Response, response, text, json, App, Handler, success, bad_request, not_found,
  internal_error, no_response, answer, guarded, writing, changing, reading, publishing, logged,
  failed_to_log,
}

-- `SetRequest`, of `set_value` and `getset_value`.
pub record SetRequest : Type 0 where
  pub value : String
  pub ttl_secs : Option ℕ

abbrev missing : String → String
missing key = format ("Key '" ∷ key ∷ "' not found" ∷ [])

module _ ⦃P : Platform⦄ where
  -- The branches on `ttl_secs`.
  unfoldable pub store_value : ℕ → String → String → Option ℕ → Exec KvStore (Unit {0})
  store_value now key value none = set now key (str value)
  store_value now key value (some ttl) = set_with_ttl now key (str value) ttl

  unfoldable found : String → Option Value → Response
  found key (some value) = success (json_text (display value))
  found key none = not_found (text (missing key))

  unfoldable pub get_value : Request → String → Handler
  unfolding found
  get_value req key = reading λ s. found key (get req.now key s)

  unfoldable pub list_keys : Request → Handler
  list_keys req = reading λ s. success (
      json_object (
        ("keys", json_list (λ e. json_text e.0) (iter req.now s))
        ∷ ("values", json_list (λ e. json_text (display e.1)) (iter req.now s))
        ∷ []))

  unfoldable pub exists_key : Request → String → Handler
  exists_key req key = reading λ s. success (json_bool (exists req.now key s))

  unfoldable pub keys_pattern : Request → String → Handler
  keys_pattern req pattern = reading λ s. success (json_list json_text (keys req.now pattern s))

  abbrev pub optional_text : Option Value → JsonValue
  optional_text = json_option (λ value. json_text (display value))

  unfoldable pub mget_values : Request → List String → Handler
  mget_values req keys = reading λ s. success (json_list optional_text (mget req.now keys s))

module _ ⦃P : Platform⦄ ⦃C : Cipher⦄ ⦃S : Codec⦄ where
  -- A TTL of 0 is refused; the entry holds the value as JSON.
  unfoldable pub set_serialized : Request → String → SetRequest → Result String → Handler
  set_serialized req key body (ok value_json) a =
      logged failed_to_log req (op_set key value_json body.ttl_secs)
        (publishing req (
          writing (store_value req.now key body.value body.ttl_secs) (
            answer (λ done. response 200 (text (format ("Set '" ∷ key ∷ "' successfully" ∷ []))))
              bad_request)))
        a
  set_serialized req key body (err e) a =
      (internal_error (format ("Failed to serialize value: " ∷ error_text e ∷ [])), a)
  set_serialized req key body panic a = (no_response, a)

  unfoldable pub refuse_zero_ttl : String → Option ℕ → Handler → Handler
  refuse_zero_ttl message (some zero) handler a = (bad_request message, a)
  refuse_zero_ttl message ttl handler a = handler a

  module _ ⦃V : ValueCodec⦄ where
    unfoldable pub set_value : Request → String → SetRequest → Handler
    unfolding set_serialized refuse_zero_ttl
    set_value req key body = guarded req (
        refuse_zero_ttl "ttl_secs must be greater than 0 when provided" body.ttl_secs
          (set_serialized req key body (V.value_to_json (str body.value))))

  unfoldable deleted : String → Option Value → Response
  deleted key (some value) =
      response 200 (text (format ("Deleted '" ∷ key ∷ "' successfully" ∷ [])))
  deleted key none = not_found (text (missing key))

  unfoldable pub delete_value : Request → String → Handler
  unfolding deleted
  delete_value req key = guarded req (
      logged failed_to_log req (op_delete key)
        (publishing req (changing (delete req.now key) (deleted key))))

  abbrev new_value : Result ℤ → Response
  new_value = answer (λ n. success (json_int n)) bad_request

  unfoldable pub incr_value : Request → String → Handler
  incr_value req key =
      guarded req (logged failed_to_log req (op_incr key) (writing (incr key) new_value))

  unfoldable pub decr_value : Request → String → Handler
  decr_value req key =
      guarded req (logged failed_to_log req (op_decr key) (writing (decr key) new_value))

  unfoldable pub incrby_value : Request → String → ℤ → Handler
  incrby_value req key amount =
      guarded req
        (logged failed_to_log req (op_incr_by key amount) (writing (incrby key amount) new_value))

  unfoldable pub append_value : Request → String → String → Handler
  append_value req key value = guarded req (
      logged failed_to_log req (op_append key value)
        (writing (append req.now key value) (answer (λ n. success (json_nat n)) bad_request)))

  -- The TTL of the request is not used.
  unfoldable pub getset_value : Request → String → SetRequest → Handler
  getset_value req key body = guarded req (
      logged failed_to_log req (op_get_set key body.value) (
        writing (getset req.now key (str body.value))
          (answer (λ old. success (optional_text old)) bad_request)))

  unfoldable pub mset_values : Request → List (String × String) → Handler
  mset_values req pairs = guarded req (
      logged failed_to_log req (op_mset pairs)
        (writing (mset req.now pairs) (answer (λ done. response 200 (text "OK")) bad_request)))
