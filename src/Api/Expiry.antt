-- ===== src/Api/Expiry.antt =====
-- api.rs: the handlers of the operations on expiry times, and of MULTI, EXEC and DISCARD.
use daikon.Prelude.{ℕ, String, Bool, true, false, [], ◌∷◌, eqb, if◌then◌else◌}
use daikon.Platform.{Platform}
use daikon.Store.Expiry.{expire, persist, ttl_seconds, pttl_millis, cleanup_expired}
use daikon.Store.Transactions
use daikon.Crypto.{Cipher}
use daikon.Wal.{Codec, op_expire, op_persist}
use daikon.Json.{json_bool, json_nat, json_int, json_text, json_object, json_list}
use daikon.Api.{
  Request, Response, response, json, Handler, success, bad_request, not_found, answer, guarded,
  writing, changing, reading, publishing, logged, failed_to_log,
}

module _ ⦃P : Platform⦄ where
  unfoldable pub cleanup_expired_keys : Request → Handler
  cleanup_expired_keys req =
      guarded req (
        publishing req (changing (cleanup_expired req.now) (λ removed. success (json_nat removed))))

  unfoldable pub get_ttl : Request → String → Handler
  get_ttl req key = reading λ s. success (json_int (ttl_seconds req.now key s))

  unfoldable pub get_pttl : Request → String → Handler
  get_pttl req key = reading λ s. success (json_int (pttl_millis req.now key s))

  abbrev changed : Bool → Response
  changed true = success (json_bool true)
  changed false = not_found (json (json_bool false))

module _ ⦃P : Platform⦄ ⦃C : Cipher⦄ ⦃S : Codec⦄ where
  unfoldable pub set_expire : Request → String → ℕ → Handler
  set_expire req key ttl_secs = guarded req λ a.
      if eqb ttl_secs 0
      then (bad_request "ttl_secs must be greater than 0", a)
      else logged failed_to_log req (op_expire key ttl_secs)
          (publishing req (changing (expire req.now key ttl_secs) changed)) a

  unfoldable pub persist_key : Request → String → Handler
  persist_key req key = guarded req (
      logged failed_to_log req (op_persist key)
        (publishing req (changing (persist req.now key) changed)))

module _ ⦃P : Platform⦄ where
  abbrev error_object : String → Response
  error_object message = response 400 (json (json_object (("error", json_text message) ∷ [])))

  abbrev pub ok_message : String → Response
  ok_message message =
      success (json_object (("status", json_text "OK") ∷ ("message", json_text message) ∷ []))

  unfoldable pub multi : Request → Handler
  multi req =
      guarded req (
        writing Transactions.multi (answer (λ done. ok_message "Transaction started") error_object))

  unfoldable pub exec : Request → Handler
  exec req = guarded req (
      writing Transactions.exec (
        answer (λ results. success (json_object (("results", json_list json_text results) ∷ [])))
          error_object))

  unfoldable pub discard : Request → Handler
  discard req = guarded req (
      writing Transactions.discard
        (answer (λ done. ok_message "Transaction discarded") error_object))
