-- ===== src/Api/Hashes.antt =====
-- api.rs: the handlers of the hash operations.
use daikon.Prelude.{String, Option, none, some, List, [], ◌∷◌}
use daikon.Prelude.Int.{ℤ}
use daikon.Platform.{Platform}
use daikon.Error.{Result, ok, err, panic, error_text}
use daikon.HashMap.{HashMap}
use daikon.Store.Hashes.{
  hset, hdel, hincrby, hincrbyfloat, hget, hmget, hgetall, hkeys, hvals, hlen, hexists,
}
use daikon.Crypto.{Cipher}
use daikon.Wal.{Codec, op_hset, op_hdel, op_hincr_by}
use daikon.Json.{
  JsonValue, json_bool, json_nat, json_int, json_float, json_text, json_object, json_option,
  json_list,
}
use daikon.Api.{
  Request, Response, empty, Handler, success, bad_request, not_found, no_response, answer, guarded,
  writing, reading, logged, wal_error,
}

module _ ⦃P : Platform⦄ where
  found : Option String → Response
  found (some value) = success (json_text value)
  found none = not_found empty

  unfoldable pub hash_hget : Request → String → String → Handler
  unfolding found
  hash_hget req key field =
      guarded req (reading λ s. answer found bad_request (hget req.now key field s))

  unfoldable pub hash_hmget : Request → String → List String → Handler
  hash_hmget req key fields = guarded req (
      reading λ s.
        answer (λ values. success (json_list (json_option json_text) values)) bad_request
          (hmget req.now key fields s))

  -- A map as an object: its fields with their values.
  abbrev json_map : HashMap String → List (String × JsonValue)
  json_map [] = []
  json_map ((field, value) ∷ fields) = (field, json_text value) ∷ json_map fields

  unfoldable pub hash_hgetall : Request → String → Handler
  hash_hgetall req key = guarded req (
      reading λ s.
        answer (λ fields. success (json_object (json_map fields))) bad_request
          (hgetall req.now key s))

  unfoldable pub hash_hkeys : Request → String → Handler
  hash_hkeys req key = guarded req (
      reading
        λ s. answer (λ keys. success (json_list json_text keys)) bad_request (hkeys req.now key s))

  unfoldable pub hash_hvals : Request → String → Handler
  hash_hvals req key = guarded req (
      reading λ s.
        answer
          (λ values.
            success
              (json_object (("key", json_text key) ∷ ("values", json_list json_text values) ∷ [])))
          bad_request (hvals req.now key s))

  unfoldable pub hash_hlen : Request → String → Handler
  hash_hlen req key =
      guarded req (reading λ s. answer (λ n. success (json_nat n)) bad_request (hlen req.now key s))

  unfoldable pub hash_hexists : Request → String → String → Handler
  hash_hexists req key field = guarded req (
      reading λ s.
        answer
          (λ there. success (
            json_object (
              ("key", json_text key)
              ∷ ("field", json_text field)
              ∷ ("exists", json_bool there)
              ∷ [])))
          bad_request (hexists req.now key field s))

module _ ⦃P : Platform⦄ ⦃C : Cipher⦄ ⦃S : Codec⦄ where
  unfoldable pub hash_hset : Request → String → HashMap String → Handler
  hash_hset req key fields = guarded req (
      logged wal_error req (op_hset key fields)
        (writing (hset key fields) (answer (λ added. success (json_nat added)) bad_request)))

  unfoldable pub hash_hdel : Request → String → List String → Handler
  hash_hdel req key fields = guarded req (
      logged wal_error req (op_hdel key fields)
        (writing (hdel key fields) (answer (λ removed. success (json_nat removed)) bad_request)))

  unfoldable pub hash_hincrby : Request → String → String → ℤ → Handler
  hash_hincrby req key field amount = guarded req (
      logged wal_error req (op_hincr_by key field amount)
        (writing (hincrby key field amount) (answer (λ n. success (json_int n)) bad_request)))

  -- The store comes first here, and the log gets its result: where that fails, the new value stays.
  unfoldable pub log_float : Request → String → String → Result P.Float → Handler
  log_float req key field (ok value) a =
      logged wal_error req (op_hset key ((field, P.float_text value) ∷ []))
        (λ a. (
          success (
              json_object (
                ("key", json_text key)
                ∷ ("field", json_text field)
                ∷ ("value", json_float value)
                ∷ [])),
          a,
        ))
        a
  log_float req key field (err e) a = (bad_request (error_text e), a)
  log_float req key field panic a = (no_response, a)

  unfoldable pub hash_hincrbyfloat : Request → String → String → P.Float → Handler
  unfolding log_float
  hash_hincrbyfloat req key field amount = guarded req λ a.
      let (value, s) = hincrbyfloat key field amount a.store in
      log_float req key field value (record a { store = s })
