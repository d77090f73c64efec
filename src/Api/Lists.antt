-- ===== src/Api/Lists.antt =====
-- api.rs: the handlers of the list operations.
use daikon.Prelude.{ℕ, String, Option, List, [], ◌∷◌}
use daikon.Prelude.Int.{ℤ, pos, negsuc}
use mathlib.Core.Option
use daikon.Platform.{Platform}
use daikon.Error.{Result}
use daikon.Store.Lists.{lpush, rpush, lpop, rpop, lrange, llen}
use daikon.Crypto.{Cipher}
use daikon.Wal.{Codec, op_lpush, op_rpush, op_lpop, op_rpop}
use daikon.Json.{json_nat, json_text, json_object, json_option, json_list}
use daikon.Api.{
  Request, Response, Handler, success, bad_request, answer, guarded, writing, reading, logged,
  wal_error,
}

module _ ⦃P : Platform⦄ where
  abbrev push_length : String → Result ℕ → Response
  push_length key =
      answer (λ n. success (json_object (("key", json_text key) ∷ ("length", json_nat n) ∷ [])))
        bad_request

  abbrev popped : String → Result (Option String) → Response
  popped key =
      answer
        (λ value.
          success
            (json_object (("key", json_text key) ∷ ("value", json_option json_text value) ∷ [])))
        bad_request

  -- `query.start.unwrap_or(0)` and `query.stop.unwrap_or(-1)`
  abbrev pub start_or_first : Option ℤ → ℤ
  start_or_first start = Option.get_or start (pos 0)

  abbrev pub stop_or_last : Option ℤ → ℤ
  stop_or_last stop = Option.get_or stop (negsuc 0)

  unfoldable pub list_lrange : Request → String → Option ℤ → Option ℤ → Handler
  list_lrange req key start stop = guarded req (
      reading λ s.
        answer
          (λ values.
            success
              (json_object (("key", json_text key) ∷ ("values", json_list json_text values) ∷ [])))
          bad_request (lrange req.now key (start_or_first start) (stop_or_last stop) s))

  unfoldable pub list_llen : Request → String → Handler
  list_llen req key = guarded req (reading λ s. push_length key (llen req.now key s))

module _ ⦃P : Platform⦄ ⦃C : Cipher⦄ ⦃S : Codec⦄ where
  unfoldable pub list_lpush : Request → String → List String → Handler
  list_lpush req key values =
      guarded req
        (logged wal_error req (op_lpush key values) (writing (lpush key values) (push_length key)))

  unfoldable pub list_rpush : Request → String → List String → Handler
  list_rpush req key values =
      guarded req
        (logged wal_error req (op_rpush key values) (writing (rpush key values) (push_length key)))

  unfoldable pub list_lpop : Request → String → Handler
  list_lpop req key =
      guarded req (logged wal_error req (op_lpop key) (writing (lpop key) (popped key)))

  unfoldable pub list_rpop : Request → String → Handler
  list_rpop req key =
      guarded req (logged wal_error req (op_rpop key) (writing (rpop key) (popped key)))
