-- ===== src/Api/Writes.antt =====
-- The requests that change the store and write to the log, GETSET, MSET and HINCRBYFLOAT excepted,
-- and the state that a sequence of them leaves.
pub mod Validity
use daikon.Prelude.{ℕ, String, List, [], ◌∷◌, ◌≡◌}
use daikon.Prelude.Int.{ℤ}
use daikon.Platform.{Platform}
use daikon.Error.{ok}
use daikon.HashMap.{HashMap}
use daikon.Crypto.{Cipher}
use daikon.Wal.{Codec, whole}
use daikon.Json.{ValueCodec}
use daikon.Api.{Request, App, Handler}
use daikon.Api.Strings.{
  SetRequest, store_value, set_value, delete_value, incr_value, decr_value, incrby_value,
  append_value,
}
use daikon.Api.Expiry.{set_expire, persist_key}
use daikon.Api.Lists.{list_lpush, list_rpush, list_lpop, list_rpop}
use daikon.Api.Hashes.{hash_hset, hash_hdel, hash_hincrby}

pub data Write : Type 0 where
  write_set : String → SetRequest → Write
  write_delete write_incr write_decr : String → Write
  write_incr_by : String → ℤ → Write
  write_append : String → String → Write
  write_expire : String → ℕ → Write
  write_persist write_lpop write_rpop : String → Write
  write_lpush write_rpush write_hdel : String → List String → Write
  write_hset : String → HashMap String → Write
  write_hincr_by : String → String → ℤ → Write

module _ ⦃P : Platform⦄ where
  -- A SET that the store would not take fails the start of the server, so it is asked for here.
  abbrev pub Accepted : Request → Write → App → Type 0
  Accepted req (write_set key body) a =
      (store_value req.now key body.value body.ttl_secs a.store).0 ≡ ok tt
  Accepted req w a = Unit

module _ ⦃P : Platform⦄ ⦃C : Cipher⦄ ⦃S : Codec⦄ ⦃V : ValueCodec⦄ where
  abbrev pub handle : Request → Write → Handler
  handle req (write_set key body) = set_value req key body
  handle req (write_delete key) = delete_value req key
  handle req (write_incr key) = incr_value req key
  handle req (write_decr key) = decr_value req key
  handle req (write_incr_by key amount) = incrby_value req key amount
  handle req (write_append key value) = append_value req key value
  handle req (write_expire key ttl_secs) = set_expire req key ttl_secs
  handle req (write_persist key) = persist_key req key
  handle req (write_lpop key) = list_lpop req key
  handle req (write_rpop key) = list_rpop req key
  handle req (write_lpush key values) = list_lpush req key values
  handle req (write_rpush key values) = list_rpush req key values
  handle req (write_hdel key fields) = hash_hdel req key fields
  handle req (write_hset key fields) = hash_hset req key fields
  handle req (write_hincr_by key field amount) = hash_hincrby req key field amount

  -- The state after the requests, one after the other.
  abbrev pub serve : List (Request × Write) → App → App
  serve [] a = a
  serve ((req, w) ∷ ws) a = serve ws (handle req w a).1

  -- The write of the entry of the request is not cut off, whether or not it fails before it.
  abbrev pub Uncut : Request → Type 0
  Uncut req = (req.attempts 0).writing ≡ whole

  abbrev pub AllAccepted : List (Request × Write) → App → Type 0
  AllAccepted [] a = Unit
  AllAccepted ((req, w) ∷ ws) a = Uncut req × Accepted req w a × AllAccepted ws (handle req w a).1
