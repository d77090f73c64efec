-- ===== src/Api/Writes/Validity.antt =====
-- The handlers that log each change before they make it, and the invariants of the store and of the
-- channels.
use daikon.Prelude.{ℕ, zero, suc, String, Option, none, some, Bool-cases, inl, inr, eqb}
use daikon.Platform.{Platform}
use daikon.Error.{Result, ok, err, panic}
use daikon.Store.Strings.{incr, decr}
use daikon.Store.Strings.Validity.{delete-IsValid, incrby-IsValid, append-IsValid}
use daikon.Store.Expiry.Validity.{expire-IsValid, persist-IsValid}
use daikon.Store.Lists.Validity.{lpush-IsValid, rpush-IsValid, lpop-IsValid, rpop-IsValid}
use daikon.Store.Hashes.Validity.{hset-IsValid, hdel-IsValid, hincrby-IsValid}
use daikon.Crypto.{Cipher}
use daikon.Wal.{Codec}
use daikon.Json.{ValueCodec}
use daikon.Api.{Request, Handler}
use daikon.Api.Strings.{
  SetRequest, set_value, set_serialized, refuse_zero_ttl, delete_value, incr_value, decr_value,
  incrby_value, append_value,
}
use daikon.Api.Strings.Stored.{store_value-IsValid}
use daikon.Api.Expiry.{set_expire, persist_key}
use daikon.Api.Lists.{list_lpush, list_rpush, list_lpop, list_rpop}
use daikon.Api.Hashes.{hash_hset, hash_hdel, hash_hincrby}
use daikon.Api.Writes.{
  Write, write_set, write_delete, write_incr, write_decr, write_incr_by, write_append, write_expire,
  write_persist, write_lpop, write_rpop, write_lpush, write_rpush, write_hdel, write_hset,
  write_hincr_by, handle,
}
use daikon.Api.Validity.{
  KeepsApp, KeepsApp-guarded, KeepsApp-logged, KeepsApp-publishing, KeepsApp-writing,
  KeepsApp-changing, app_rules,
}

module _ ⦃P : Platform⦄ ⦃C : Cipher⦄ ⦃S : Codec⦄ ⦃V : ValueCodec⦄ where
  set_serialized-IsValid :
      (req : Request) (key : String) (body : SetRequest) (json : Result String)
      → KeepsApp (set_serialized req key body json)
  unfolding set_serialized
  set_serialized-IsValid req key body (ok json) = record {
    after = λ a v.
        (KeepsApp-logged _ req _ _ (
            KeepsApp-publishing req _ (
              KeepsApp-writing _ _
                (store_value-IsValid req.now key body.value body.ttl_secs)))).after
          a v;
  }
  set_serialized-IsValid req key body (err e) = record { after = λ a v. v }
  set_serialized-IsValid req key body panic = record { after = λ a v. v }

  refuse-IsValid :
      (message : String) (ttl_secs : Option ℕ) (h : Handler)
      → KeepsApp h
      → KeepsApp (refuse_zero_ttl message ttl_secs h)
  unfolding refuse_zero_ttl
  refuse-IsValid message none h k = record { after = λ a v. k.after a v }
  refuse-IsValid message (some zero) h k = record { after = λ a v. v }
  refuse-IsValid message (some (suc n)) h k = record { after = λ a v. k.after a v }

  pub handle-IsValid : (req : Request) (w : Write) → KeepsApp (handle req w)
  unfolding set_value delete_value incr_value decr_value incrby_value append_value set_expire
      persist_key list_lpush list_rpush list_lpop list_rpop hash_hset hash_hdel hash_hincrby incr
      decr
  handle-IsValid req (write_set key body) =
      KeepsApp-guarded req _
        (refuse-IsValid _ body.ttl_secs _ (set_serialized-IsValid req key body _))
  handle-IsValid req (write_delete key) = search (app_rules, delete-IsValid) depth 8
  handle-IsValid req (write_incr key) = search (app_rules, incrby-IsValid) depth 8
  handle-IsValid req (write_decr key) = search (app_rules, incrby-IsValid) depth 8
  handle-IsValid req (write_incr_by key amount) = search (app_rules, incrby-IsValid) depth 8
  handle-IsValid req (write_append key value) = search (app_rules, append-IsValid) depth 8
  handle-IsValid req (write_expire key ttl_secs) = KeepsApp-guarded req _ (record {
    after = λ a v. elim (Bool-cases (eqb ttl_secs 0)) [
      | inl no_ttl ↦ rw no_ttl v
      | inr later ↦ rw later (
          (KeepsApp-logged _ req _ _ (
              KeepsApp-publishing req _
                (KeepsApp-changing _ _ (expire-IsValid req.now key ttl_secs)))).after
            a v)
    ];
  })
  handle-IsValid req (write_persist key) = search (app_rules, persist-IsValid) depth 8
  handle-IsValid req (write_lpop key) = search (app_rules, lpop-IsValid) depth 8
  handle-IsValid req (write_rpop key) = search (app_rules, rpop-IsValid) depth 8
  handle-IsValid req (write_lpush key values) = search (app_rules, lpush-IsValid) depth 8
  handle-IsValid req (write_rpush key values) = search (app_rules, rpush-IsValid) depth 8
  handle-IsValid req (write_hdel key fields) = search (app_rules, hdel-IsValid) depth 8
  handle-IsValid req (write_hset key fields) = search (app_rules, hset-IsValid) depth 8
  handle-IsValid req (write_hincr_by key field amount) = search (app_rules, hincrby-IsValid) depth 8
