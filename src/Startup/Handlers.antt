-- ===== src/Startup/Handlers.antt =====
-- The effect of each handler of a request that writes.
use daikon.Prelude.{
  ℕ, zero, suc, String, ◌≡◌, refl, ap, ◌∙◌, Option, none, some, inl, inr, Bool-cases, eqb,
}
use daikon.Platform.{Platform}
use daikon.Error.{Result, ok, err, panic}
use daikon.Value.{str}
use daikon.Store.Strings.{incr, decr}
use daikon.Store.Quiet.{quiet}
use daikon.Store.Strings.Quiet.{delete-quiet, incrby-Steady, append-Steady}
use daikon.Store.Expiry.Quiet.{expire-quiet, persist-quiet}
use daikon.Store.Lists.Quiet.{lpush-Steady, rpush-Steady, lpop-Steady, rpop-Steady}
use daikon.Store.Hashes.Quiet.{hset-Steady, hdel-Steady, hincrby-Steady}
use daikon.Crypto.{Cipher}
use daikon.Wal.{Codec}
use daikon.Json.{ValueCodec}
use daikon.Api.{Request, App, Handler, writing}
use daikon.Api.Strings.{
  SetRequest, store_value, set_value, set_serialized, refuse_zero_ttl, delete_value, incr_value,
  decr_value, incrby_value, append_value,
}
use daikon.Api.Strings.Stored.{store_value-Steady}
use daikon.Api.Expiry.{set_expire, persist_key}
use daikon.Api.Lists.{list_lpush, list_rpush, list_lpop, list_rpop}
use daikon.Api.Hashes.{hash_hset, hash_hdel, hash_hincrby}
use daikon.Api.Writes.{
  Write, write_set, write_delete, write_incr, write_decr, write_incr_by, write_append, write_expire,
  write_persist, write_lpop, write_rpop, write_lpush, write_rpush, write_hdel, write_hset,
  write_hincr_by, Accepted, Uncut, handle,
}
use daikon.Startup.{restore, restore_set}
use daikon.Startup.Effect.{
  Effect, nothing, guarded-Effect, logged-Effect, publishing-Applies, written-Effect,
  published-Effect,
}

-- `serde_json` reads a text of the store back as it wrote it.
pub record TextsReadBack ⦃P : Platform⦄ ⦃V : ValueCodec⦄ : Type 0 where
  pub read_back :
      (value json : String)
      → V.value_to_json (str value) ≡ ok json
      → V.value_from_json json ≡ some (str value)

module _ ⦃P : Platform⦄ where
  pub restore_set-store_value :
      (now : ℕ) (key value : String) (ttl_secs : Option ℕ)
      → restore_set now key (some (str value)) ttl_secs ≡ store_value now key value ttl_secs
  unfolding restore_set store_value
  restore_set-store_value now key value none = refl
  restore_set-store_value now key value (some ttl) = refl

module _ ⦃P : Platform⦄ ⦃C : Cipher⦄ ⦃S : Codec⦄ ⦃V : ValueCodec⦄ (texts : TextsReadBack) where
  set_serialized-Effect :
      (req : Request) (key : String) (body : SetRequest) (a : App)
      → Uncut req
      → Accepted req (write_set key body) a
      → (value_json : Result String) → V.value_to_json (str body.value) ≡ value_json
      → Effect req a ((set_serialized req key body value_json a).1)
  unfolding set_serialized restore
  set_serialized-Effect req key body a uncut accepted (ok json) e =
      logged-Effect _ req _ a _ uncut (
        publishing-Applies req _ a.store _ (
          unfold writing in
          record {
            keeps_wal = λ b. refl;
            restores = λ b same.
                rw (same, texts.read_back body.value json e)
                  (ap (λ m. m (quiet a.store))
                      (restore_set-store_value req.now key body.value body.ttl_secs)
                    ∙ (store_value-Steady req.now key body.value body.ttl_secs).after a.store
                    ∙ ap
                        (λ r.
                          (r, quiet (store_value req.now key body.value body.ttl_secs a.store).1))
                        accepted);
          }))
  set_serialized-Effect req key body a uncut accepted (err x) e = nothing refl refl
  set_serialized-Effect req key body a uncut accepted panic e = nothing refl refl

  refuse-Effect :
      (req : Request) (message : String) (ttl_secs : Option ℕ) (h : Handler) (a : App)
      → Effect req a ((h a).1)
      → Effect req a ((refuse_zero_ttl message ttl_secs h a).1)
  unfolding refuse_zero_ttl
  refuse-Effect req message none h a e = e
  refuse-Effect req message (some zero) h a e = nothing refl refl
  refuse-Effect req message (some (suc n)) h a e = e

  set_value-Effect :
      (req : Request) (key : String) (body : SetRequest) (a : App)
      → Uncut req
      → Accepted req (write_set key body) a
      → Effect req a ((set_value req key body a).1)
  unfolding set_value
  set_value-Effect req key body a uncut accepted = guarded-Effect req _ a (
      refuse-Effect req _ body.ttl_secs _ a
        (set_serialized-Effect req key body a uncut accepted _ refl))

  pub handle-Effect :
      (req : Request) (w : Write) (a : App)
      → Uncut req
      → Accepted req w a
      → Effect req a ((handle req w a).1)
  unfolding delete_value incr_value decr_value incrby_value append_value set_expire persist_key
      list_lpush list_rpush list_lpop list_rpop hash_hset hash_hdel hash_hincrby restore incr decr
  handle-Effect req (write_set key body) a uncut accepted =
      set_value-Effect req key body a uncut accepted
  handle-Effect req (write_delete key) a uncut accepted = guarded-Effect req _ a (
      published-Effect _ req _ _ _ a uncut
        (ap (λ s. (ok tt, s)) (delete-quiet req.now key a.store)))
  handle-Effect req (write_incr key) a uncut accepted =
      written-Effect _ req _ _ _ a uncut (incrby-Steady key _) refl
  handle-Effect req (write_decr key) a uncut accepted =
      written-Effect _ req _ _ _ a uncut (incrby-Steady key _) refl
  handle-Effect req (write_incr_by key amount) a uncut accepted =
      written-Effect _ req _ _ _ a uncut (incrby-Steady key amount) refl
  handle-Effect req (write_append key value) a uncut accepted =
      written-Effect _ req _ _ _ a uncut (append-Steady req.now key value) refl
  handle-Effect req (write_expire key ttl_secs) a uncut accepted =
      guarded-Effect req _ a (elim (Bool-cases (eqb ttl_secs 0)) [
        | inl zero_ttl ↦ rw zero_ttl (nothing refl refl)
        | inr later ↦ rw later (
            published-Effect _ req _ _ _ a uncut
              (ap (λ s. (ok tt, s)) (expire-quiet req.now key ttl_secs a.store)))
      ])
  handle-Effect req (write_persist key) a uncut accepted = guarded-Effect req _ a (
      published-Effect _ req _ _ _ a uncut
        (ap (λ s. (ok tt, s)) (persist-quiet req.now key a.store)))
  handle-Effect req (write_lpop key) a uncut accepted =
      written-Effect _ req _ _ _ a uncut (lpop-Steady key) refl
  handle-Effect req (write_rpop key) a uncut accepted =
      written-Effect _ req _ _ _ a uncut (rpop-Steady key) refl
  handle-Effect req (write_lpush key values) a uncut accepted =
      written-Effect _ req _ _ _ a uncut (lpush-Steady key values) refl
  handle-Effect req (write_rpush key values) a uncut accepted =
      written-Effect _ req _ _ _ a uncut (rpush-Steady key values) refl
  handle-Effect req (write_hdel key fields) a uncut accepted =
      written-Effect _ req _ _ _ a uncut (hdel-Steady key fields) refl
  handle-Effect req (write_hset key fields) a uncut accepted =
      written-Effect _ req _ _ _ a uncut (hset-Steady key fields) refl
  handle-Effect req (write_hincr_by key field amount) a uncut accepted =
      written-Effect _ req _ _ _ a uncut (hincrby-Steady key field amount) refl
