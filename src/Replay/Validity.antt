-- ===== src/Replay/Validity.antt =====
-- A replayed operation keeps the invariant of the store, also where it fails.
use daikon.Prelude.{ℕ, String, Option, none, some}
use daikon.Platform.{Platform}
use daikon.Error.{Result, ok, err, panic}
use daikon.Exec.{Exec}
use daikon.Exec.Keeps.{Keeps, Keeps-bind, Keeps-pure, Keeps-modify}
use daikon.Value.{str}
use daikon.Store.Strings.{incr, decr}
use daikon.Store.Strings.Validity.{
  set-IsValid, set_with_ttl-IsValid, delete-IsValid, incrby-IsValid, append-IsValid, getset-IsValid,
  mset-IsValid,
}
use daikon.Store.Expiry.Validity.{expire-IsValid, persist-IsValid}
use daikon.Store.Lists.Validity.{lpush-IsValid, rpush-IsValid, lpop-IsValid, rpop-IsValid}
use daikon.Store.Hashes.Validity.{hset-IsValid, hdel-IsValid, hincrby-IsValid}
use daikon.Store.Sketches.Validity.{pfadd-IsValid, pfmerge-IsValid}
use daikon.Store.Validity.{IsValid}
use daikon.Wal.{
  WalOperation, op_set, op_delete, op_incr, op_decr, op_incr_by, op_append, op_get_set, op_mset,
  op_pf_add, op_pf_merge, op_lpush, op_rpush, op_lpop, op_rpop, op_expire, op_persist, op_hset,
  op_hdel, op_hincr_by,
}
use daikon.Replay.{run, ignore, ignore_result, apply_set, apply_operation}

module _ {κ} {S A : Type 0} where
  Keeps-run : {P : S → Type κ} (m : Exec S A) → Keeps P m → Keeps P (run m)
  Keeps-run m k = Keeps-bind m _ k (λ a. Keeps-pure tt)

  ignore_result-kept : (P : S → Type κ) (r : Result A × S) → P r.1 → P (ignore_result r).1
  unfolding ignore_result
  ignore_result-kept P (ok a, s) h = h
  ignore_result-kept P (err e, s) h = h
  ignore_result-kept P (panic, s) h = h

  Keeps-ignore : {P : S → Type κ} (m : Exec S A) → Keeps P m → Keeps P (ignore m)
  unfolding ignore
  Keeps-ignore {P} m k = record { after = λ s h. ignore_result-kept P (m s) (k.after s h) }

module _ ⦃P : Platform⦄ where
  apply_set-IsValid :
      (now : ℕ) (key value : String) (ttl : Option ℕ) → Keeps IsValid (apply_set now key value ttl)
  unfolding apply_set
  apply_set-IsValid now key value none = set-IsValid now key (str value)
  apply_set-IsValid now key value (some ttl) = set_with_ttl-IsValid now key (str value) ttl

  pub apply_operation-IsValid :
      (now : ℕ) (op : WalOperation) → Keeps IsValid (apply_operation now op)
  unfolding apply_operation incr decr
  apply_operation-IsValid now (op_set key value ttl) = apply_set-IsValid now key value ttl
  apply_operation-IsValid now (op_delete key) = Keeps-modify _ (delete-IsValid now key)
  apply_operation-IsValid now (op_incr key) = Keeps-run _ (incrby-IsValid key _)
  apply_operation-IsValid now (op_decr key) = Keeps-run _ (incrby-IsValid key _)
  apply_operation-IsValid now (op_incr_by key amount) = Keeps-run _ (incrby-IsValid key amount)
  apply_operation-IsValid now (op_append key value) = Keeps-run _ (append-IsValid now key value)
  apply_operation-IsValid now (op_get_set key value) =
      Keeps-run _ (getset-IsValid now key (str value))
  apply_operation-IsValid now (op_mset pairs) = mset-IsValid now pairs
  apply_operation-IsValid now (op_pf_add key values) = Keeps-ignore _ (pfadd-IsValid key values)
  apply_operation-IsValid now (op_pf_merge destination sources) =
      Keeps-ignore _ (pfmerge-IsValid destination sources)
  apply_operation-IsValid now (op_lpush key values) = Keeps-ignore _ (lpush-IsValid key values)
  apply_operation-IsValid now (op_rpush key values) = Keeps-ignore _ (rpush-IsValid key values)
  apply_operation-IsValid now (op_lpop key) = Keeps-ignore _ (lpop-IsValid key)
  apply_operation-IsValid now (op_rpop key) = Keeps-ignore _ (rpop-IsValid key)
  apply_operation-IsValid now (op_expire key ttl) = Keeps-modify _ (expire-IsValid now key ttl)
  apply_operation-IsValid now (op_persist key) = Keeps-modify _ (persist-IsValid now key)
  apply_operation-IsValid now (op_hset key fields) = Keeps-ignore _ (hset-IsValid key fields)
  apply_operation-IsValid now (op_hdel key fields) = Keeps-ignore _ (hdel-IsValid key fields)
  apply_operation-IsValid now (op_hincr_by key field amount) =
      Keeps-ignore _ (hincrby-IsValid key field amount)
