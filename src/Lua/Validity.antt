-- ===== src/Lua/Validity.antt =====
-- A script leaves the store well formed, whatever it calls and however it ends.
use daikon.Prelude.{ℕ, String, Option, none, some}
use daikon.Platform.{Platform}
use daikon.Error.{KvStoreError, Result, ok, err, panic}
use daikon.Exec.{Exec}
use daikon.Exec.Keeps.{Keeps, Keeps-modify, keeps_rules}
use daikon.Store.{KvStore}
use daikon.Store.Strings.{incr}
use daikon.Store.Strings.Validity.{
  set-IsValid, set_with_ttl-IsValid, delete-IsValid, incrby-IsValid,
}
use daikon.Store.Hashes.Validity.{hset-IsValid, hdel-IsValid}
use daikon.Store.Validity.{IsValid}
use daikon.Crypto.{Bytes, Cipher}
use daikon.Wal.{Attempt, WalOperation, Codec}
use daikon.Json.{ValueCodec}
use daikon.Lua.{
  HostCall, call_get, call_delete, call_incr, call_exists, call_ttl, call_pttl, call_hgetall,
  call_print, call_set, call_hget, call_hdel, call_setex, call_hset, Script, returns, raises, calls,
  Host, on_store, deleted, after_append, append_to, log_entry, host_call, run_script,
  execute_script,
}

module _ ⦃P : Platform⦄ where
  abbrev ValidHost : Host → Type 0
  ValidHost h = IsValid h.store

  Keeps-on_store :
      {A B : Type 0} (f : Result A → Result B) (m : Exec KvStore A)
      → Keeps IsValid m
      → Keeps ValidHost (on_store f m)
  unfolding on_store
  Keeps-on_store f m k = record { after = λ h v. k.after h.store v }

  deleted-IsValid : (now : ℕ) (key : String) → Keeps IsValid (deleted now key)
  deleted-IsValid now key = record { after = λ s v. delete-IsValid now key s v }

module _ ⦃P : Platform⦄ ⦃C : Cipher⦄ ⦃S : Codec⦄ where
  append_to-IsValid :
      (now : ℕ) (attempts : ℕ → Attempt) (op : WalOperation) (wal : Option Bytes)
      → Keeps ValidHost (append_to now attempts op wal)
  unfolding append_to after_append
  append_to-IsValid now attempts op none = record { after = λ h v. v }
  append_to-IsValid now attempts op (some file) = record { after = λ h v. v }

  log_entry-IsValid :
      (now : ℕ) (attempts : ℕ → Attempt) (op : WalOperation)
      → Keeps ValidHost (log_entry now attempts op)
  unfolding log_entry
  log_entry-IsValid now attempts op = record {
    after = λ h v. (append_to-IsValid now attempts op h.wal).after h v;
  }

  ruleset host_rules = (keeps_rules, Keeps-modify, Keeps-on_store, log_entry-IsValid)

  module _ ⦃V : ValueCodec⦄ where
    host_call-IsValid :
        (now : ℕ) (attempts : ℕ → Attempt) (call : HostCall)
        → Keeps ValidHost (host_call now attempts call)
    unfolding host_call incr
    host_call-IsValid now attempts (call_get key) = search host_rules
    host_call-IsValid now attempts (call_set key value) = search (host_rules, set-IsValid)
    host_call-IsValid now attempts (call_setex key value ttl) =
        search (host_rules, set_with_ttl-IsValid)
    host_call-IsValid now attempts (call_delete key) = search (host_rules, deleted-IsValid)
    host_call-IsValid now attempts (call_incr key) = search (host_rules, incrby-IsValid)
    host_call-IsValid now attempts (call_exists key) = search host_rules
    host_call-IsValid now attempts (call_ttl key) = search host_rules
    host_call-IsValid now attempts (call_pttl key) = search host_rules
    host_call-IsValid now attempts (call_hset key field value) = search (host_rules, hset-IsValid)
    host_call-IsValid now attempts (call_hget key field) = record { after = λ h v. v }
    host_call-IsValid now attempts (call_hdel key field) = search (host_rules, hdel-IsValid)
    host_call-IsValid now attempts (call_hgetall key) = record { after = λ h v. v }
    host_call-IsValid now attempts (call_print message) = search host_rules

    resumed :
        {A B : Type 0} (f : A → Result B × Host) (g : KvStoreError → Result B × Host) (r : Result A)
        (h : Host)
        → IsValid h.store
        → ((a : A) → IsValid ((f a).1).store)
        → ((e : KvStoreError) → IsValid ((g e).1).store)
        → IsValid
            (((elim r as (λ _. Result B × Host) [
              | ok a ↦ f a
              | err e ↦ g e
              | panic ↦ (panic, h)
            ])).1
              ).store
    resumed f g (ok a) h v kf kg = kf a
    resumed f g (err e) h v kf kg = kg e
    resumed f g panic h v kf kg = v

    run_script-IsValid :
        (now : ℕ) (attempts : ℕ → Attempt) (script : Script) (h : Host)
        → IsValid h.store
        → IsValid ((run_script now attempts script h).1).store
    unfolding run_script
    run_script-IsValid now attempts (returns values) h v = v
    run_script-IsValid now attempts (raises message) h v = v
    run_script-IsValid now attempts (calls call next) h v =
        let (r, h') = host_call now attempts call h in
        let v' : IsValid h'.store = (host_call-IsValid now attempts call).after h v in
        resumed (λ value. run_script now attempts (next (ok value)) h')
          (λ e. run_script now attempts (next (err e)) h') r h' v'
          (λ value. run_script-IsValid now attempts (next (ok value)) h' v')
          (λ e. run_script-IsValid now attempts (next (err e)) h' v')

    pub execute_script-IsValid :
        (now : ℕ) (attempts : ℕ → Attempt) (script : Script) (wal : Option Bytes) (s : KvStore)
        → IsValid s
        → IsValid ((execute_script now attempts script wal s).1).store
    unfolding execute_script
    execute_script-IsValid now attempts script wal s v = run_script-IsValid now attempts script _ v
