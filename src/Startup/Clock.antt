-- ===== src/Startup/Clock.antt =====
-- The clock of a replay: it matters to the entries that set a time to live, and to no others.
use daikon.Prelude.{ℕ, String, List, ◌≡◌, refl, ap, Option, none, some}
use daikon.Error.{ok}
use daikon.Platform.{Platform}
use daikon.Value.{Value}
use daikon.Store.{KvStore}
use daikon.Store.Quiet.{quiet}
use daikon.Store.Strings.AnyTime.{
  set_any_time, delete_any_time, append_any_time, getset_any_time, mset_any_time,
}
use daikon.Store.Expiry.Quiet.{persist_any_time}
use daikon.Wal.{
  WalOperation, op_set, op_delete, op_incr, op_decr, op_incr_by, op_append, op_get_set, op_mset,
  op_pf_add, op_pf_merge, op_lpush, op_rpush, op_lpop, op_rpop, op_expire, op_persist, op_hset,
  op_hdel, op_hincr_by, WalEntry,
}
use daikon.Replay.{ignore, ignore_result}
use daikon.Json.{ValueCodec}
use daikon.Startup.{restore, restore_set, restore_getset, restore_mset}

-- The operations that set a time to live.
abbrev pub Timed : WalOperation → Type 0
Timed (op_set key value (some ttl)) = Unit
Timed (op_expire key ttl_secs) = Unit
Timed _ = ⊥

-- A clock that replays the entries that set a time to live in the second in which they were logged,
-- and the others at any time.
abbrev pub Punctual : (WalEntry → ℕ) → Type 0
Punctual clock = (entry : WalEntry) → Timed entry.operation → clock entry ≡ entry.timestamp

module _ ⦃P : Platform⦄ where
  restore_set_any_time :
      (now later : ℕ) (key : String) (value : Option Value) (s : KvStore)
      → restore_set now key value none (quiet s) ≡ restore_set later key value none (quiet s)
  unfolding restore_set
  restore_set_any_time now later key none s = refl
  restore_set_any_time now later key (some value) s = set_any_time now later key value s

  restore_getset_any_time :
      (now later : ℕ) (key : String) (value : Option Value) (s : KvStore)
      → restore_getset now key value (quiet s) ≡ restore_getset later key value (quiet s)
  unfolding restore_getset ignore
  restore_getset_any_time now later key none s = refl
  restore_getset_any_time now later key (some value) s =
      ap ignore_result (getset_any_time now later key value s)

  restore_mset_any_time :
      (now later : ℕ) (pairs : Option (List (String × String))) (s : KvStore)
      → restore_mset now pairs (quiet s) ≡ restore_mset later pairs (quiet s)
  unfolding restore_mset ignore
  restore_mset_any_time now later none s = refl
  restore_mset_any_time now later (some pairs) s =
      ap ignore_result (mset_any_time now later pairs s)

module _ ⦃P : Platform⦄ ⦃V : ValueCodec⦄ where
  pub restore_any_time :
      (now later : ℕ) (op : WalOperation) (s : KvStore)
      → (Timed op → now ≡ later)
      → restore now op (quiet s) ≡ restore later op (quiet s)
  unfolding restore ignore
  restore_any_time now later (op_set key value none) s h = restore_set_any_time now later key _ s
  restore_any_time now later (op_set key value (some ttl)) s h =
      ap (λ t. restore t (op_set key value (some ttl)) (quiet s)) (h tt)
  restore_any_time now later (op_delete key) s h =
      ap (λ r. (ok tt, r.1)) (delete_any_time now later key s)
  restore_any_time now later (op_append key value) s h =
      ap ignore_result (append_any_time now later key value s)
  restore_any_time now later (op_get_set key value) s h = restore_getset_any_time now later key _ s
  restore_any_time now later (op_mset pairs) s h = restore_mset_any_time now later _ s
  restore_any_time now later (op_expire key ttl_secs) s h =
      ap (λ t. restore t (op_expire key ttl_secs) (quiet s)) (h tt)
  restore_any_time now later (op_persist key) s h =
      ap (λ r. (ok tt, r.1)) (persist_any_time now later key s)
  restore_any_time now later (op_incr key) s h = refl
  restore_any_time now later (op_decr key) s h = refl
  restore_any_time now later (op_incr_by key amount) s h = refl
  restore_any_time now later (op_pf_add key values) s h = refl
  restore_any_time now later (op_pf_merge destination sources) s h = refl
  restore_any_time now later (op_lpush key values) s h = refl
  restore_any_time now later (op_rpush key values) s h = refl
  restore_any_time now later (op_lpop key) s h = refl
  restore_any_time now later (op_rpop key) s h = refl
  restore_any_time now later (op_hset key fields) s h = refl
  restore_any_time now later (op_hdel key fields) s h = refl
  restore_any_time now later (op_hincr_by key field amount) s h = refl
