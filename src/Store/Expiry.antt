-- ===== src/Store/Expiry.antt =====
-- kv_store.rs: `expire`, `persist`, `ttl_seconds`, `pttl_millis` and `cleanup_expired`.
pub mod Validity
pub mod Quiet
pub mod Times
pub mod Cleanup
use daikon.Prelude.{
  ℕ, ◌+◌, ◌-◌, ◌*◌, min, String, Bool, true, false, Option, none, some, List, [], ◌∷◌, length, ltb,
  leb, if◌then◌else◌, add_u64, checked_add, i64_max,
}
use daikon.Prelude.Int.{ℤ, pos, negsuc}
use daikon.Platform.{Platform}
use daikon.HashMap
use daikon.HashMap.{HashMap}
use daikon.Value.{ValueWithTtl, KeyspaceEventKind}
use daikon.Store.{KvStore, put, emit_keyspace_event, expired_at}

module _ ⦃P : Platform⦄ where
  expire_entry : ℕ → String → ℕ → Option ValueWithTtl → KvStore → Bool × KvStore
  expire_entry now key ttl none s = (false, s)
  expire_entry now key ttl (some entry) s =
      if expired_at now entry.expires_at then (false, s) else (
        true,
        emit_keyspace_event now KeyspaceEventKind.set key
            (put key (record entry { expires_at = checked_add now ttl }) s),
      )

  unfoldable pub expire : ℕ → String → ℕ → KvStore → Bool × KvStore
  unfolding expire_entry
  expire now key ttl s = expire_entry now key ttl (HashMap.get key s.store) s

  persist_until : ℕ → String → ValueWithTtl → Option ℕ → KvStore → Bool × KvStore
  persist_until now key entry none s = (false, s)
  persist_until now key entry (some exp) s = (
    true,
    emit_keyspace_event now KeyspaceEventKind.set key
        (put key (record entry { expires_at = none }) s),
  )

  persist_entry : ℕ → String → Option ValueWithTtl → KvStore → Bool × KvStore
  persist_entry now key none s = (false, s)
  persist_entry now key (some entry) s = persist_until now key entry entry.expires_at s

  unfoldable pub persist : ℕ → String → KvStore → Bool × KvStore
  unfolding persist_entry persist_until
  persist now key s = persist_entry now key (HashMap.get key s.store) s

  seconds_left : ℕ → Option ℕ → ℤ
  seconds_left now none = negsuc 0
  seconds_left now (some exp) = if ltb exp now then negsuc 1 else pos (min (exp - now) i64_max)

  entry_seconds : ℕ → Option ValueWithTtl → ℤ
  entry_seconds now none = negsuc 1
  entry_seconds now (some entry) = seconds_left now entry.expires_at

  unfoldable pub ttl_seconds : ℕ → String → KvStore → ℤ
  unfolding entry_seconds seconds_left
  ttl_seconds now key s = entry_seconds now (HashMap.get key s.store)

  -- `saturating_mul(1000)` of what is not negative.
  millis : ℤ → ℤ
  millis (pos n) = pos (min (n * 1000) i64_max)
  millis (negsuc n) = negsuc n

  unfoldable pub pttl_millis : ℕ → String → KvStore → ℤ
  unfolding millis
  pttl_millis now key s = millis (ttl_seconds now key s)

  -- The test of the clean-up, which takes an entry in its last second too.
  abbrev pub stale_at : ℕ → Option ℕ → Bool
  stale_at now none = false
  stale_at now (some exp) = leb exp now

  unfoldable pub stale_keys : ℕ → HashMap ValueWithTtl → List String
  stale_keys now [] = []
  stale_keys now ((k, v) ∷ m) =
      let rest = stale_keys now m in if stale_at now v.expires_at then k ∷ rest else rest

  unfoldable pub remove_expired : ℕ → List String → KvStore → KvStore
  remove_expired now [] s = s
  remove_expired now (key ∷ keys) s = remove_expired now keys (
      emit_keyspace_event now KeyspaceEventKind.expired key
        (record s { store = HashMap.remove key s.store }))

  unfoldable pub cleanup_expired : ℕ → KvStore → ℕ × KvStore
  cleanup_expired now s =
      let expired = stale_keys now s.store in
      let count = length expired in
      let s' = remove_expired now expired s in
      (
        count,
        record s' {
          stats = record s'.stats { expired_keys = add_u64 s'.stats.expired_keys count };
        },
      )
