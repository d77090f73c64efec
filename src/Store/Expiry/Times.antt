-- ===== src/Store/Expiry/Times.antt =====
-- The expiry times of kv_store.rs, as `get`, `ttl_seconds`, `expire` and `persist` see them.
use daikon.Prelude.{
  ℕ, ◌+◌, ◌<◌, String, Bool, true, ◌≡◌, ◌↔◌, refl, ◌∙◌, ap, Option, none, some, is_some,
  if◌then◌else◌, arith, Bool-cases, inl, inr, leb, lt→ltb, checked_add, u64_mod,
}
use daikon.Prelude.Int.{negsuc}
use daikon.Platform.{Platform}
use daikon.HashMap
use daikon.HashMap.Laws.{get-insert_self}
use daikon.Value.{Value, ValueWithTtl, KeyspaceEventKind}
use daikon.Store.{KvStore, put, live, get, expired_at, emit_keyspace_event}
use daikon.Store.Expiry.{ttl_seconds, expire_entry, expire, persist}

module _ ⦃P : Platform⦄ where
  -- `ttl_seconds` is -2 exactly for the keys that `get` does not find.
  pub ttl_absent_iff :
      (now : ℕ) (key : String) (s : KvStore)
      → (ttl_seconds now key s ≡ negsuc 1) ↔ (get now key s ≡ none)
  unfolding ttl_seconds get
  ttl_absent_iff now key s = ground arith

  pub store-emit :
      (now : ℕ) (kind : KeyspaceEventKind) (key : String) (s : KvStore)
      → (emit_keyspace_event now kind key s).store ≡ s.store
  unfolding emit_keyspace_event
  store-emit now kind key s = ground arith

  abbrev pub until : ℕ → ℕ → Option Value → Option Value
  until later last v = if leb later last then v else none

  -- The store after a new expiry of the key.
  live-put :
      (now later : ℕ) (key : String) (e : ValueWithTtl) (s : KvStore)
      → live later
          (HashMap.get key (emit_keyspace_event now KeyspaceEventKind.set key (put key e s)).store)
        ≡ live later (some e)
  live-put now later key e s =
      ap (λ m. live later (HashMap.get key m)) (store-emit now KeyspaceEventKind.set key _)
      ∙ ap (live later) (get-insert_self key e s.store)

  abbrev Expires : ℕ → ℕ → ℕ → String → KvStore → Option Value → Bool × KvStore → Type 0
  Expires now ttl later key s v r =
      (r.0 ≡ is_some v)
      × (get later key r.1 ≡ (if is_some v then until later (now + ttl) v else get later key s))

  expire_entry-Expires :
      (now ttl later : ℕ) (key : String) (s : KvStore)
      → now + ttl < u64_mod
      → (found : Option ValueWithTtl) → HashMap.get key s.store ≡ found
      → Expires now ttl later key s (live now found) (expire_entry now key ttl found s)
  unfolding expire_entry get live checked_add
  expire_entry-Expires now ttl later key s fits none e = (refl, refl)
  expire_entry-Expires now ttl later key s fits (some entry) e =
      elim (Bool-cases (expired_at now entry.expires_at)) [
        | inl gone ↦ rw gone (refl, refl)
        | inr there ↦ rw there (
          refl,
          live-put now later key (record entry { expires_at = checked_add now ttl }) s
              ∙ ground (arith, lt→ltb (now + ttl) u64_mod fits),
        )
      ]

  -- When the last second `now + ttl` is below 2 ^ 64, `expire` answers whether `get` finds
  -- the key; if so the key reads as its value up to and including that second and as absent
  -- afterwards, and if not it reads as before.
  pub expire-get :
      (now ttl later : ℕ) (key : String) (s : KvStore)
      → now + ttl < u64_mod
      → ((expire now key ttl s).0 ≡ is_some (get now key s))
        × (get later key (expire now key ttl s).1 ≡ (
            if is_some (get now key s)
            then until later (now + ttl) (get now key s)
            else get later key s))
  unfolding expire get
  expire-get now ttl later key s fits = expire_entry-Expires now ttl later key s fits _ refl

  -- An expired entry that has not been cleaned up is back after `persist`: the answer is true and
  -- the key reads as its value at every time, though `get` did not find it before.
  pub persist_revives :
      (now later : ℕ) (key : String) (entry : ValueWithTtl) (s : KvStore) {exp : ℕ}
      → HashMap.get key s.store ≡ some entry
      → entry.expires_at ≡ some exp
      → exp < now
      → (get now key s ≡ none)
        × ((persist now key s).0 ≡ true)
        × (get later key (persist now key s).1 ≡ some entry.value)
  unfolding persist get live
  persist_revives now later key entry s found ends passed =
      rw (found, ends)
        (ground (arith, ends), refl, live-put now later key (record entry { expires_at = none }) s)
