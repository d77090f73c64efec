-- ===== src/Store/Expiry/Quiet.antt =====
-- EXPIRE and PERSIST do the same to the store whether its keyspace events are on or off.
use daikon.Prelude.{ℕ, String, Option, none, some, ◌≡◌, refl, Bool-cases, inl, inr}
use daikon.Platform.{Platform}
use daikon.Value.{ValueWithTtl, KeyspaceEventKind}
use daikon.Store.{KvStore, expired_at, emit_keyspace_event}
use daikon.Store.Expiry.{expire_entry, expire, persist_until, persist_entry, persist}
use daikon.Store.Quiet.{quiet, emit-quiet}

module _ ⦃P : Platform⦄ where
  expire_entry-quiet :
      (now : ℕ) (key : String) (ttl : ℕ) (found : Option ValueWithTtl) (s : KvStore)
      → (expire_entry now key ttl found (quiet s)).1 ≡ quiet (expire_entry now key ttl found s).1
  unfolding expire_entry quiet
  expire_entry-quiet now key ttl none s = refl
  expire_entry-quiet now key ttl (some entry) s =
      elim (Bool-cases (expired_at now entry.expires_at)) [
        | inl gone ↦ rw gone refl
        | inr there ↦ rw there (emit-quiet now KeyspaceEventKind.set key _)
      ]

  pub expire-quiet :
      (now : ℕ) (key : String) (ttl : ℕ) (s : KvStore)
      → (expire now key ttl (quiet s)).1 ≡ quiet (expire now key ttl s).1
  unfolding expire quiet
  expire-quiet now key ttl s = expire_entry-quiet now key ttl _ s

  persist_until-quiet :
      (now : ℕ) (key : String) (entry : ValueWithTtl) (until : Option ℕ) (s : KvStore)
      → (persist_until now key entry until (quiet s)).1
        ≡ quiet (persist_until now key entry until s).1
  unfolding persist_until quiet
  persist_until-quiet now key entry none s = refl
  persist_until-quiet now key entry (some exp) s = emit-quiet now KeyspaceEventKind.set key _

  persist_entry-quiet :
      (now : ℕ) (key : String) (found : Option ValueWithTtl) (s : KvStore)
      → (persist_entry now key found (quiet s)).1 ≡ quiet (persist_entry now key found s).1
  unfolding persist_entry
  persist_entry-quiet now key none s = refl
  persist_entry-quiet now key (some entry) s = persist_until-quiet now key entry entry.expires_at s

  pub persist-quiet :
      (now : ℕ) (key : String) (s : KvStore)
      → (persist now key (quiet s)).1 ≡ quiet (persist now key s).1
  unfolding persist quiet
  persist-quiet now key s = persist_entry-quiet now key _ s

  persist_until_any_time :
      (now later : ℕ) (key : String) (entry : ValueWithTtl) (until : Option ℕ) (s : KvStore)
      → persist_until now key entry until (quiet s) ≡ persist_until later key entry until (quiet s)
  unfolding persist_until quiet emit_keyspace_event
  persist_until_any_time now later key entry none s = refl
  persist_until_any_time now later key entry (some exp) s = refl

  persist_entry_any_time :
      (now later : ℕ) (key : String) (found : Option ValueWithTtl) (s : KvStore)
      → persist_entry now key found (quiet s) ≡ persist_entry later key found (quiet s)
  unfolding persist_entry
  persist_entry_any_time now later key none s = refl
  persist_entry_any_time now later key (some entry) s =
      persist_until_any_time now later key entry entry.expires_at s

  -- The clock only dates the event of a PERSIST.
  pub persist_any_time :
      (now later : ℕ) (key : String) (s : KvStore)
      → persist now key (quiet s) ≡ persist later key (quiet s)
  unfolding persist
  persist_any_time now later key s = persist_entry_any_time now later key _ s
