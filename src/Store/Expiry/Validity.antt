-- ===== src/Store/Expiry/Validity.antt =====
-- The writers of Store/Expiry keep the store well formed.
use daikon.Prelude.{ℕ, String, List, [], ◌∷◌, Option, none, some, ◌≡◌, refl, Bool-cases, inl, inr}
use daikon.Platform.{Platform}
use daikon.HashMap
use daikon.Value.{ValueWithTtl, KeyspaceEventKind}
use daikon.Store.{KvStore, expired_at}
use daikon.Store.Expiry.{
  expire_entry, expire, persist_until, persist_entry, persist, remove_expired, cleanup_expired,
}
use daikon.Store.Validity.{IsValid, Valid-replace, Valid-remove, emit-IsValid}

module _ ⦃P : Platform⦄ where
  expire_entry-IsValid :
      (now : ℕ) (key : String) (ttl : ℕ) (s : KvStore)
      → IsValid s
      → (found : Option ValueWithTtl) → HashMap.get key s.store ≡ found
      → IsValid (expire_entry now key ttl found s).1
  unfolding expire_entry
  expire_entry-IsValid now key ttl s v none e = v
  expire_entry-IsValid now key ttl s v (some entry) e =
      elim (Bool-cases (expired_at now entry.expires_at)) [
        | inl gone ↦ rw gone v
        | inr there ↦
            rw there (emit-IsValid now KeyspaceEventKind.set key _ (Valid-replace key _ entry e v))
      ]

  pub expire-IsValid :
      (now : ℕ) (key : String) (ttl : ℕ) (s : KvStore)
      → IsValid s
      → IsValid (expire now key ttl s).1
  unfolding expire
  expire-IsValid now key ttl s v = expire_entry-IsValid now key ttl s v _ refl

  persist_entry-IsValid :
      (now : ℕ) (key : String) (s : KvStore)
      → IsValid s
      → (found : Option ValueWithTtl) → HashMap.get key s.store ≡ found
      → IsValid (persist_entry now key found s).1
  unfolding persist_entry persist_until
  persist_entry-IsValid now key s v none e = v
  persist_entry-IsValid now key s v (some entry) e = persist_until-IsValid entry.expires_at
    where
      persist_until-IsValid :
          (expires_at : Option ℕ) → IsValid (persist_until now key entry expires_at s).1
      persist_until-IsValid none = v
      persist_until-IsValid (some exp) =
          emit-IsValid now KeyspaceEventKind.set key _ (Valid-replace key _ entry e v)

  pub persist-IsValid :
      (now : ℕ) (key : String) (s : KvStore) → IsValid s → IsValid (persist now key s).1
  unfolding persist
  persist-IsValid now key s v = persist_entry-IsValid now key s v _ refl

  remove_expired-IsValid :
      (now : ℕ) (keys : List String) (s : KvStore) → IsValid s → IsValid (remove_expired now keys s)
  unfolding remove_expired
  remove_expired-IsValid now [] s v = v
  remove_expired-IsValid now (key ∷ keys) s v =
      remove_expired-IsValid now keys _
        (emit-IsValid now KeyspaceEventKind.expired key _ (Valid-remove key v))

  pub cleanup_expired-IsValid :
      (now : ℕ) (s : KvStore) → IsValid s → IsValid (cleanup_expired now s).1
  unfolding cleanup_expired
  cleanup_expired-IsValid now s v = remove_expired-IsValid now _ s v
