-- ===== src/Store/Eviction.antt =====
-- The eviction of kv_store.rs: what `enforce_memory_limit` guarantees, and what it may remove.
pub mod Prefix
use daikon.Prelude.{
  ℕ, ◌+◌, ◌-◌, ◌≤◌, ◌<◌, String, Bool, true, false, ◌≡◌, ◌≢◌, ◌⊎◌, refl, sym, ◌∙◌, ap, Option, none,
  some, is_some, List, [], ◌∷◌, contains, if◌then◌else◌, arith, Bool-cases, inl, inr, ltb, eqb,
  length, subst, eq_iff,
}
use mathlib.Core.Bool.{false≢true}
use daikon.Platform.{Platform}
use daikon.HashMap
use daikon.HashMap.{HashMap}
use daikon.HashMap.Laws.{get-remove}
use daikon.Value.{ValueWithTtl, estimate_value_size}
use daikon.Store.{
  KvStore, emit_keyspace_event, evict_entry, evict, evict_loop, enforce_memory_limit,
}
use daikon.Store.Validity.{IsValid, Valid, enforce-IsValid}

module _ ⦃P : Platform⦄ where
  config-evict :
      (now : ℕ) (key : String) (rest : List String) (s : KvStore)
      → (evict now key rest s).config ≡ s.config
  unfolding evict evict_entry emit_keyspace_event
  config-evict now key rest s = ground arith

  config-evict_loop :
      (now : ℕ) (order : List String) (s : KvStore) → (evict_loop now order s).config ≡ s.config
  unfolding evict_loop
  config-evict_loop now [] s = refl
  config-evict_loop now (key ∷ rest) s =
      ground (arith, config-evict_loop now rest (evict now key rest s), config-evict now key rest s)

  evict_loop-ends :
      (now limit : ℕ) (order : List String) (s : KvStore)
      → s.config.max_memory_bytes ≡ limit
      → s.lru_order ≡ order
      → ((evict_loop now order s).stats.memory_bytes ≤ limit)
        ⊎ ((evict_loop now order s).lru_order ≡ [])
  unfolding evict_loop
  evict_loop-ends now limit [] s c e = inr e
  evict_loop-ends now limit (key ∷ rest) s c e =
      elim (Bool-cases (ltb s.config.max_memory_bytes s.stats.memory_bytes)) [
        | inl over ↦ rw over (
            evict_loop-ends now limit rest (evict now key rest s)
              (ap (λ g. g.max_memory_bytes) (config-evict now key rest s) ∙ c)
              (unfold evict in refl))
        | inr under ↦ rw under (inl (ground arith))
      ]

  ends :
      (now : ℕ) (s : KvStore)
      → 0 < s.config.max_memory_bytes
      → ((enforce_memory_limit now s).stats.memory_bytes ≤ s.config.max_memory_bytes)
        ⊎ ((enforce_memory_limit now s).lru_order ≡ [])
  unfolding enforce_memory_limit
  ends now s limited = elim (Bool-cases (eqb s.config.max_memory_bytes 0)) [
    | inl unlimited ↦ absurd (ground arith)
    | inr _ ↦ ground (arith, evict_loop-ends now s.config.max_memory_bytes s.lru_order s refl refl)
  ]

  -- No key is tracked by an empty order.
  empty_of_no_order : (store : HashMap ValueWithTtl) → Valid store [] → store ≡ []
  unfolding HashMap.get
  empty_of_no_order [] v = refl
  empty_of_no_order ((k, e) ∷ m) v = absurd (false≢true (v.tracked k (ground (arith, eq_iff k k))))

  -- After `enforce_memory_limit` on a well-formed store with a limit, the tracked memory is within
  -- the limit, or nothing is stored any more.
  pub enforce_limit :
      (now : ℕ) (s : KvStore)
      → IsValid s
      → 0 < s.config.max_memory_bytes
      → ((enforce_memory_limit now s).stats.memory_bytes ≤ s.config.max_memory_bytes)
        ⊎ ((enforce_memory_limit now s).store ≡ [])
  enforce_limit now s v limited =
      let kept = enforce-IsValid now s v in
      elim (ends now s limited) [
        | inl within ↦ inl within
        | inr none_left ↦
            inr (
              empty_of_no_order _ (subst (Valid (enforce_memory_limit now s).store) none_left kept))
      ]
