-- ===== src/Store/Eviction/Prefix.antt =====
-- Which entries `enforce_memory_limit` of kv_store.rs removes: those of the first keys of the order.
use daikon.Prelude.{
  ℕ, suc, ◌≤◌, String, ◌≡◌, refl, ◌∙◌, Option, none, some, List, [], ◌∷◌, contains, take, drop,
  ◌==◌, eq_iff, if◌then◌else◌, arith, Bool-cases, inl, inr, ltb, eqb,
}
use daikon.Platform.{Platform}
use daikon.HashMap
use daikon.HashMap.{HashMap}
use daikon.HashMap.Laws.{get-remove}
use daikon.Value.{ValueWithTtl}
use daikon.Store.{
  KvStore, emit_keyspace_event, evict_entry, evict, evict_loop, enforce_memory_limit,
}

module _ ⦃P : Platform⦄ where
  -- The entry of a key once the first `n` keys of an order are evicted.
  abbrev pub without_prefix : ℕ → List String → HashMap ValueWithTtl → String → Option ValueWithTtl
  without_prefix n order store j = if contains (take n order) j then none else HashMap.get j store

  evict_entry-get :
      (now : ℕ) (key j : String) (s : KvStore) (found : Option ValueWithTtl)
      → HashMap.get key s.store ≡ found
      → HashMap.get j (evict_entry now key found s).store
        ≡ (if key == j then none else HashMap.get j s.store)
  unfolding evict_entry emit_keyspace_event
  evict_entry-get now key j s none h = ground (arith, eq_iff key j)
  evict_entry-get now key j s (some entry) h = ground (arith, get-remove key j s.store)

  evict-get :
      (now : ℕ) (key j : String) (rest : List String) (s : KvStore)
      → HashMap.get j (evict now key rest s).store
        ≡ (if key == j then none else HashMap.get j s.store)
  unfolding evict
  evict-get now key j rest s = evict_entry-get now key j s _ refl

  -- What is left of the order and of the map after the loop has run `n` rounds.
  abbrev pub Evicted : ℕ → List String → KvStore → KvStore → Type 0
  Evicted n order s s' =
      (s'.lru_order ≡ drop n order)
      × ((j : String) → HashMap.get j s'.store ≡ without_prefix n order s.store j)

  evict_loop-prefix :
      (now : ℕ) (order : List String) (s : KvStore)
      → s.lru_order ≡ order
      → (n : ℕ) × Evicted n order s (evict_loop now order s)
  unfolding evict_loop
  evict_loop-prefix now [] s e = (0, (e, λ j. refl))
  evict_loop-prefix now (key ∷ rest) s e =
      elim (Bool-cases (ltb s.config.max_memory_bytes s.stats.memory_bytes)) [
        | inl over ↦
            let (n, found) =
              evict_loop-prefix now rest (evict now key rest s) (unfold evict in refl) in
            (
              suc n,
              (
                rw over found.0,
                λ j. rw over (found.1 j ∙ ground (arith, evict-get now key j rest s)),
              ),
            )
        | inr under ↦ (0, (rw under e, λ j. rw under refl))
      ]

  -- `enforce_memory_limit` removes the entries of the first `n` keys of the order, for some `n`,
  -- with those keys from the order, and no other entry.
  pub enforce_prefix :
      (now : ℕ) (s : KvStore) → (n : ℕ) × Evicted n s.lru_order s (enforce_memory_limit now s)
  unfolding enforce_memory_limit
  enforce_prefix now s = elim (Bool-cases (eqb s.config.max_memory_bytes 0)) [
    | inl unlimited ↦ (0, (rw unlimited refl, λ j. rw unlimited refl))
    | inr limited ↦
        let (n, found) = evict_loop-prefix now s.lru_order s refl in
        (n, (rw limited found.0, λ j. rw limited (found.1 j)))
  ]

  evict_loop-within :
      (now : ℕ) (order : List String) (s : KvStore)
      → s.stats.memory_bytes ≤ s.config.max_memory_bytes
      → evict_loop now order s ≡ s
  unfolding evict_loop
  evict_loop-within now [] s h = refl
  evict_loop-within now (key ∷ rest) s h = ground arith

  -- Within the limit nothing changes.
  pub enforce_within :
      (now : ℕ) (s : KvStore)
      → s.stats.memory_bytes ≤ s.config.max_memory_bytes
      → enforce_memory_limit now s ≡ s
  unfolding enforce_memory_limit
  enforce_within now s h = ground (arith, evict_loop-within now s.lru_order s h)
