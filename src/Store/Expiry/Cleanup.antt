-- ===== src/Store/Expiry/Cleanup.antt =====
-- What `cleanup_expired` of kv_store.rs removes.
use daikon.Prelude.{
  ℕ, ◌+◌, String, false, ◌≡◌, refl, sym, ◌∙◌, ap, Option, none, some, List, [], ◌∷◌, contains,
  length, if◌then◌else◌, arith, Bool-cases, inl, inr, eq_iff, eq_refl, ◌==◌,
}
use mathlib.Core.Bool.{false≢true}
use daikon.Platform.{Platform}
use daikon.HashMap
use daikon.HashMap.{HashMap, Distinct}
use daikon.HashMap.Laws.{remove_absent}
use daikon.Value.{ValueWithTtl, KeyspaceEventKind}
use daikon.Store.{KvStore, get, live}
use daikon.Store.Expiry.{stale_at, stale_keys, remove_expired, cleanup_expired}
use daikon.Store.Expiry.Times.{store-emit}
use daikon.Store.Validity.{IsValid}

module _ ⦃P : Platform⦄ where
  abbrev pub fresh_entry : ℕ → Option ValueWithTtl → Option ValueWithTtl
  fresh_entry now none = none
  fresh_entry now (some entry) = if stale_at now entry.expires_at then none else some entry

  -- The entries that stay.
  pub fresh : ℕ → HashMap ValueWithTtl → HashMap ValueWithTtl
  fresh now [] = []
  fresh now ((k, v) ∷ m) =
      let rest = fresh now m in if stale_at now v.expires_at then rest else (k, v) ∷ rest

  remove_each : List String → HashMap ValueWithTtl → HashMap ValueWithTtl
  remove_each [] m = m
  remove_each (k ∷ ks) m = remove_each ks (HashMap.remove k m)

  store-remove_expired :
      (now : ℕ) (keys : List String) (s : KvStore)
      → (remove_expired now keys s).store ≡ remove_each keys s.store
  unfolding remove_expired remove_each
  store-remove_expired now [] s = refl
  store-remove_expired now (k ∷ ks) s =
      store-remove_expired now ks _
      ∙ ap (remove_each ks) (store-emit now KeyspaceEventKind.expired k _)

  remove_each-cons :
      (ks : List String) (k : String) (v : ValueWithTtl) (m : HashMap ValueWithTtl)
      → contains ks k ≡ false
      → remove_each ks ((k, v) ∷ m) ≡ (k, v) ∷ remove_each ks m
  unfolding remove_each HashMap.remove
  remove_each-cons [] k v m h = refl
  remove_each-cons (j ∷ ks) k v m h = elim (Bool-cases (k == j)) [
    | inl same ↦ absurd (false≢true (sym h ∙ ground (arith, eq_iff j k, eq_iff k j)))
    | inr other ↦
        rw other (remove_each-cons ks k v (HashMap.remove j m) (ground (arith, eq_iff j k)))
  ]

  not-stale_absent :
      (now : ℕ) (k : String) (m : HashMap ValueWithTtl)
      → HashMap.get k m ≡ none
      → contains (stale_keys now m) k ≡ false
  unfolding HashMap.get stale_keys
  not-stale_absent now k [] h = refl
  not-stale_absent now k ((j, v) ∷ m) h = ground (arith, not-stale_absent now k m)

  remove_head :
      (k : String) (v : ValueWithTtl) (m : HashMap ValueWithTtl)
      → HashMap.get k m ≡ none
      → HashMap.remove k ((k, v) ∷ m) ≡ m
  unfolding HashMap.remove
  remove_head k v m absent = rw eq_refl (remove_absent k m absent)

  remove_each-fresh :
      (now : ℕ) (m : HashMap ValueWithTtl)
      → Distinct m
      → remove_each (stale_keys now m) m ≡ fresh now m
  unfolding remove_each stale_keys fresh
  remove_each-fresh now [] d = refl
  remove_each-fresh now ((k, v) ∷ m) d = elim (Bool-cases (stale_at now v.expires_at)) [
    | inl stale ↦
        rw stale (
          ap (remove_each (stale_keys now m)) (remove_head k v m d.0) ∙ remove_each-fresh now m d.1)
    | inr kept ↦ rw kept (
        remove_each-cons (stale_keys now m) k v m (not-stale_absent now k m d.0)
        ∙ ap (◌∷◌ (k, v)) (remove_each-fresh now m d.1))
  ]

  length-fresh :
      (now : ℕ) (m : HashMap ValueWithTtl)
      → length (stale_keys now m) + length (fresh now m) ≡ length m
  unfolding stale_keys fresh
  length-fresh now [] = refl
  length-fresh now ((k, v) ∷ m) = ground (arith, length-fresh now m)

  get-fresh :
      (now : ℕ) (j : String) (m : HashMap ValueWithTtl)
      → Distinct m
      → HashMap.get j (fresh now m) ≡ fresh_entry now (HashMap.get j m)
  unfolding HashMap.get fresh
  get-fresh now j [] d = refl
  get-fresh now j ((k, v) ∷ m) d = ground (arith, get-fresh now j m d.1, eq_iff k j)

  -- On a well-formed store `cleanup_expired` removes exactly the entries whose last second has come,
  -- keeps every other entry as it is, and answers the number of entries removed.
  pub cleanup_lem :
      (now : ℕ) (s : KvStore)
      → IsValid s
      → ((j : String)
          → HashMap.get j (cleanup_expired now s).1.store ≡ fresh_entry now (HashMap.get j s.store))
        × ((cleanup_expired now s).0 + length (cleanup_expired now s).1.store ≡ length s.store)
  unfolding cleanup_expired
  cleanup_lem now s v =
      let left =
        store-remove_expired now (stale_keys now s.store) s
        ∙ remove_each-fresh now s.store v.distinct in
      (
        λ j. ap (HashMap.get j) left ∙ get-fresh now j s.store v.distinct,
        ap (λ m. length (stale_keys now s.store) + length m) left ∙ length-fresh now s.store,
      )

  -- In its last second an entry is still read by `get`, and `cleanup_expired` in that same second
  -- removes it.
  pub cleanup_last_second :
      (now : ℕ) (key : String) (entry : ValueWithTtl) (s : KvStore)
      → IsValid s
      → HashMap.get key s.store ≡ some entry
      → entry.expires_at ≡ some now
      → (get now key s ≡ some entry.value) × (get now key (cleanup_expired now s).1 ≡ none)
  unfolding get live
  cleanup_last_second now key entry s v found ends = (
    rw (found, ends) (ground arith),
    rw ((cleanup_lem now s v).0 key, found) (ground (arith, ends)),
  )
