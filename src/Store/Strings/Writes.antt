-- ===== src/Store/Strings/Writes.antt =====
-- What `set` and `set_with_ttl` of kv_store.rs store, and what later reads see of it.
use daikon.Prelude.{
  ℕ, ◌+◌, ◌<◌, String, Bool, false, ◌&&◌, ◌≡◌, ◌≢◌, ◌∙◌, ap, Option, none, some, List, [], ◌∷◌,
  ◌==◌, if◌then◌else◌, arith, Bool-cases, inl, inr, ltb, leb, add_u64, checked_add, u64_mod, ◌++◌,
  le_of_ltb-eq-false, lt→ltb,
}
use daikon.Platform.{Platform}
use daikon.Error.{ok}
use daikon.HashMap
use daikon.HashMap.{HashMap}
use daikon.HashMap.Laws.{get-insert, get-insert_self}
use daikon.Value.{Value, TransactionOp, op_set, KeyspaceEventKind, estimate_value_size}
use daikon.Store.{
  KvStore, count_write, count_keys, count_memory, put, validate_key, validate_value, update_lru,
  emit_keyspace_event, touch, in_transaction, queue_operation, live, get,
}
use daikon.Store.Strings.{write, set_expiring, set, set_with_ttl}
use daikon.Store.Eviction.Prefix.{Evicted, enforce_prefix, enforce_within}

module _ ⦃P : Platform⦄ where
  -- The checks of a write pass.
  pub record Accepts (s : KvStore) (key : String) (value : Value) : Type 0 where
    pub key_ok : validate_key s.config key ≡ ok tt
    pub value_ok : validate_value s.config value ≡ ok tt
    pub direct : in_transaction s ≡ false

  -- With the value of the write the tracked memory is over an eviction limit.
  abbrev pub needs_eviction : KvStore → Value → Bool
  needs_eviction s value =
      (ltb 0 s.config.max_memory_bytes && s.config.lru_eviction_enabled)
      && ltb s.config.max_memory_bytes (add_u64 s.stats.memory_bytes (estimate_value_size value))

  set_expiring-write :
      (now : ℕ) (key : String) (value : Value) (expires_at : Option ℕ) (s : KvStore)
      → Accepts s key value
      → set_expiring now key value expires_at s ≡ (ok tt, write now key value expires_at s)
  unfolding set_expiring
  set_expiring-write now key value expires_at s a = rw (a.key_ok, a.value_ok, a.direct)

  store-emit :
      (now : ℕ) (kind : KeyspaceEventKind) (key : String) (s : KvStore)
      → (emit_keyspace_event now kind key s).store ≡ s.store
  unfolding emit_keyspace_event
  store-emit now kind key s = ground arith

  lru_order-emit :
      (now : ℕ) (kind : KeyspaceEventKind) (key : String) (s : KvStore)
      → (emit_keyspace_event now kind key s).lru_order ≡ s.lru_order
  unfolding emit_keyspace_event
  lru_order-emit now kind key s = ground arith

  -- The state of a write before eviction.
  abbrev pub entered : String → Value → Option ℕ → KvStore → KvStore
  entered key value expires_at s = count_memory (estimate_value_size value) (
      count_keys (
        count_write
          (update_lru key (put key (record { value = value; expires_at = expires_at }) s))))

  abbrev evicting : KvStore → Bool
  evicting s = ltb 0 s.config.max_memory_bytes && s.config.lru_eviction_enabled

  store-write_roomy :
      (now : ℕ) (key : String) (value : Value) (expires_at : Option ℕ) (s : KvStore)
      → needs_eviction s value ≡ false
      → (write now key value expires_at s).store ≡ (entered key value expires_at s).store
  unfolding write
  store-write_roomy now key value expires_at s roomy =
      store-emit now KeyspaceEventKind.set key _ ∙ elim (Bool-cases (evicting s)) [
        | inl on ↦
            let within : ltb s.config.max_memory_bytes
                  (add_u64 s.stats.memory_bytes (estimate_value_size value))
                ≡ false =
              rw on at roomy in
            rw on (
              ap (λ t. t.store)
                (enforce_within now (entered key value expires_at s)
                  (le_of_ltb-eq-false _ _ within)))
        | inr off ↦ rw off
      ]

  write-Evicted :
      (now : ℕ) (key : String) (value : Value) (expires_at : Option ℕ) (s : KvStore)
      → (n : ℕ) × Evicted n
          (touch key s.lru_order)
          (entered key value expires_at s)
          (write now key value expires_at s)
  unfolding write
  write-Evicted now key value expires_at s = elim (Bool-cases (evicting s)) [
    | inl on ↦
        let (n, e) = enforce_prefix now (entered key value expires_at s) in
        (
          n,
          (
            rw on (lru_order-emit now KeyspaceEventKind.set key _ ∙ e.0),
            λ j. rw on (ap (HashMap.get j) (store-emit now KeyspaceEventKind.set key _) ∙ e.1 j),
          ),
        )
    | inr off ↦ (
      0,
      (
        rw off (lru_order-emit now KeyspaceEventKind.set key _),
        λ j. rw off (ap (HashMap.get j) (store-emit now KeyspaceEventKind.set key _)),
      ),
    )
  ]

  -- An accepted `set` that needs no eviction succeeds; from then on, at every time, the key reads
  -- as the value, and every other key reads as before.
  pub set-get :
      (now : ℕ) (key : String) (value : Value) (s : KvStore)
      → Accepts s key value
      → needs_eviction s value ≡ false
      → ((set now key value s).0 ≡ ok tt)
        × ((later : ℕ) (j : String)
            → get later j (set now key value s).1
              ≡ (if key == j then some value else get later j s))
  unfolding set get live
  set-get now key value s a roomy =
      let done = set_expiring-write now key value none s a in
      (
        ap (λ r. r.0) done,
        λ later j.
            ap (λ r. live later (HashMap.get j r.1.store)) done
            ∙ ap (λ m. live later (HashMap.get j m)) (store-write_roomy now key value none s roomy)
            ∙ ap (live later) (get-insert key j _ s.store)
            ∙ ground (arith),
      )

  -- An accepted `set` succeeds also where it needs eviction. The entries that eviction takes
  -- are those of the first `n` keys of the order, for some `n`, which the written key ends;
  -- all others are as after the insertion.
  pub set_evicts_oldest :
      (now : ℕ) (key : String) (value : Value) (s : KvStore)
      → Accepts s key value
      → ((set now key value s).0 ≡ ok tt)
        × ((n : ℕ) × Evicted n
              (touch key s.lru_order)
              (entered key value none s)
              (set now key value s).1)
  unfolding set
  set_evicts_oldest now key value s a =
      let done = set_expiring-write now key value none s a in
      (ap (λ r. r.0) done, rw done (write-Evicted now key value none s))

  -- A key written by an accepted `set_with_ttl` that needs no eviction, with a last second
  -- below 2 ^ 64, reads as its value up to and including the second `now + ttl`, and as
  -- absent afterwards.
  pub set_with_ttl-get :
      (now ttl later : ℕ) (key : String) (value : Value) (s : KvStore)
      → Accepts s key value
      → needs_eviction s value ≡ false
      → now + ttl < u64_mod
      → ((set_with_ttl now key value ttl s).0 ≡ ok tt)
        × (get later key (set_with_ttl now key value ttl s).1
            ≡ (if leb later (now + ttl) then some value else none))
  unfolding set_with_ttl get live checked_add
  set_with_ttl-get now ttl later key value s a roomy fits =
      let done = set_expiring-write now key value (checked_add now ttl) s a in
      (
        ap (λ r. r.0) done,
        ap (λ r. live later (HashMap.get key r.1.store)) done
            ∙ ap (λ m. live later (HashMap.get key m))
                (store-write_roomy now key value (checked_add now ttl) s roomy)
            ∙ ap (live later) (get-insert_self key _ s.store)
            ∙ ground (arith, lt→ltb (now + ttl) u64_mod fits),
      )

  -- During a transaction an accepted key and value are queued: the store, its order, its counters
  -- and its events stay as they are.
  pub set_queues :
      (now : ℕ) (key : String) (value : Value) (queue : List TransactionOp) (s : KvStore)
      → validate_key s.config key ≡ ok tt
      → validate_value s.config value ≡ ok tt
      → s.transaction_queue ≡ some queue
      → set now key value s
        ≡ (ok tt, record s { transaction_queue = some (queue ++ op_set key value none ∷ []) })
  unfolding set set_expiring in_transaction queue_operation
  set_queues now key value queue s key_ok value_ok open_ = simp (key_ok, value_ok, open_)

  -- A `set` or `set_with_ttl` that fails changes nothing.
  pub set_expiring_fails :
      (now : ℕ) (key : String) (value : Value) (expires_at : Option ℕ) (s : KvStore)
      → (set_expiring now key value expires_at s).0 ≢ ok tt
      → (set_expiring now key value expires_at s).1 ≡ s
  unfolding set_expiring in_transaction queue_operation
  set_expiring_fails now key value expires_at s failed = ground arith
