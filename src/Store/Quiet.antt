-- ===== src/Store/Quiet.antt =====
-- The keyspace events of kv_store.rs are a report: no operation reads them, and whether they are
-- enabled changes nothing but the events. `quiet` is a store with the events off and none waiting.
use daikon.Prelude.{
  ℕ, String, false, ◌≡◌, refl, ap, ◌∙◌, Option, none, some, List, [], ◌∷◌, arith, Bool-cases, inl,
  inr, ltb, eqb, Option-cases,
}
use daikon.Platform.{Platform}
use daikon.Config.{StoreConfig}
use daikon.Exec.Steady.{is_panic, Steady, Steady-gets, Steady-modify, steady_rules}
use daikon.HashMap
use daikon.Value.{Value, ValueWithTtl, KeyspaceEventKind, TransactionOp}
use daikon.Store.{
  KvStore, emit_keyspace_event, evict_entry, evict, evict_loop, enforce_memory_limit,
  queue_operation, validate_key, validate_value,
}

module _ ⦃P : Platform⦄ where
  unfoldable pub quiet : KvStore → KvStore
  quiet s = record s {
    config = record s.config { keyspace_notifications_enabled = false };
    pending_keyspace_events = [];
  }

  pub emit-quiet :
      (now : ℕ) (kind : KeyspaceEventKind) (key : String) (s : KvStore)
      → emit_keyspace_event now kind key (quiet s) ≡ quiet (emit_keyspace_event now kind key s)
  unfolding emit_keyspace_event quiet
  emit-quiet now kind key s = elim (Bool-cases s.config.keyspace_notifications_enabled) [
    | inl enabled ↦ rw enabled refl
    | inr disabled ↦ rw disabled refl
  ]

  evict_entry-quiet :
      (now : ℕ) (key : String) (found : Option ValueWithTtl) (s : KvStore)
      → evict_entry now key found (quiet s) ≡ quiet (evict_entry now key found s)
  unfolding evict_entry quiet
  evict_entry-quiet now key none s = refl
  evict_entry-quiet now key (some entry) s = emit-quiet now _ key _

  pub evict-quiet :
      (now : ℕ) (key : String) (rest : List String) (s : KvStore)
      → evict now key rest (quiet s) ≡ quiet (evict now key rest s)
  unfolding evict quiet
  evict-quiet now key rest s =
      ap (λ (t : KvStore). record t { lru_order = rest })
        (evict_entry-quiet now key (HashMap.get key s.store) s)

  evict_loop-quiet :
      (now : ℕ) (order : List String) (s : KvStore)
      → evict_loop now order (quiet s) ≡ quiet (evict_loop now order s)
  unfolding evict_loop quiet
  evict_loop-quiet now [] s = refl
  evict_loop-quiet now (key ∷ rest) s =
      elim (Bool-cases (ltb s.config.max_memory_bytes s.stats.memory_bytes)) [
        | inl over ↦ rw over (
            ap (evict_loop now rest) (evict-quiet now key rest s)
            ∙ evict_loop-quiet now rest (evict now key rest s))
        | inr under ↦ rw under refl
      ]

  pub enforce-quiet :
      (now : ℕ) (s : KvStore)
      → enforce_memory_limit now (quiet s) ≡ quiet (enforce_memory_limit now s)
  unfolding enforce_memory_limit quiet
  enforce-quiet now s = elim (Bool-cases (eqb s.config.max_memory_bytes 0)) [
    | inl unlimited ↦ rw unlimited refl
    | inr limited ↦ rw limited (evict_loop-quiet now s.lru_order s)
  ]

  pub validate_key_returns :
      (config : StoreConfig) (key : String) → is_panic (validate_key config key) ≡ false
  unfolding validate_key
  validate_key_returns config key = ground arith

  pub validate_value_returns :
      (config : StoreConfig) (value : Value) → is_panic (validate_value config value) ≡ false
  unfolding validate_value
  validate_value_returns config value = ground arith

  pub queue-Steady : (op : TransactionOp) → Steady quiet (queue_operation op)
  unfolding queue_operation quiet
  queue-Steady op = record {
    returns = λ s. elim (Option-cases s.transaction_queue) [
      | inl none_open ↦ rw none_open refl
      | inr (queue, e) ↦ rw e refl
    ];
    after = λ s. elim (Option-cases s.transaction_queue) [
      | inl none_open ↦ rw none_open refl
      | inr (queue, e) ↦ rw e refl
    ];
  }

  pub ruleset quiet_rules = (
    steady_rules, Steady-gets, Steady-modify, queue-Steady, validate_key_returns,
    validate_value_returns,
  )
