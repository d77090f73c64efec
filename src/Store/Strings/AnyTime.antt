-- ===== src/Store/Strings/AnyTime.antt =====
-- On a store whose keyspace events are off, the writers of Store/Strings that set no time to live do
-- not depend on the clock.
use daikon.Prelude.{
  ℕ, ◌&&◌, String, Bool, true, false, ◌≡◌, refl, ap, sym, ◌∙◌, Option, none, some, is_some, List,
  [], len, ◌∷◌, ltb, Bool-cases, inl, inr, if◌then◌else◌,
}
use daikon.Platform.{Platform}
use daikon.Error.{Result, ok, err, panic}
use daikon.Exec.{Exec, continue, pure, modify, lift, ◌>>◌}
use daikon.Value.{Value, str, ValueWithTtl, KeyspaceEventKind, estimate_value_size}
use daikon.Store.{
  KvStore, emit_keyspace_event, in_transaction, validate_key, validate_value, put, update_lru,
  count_memory, count_keys, count_write,
}
use daikon.Store.Quiet.{quiet}
use daikon.Store.AnyTime.{emit_off, enforce_any_time, emit_enforced}
use daikon.Store.Strings.{
  write, set_expiring, set, stored, delete_now, delete, append_to_entry, append, getset, mset_set,
  mset,
}
use daikon.Store.Strings.Quiet.{set-Steady}

module _ ⦃P : Platform⦄ (now later : ℕ) where
  write_any_time :
      (key : String) (value : Value) (expires_at : Option ℕ) (s : KvStore)
      → write now key value expires_at (quiet s) ≡ write later key value expires_at (quiet s)
  unfolding write quiet
  write_any_time key value expires_at s =
      let s' = count_memory (estimate_value_size value) (
        count_keys (
          count_write
            (update_lru key (put key (record { value = value; expires_at = expires_at }) s)))) in
      elim (Bool-cases (ltb 0 s.config.max_memory_bytes && s.config.lru_eviction_enabled)) [
        | inl evicting ↦ rw evicting (
            emit_enforced now later now KeyspaceEventKind.set key s'
            ∙ enforce_any_time now later s'
            ∙ sym (emit_enforced now later later KeyspaceEventKind.set key s'))
        | inr fitting ↦ rw fitting (
            emit_off now later now KeyspaceEventKind.set key s'
            ∙ sym (emit_off now later later KeyspaceEventKind.set key s'))
      ]

  -- Behind two checks, actions that do the same.
  checked_same :
      (key_check value_check : Result (Unit {0})) (m n : Exec KvStore (Unit {0})) (s : KvStore)
      → m s ≡ n s
      → (lift key_check >> (lift value_check >> m)) s
        ≡ (lift key_check >> (lift value_check >> n)) s
  checked_same (ok a) (ok b) m n s e = e
  checked_same (ok a) (err x) m n s e = refl
  checked_same (ok a) panic m n s e = refl
  checked_same (err x) value_check m n s e = refl
  checked_same panic value_check m n s e = refl

  queue_or_write_same :
      (queueing : Bool) (queue : Exec KvStore (Unit {0})) (f g : KvStore → KvStore) (s : KvStore)
      → f s ≡ g s
      → (if queueing then queue else modify f) s ≡ (if queueing then queue else modify g) s
  queue_or_write_same true queue f g s e = refl
  queue_or_write_same false queue f g s e = ap (λ t. (ok tt, t)) e

  pub set_any_time :
      (key : String) (value : Value) (s : KvStore)
      → set now key value (quiet s) ≡ set later key value (quiet s)
  unfolding set set_expiring
  set_any_time key value s =
      checked_same (validate_key (quiet s).config key) (validate_value (quiet s).config value) _ _
        (quiet s)
        (queue_or_write_same (in_transaction (quiet s)) _ _ _ (quiet s)
          (write_any_time key value none s))

  pub delete_any_time :
      (key : String) (s : KvStore) → delete now key (quiet s) ≡ delete later key (quiet s)
  unfolding delete delete_now in_transaction quiet emit_keyspace_event
  delete_any_time key s = elim (Bool-cases (is_some s.transaction_queue)) [
    | inl queueing ↦ rw queueing refl
    | inr direct ↦ rw direct refl
  ]

  append_to_entry_any_time :
      (key text : String) (found : Option ValueWithTtl) (s : KvStore)
      → append_to_entry now key text found (quiet s)
        ≡ append_to_entry later key text found (quiet s)
  unfolding append_to_entry
  append_to_entry_any_time key text none s =
      ap (λ r. continue r.0 (λ _. pure (len text)) r.1) (set_any_time key (str text) s)
  append_to_entry_any_time key text (some entry) s = refl

  pub append_any_time :
      (key text : String) (s : KvStore)
      → append now key text (quiet s) ≡ append later key text (quiet s)
  unfolding append
  append_any_time key text s = append_to_entry_any_time key text _ s

  pub getset_any_time :
      (key : String) (value : Value) (s : KvStore)
      → getset now key value (quiet s) ≡ getset later key value (quiet s)
  unfolding getset
  getset_any_time key value s =
      ap (λ r. continue r.0 (λ _. pure (stored key (quiet s))) r.1) (set_any_time key value s)

  continue_same :
      (m n : Exec KvStore (Unit {0})) (r : Result (Unit {0})) (s : KvStore)
      → m (quiet s) ≡ n (quiet s)
      → continue r (λ _. m) (quiet s) ≡ continue r (λ _. n) (quiet s)
  continue_same m n (ok a) s e = e
  continue_same m n (err x) s e = refl
  continue_same m n panic s e = refl

  mset_set_any_time :
      (pairs : List (String × String)) (s : KvStore)
      → mset_set now pairs (quiet s) ≡ mset_set later pairs (quiet s)
  unfolding mset_set
  mset_set_any_time [] s = refl
  mset_set_any_time ((key, value) ∷ pairs) s =
      let at_once = set now key (str value) s in
      ap (λ r. continue r.0 (λ _. mset_set now pairs) r.1)
        ((set-Steady now key (str value)).after s)
      ∙ continue_same _ _ at_once.0 at_once.1 (mset_set_any_time pairs at_once.1)
      ∙ ap (λ r. continue r.0 (λ _. mset_set later pairs) r.1)
          (sym ((set-Steady now key (str value)).after s) ∙ set_any_time key (str value) s)

  pub mset_any_time :
      (pairs : List (String × String)) (s : KvStore)
      → mset now pairs (quiet s) ≡ mset later pairs (quiet s)
  unfolding mset
  mset_any_time pairs s = elim (Bool-cases (in_transaction (quiet s))) [
    | inl queueing ↦ rw queueing refl
    | inr direct ↦ rw direct (mset_set_any_time pairs s)
  ]
