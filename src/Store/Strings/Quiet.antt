-- ===== src/Store/Strings/Quiet.antt =====
-- The writers of Store/Strings do the same to the store whether its keyspace events are on or off.
use daikon.Prelude.{
  ℕ, ◌&&◌, String, ◌≡◌, refl, ap, ◌∙◌, Option, none, some, is_some, ltb, Bool-cases, inl, inr,
}
use daikon.Prelude.Int.{ℤ}
use daikon.Platform.{Platform}
use daikon.Exec.Steady.{Steady}
use daikon.Value.{Value, str, int, ValueWithTtl, op_delete, KeyspaceEventKind, estimate_value_size}
use daikon.Store.{
  KvStore, emit_keyspace_event, enforce_memory_limit, in_transaction, validate_key, validate_value,
  put, update_lru, count_memory, count_keys, count_write,
}
use daikon.Store.Strings.{
  write, set_expiring, set, set_with_ttl, stored, delete_now, delete, add_to_value, add_to_entry,
  incrby, append_to_value, append_to_entry, append, getset,
}
use daikon.Store.Quiet.{quiet, emit-quiet, enforce-quiet, queue-Steady, quiet_rules}

module _ ⦃P : Platform⦄ where
  write-quiet :
      (now : ℕ) (key : String) (value : Value) (expires_at : Option ℕ) (s : KvStore)
      → write now key value expires_at (quiet s) ≡ quiet (write now key value expires_at s)
  unfolding write quiet
  write-quiet now key value expires_at s =
      let s' = count_memory (estimate_value_size value) (
        count_keys (
          count_write
            (update_lru key (put key (record { value = value; expires_at = expires_at }) s)))) in
      elim (Bool-cases (ltb 0 s.config.max_memory_bytes && s.config.lru_eviction_enabled)) [
        | inl evicting ↦ rw evicting (
            ap (λ t. emit_keyspace_event now KeyspaceEventKind.set key t) (enforce-quiet now s')
            ∙ emit-quiet now KeyspaceEventKind.set key (enforce_memory_limit now s'))
        | inr fitting ↦ rw fitting (emit-quiet now KeyspaceEventKind.set key s')
      ]

  set_expiring-Steady :
      (now : ℕ) (key : String) (value : Value) (expires_at : Option ℕ)
      → Steady quiet (set_expiring now key value expires_at)
  unfolding set_expiring quiet validate_key validate_value in_transaction
  set_expiring-Steady now key value expires_at = search (quiet_rules, write-quiet) depth 12

  pub set-Steady : (now : ℕ) (key : String) (value : Value) → Steady quiet (set now key value)
  unfolding set
  set-Steady now key value = set_expiring-Steady now key value none

  pub set_with_ttl-Steady :
      (now : ℕ) (key : String) (value : Value) (ttl : ℕ)
      → Steady quiet (set_with_ttl now key value ttl)
  unfolding set_with_ttl
  set_with_ttl-Steady now key value ttl = set_expiring-Steady now key value _

  delete_now-quiet :
      (now : ℕ) (key : String) (s : KvStore)
      → (delete_now now key (quiet s)).1 ≡ quiet (delete_now now key s).1
  unfolding delete_now quiet
  delete_now-quiet now key s = elim (Bool-cases (is_some (stored key s))) [
    | inl there ↦ rw there (emit-quiet now KeyspaceEventKind.delete key _)
    | inr absent ↦ rw absent refl
  ]

  pub delete-quiet :
      (now : ℕ) (key : String) (s : KvStore)
      → (delete now key (quiet s)).1 ≡ quiet (delete now key s).1
  unfolding delete in_transaction quiet
  delete-quiet now key s = elim (Bool-cases (is_some s.transaction_queue)) [
    | inl queueing ↦ rw queueing (ap (λ r. r.1) ((queue-Steady (op_delete key)).after s))
    | inr direct ↦ rw direct (delete_now-quiet now key s)
  ]

  add_to_value-Steady :
      (key : String) (amount : ℤ) (entry : ValueWithTtl) (value : Value)
      → Steady quiet (add_to_value key amount entry value)
  unfolding add_to_value quiet
  add_to_value-Steady key amount entry (int i) = search quiet_rules depth 8
  add_to_value-Steady key amount entry _ = search quiet_rules

  add_to_entry-Steady :
      (key : String) (amount : ℤ) (found : Option ValueWithTtl)
      → Steady quiet (add_to_entry key amount found)
  unfolding add_to_entry
  add_to_entry-Steady key amount none = search quiet_rules
  add_to_entry-Steady key amount (some entry) = add_to_value-Steady key amount entry entry.value

  pub incrby-Steady : (key : String) (amount : ℤ) → Steady quiet (incrby key amount)
  unfolding incrby quiet
  incrby-Steady key amount = record {
    returns = λ s. (add_to_entry-Steady key amount _).returns s;
    after = λ s. (add_to_entry-Steady key amount _).after s;
  }

  append_to_value-Steady :
      (key text : String) (entry : ValueWithTtl) (value : Value)
      → Steady quiet (append_to_value key text entry value)
  unfolding append_to_value quiet
  append_to_value-Steady key text entry (str s) = search quiet_rules depth 8
  append_to_value-Steady key text entry _ = search quiet_rules

  append_to_entry-Steady :
      (now : ℕ) (key text : String) (found : Option ValueWithTtl)
      → Steady quiet (append_to_entry now key text found)
  unfolding append_to_entry
  append_to_entry-Steady now key text none = search (quiet_rules, set-Steady)
  append_to_entry-Steady now key text (some entry) =
      append_to_value-Steady key text entry entry.value

  pub append-Steady : (now : ℕ) (key text : String) → Steady quiet (append now key text)
  unfolding append quiet
  append-Steady now key text = record {
    returns = λ s. (append_to_entry-Steady now key text _).returns s;
    after = λ s. (append_to_entry-Steady now key text _).after s;
  }

  pub getset-Steady : (now : ℕ) (key : String) (value : Value) → Steady quiet (getset now key value)
  unfolding getset quiet
  getset-Steady now key value = search (quiet_rules, set-Steady)
