-- ===== src/Store/Strings/Validity.antt =====
-- The writers of Store/Strings keep the store well formed, whether they succeed or fail.
use daikon.Prelude.{ℕ, String, List, [], ◌∷◌, Option, none, some, Bool-cases, inl, inr}
use daikon.Prelude.Int.{ℤ}
use daikon.Platform.{Platform}
use daikon.Exec.Keeps.{Keeps}
use daikon.Value.{Value, str, int, ValueWithTtl, op_delete, KeyspaceEventKind}
use daikon.Store.{KvStore, in_transaction}
use daikon.Store.Strings.{
  write, set_expiring, set, set_with_ttl, delete_now, delete, add_to_value, add_to_entry, incrby,
  append_to_value, append_to_entry, append, getset, mset_queue, mset_set, mset,
}
use daikon.Store.Validity.{IsValid, Valid-write, Valid-remove, emit-IsValid, enforce-IsValid}
use daikon.Store.Validity.Rules.{if-IsValid, queue-IsValid, valid_rules}

module _ ⦃P : Platform⦄ where
  write-IsValid :
      (now : ℕ) (key : String) (value : Value) (expires_at : Option ℕ) (s : KvStore)
      → IsValid s
      → IsValid (write now key value expires_at s)
  unfolding write
  write-IsValid now key value expires_at s v =
      emit-IsValid now KeyspaceEventKind.set key _
        (if-IsValid _ _ _ (enforce-IsValid now _ (Valid-write key _ v)) (Valid-write key _ v))

  set_expiring-IsValid :
      (now : ℕ) (key : String) (value : Value) (expires_at : Option ℕ)
      → Keeps IsValid (set_expiring now key value expires_at)
  unfolding set_expiring
  set_expiring-IsValid now key value expires_at = search (valid_rules, write-IsValid) depth 10

  pub set-IsValid : (now : ℕ) (key : String) (value : Value) → Keeps IsValid (set now key value)
  unfolding set
  set-IsValid now key value = set_expiring-IsValid now key value none

  pub set_with_ttl-IsValid :
      (now : ℕ) (key : String) (value : Value) (ttl : ℕ)
      → Keeps IsValid (set_with_ttl now key value ttl)
  unfolding set_with_ttl
  set_with_ttl-IsValid now key value ttl = set_expiring-IsValid now key value _

  delete_now-IsValid :
      (now : ℕ) (key : String) (s : KvStore) → IsValid s → IsValid (delete_now now key s).1
  unfolding delete_now
  delete_now-IsValid now key s v =
      if-IsValid _ _ _ (emit-IsValid now KeyspaceEventKind.delete key _ (Valid-remove key v))
        (Valid-remove key v)

  pub delete-IsValid :
      (now : ℕ) (key : String) (s : KvStore) → IsValid s → IsValid (delete now key s).1
  unfolding delete
  delete-IsValid now key s v = elim (Bool-cases (in_transaction s)) [
    | inl queueing ↦ rw queueing ((queue-IsValid (op_delete key)).after s v)
    | inr direct ↦ rw direct (delete_now-IsValid now key s v)
  ]

  add_to_value-IsValid :
      (key : String) (amount : ℤ) (entry : ValueWithTtl) (value : Value)
      → Keeps IsValid (add_to_value key amount entry value)
  unfolding add_to_value
  add_to_value-IsValid key amount entry (int i) = search valid_rules depth 8
  add_to_value-IsValid key amount entry _ = search valid_rules

  add_to_entry-IsValid :
      (key : String) (amount : ℤ) (found : Option ValueWithTtl)
      → Keeps IsValid (add_to_entry key amount found)
  unfolding add_to_entry
  add_to_entry-IsValid key amount none = search valid_rules
  add_to_entry-IsValid key amount (some entry) = add_to_value-IsValid key amount entry entry.value

  -- `incr` and `decr` are `incrby` of 1 and -1.
  pub incrby-IsValid : (key : String) (amount : ℤ) → Keeps IsValid (incrby key amount)
  unfolding incrby
  incrby-IsValid key amount = record { after = λ s. (add_to_entry-IsValid key amount _).after s }

  append_to_value-IsValid :
      (key text : String) (entry : ValueWithTtl) (value : Value)
      → Keeps IsValid (append_to_value key text entry value)
  unfolding append_to_value
  append_to_value-IsValid key text entry (str s) = search valid_rules depth 8
  append_to_value-IsValid key text entry _ = search valid_rules

  append_to_entry-IsValid :
      (now : ℕ) (key text : String) (found : Option ValueWithTtl)
      → Keeps IsValid (append_to_entry now key text found)
  unfolding append_to_entry
  append_to_entry-IsValid now key text none = search (valid_rules, set-IsValid)
  append_to_entry-IsValid now key text (some entry) =
      append_to_value-IsValid key text entry entry.value

  pub append-IsValid : (now : ℕ) (key text : String) → Keeps IsValid (append now key text)
  unfolding append
  append-IsValid now key text = record {
    after = λ s. (append_to_entry-IsValid now key text _).after s;
  }

  pub getset-IsValid :
      (now : ℕ) (key : String) (value : Value) → Keeps IsValid (getset now key value)
  unfolding getset
  getset-IsValid now key value = search (valid_rules, set-IsValid)

  mset_queue-IsValid : (pairs : List (String × String)) → Keeps IsValid (mset_queue pairs)
  unfolding mset_queue
  mset_queue-IsValid [] = search valid_rules
  mset_queue-IsValid ((key, value) ∷ pairs) =
      let rest = mset_queue-IsValid pairs in search valid_rules depth 10

  mset_set-IsValid : (now : ℕ) (pairs : List (String × String)) → Keeps IsValid (mset_set now pairs)
  unfolding mset_set
  mset_set-IsValid now [] = search valid_rules
  mset_set-IsValid now ((key, value) ∷ pairs) =
      let rest = mset_set-IsValid now pairs in search (valid_rules, set-IsValid)

  pub mset-IsValid : (now : ℕ) (pairs : List (String × String)) → Keeps IsValid (mset now pairs)
  unfolding mset
  mset-IsValid now pairs = record {
    after = λ s v. elim (Bool-cases (in_transaction s)) [
      | inl queueing ↦ rw queueing ((mset_queue-IsValid pairs).after s v)
      | inr direct ↦ rw direct ((mset_set-IsValid now pairs).after s v)
    ];
  }
