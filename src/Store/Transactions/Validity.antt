-- ===== src/Store/Transactions/Validity.antt =====
-- MULTI, EXEC and DISCARD keep the store well formed.
use daikon.Prelude.{String, List, [], ◌∷◌, Option, none, some, Bool-cases, inl, inr}
use daikon.Prelude.Int.{ℤ}
use daikon.Platform.{Platform}
use daikon.Exec.Keeps.{Keeps}
use daikon.Value.{
  Value, str, int, ValueWithTtl, TransactionOp, op_set, op_delete, op_incr, op_decr, op_incrby,
  op_append,
}
use daikon.Store.{KvStore, in_transaction, update_lru}
use daikon.Store.Transactions.{
  multi, discard, exec_add_value, exec_add, exec_append_value, exec_append, exec_op, exec_queue,
  exec_taken, exec,
}
use daikon.Store.Validity.{IsValid, Valid-write, Valid-touch, Valid-remove}

module _ ⦃P : Platform⦄ where
  pub multi-IsValid : Keeps IsValid multi
  unfolding multi
  multi-IsValid = record {
    after = λ s v. elim (Bool-cases (in_transaction s)) [
      | inl open_ ↦ rw open_ v
      | inr none_ ↦ rw none_ v
    ];
  }

  pub discard-IsValid : Keeps IsValid discard
  unfolding discard
  discard-IsValid = record {
    after = λ s v. elim (Bool-cases (in_transaction s)) [
      | inl open_ ↦ rw open_ v
      | inr none_ ↦ rw none_ v
    ];
  }

  -- The store that an arm leaves is well formed once the key is moved to the end of the order.
  exec_add_value-IsValid :
      (key : String) (amount : ℤ) (entry : ValueWithTtl) (value : Value) (s : KvStore)
      → IsValid s
      → IsValid (update_lru key (exec_add_value key amount entry value s).1)
  unfolding exec_add_value
  exec_add_value-IsValid key amount entry (int i) s v = Valid-write key _ v
  exec_add_value-IsValid key amount entry _ s v = Valid-touch key v

  exec_add-IsValid :
      (key : String) (amount : ℤ) (found : Option ValueWithTtl) (s : KvStore)
      → IsValid s
      → IsValid (update_lru key (exec_add key amount found s).1)
  unfolding exec_add
  exec_add-IsValid key amount none s v = Valid-write key _ v
  exec_add-IsValid key amount (some entry) s v =
      exec_add_value-IsValid key amount entry entry.value s v

  exec_append_value-IsValid :
      (key text : String) (entry : ValueWithTtl) (value : Value) (s : KvStore)
      → IsValid s
      → IsValid (update_lru key (exec_append_value key text entry value s).1)
  unfolding exec_append_value
  exec_append_value-IsValid key text entry (str t) s v = Valid-write key _ v
  exec_append_value-IsValid key text entry _ s v = Valid-touch key v

  exec_append-IsValid :
      (key text : String) (found : Option ValueWithTtl) (s : KvStore)
      → IsValid s
      → IsValid (update_lru key (exec_append key text found s).1)
  unfolding exec_append
  exec_append-IsValid key text none s v = Valid-write key _ v
  exec_append-IsValid key text (some entry) s v =
      exec_append_value-IsValid key text entry entry.value s v

  exec_op-IsValid : (op : TransactionOp) (s : KvStore) → IsValid s → IsValid (exec_op op s).1
  unfolding exec_op
  exec_op-IsValid (op_set key value expires_at) s v = Valid-write key _ v
  exec_op-IsValid (op_delete key) s v = Valid-remove key v
  exec_op-IsValid (op_incr key) s v = exec_add-IsValid key _ _ s v
  exec_op-IsValid (op_decr key) s v = exec_add-IsValid key _ _ s v
  exec_op-IsValid (op_incrby key amount) s v = exec_add-IsValid key amount _ s v
  exec_op-IsValid (op_append key text) s v = exec_append-IsValid key text _ s v

  exec_queue-IsValid :
      (queue : List TransactionOp) (s : KvStore) → IsValid s → IsValid (exec_queue queue s).1
  unfolding exec_queue
  exec_queue-IsValid [] s v = v
  exec_queue-IsValid (op ∷ ops) s v =
      exec_queue-IsValid ops (exec_op op s).1 (exec_op-IsValid op s v)

  exec_taken-IsValid : (found : Option (List TransactionOp)) → Keeps IsValid (exec_taken found)
  unfolding exec_taken
  exec_taken-IsValid none = record { after = λ s v. v }
  exec_taken-IsValid (some queue) = record { after = λ s v. exec_queue-IsValid queue _ v }

  pub exec-IsValid : Keeps IsValid exec
  unfolding exec
  exec-IsValid = record { after = λ s. (exec_taken-IsValid s.transaction_queue).after s }
