-- ===== src/Store/Transactions.antt =====
-- kv_store.rs: MULTI, EXEC and DISCARD.
pub mod Validity
pub mod Atomic
pub mod Order
use daikon.Prelude.{
  ℕ, String, Bool, Option, none, some, List, [], ◌∷◌, ◌++◌, add_u64, add_i64, str_append,
  decimal_i64, if◌then◌else◌,
}
use daikon.Prelude.Int.{ℤ, pos, negsuc}
use daikon.Platform.{Platform}
use daikon.Error.{Result, ok, err, operation_failed}
use daikon.Exec.{Exec}
use daikon.HashMap
use daikon.Value.{
  Value, str, int, ValueWithTtl, TransactionOp, op_set, op_delete, op_incr, op_decr, op_incrby,
  op_append,
}
use daikon.Store.{KvStore, count_write, put, lasting, update_lru, in_transaction}

module _ ⦃P : Platform⦄ where
  unfoldable pub multi : Exec KvStore (Unit {0})
  multi s =
      if in_transaction s
      then (err (operation_failed "Transaction already in progress"), s)
      else (ok tt, record s { transaction_queue = some [] })

  unfoldable pub discard : Exec KvStore (Unit {0})
  discard s =
      if in_transaction s
      then (ok tt, record s { transaction_queue = none })
      else (err (operation_failed "No transaction in progress"), s)

  -- The arms `Incr`, `Decr` and `IncrBy` of `exec`, up to the counters: the result line, and the
  -- store with the new value.
  exec_add_value : String → ℤ → ValueWithTtl → Value → KvStore → String × KvStore
  exec_add_value key amount entry (int i) s =
      let next = add_i64 i amount in
      (decimal_i64 next, put key (record entry { value = int next }) s)
  exec_add_value key amount entry other s = ("ERR: Type mismatch", s)

  exec_add : String → ℤ → Option ValueWithTtl → KvStore → String × KvStore
  exec_add key amount none s = (decimal_i64 amount, put key (lasting (int amount)) s)
  exec_add key amount (some entry) s = exec_add_value key amount entry entry.value s

  exec_append_value : String → String → ValueWithTtl → Value → KvStore → String × KvStore
  exec_append_value key text entry (str string) s =
      ("OK", put key (record entry { value = str (str_append string text) }) s)
  exec_append_value key text entry other s = ("ERR: Type mismatch", s)

  exec_append : String → String → Option ValueWithTtl → KvStore → String × KvStore
  exec_append key text none s = ("OK", put key (lasting (str text)) s)
  exec_append key text (some entry) s = exec_append_value key text entry entry.value s

  -- `self.stats.total_writes += 1; self.update_lru(&key);`
  abbrev wrote : String → String × KvStore → String × KvStore
  wrote key (line, s) = (line, update_lru key (count_write s))

  unfoldable pub exec_op : TransactionOp → KvStore → String × KvStore
  unfolding exec_add exec_add_value exec_append exec_append_value
  exec_op (op_set key value expires_at) s =
      wrote key ("OK", put key (record { value = value; expires_at = expires_at }) s)
  exec_op (op_delete key) s = (
    "OK",
    record s {
      store = HashMap.remove key s.store;
      stats = record s.stats { total_deletes = add_u64 s.stats.total_deletes 1 };
    },
  )
  exec_op (op_incr key) s = wrote key (exec_add key (pos 1) (HashMap.get key s.store) s)
  exec_op (op_decr key) s = wrote key (exec_add key (negsuc 0) (HashMap.get key s.store) s)
  exec_op (op_incrby key amount) s = wrote key (exec_add key amount (HashMap.get key s.store) s)
  exec_op (op_append key text) s = wrote key (exec_append key text (HashMap.get key s.store) s)

  unfoldable pub exec_queue : List TransactionOp → KvStore → List String × KvStore
  exec_queue [] s = ([], s)
  exec_queue (op ∷ ops) s =
      let (line, s') = exec_op op s in let (lines, s'') = exec_queue ops s' in (line ∷ lines, s'')

  exec_taken : Option (List TransactionOp) → Exec KvStore (List String)
  exec_taken none s = (err (operation_failed "No transaction in progress"), s)
  exec_taken (some queue) s =
      let (results, s') = exec_queue queue (record s { transaction_queue = none }) in
      (ok results, s')

  unfoldable pub exec : Exec KvStore (List String)
  unfolding exec_taken
  exec s = exec_taken s.transaction_queue s
