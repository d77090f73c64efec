-- ===== src/Store/Transactions/Atomic.antt =====
-- MULTI, the queueing of operations, and EXEC or DISCARD, as one transaction.
use daikon.Prelude.{
  suc, ◌≡◌, refl, sym, ◌∙◌, ap, Option, none, some, List, [], ◌∷◌, ◌++◌, length, arith,
}
use mathlib.Core.List.{append-nil, append_assoc}
use daikon.Platform.{Platform}
use daikon.Error.{ok}
use daikon.Value.{TransactionOp, op_set, op_delete, op_incr, op_decr, op_incrby, op_append}
use daikon.Store.{KvStore, in_transaction, queue_operation}
use daikon.Store.Transactions.{multi, discard, exec, exec_queue, exec_op}

module _ ⦃P : Platform⦄ where
  -- A client that queues operations one by one.
  pub queue_all : List TransactionOp → KvStore → KvStore
  queue_all [] s = s
  queue_all (op ∷ ops) s = queue_all ops (queue_operation op s).1

  abbrev with_queue : Option (List TransactionOp) → KvStore → KvStore
  with_queue q s = record s { transaction_queue = q }

  pub with_queue_self :
      (s : KvStore) {q : Option (List TransactionOp)} → s.transaction_queue ≡ q → with_queue q s ≡ s
  with_queue_self s e = λ i. record s { transaction_queue = sym e i }

  queue_one :
      (op : TransactionOp) (queue : List TransactionOp) (s : KvStore)
      → s.transaction_queue ≡ some queue
      → (queue_operation op s).1 ≡ with_queue (some (queue ++ op ∷ [])) s
  unfolding queue_operation
  queue_one op queue s e = ground arith

  queue_all-append :
      (ops queue : List TransactionOp) (s : KvStore)
      → s.transaction_queue ≡ some queue
      → queue_all ops s ≡ with_queue (some (queue ++ ops)) s
  unfolding queue_all
  queue_all-append [] queue s e = sym (with_queue_self s (e ∙ ap some (sym (append-nil queue))))
  queue_all-append (op ∷ ops) queue s e =
      ap (queue_all ops) (queue_one op queue s e)
      ∙ queue_all-append ops (queue ++ op ∷ []) (with_queue (some (queue ++ op ∷ [])) s) refl
      ∙ ap (λ q. with_queue (some q) s) (append_assoc queue (op ∷ []) ops)

  pub queued :
      (ops : List TransactionOp) (s : KvStore)
      → s.transaction_queue ≡ none
      → queue_all ops (multi s).1 ≡ with_queue (some ops) s
  unfolding multi in_transaction
  queued ops s closed =
      ap (queue_all ops) (simp closed) ∙ queue_all-append ops [] (with_queue (some []) s) refl

  pub length-exec_queue :
      (ops : List TransactionOp) (s : KvStore) → length (exec_queue ops s).0 ≡ length ops
  unfolding exec_queue
  length-exec_queue [] s = refl
  length-exec_queue (op ∷ ops) s = ap suc (length-exec_queue ops (exec_op op s).1)

  -- What an operation in EXEC leaves alone.
  pub record Unaccounted (s t : KvStore) : Type 0 where
    pub queue : t.transaction_queue ≡ s.transaction_queue
    pub memory : t.stats.memory_bytes ≡ s.stats.memory_bytes
    pub keys : t.stats.total_keys ≡ s.stats.total_keys
    pub events : t.pending_keyspace_events ≡ s.pending_keyspace_events

  exec_op-Unaccounted : (op : TransactionOp) (s : KvStore) → Unaccounted s (exec_op op s).1
  unfolding exec_op
  exec_op-Unaccounted (op_set k v e) s = ground arith
  exec_op-Unaccounted (op_delete k) s = ground arith
  exec_op-Unaccounted (op_incr k) s = ground arith
  exec_op-Unaccounted (op_decr k) s = ground arith
  exec_op-Unaccounted (op_incrby k i) s = ground arith
  exec_op-Unaccounted (op_append k t) s = ground arith

  pub exec_queue-Unaccounted :
      (ops : List TransactionOp) (s : KvStore) → Unaccounted s (exec_queue ops s).1
  unfolding exec_queue
  exec_queue-Unaccounted [] s = record { queue = refl; memory = refl; keys = refl; events = refl }
  exec_queue-Unaccounted (op ∷ ops) s =
      let rest = exec_queue-Unaccounted ops (exec_op op s).1 in
      let first = exec_op-Unaccounted op s in
      record {
        queue = rest.queue ∙ first.queue;
        memory = rest.memory ∙ first.memory;
        keys = rest.keys ∙ first.keys;
        events = rest.events ∙ first.events;
      }

  -- Outside a transaction, DISCARD after MULTI and any queued operations leaves the store as
  -- it was before MULTI.
  pub discard_restores :
      (ops : List TransactionOp) (s : KvStore)
      → s.transaction_queue ≡ none
      → discard (queue_all ops (multi s).1) ≡ (ok tt, s)
  unfolding discard in_transaction
  discard_restores ops s closed =
      ap discard (queued ops s closed) ∙ ap (λ t. (ok tt, t)) (with_queue_self s closed)

  -- EXEC counts no memory, does not refresh the number of keys and emits no keyspace event,
  -- whatever it writes: these stay as they were when the transaction was executed.
  pub exec_unaccounted :
      (ops : List TransactionOp) (s : KvStore)
      → s.transaction_queue ≡ some ops
      → ((exec s).1.stats.memory_bytes ≡ s.stats.memory_bytes)
        × ((exec s).1.stats.total_keys ≡ s.stats.total_keys)
        × ((exec s).1.pending_keyspace_events ≡ s.pending_keyspace_events)
  unfolding exec
  exec_unaccounted ops s open_ =
      let u = exec_queue-Unaccounted ops (with_queue none s) in
      simp open_ (u.memory, u.keys, u.events)
