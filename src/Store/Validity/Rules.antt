-- ===== src/Store/Validity/Rules.antt =====
-- The rules by which the operations of kv_store.rs keep the store well formed.
use daikon.Prelude.{Bool, true, false, Option-cases, inl, inr, if◌then◌else◌}
use daikon.Platform.{Platform}
use daikon.Exec.Keeps.{Keeps, Keeps-modify, keeps_rules}
use daikon.Value.{TransactionOp}
use daikon.Store.{KvStore, queue_operation}
use daikon.Store.Validity.{IsValid, Valid-write}

module _ ⦃P : Platform⦄ where
  pub if-IsValid : (b : Bool) (s t : KvStore) → IsValid s → IsValid t → IsValid (if b then s else t)
  if-IsValid true s t vs vt = vs
  if-IsValid false s t vs vt = vt

  pub queue-IsValid : (op : TransactionOp) → Keeps IsValid (queue_operation op)
  unfolding queue_operation
  queue-IsValid op = record {
    after = λ s v. elim (Option-cases s.transaction_queue) [
      | inl none_open ↦ rw none_open v
      | inr (queue, e) ↦ rw e v
    ];
  }

  pub ruleset valid_rules = (keeps_rules, Keeps-modify, Valid-write, queue-IsValid)
