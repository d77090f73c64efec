-- ===== src/Store/Transactions/Order.antt =====
-- EXEC against a description of its own: what one queued operation does to the entry of its key, and
-- what a queue, from its first operation to its last, does to the entries of all keys.
use daikon.Prelude.{
  String, ◌≡◌, refl, sym, ◌∙◌, ap, Option, none, some, List, [], ◌∷◌, ◌==◌, eq_iff, subst, length,
  add_i64, decimal_i64, str_append, Bool-cases, inl, inr, if◌then◌else◌,
}
use daikon.Prelude.Int.{ℤ, pos, negsuc}
use daikon.Platform.{Platform}
use daikon.Error.{ok}
use daikon.HashMap
use daikon.HashMap.Laws.{get-insert, get-remove}
use daikon.Value.{
  Value, int, str, ValueWithTtl, TransactionOp, op_set, op_delete, op_incr, op_decr, op_incrby,
  op_append,
}
use daikon.Store.{KvStore, lasting}
use daikon.Store.Transactions.{
  multi, exec, exec_queue, exec_op, exec_add, exec_add_value, exec_append, exec_append_value,
}
use daikon.Store.Transactions.Atomic.{
  queue_all, queued, with_queue_self, exec_queue-Unaccounted, length-exec_queue,
}

module _ ⦃P : Platform⦄ where
  abbrev pub Entries : Type 0
  Entries = String → Option ValueWithTtl

  abbrev key_of : TransactionOp → String
  key_of (op_set key value expires_at) = key
  key_of (op_delete key) = key
  key_of (op_incr key) = key
  key_of (op_decr key) = key
  key_of (op_incrby key amount) = key
  key_of (op_append key text) = key

  -- The sum of a number and the amount, with the old expiry; the amount under a new key.
  abbrev added_value : ℤ → ValueWithTtl → Value → String × ValueWithTtl
  added_value amount entry (int i) =
      (decimal_i64 (add_i64 i amount), record entry { value = int (add_i64 i amount) })
  added_value amount entry other = ("ERR: Type mismatch", entry)

  abbrev added : ℤ → Option ValueWithTtl → String × ValueWithTtl
  added amount none = (decimal_i64 amount, lasting (int amount))
  added amount (some entry) = added_value amount entry entry.value

  abbrev appended_value : String → ValueWithTtl → Value → String × ValueWithTtl
  appended_value text entry (str s) = ("OK", record entry { value = str (str_append s text) })
  appended_value text entry other = ("ERR: Type mismatch", entry)

  abbrev appended : String → Option ValueWithTtl → String × ValueWithTtl
  appended text none = ("OK", lasting (str text))
  appended text (some entry) = appended_value text entry entry.value

  abbrev there : String × ValueWithTtl → String × Option ValueWithTtl
  there (line, entry) = (line, some entry)

  -- The line and the entry that an operation makes of the entry that it finds.
  pub effect : TransactionOp → Option ValueWithTtl → String × Option ValueWithTtl
  effect (op_set key value expires_at) found =
      ("OK", some (record { value = value; expires_at = expires_at }))
  effect (op_delete key) found = ("OK", none)
  effect (op_incr key) found = there (added (pos 1) found)
  effect (op_decr key) found = there (added (negsuc 0) found)
  effect (op_incrby key amount) found = there (added amount found)
  effect (op_append key text) found = there (appended text found)

  pub after : TransactionOp → Entries → Entries
  after op m key = if key_of op == key then (effect op (m key)).1 else m key

  -- The queue was run on the first entries, its first operation first, with these lines and the last
  -- entries.
  pub data Ran : List TransactionOp → Entries → List String → Entries → Type 0 where
    nothing : (m m' : Entries) → ((key : String) → m key ≡ m' key) → Ran [] m [] m'
    next :
        (op : TransactionOp) (ops : List TransactionOp) (m m' : Entries) (lines : List String)
        → Ran ops (after op m) lines m'
        → Ran (op ∷ ops) m ((effect op (m (key_of op))).0 ∷ lines) m'

  abbrev pub entries : KvStore → Entries
  entries s key = HashMap.get key s.store

  Effects : String → (String × KvStore) → (String × Option ValueWithTtl) → KvStore → Type 0
  Effects key (line, s') (line', found') s =
      (line ≡ line') × ((j : String) → entries s' j ≡ (if key == j then found' else entries s j))

  untouched :
      (key : String) (entry : ValueWithTtl) (s : KvStore)
      → entries s key ≡ some entry
      → (j : String) → entries s j ≡ (if key == j then some entry else entries s j)
  untouched key entry s e j = elim (Bool-cases (key == j)) [
    | inl same ↦ rw same (ap (entries s) (sym ((eq_iff key j).0 same)) ∙ e)
    | inr other ↦ rw other refl
  ]

  exec_add_value-Effects :
      (key : String) (amount : ℤ) (entry : ValueWithTtl) (value : Value) (s : KvStore)
      → entries s key ≡ some entry
      → Effects key
          (exec_add_value key amount entry value s)
          (there (added_value amount entry value))
          s
  unfolding exec_add_value Effects
  exec_add_value-Effects key amount entry (int i) s e = (refl, λ j. get-insert key j _ s.store)
  exec_add_value-Effects key amount entry _ s e = (refl, untouched key entry s e)

  exec_add-Effects :
      (key : String) (amount : ℤ) (found : Option ValueWithTtl) (s : KvStore)
      → entries s key ≡ found
      → Effects key (exec_add key amount found s) (there (added amount found)) s
  unfolding exec_add Effects
  exec_add-Effects key amount none s e = (refl, λ j. get-insert key j _ s.store)
  exec_add-Effects key amount (some entry) s e =
      unfold Effects in exec_add_value-Effects key amount entry entry.value s e

  exec_append_value-Effects :
      (key text : String) (entry : ValueWithTtl) (value : Value) (s : KvStore)
      → entries s key ≡ some entry
      → Effects key
          (exec_append_value key text entry value s)
          (there (appended_value text entry value))
          s
  unfolding exec_append_value Effects
  exec_append_value-Effects key text entry (str t) s e = (refl, λ j. get-insert key j _ s.store)
  exec_append_value-Effects key text entry _ s e = (refl, untouched key entry s e)

  exec_append-Effects :
      (key text : String) (found : Option ValueWithTtl) (s : KvStore)
      → entries s key ≡ found
      → Effects key (exec_append key text found s) (there (appended text found)) s
  unfolding exec_append Effects
  exec_append-Effects key text none s e = (refl, λ j. get-insert key j _ s.store)
  exec_append-Effects key text (some entry) s e =
      unfold Effects in exec_append_value-Effects key text entry entry.value s e

  exec_op-Effects :
      (op : TransactionOp) (s : KvStore)
      → Effects (key_of op) (exec_op op s) (effect op (entries s (key_of op))) s
  unfolding exec_op Effects effect
  exec_op-Effects (op_set key value expires_at) s = (refl, λ j. get-insert key j _ s.store)
  exec_op-Effects (op_delete key) s = (refl, λ j. get-remove key j s.store)
  exec_op-Effects (op_incr key) s = exec_add-Effects key _ _ s refl
  exec_op-Effects (op_decr key) s = exec_add-Effects key _ _ s refl
  exec_op-Effects (op_incrby key amount) s = exec_add-Effects key amount _ s refl
  exec_op-Effects (op_append key text) s = exec_append-Effects key text _ s refl

  after-entries :
      (op : TransactionOp) (m : Entries) (s : KvStore)
      → ((key : String) → m key ≡ entries s key)
      → (key : String) → after op m key ≡ entries (exec_op op s).1 key
  unfolding after Effects
  after-entries op m s h key = elim (Bool-cases (key_of op == key)) [
    | inl same ↦
        let e : key_of op ≡ key = (eq_iff (key_of op) key).0 same in
        let found : m key ≡ entries s (key_of op) = h key ∙ ap (entries s) (sym e) in
        let done : entries (exec_op op s).1 key ≡ (effect op (entries s (key_of op))).1 =
          rw same at ((exec_op-Effects op s).1 key) in
        rw (same, found) (sym done)
    | inr other ↦
        let kept : entries (exec_op op s).1 key ≡ entries s key =
          rw other at ((exec_op-Effects op s).1 key) in
        rw other (h key ∙ sym kept)
  ]

  exec_queue-Ran :
      (ops : List TransactionOp) (s : KvStore) (m : Entries)
      → ((key : String) → m key ≡ entries s key)
      → Ran ops m (exec_queue ops s).0 (entries (exec_queue ops s).1)
  unfolding exec_queue Effects
  exec_queue-Ran [] s m h = nothing m _ h
  exec_queue-Ran (op ∷ ops) s m h =
      let (line, s') = exec_op op s in
      let answer : (effect op (m (key_of op))).0 ≡ line =
        ap (λ found. (effect op found).0) (h (key_of op)) ∙ sym (exec_op-Effects op s).0 in
      subst (λ l. Ran (op ∷ ops) m (l ∷ (exec_queue ops s').0) (entries (exec_queue ops s').1))
        answer (next op ops m _ _ (exec_queue-Ran ops s' (after op m) (after-entries op m s h)))

  -- Outside a transaction, EXEC after MULTI and any queued operations runs them in the order in which
  -- they were queued, each on the entries that the ones before it left, from the entries at MULTI on:
  -- a SET stores its value and its expiry, a DELETE takes the entry away, INCR, DECR and INCRBY add to a
  -- number or make one, APPEND adds to a text or makes one, and on another kind of value these leave the
  -- entry and answer an error line. The answer is the line of each, in that order, and the transaction
  -- has ended.
  pub exec_runs_queue :
      (ops : List TransactionOp) (s : KvStore)
      → s.transaction_queue ≡ none
      → let (r, s') = exec (queue_all ops (multi s).1) in
        (lines : List String) × (r ≡ ok lines)
        × Ran ops (entries s) lines (entries s')
        × (length lines ≡ length ops)
        × (s'.transaction_queue ≡ none)
  unfolding exec
  exec_runs_queue ops s closed =
      let runs : exec (queue_all ops (multi s).1)
          ≡ (ok (exec_queue ops s).0, (exec_queue ops s).1) =
        ap exec (queued ops s closed)
        ∙ ap (λ t. (ok (exec_queue ops t).0, (exec_queue ops t).1)) (with_queue_self s closed) in
      rw runs (
        (exec_queue ops s).0,
        refl,
        exec_queue-Ran ops s (entries s) (λ key. refl),
        length-exec_queue ops s,
        (exec_queue-Unaccounted ops s).queue ∙ closed,
      )
