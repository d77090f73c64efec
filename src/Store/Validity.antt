-- ===== src/Store/Validity.antt =====
-- The well-formedness of the store of kv_store.rs: its map has no key twice, and every stored key
-- is in the eviction order, so that eviction can reach it.
pub mod Rules
use daikon.Prelude.{
  ℕ, String, Bool, true, false, not, ◌&&◌, ◌||◌, ◌≡◌, refl, Option, none, some, is_some, List, [],
  ◌∷◌, ◌++◌, contains, retain, ◌==◌, eq_iff, eq_refl, if◌then◌else◌, arith, Bool-cases, inl, inr,
  ltb, eqb, subst,
}
use daikon.Platform.{Platform}
use daikon.Exec.{Exec}
use daikon.Exec.Keeps.{Keeps}
use daikon.HashMap
use daikon.HashMap.{HashMap, Distinct}
use daikon.HashMap.Laws.{get-insert, get-remove, insert-Distinct, remove-Distinct}
use daikon.Value.{ValueWithTtl, KeyspaceEventKind}
use daikon.Store.{
  KvStore, touch, emit_keyspace_event, evict_entry, evict, evict_loop, enforce_memory_limit,
}

contains-append :
    (xs ys : List String) (j : String) → contains (xs ++ ys) j ≡ (contains xs j || contains ys j)
contains-append [] ys j = refl
contains-append (x ∷ xs) ys j = ground (arith, contains-append xs ys j)

contains-retain_ne :
    (k j : String) (order : List String)
    → (k == j) ≡ false
    → contains (retain (λ x. not (x == k)) order) j ≡ contains order j
contains-retain_ne k j [] h = refl
contains-retain_ne k j (x ∷ order) h =
    ground (arith, contains-retain_ne k j order h, eq_iff x k, eq_iff x j, eq_iff k j)

pub contains-touch :
    (k j : String) (order : List String) → contains (touch k order) j ≡ (k == j || contains order j)
unfolding touch
contains-touch k j order = elim (Bool-cases (k == j)) [
  | inl same ↦ rw contains-append (ground arith)
  | inr other ↦ rw contains-append (ground (arith, contains-retain_ne k j order other))
]

module _ ⦃P : Platform⦄ where
  pub record Valid (store : HashMap ValueWithTtl) (order : List String) : Type 0 where
    pub distinct : Distinct store
    pub tracked : (k : String) → HashMap.contains_key k store ≡ true → contains order k ≡ true

  abbrev pub IsValid : KvStore → Type 0
  IsValid s = Valid s.store s.lru_order

  pub Valid-empty : Valid [] []
  unfolding HashMap.get
  Valid-empty = record { distinct = tt; tracked = λ k h. cc }

  pub Valid-touch :
      (k : String) {store : HashMap ValueWithTtl} {order : List String}
      → Valid store order
      → Valid store (touch k order)
  Valid-touch k {store} {order} v = record {
    distinct = v.distinct;
    tracked = λ j h. ground (arith, contains-touch k j order, v.tracked j h);
  }

  pub Valid-write :
      (k : String) (e : ValueWithTtl) {store : HashMap ValueWithTtl} {order : List String}
      → Valid store order
      → Valid (HashMap.insert k e store) (touch k order)
  Valid-write k e {store} {order} v = record {
    distinct = insert-Distinct k e store v.distinct;
    tracked = λ j h. ground (arith, contains-touch k j order, get-insert k j e store, v.tracked j);
  }

  -- A new entry under a key that is there.
  pub Valid-replace :
      (k : String) (e old : ValueWithTtl) {store : HashMap ValueWithTtl} {order : List String}
      → HashMap.get k store ≡ some old
      → Valid store order
      → Valid (HashMap.insert k e store) order
  Valid-replace k e old {store} {order} found v = record {
    distinct = insert-Distinct k e store v.distinct;
    tracked = λ j h. ground (arith, get-insert k j e store, v.tracked j, v.tracked k, eq_iff k j);
  }

  pub Valid-remove :
      (k : String) {store : HashMap ValueWithTtl} {order : List String}
      → Valid store order
      → Valid (HashMap.remove k store) order
  Valid-remove k {store} {order} v = record {
    distinct = remove-Distinct k store v.distinct;
    tracked = λ j h. ground (arith, get-remove k j store, v.tracked j);
  }

  Valid-evict :
      (k : String) {store : HashMap ValueWithTtl} {rest : List String}
      → Valid store (k ∷ rest)
      → Valid (HashMap.remove k store) rest
  Valid-evict k {store} {rest} v = record {
    distinct = remove-Distinct k store v.distinct;
    tracked = λ j h. ground (arith, get-remove k j store, v.tracked j);
  }

  -- A key that is not stored may leave the order.
  Valid-drop :
      (k : String) {store : HashMap ValueWithTtl} {rest : List String}
      → HashMap.get k store ≡ none
      → Valid store (k ∷ rest)
      → Valid store rest
  Valid-drop k {store} {rest} absent v = record {
    distinct = v.distinct;
    tracked = λ j h. ground (arith, v.tracked j, eq_iff k j);
  }

  pub emit-IsValid :
      (now : ℕ) (kind : KeyspaceEventKind) (key : String) (s : KvStore)
      → IsValid s
      → IsValid (emit_keyspace_event now kind key s)
  unfolding emit_keyspace_event
  emit-IsValid now kind key s v = elim (Bool-cases s.config.keyspace_notifications_enabled) [
    | inl enabled ↦ rw enabled v
    | inr disabled ↦ rw disabled v
  ]

  abbrev EvictsWell : ℕ → String → List String → KvStore → Option ValueWithTtl → Type 0
  EvictsWell now key rest s found =
      HashMap.get key s.store ≡ found → Valid (evict_entry now key found s).store rest

  evict_entry-Valid :
      (now : ℕ) (key : String) (rest : List String) (s : KvStore)
      → Valid s.store (key ∷ rest)
      → (found : Option ValueWithTtl) → EvictsWell now key rest s found
  unfolding evict_entry emit_keyspace_event
  evict_entry-Valid now key rest s v none h = Valid-drop key h v
  evict_entry-Valid now key rest s v (some entry) h =
      elim (Bool-cases s.config.keyspace_notifications_enabled) [
        | inl enabled ↦ rw enabled (Valid-evict key v)
        | inr disabled ↦ rw disabled (Valid-evict key v)
      ]

  evict-IsValid :
      (now : ℕ) (key : String) (rest : List String) (s : KvStore)
      → Valid s.store (key ∷ rest)
      → IsValid (evict now key rest s)
  unfolding evict
  evict-IsValid now key rest s v = evict_entry-Valid now key rest s v _ refl

  evict_loop-IsValid :
      (now : ℕ) (order : List String) (s : KvStore)
      → s.lru_order ≡ order
      → IsValid s
      → IsValid (evict_loop now order s)
  unfolding evict_loop
  evict_loop-IsValid now [] s e v = v
  evict_loop-IsValid now (key ∷ rest) s e v =
      elim (Bool-cases (ltb s.config.max_memory_bytes s.stats.memory_bytes)) [
        | inl over ↦ rw over (
            evict_loop-IsValid now rest (evict now key rest s) (unfold evict in refl)
              (evict-IsValid now key rest s (subst (Valid s.store) e v)))
        | inr under ↦ rw under v
      ]

  pub enforce-IsValid : (now : ℕ) (s : KvStore) → IsValid s → IsValid (enforce_memory_limit now s)
  unfolding enforce_memory_limit
  enforce-IsValid now s v = elim (Bool-cases (eqb s.config.max_memory_bytes 0)) [
    | inl unlimited ↦ rw unlimited v
    | inr limited ↦ rw limited (evict_loop-IsValid now s.lru_order s refl v)
  ]
