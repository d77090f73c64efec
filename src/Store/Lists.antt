-- ===== src/Store/Lists.antt =====
-- kv_store.rs: the list operations.
pub mod Validity
pub mod Quiet
pub mod Ranges
pub mod Deque
use daikon.Prelude.{
  ℕ, suc, ◌+◌, ◌-◌, min, max, String, Bool, true, false, ◌||◌, ◌&&◌, Option, none, some, List, [],
  ◌∷◌, ◌++◌, length, take, drop, ltb, leb, if◌then◌else◌, u64_mod,
}
use daikon.Prelude.Int.{ℤ, pos, negsuc, sub_ℕ}
use daikon.Platform.{Platform}
use daikon.Error.{Result, ok, err, panic, type_mismatch}
use daikon.Exec.{Exec, pure, gets, modify, lift, fail, ◌>>=◌, ◌>>◌}
use daikon.HashMap
use daikon.Value.{Value, list, ValueWithTtl, type_name, estimate_value_size}
use daikon.Store.{
  KvStore, count_write, count_keys, count_memory, put, lasting, validate_key, update_lru, get,
}

-- `for v in values { list.insert(0, v); }`
unfoldable pub push_front_all : List String → List String → List String
push_front_all items [] = items
push_front_all items (v ∷ values) = push_front_all (v ∷ items) values

-- `list.pop()`: the last item and the items before it.
unfoldable pub pop_back : List String → Option (String × List String)
pop_back [] = none
pop_back (x ∷ xs) = elim (pop_back xs) [ none ↦ some (x, []) | some (y, ys) ↦ some (y, x ∷ ys) ]

-- `i as usize` of an `i64`.
abbrev pub as_usize : ℤ → ℕ
as_usize (pos n) = n
as_usize (negsuc n) = u64_mod - suc n

-- The bounds of `lrange` as indices, for a list of `len` items.
unfoldable pub start_index : ℕ → ℤ → ℕ
start_index len (pos n) = min n len
start_index len (negsuc n) = len - suc n

unfoldable pub stop_index : ℕ → ℤ → ℕ
stop_index len (pos n) = if leb len n then as_usize (sub_ℕ len 1) else n
stop_index len (negsuc n) = len - suc n

-- `list[start..=stop].to_vec()`
unfoldable pub slice_inclusive : ℕ → ℕ → List String → Result (List String)
slice_inclusive start stop items =
    if ltb stop (length items) && leb start (stop + 1)
    then ok (take (stop + 1 - start) (drop start items))
    else panic

unfoldable pub list_range : ℤ → ℤ → List String → Result (List String)
list_range start stop items =
    let len = length items in
    let start = start_index len start in
    let stop = stop_index len stop in
    if ltb stop start || leb len start then ok [] else slice_inclusive start stop items

module _ ⦃P : Platform⦄ where
  -- The two branches of `lpush` and `rpush`: `extend` adds the values to the list.
  push_value : (List String → List String) → String → ValueWithTtl → Value → Exec KvStore ℕ
  push_value extend key entry (list items) = do
    let items' = extend items
    modify (λ s. update_lru key (count_write (put key (record entry { value = list items' }) s)))
    pure (length items')
  push_value extend key entry other = fail (type_mismatch key "List" (type_name other))

  push_entry : (List String → List String) → String → Option ValueWithTtl → Exec KvStore ℕ
  push_entry extend key none = do
    let items = extend []
    modify λ s. update_lru key (
        count_memory (estimate_value_size (list items))
          (count_keys (count_write (put key (lasting (list items)) s))))
    pure (length items)
  push_entry extend key (some entry) = push_value extend key entry entry.value

  unfoldable pub push : (List String → List String) → String → Exec KvStore ℕ
  unfolding push_entry push_value
  push extend key = do
    config ← gets (λ s. s.config)
    lift (validate_key config key)
    found ← gets (λ s. HashMap.get key s.store)
    push_entry extend key found

  unfoldable pub lpush : String → List String → Exec KvStore ℕ
  unfolding push
  lpush key values = push (λ items. push_front_all items values) key

  unfoldable pub rpush : String → List String → Exec KvStore ℕ
  unfolding push
  rpush key values = push (λ items. items ++ values) key

  -- What `lpop` and `rpop` do with the item and the rest that `split` takes off.
  pop_split : String → ValueWithTtl → Option (String × List String) → Exec KvStore (Option String)
  pop_split key entry none = pure none
  pop_split key entry (some (val, rest)) = do
    modify (λ s. update_lru key (count_write (put key (record entry { value = list rest }) s)))
    pure (some val)

  abbrev Split : Type 0
  Split = List String → Option (String × List String)

  pop_value : Split → String → ValueWithTtl → Value → Exec KvStore (Option String)
  pop_value split key entry (list items) = pop_split key entry (split items)
  pop_value split key entry other = fail (type_mismatch key "List" (type_name other))

  pop_entry : Split → String → Option ValueWithTtl → Exec KvStore (Option String)
  pop_entry split key none = pure none
  pop_entry split key (some entry) = pop_value split key entry entry.value

  unfoldable pub pop : Split → String → Exec KvStore (Option String)
  unfolding pop_entry pop_value pop_split
  pop split key s = pop_entry split key (HashMap.get key s.store) s

  abbrev pop_front : Split
  pop_front [] = none
  pop_front (x ∷ xs) = some (x, xs)

  unfoldable pub lpop : String → Exec KvStore (Option String)
  unfolding pop
  lpop key = pop pop_front key

  unfoldable pub rpop : String → Exec KvStore (Option String)
  unfolding pop pop_back
  rpop key = pop pop_back key

  range_of : ℤ → ℤ → String → Option Value → Result (List String)
  range_of start stop key none = ok []
  range_of start stop key (some (list items)) = list_range start stop items
  range_of start stop key (some other) = err (type_mismatch key "List" (type_name other))

  unfoldable pub lrange : ℕ → String → ℤ → ℤ → KvStore → Result (List String)
  unfolding range_of
  lrange now key start stop s = range_of start stop key (get now key s)

  length_of : String → Option Value → Result ℕ
  length_of key none = ok 0
  length_of key (some (list items)) = ok (length items)
  length_of key (some other) = err (type_mismatch key "List" (type_name other))

  unfoldable pub llen : ℕ → String → KvStore → Result ℕ
  unfolding length_of
  llen now key s = length_of key (get now key s)
