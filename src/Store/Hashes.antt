-- ===== src/Store/Hashes.antt =====
-- kv_store.rs: the hash operations.
pub mod Validity
pub mod Quiet
pub mod Fields
use daikon.Prelude.{
  ℕ, zero, suc, ◌+◌, String, Bool, true, false, Option, none, some, is_some, List, [], ◌∷◌, map,
  length, ltb, if◌then◌else◌, add_i64, decimal_i64, parse_i64,
}
use daikon.Prelude.Int.{ℤ, pos}
use daikon.Platform.{Platform}
use daikon.Error.{Result, ok, err, type_mismatch}
use daikon.Exec.{Exec, pure, gets, modify, lift, fail, ◌>>=◌, ◌>>◌}
use daikon.HashMap
use daikon.HashMap.{HashMap}
use daikon.Value.{Value, hash, ValueWithTtl, type_name, estimate_value_size}
use daikon.Store.{
  KvStore, count_write, count_keys, count_memory, put, lasting, validate_key, update_lru, get,
}
use mathlib.Core.Option

-- `for (f, v) in fields { if map.insert(f, v).is_none() { new_count += 1; } }`
unfoldable pub insert_all : HashMap String → HashMap String → ℕ × HashMap String
insert_all map [] = (0, map)
insert_all map ((f, v) ∷ fields) =
    let (new_count, map') = insert_all (HashMap.insert f v map) fields in
    ((if is_some (HashMap.get f map) then 0 else 1) + new_count, map')

-- `fields.iter().filter(|f| map.remove(*f).is_some()).count()`
unfoldable pub remove_all : HashMap String → List String → ℕ × HashMap String
remove_all map [] = (0, map)
remove_all map (f ∷ fields) =
    let (removed, map') = remove_all (HashMap.remove f map) fields in
    ((if is_some (HashMap.get f map) then 1 else 0) + removed, map')

module _ ⦃P : Platform⦄ where
  -- A key that is absent becomes a hash of `fields`.
  create_hash : String → HashMap String → KvStore → KvStore
  create_hash key fields s = update_lru key (
      count_memory (estimate_value_size (hash fields))
        (count_keys (count_write (put key (lasting (hash fields)) s))))

  hset_value : String → HashMap String → ValueWithTtl → Value → Exec KvStore ℕ
  hset_value key fields entry (hash map) = do
    let added = insert_all map fields
    modify (λ s. update_lru key (count_write (put key (record entry { value = hash added.1 }) s)))
    pure added.0
  hset_value key fields entry other = fail (type_mismatch key "Hash" (type_name other))

  hset_entry : String → HashMap String → Option ValueWithTtl → Exec KvStore ℕ
  hset_entry key fields none = do modify (create_hash key fields); pure (length fields)
  hset_entry key fields (some entry) = hset_value key fields entry entry.value

  unfoldable pub hset : String → HashMap String → Exec KvStore ℕ
  unfolding hset_entry hset_value create_hash
  hset key fields = do
    config ← gets (λ s. s.config)
    lift (validate_key config key)
    found ← gets (λ s. HashMap.get key s.store)
    hset_entry key fields found

  hdel_value : String → List String → ValueWithTtl → Value → Exec KvStore ℕ
  hdel_value key fields entry (hash map) = do
    let (removed, left) = remove_all map fields
    modify λ s.
        let s' = put key (record entry { value = hash left }) s in
        update_lru key (if ltb 0 removed then count_write s' else s')
    pure removed
  hdel_value key fields entry other = fail (type_mismatch key "Hash" (type_name other))

  hdel_entry : String → List String → Option ValueWithTtl → Exec KvStore ℕ
  hdel_entry key fields none = pure 0
  hdel_entry key fields (some entry) = hdel_value key fields entry entry.value

  unfoldable pub hdel : String → List String → Exec KvStore ℕ
  unfolding hdel_entry hdel_value
  hdel key fields s = hdel_entry key fields (HashMap.get key s.store) s

  -- `hincrby` and `hincrbyfloat`: `next` reads the field that is there, and `amount` is written to
  -- a new hash.
  hadd_value :
      {A : Type 0}
      → (Option String → A)
      → (A → String)
      → String
      → String
      → ValueWithTtl
      → Value
      → Exec KvStore A
  hadd_value next text key field entry (hash map) = do
    let new_val = next (HashMap.get field map)
    modify λ s. update_lru key (
        count_write
          (put key (record entry { value = hash (HashMap.insert field (text new_val) map) }) s))
    pure new_val
  hadd_value next text key field entry other = fail (type_mismatch key "Hash" (type_name other))

  hadd_entry :
      {A : Type 0}
      → (Option String → A)
      → (A → String)
      → A
      → String
      → String
      → Option ValueWithTtl
      → Exec KvStore A
  hadd_entry next text amount key field none = do
    modify (create_hash key ((field, text amount) ∷ []))
    pure amount
  hadd_entry next text amount key field (some entry) =
      hadd_value next text key field entry entry.value

  hadd : {A : Type 0} → (Option String → A) → (A → String) → A → String → String → Exec KvStore A
  hadd next text amount key field = do
    config ← gets (λ s. s.config)
    lift (validate_key config key)
    found ← gets (λ s. HashMap.get key s.store)
    hadd_entry next text amount key field found

  -- A field that is absent or that does not parse counts as 0.
  current_i64 : Option String → ℤ
  current_i64 none = pos 0
  current_i64 (some v) = Option.get_or (parse_i64 v) (pos 0)

  current_f64 : Option String → P.Float
  current_f64 none = P.float_lit 0 0
  current_f64 (some v) = Option.get_or (P.float_parse v) (P.float_lit 0 0)

  unfoldable pub hincrby : String → String → ℤ → Exec KvStore ℤ
  unfolding hadd hadd_entry hadd_value create_hash current_i64
  hincrby key field amount = hadd (λ v. add_i64 (current_i64 v) amount) decimal_i64 amount key field

  unfoldable pub hincrbyfloat : String → String → P.Float → Exec KvStore P.Float
  unfolding hadd hadd_entry hadd_value create_hash current_f64
  hincrbyfloat key field amount =
      hadd (λ v. P.float_add (current_f64 v) amount) P.float_text amount key field

  -- The readers: `f` of the fields, or `empty` where there is no key.
  read_hash : {A : Type 0} → A → (HashMap String → A) → String → Option Value → Result A
  read_hash empty f key none = ok empty
  read_hash empty f key (some (hash map)) = ok (f map)
  read_hash empty f key (some other) = err (type_mismatch key "Hash" (type_name other))

  unfoldable pub hget : ℕ → String → String → KvStore → Result (Option String)
  unfolding read_hash
  hget now key field s = read_hash none (HashMap.get field) key (get now key s)

  unfoldable pub hmget : ℕ → String → List String → KvStore → Result (List (Option String))
  unfolding read_hash
  hmget now key fields s =
      read_hash (map (λ _. none) fields) (λ m. map (λ f. HashMap.get f m) fields) key
        (get now key s)

  unfoldable pub hgetall : ℕ → String → KvStore → Result (HashMap String)
  unfolding read_hash
  hgetall now key s = read_hash [] (λ m. m) key (get now key s)

  unfoldable pub hkeys : ℕ → String → KvStore → Result (List String)
  unfolding read_hash
  hkeys now key s = read_hash [] HashMap.keys key (get now key s)

  unfoldable pub hvals : ℕ → String → KvStore → Result (List String)
  unfolding read_hash
  hvals now key s = read_hash [] HashMap.values key (get now key s)

  unfoldable pub hlen : ℕ → String → KvStore → Result ℕ
  unfolding read_hash
  hlen now key s = read_hash 0 (λ m. length m) key (get now key s)

  unfoldable pub hexists : ℕ → String → String → KvStore → Result Bool
  unfolding read_hash
  hexists now key field s = read_hash false (HashMap.contains_key field) key (get now key s)
