-- ===== src/Store/Hashes/Validity.antt =====
-- The writers of Store/Hashes keep the store well formed, whether they succeed or fail.
use daikon.Prelude.{
  Bool, true, false, if◌then◌else◌, add_i64, decimal_i64, String, List, Option, none, some,
}
use daikon.Prelude.Int.{ℤ}
use daikon.Platform.{Platform}
use daikon.Exec.Keeps.{Keeps}
use daikon.HashMap.{HashMap}
use daikon.Value.{Value, hash, ValueWithTtl}
use daikon.Store.{KvStore, put, count_write, update_lru}
use daikon.Store.Hashes.{
  create_hash, hset_value, hset_entry, hset, hdel_value, hdel_entry, hdel, hadd_value, hadd_entry,
  hadd, hincrby, hincrbyfloat, current_i64, current_f64,
}
use daikon.Store.Validity.{IsValid, Valid-write}
use daikon.Store.Validity.Rules.{valid_rules}

module _ ⦃P : Platform⦄ where
  create_hash-IsValid :
      (key : String) (fields : HashMap String) (s : KvStore)
      → IsValid s
      → IsValid (create_hash key fields s)
  unfolding create_hash
  create_hash-IsValid key fields s v = Valid-write key _ v

  hset_value-IsValid :
      (key : String) (fields : HashMap String) (entry : ValueWithTtl) (value : Value)
      → Keeps IsValid (hset_value key fields entry value)
  unfolding hset_value
  hset_value-IsValid key fields entry (hash map) = search valid_rules depth 8
  hset_value-IsValid key fields entry _ = search valid_rules

  hset_entry-IsValid :
      (key : String) (fields : HashMap String) (found : Option ValueWithTtl)
      → Keeps IsValid (hset_entry key fields found)
  unfolding hset_entry
  hset_entry-IsValid key fields none = search (valid_rules, create_hash-IsValid) depth 8
  hset_entry-IsValid key fields (some entry) = hset_value-IsValid key fields entry entry.value

  pub hset-IsValid : (key : String) (fields : HashMap String) → Keeps IsValid (hset key fields)
  unfolding hset
  hset-IsValid key fields = search (valid_rules, hset_entry-IsValid) depth 8

  -- A write that is counted only if it removed something.
  counted-IsValid :
      (b : Bool) (key : String) (entry : ValueWithTtl) (s : KvStore)
      → IsValid s
      → IsValid (update_lru key (let s' = put key entry s in if b then count_write s' else s'))
  counted-IsValid true key entry s v = Valid-write key entry v
  counted-IsValid false key entry s v = Valid-write key entry v

  hdel_value-IsValid :
      (key : String) (fields : List String) (entry : ValueWithTtl) (value : Value)
      → Keeps IsValid (hdel_value key fields entry value)
  unfolding hdel_value
  hdel_value-IsValid key fields entry (hash map) = search (valid_rules, counted-IsValid) depth 8
  hdel_value-IsValid key fields entry _ = search valid_rules

  hdel_entry-IsValid :
      (key : String) (fields : List String) (found : Option ValueWithTtl)
      → Keeps IsValid (hdel_entry key fields found)
  unfolding hdel_entry
  hdel_entry-IsValid key fields none = search valid_rules
  hdel_entry-IsValid key fields (some entry) = hdel_value-IsValid key fields entry entry.value

  pub hdel-IsValid : (key : String) (fields : List String) → Keeps IsValid (hdel key fields)
  unfolding hdel
  hdel-IsValid key fields = record { after = λ s. (hdel_entry-IsValid key fields _).after s }

  module _ {A : Type 0} (next : Option String → A) (text : A → String) where
    hadd_value-IsValid :
        (key field : String) (entry : ValueWithTtl) (value : Value)
        → Keeps IsValid (hadd_value next text key field entry value)
    unfolding hadd_value
    hadd_value-IsValid key field entry (hash map) = search valid_rules depth 8
    hadd_value-IsValid key field entry _ = search valid_rules

    hadd_entry-IsValid :
        (amount : A) (key field : String) (found : Option ValueWithTtl)
        → Keeps IsValid (hadd_entry next text amount key field found)
    unfolding hadd_entry
    hadd_entry-IsValid amount key field none = search (valid_rules, create_hash-IsValid) depth 8
    hadd_entry-IsValid amount key field (some entry) =
        hadd_value-IsValid key field entry entry.value

    hadd-IsValid :
        (amount : A) (key field : String) → Keeps IsValid (hadd next text amount key field)
    unfolding hadd
    hadd-IsValid amount key field = search (valid_rules, hadd_entry-IsValid) depth 8

  pub hincrby-IsValid : (key field : String) (amount : ℤ) → Keeps IsValid (hincrby key field amount)
  unfolding hincrby
  hincrby-IsValid key field amount =
      hadd-IsValid (λ v. add_i64 (current_i64 v) amount) decimal_i64 amount key field

  pub hincrbyfloat-IsValid :
      (key field : String) (amount : P.Float) → Keeps IsValid (hincrbyfloat key field amount)
  unfolding hincrbyfloat
  hincrbyfloat-IsValid key field amount =
      hadd-IsValid (λ v. P.float_add (current_f64 v) amount) P.float_text amount key field
