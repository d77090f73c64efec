-- ===== src/Store/Hashes/Quiet.antt =====
-- The writers of Store/Hashes do the same to the store whether its keyspace events are on or off.
use daikon.Prelude.{
  String, List, Option, none, some, Bool-cases, inl, inr, ltb, refl, add_i64, decimal_i64,
}
use daikon.Prelude.Int.{ℤ}
use daikon.Platform.{Platform}
use daikon.Exec.Steady.{Steady}
use daikon.HashMap.{HashMap}
use daikon.Value.{Value, hash, ValueWithTtl}
use daikon.Store.{validate_key}
use daikon.Store.Hashes.{
  remove_all, create_hash, hset_value, hset_entry, hset, hdel_value, hdel_entry, hdel, hadd_value,
  hadd_entry, hadd, current_i64, hincrby,
}
use daikon.Store.Quiet.{quiet, quiet_rules}

module _ ⦃P : Platform⦄ where
  hset_value-Steady :
      (key : String) (fields : HashMap String) (entry : ValueWithTtl) (value : Value)
      → Steady quiet (hset_value key fields entry value)
  unfolding hset_value quiet
  hset_value-Steady key fields entry (hash map) = search quiet_rules depth 8
  hset_value-Steady key fields entry _ = search quiet_rules

  hset_entry-Steady :
      (key : String) (fields : HashMap String) (found : Option ValueWithTtl)
      → Steady quiet (hset_entry key fields found)
  unfolding hset_entry create_hash quiet
  hset_entry-Steady key fields none = search quiet_rules depth 8
  hset_entry-Steady key fields (some entry) = hset_value-Steady key fields entry entry.value

  pub hset-Steady : (key : String) (fields : HashMap String) → Steady quiet (hset key fields)
  unfolding hset quiet validate_key
  hset-Steady key fields = search (quiet_rules, hset_entry-Steady) depth 8

  hdel_value-Steady :
      (key : String) (fields : List String) (entry : ValueWithTtl) (value : Value)
      → Steady quiet (hdel_value key fields entry value)
  unfolding hdel_value quiet
  hdel_value-Steady key fields entry (hash map) = record {
    returns = λ s. refl;
    after = λ s. elim (Bool-cases (ltb 0 (remove_all map fields).0)) [
      | inl some_left ↦ rw some_left refl
      | inr unchanged ↦ rw unchanged refl
    ];
  }
  hdel_value-Steady key fields entry _ = search quiet_rules

  hdel_entry-Steady :
      (key : String) (fields : List String) (found : Option ValueWithTtl)
      → Steady quiet (hdel_entry key fields found)
  unfolding hdel_entry
  hdel_entry-Steady key fields none = search quiet_rules
  hdel_entry-Steady key fields (some entry) = hdel_value-Steady key fields entry entry.value

  pub hdel-Steady : (key : String) (fields : List String) → Steady quiet (hdel key fields)
  unfolding hdel quiet
  hdel-Steady key fields = record {
    returns = λ s. (hdel_entry-Steady key fields _).returns s;
    after = λ s. (hdel_entry-Steady key fields _).after s;
  }

  module _ {A : Type 0} (next : Option String → A) (text : A → String) (key field : String) where
    hadd_value-Steady :
        (entry : ValueWithTtl) (value : Value)
        → Steady quiet (hadd_value next text key field entry value)
    unfolding hadd_value quiet
    hadd_value-Steady entry (hash map) = search quiet_rules depth 8
    hadd_value-Steady entry _ = search quiet_rules

    hadd_entry-Steady :
        (amount : A) (found : Option ValueWithTtl)
        → Steady quiet (hadd_entry next text amount key field found)
    unfolding hadd_entry create_hash quiet
    hadd_entry-Steady amount none = search quiet_rules depth 8
    hadd_entry-Steady amount (some entry) = hadd_value-Steady entry entry.value

    hadd-Steady : (amount : A) → Steady quiet (hadd next text amount key field)
    unfolding hadd quiet validate_key
    hadd-Steady amount = search (quiet_rules, hadd_entry-Steady) depth 8

  pub hincrby-Steady : (key field : String) (amount : ℤ) → Steady quiet (hincrby key field amount)
  unfolding hincrby
  hincrby-Steady key field amount =
      hadd-Steady (λ v. add_i64 (current_i64 v) amount) decimal_i64 key field amount
