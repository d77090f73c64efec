-- ===== src/Store/Lists/Quiet.antt =====
-- The writers of Store/Lists do the same to the store whether its keyspace events are on or off.
use daikon.Prelude.{String, List, ◌++◌, Option, none, some}
use daikon.Platform.{Platform}
use daikon.Exec.Steady.{Steady}
use daikon.Value.{Value, list, ValueWithTtl}
use daikon.Store.{validate_key}
use daikon.Store.Lists.{
  push_front_all, pop_front, pop_back, push_value, push_entry, push, lpush, rpush, Split, pop_split,
  pop_value, pop_entry, pop, lpop, rpop,
}
use daikon.Store.Quiet.{quiet, quiet_rules}

module _ ⦃P : Platform⦄ where
  push_value-Steady :
      (extend : List String → List String) (key : String) (entry : ValueWithTtl) (value : Value)
      → Steady quiet (push_value extend key entry value)
  unfolding push_value quiet
  push_value-Steady extend key entry (list items) = search quiet_rules depth 8
  push_value-Steady extend key entry _ = search quiet_rules

  push_entry-Steady :
      (extend : List String → List String) (key : String) (found : Option ValueWithTtl)
      → Steady quiet (push_entry extend key found)
  unfolding push_entry quiet
  push_entry-Steady extend key none = search quiet_rules depth 8
  push_entry-Steady extend key (some entry) = push_value-Steady extend key entry entry.value

  push-Steady : (extend : List String → List String) (key : String) → Steady quiet (push extend key)
  unfolding push quiet validate_key
  push-Steady extend key = search (quiet_rules, push_entry-Steady) depth 8

  pub lpush-Steady : (key : String) (values : List String) → Steady quiet (lpush key values)
  unfolding lpush
  lpush-Steady key values = push-Steady (λ items. push_front_all items values) key

  pub rpush-Steady : (key : String) (values : List String) → Steady quiet (rpush key values)
  unfolding rpush
  rpush-Steady key values = push-Steady (λ items. items ++ values) key

  pop_split-Steady :
      (key : String) (entry : ValueWithTtl) (split : Option (String × List String))
      → Steady quiet (pop_split key entry split)
  unfolding pop_split quiet
  pop_split-Steady key entry none = search quiet_rules
  pop_split-Steady key entry (some (val, rest)) = search quiet_rules depth 8

  pop_value-Steady :
      (split : Split) (key : String) (entry : ValueWithTtl) (value : Value)
      → Steady quiet (pop_value split key entry value)
  unfolding pop_value
  pop_value-Steady split key entry (list items) = pop_split-Steady key entry (split items)
  pop_value-Steady split key entry _ = search quiet_rules

  pop_entry-Steady :
      (split : Split) (key : String) (found : Option ValueWithTtl)
      → Steady quiet (pop_entry split key found)
  unfolding pop_entry
  pop_entry-Steady split key none = search quiet_rules
  pop_entry-Steady split key (some entry) = pop_value-Steady split key entry entry.value

  pop-Steady : (split : Split) (key : String) → Steady quiet (pop split key)
  unfolding pop quiet
  pop-Steady split key = record {
    returns = λ s. (pop_entry-Steady split key _).returns s;
    after = λ s. (pop_entry-Steady split key _).after s;
  }

  pub lpop-Steady : (key : String) → Steady quiet (lpop key)
  unfolding lpop
  lpop-Steady key = pop-Steady pop_front key

  pub rpop-Steady : (key : String) → Steady quiet (rpop key)
  unfolding rpop
  rpop-Steady key = pop-Steady pop_back key
