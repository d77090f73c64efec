-- ===== src/Store/Lists/Validity.antt =====
-- The writers of Store/Lists keep the store well formed, whether they succeed or fail.
use daikon.Prelude.{String, List, ◌++◌, Option, none, some}
use daikon.Platform.{Platform}
use daikon.Exec.Keeps.{Keeps}
use daikon.Value.{Value, list, ValueWithTtl}
use daikon.Store.Lists.{
  push_front_all, pop_front, pop_back, push_value, push_entry, push, lpush, rpush, Split, pop_split,
  pop_value, pop_entry, pop, lpop, rpop,
}
use daikon.Store.Validity.{IsValid}
use daikon.Store.Validity.Rules.{valid_rules}

module _ ⦃P : Platform⦄ where
  push_value-IsValid :
      (extend : List String → List String) (key : String) (entry : ValueWithTtl) (value : Value)
      → Keeps IsValid (push_value extend key entry value)
  unfolding push_value
  push_value-IsValid extend key entry (list items) = search valid_rules depth 8
  push_value-IsValid extend key entry _ = search valid_rules

  push_entry-IsValid :
      (extend : List String → List String) (key : String) (found : Option ValueWithTtl)
      → Keeps IsValid (push_entry extend key found)
  unfolding push_entry
  push_entry-IsValid extend key none = search valid_rules depth 8
  push_entry-IsValid extend key (some entry) = push_value-IsValid extend key entry entry.value

  push-IsValid :
      (extend : List String → List String) (key : String) → Keeps IsValid (push extend key)
  unfolding push
  push-IsValid extend key = search (valid_rules, push_entry-IsValid) depth 8

  pub lpush-IsValid : (key : String) (values : List String) → Keeps IsValid (lpush key values)
  unfolding lpush
  lpush-IsValid key values = push-IsValid (λ items. push_front_all items values) key

  pub rpush-IsValid : (key : String) (values : List String) → Keeps IsValid (rpush key values)
  unfolding rpush
  rpush-IsValid key values = push-IsValid (λ items. items ++ values) key

  pop_split-IsValid :
      (key : String) (entry : ValueWithTtl) (split : Option (String × List String))
      → Keeps IsValid (pop_split key entry split)
  unfolding pop_split
  pop_split-IsValid key entry none = search valid_rules
  pop_split-IsValid key entry (some (val, rest)) = search valid_rules depth 8

  pop_value-IsValid :
      (split : Split) (key : String) (entry : ValueWithTtl) (value : Value)
      → Keeps IsValid (pop_value split key entry value)
  unfolding pop_value
  pop_value-IsValid split key entry (list items) = pop_split-IsValid key entry (split items)
  pop_value-IsValid split key entry _ = search valid_rules

  pop_entry-IsValid :
      (split : Split) (key : String) (found : Option ValueWithTtl)
      → Keeps IsValid (pop_entry split key found)
  unfolding pop_entry
  pop_entry-IsValid split key none = search valid_rules
  pop_entry-IsValid split key (some entry) = pop_value-IsValid split key entry entry.value

  pop-IsValid : (split : Split) (key : String) → Keeps IsValid (pop split key)
  unfolding pop
  pop-IsValid split key = record { after = λ s. (pop_entry-IsValid split key _).after s }

  pub lpop-IsValid : (key : String) → Keeps IsValid (lpop key)
  unfolding lpop
  lpop-IsValid key = pop-IsValid pop_front key

  pub rpop-IsValid : (key : String) → Keeps IsValid (rpop key)
  unfolding rpop
  rpop-IsValid key = pop-IsValid pop_back key
