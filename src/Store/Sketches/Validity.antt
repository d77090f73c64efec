-- ===== src/Store/Sketches/Validity.antt =====
-- The writers of Store/Sketches keep the store well formed, whether they succeed or fail.
use daikon.Prelude.{ℕ, Bool, true, false, String, List, Option, none, some, not}
use daikon.Platform.{Platform}
use daikon.Exec.{modify}
use daikon.Exec.Keeps.{Keeps, Keeps-modify}
use daikon.HashMap
use daikon.HyperLogLog.{HyperLogLog}
use daikon.Value.{Value, hyper_log_log, ValueWithTtl}
use daikon.Store.{KvStore}
use daikon.Store.Sketches.{pfreserve, pfadd_value, pfadd_entry, pfadd, store_merged, pfmerge}
use daikon.Store.Validity.{IsValid, Valid-write}
use daikon.Store.Validity.Rules.{valid_rules}

module _ ⦃P : Platform⦄ where
  pub pfreserve-IsValid : (key : String) (precision : ℕ) → Keeps IsValid (pfreserve key precision)
  unfolding pfreserve
  pfreserve-IsValid key precision = search valid_rules depth 10

  pfadd_value-IsValid :
      (key : String) (values : List String) (entry : ValueWithTtl) (value : Value)
      → Keeps IsValid (pfadd_value key values entry value)
  unfolding pfadd_value
  pfadd_value-IsValid key values entry (hyper_log_log hll) = search valid_rules depth 8
  pfadd_value-IsValid key values entry _ = search valid_rules

  pfadd_entry-IsValid :
      (key : String) (values : List String) (found : Option ValueWithTtl)
      → Keeps IsValid (pfadd_entry key values found)
  unfolding pfadd_entry
  pfadd_entry-IsValid key values none = search valid_rules depth 8
  pfadd_entry-IsValid key values (some entry) = pfadd_value-IsValid key values entry entry.value

  pub pfadd-IsValid : (key : String) (values : List String) → Keeps IsValid (pfadd key values)
  unfolding pfadd
  pfadd-IsValid key values = search (valid_rules, pfadd_entry-IsValid) depth 8

  store_merged-IsValid :
      (destination : String) (merged : HyperLogLog) (created : Bool) (s : KvStore)
      → IsValid s
      → IsValid (store_merged destination merged created s)
  unfolding store_merged
  store_merged-IsValid destination merged true s v = Valid-write destination _ v
  store_merged-IsValid destination merged false s v = Valid-write destination _ v

  merged_into-IsValid :
      (destination : String) (merged : HyperLogLog)
      → Keeps IsValid (
          modify
            λ s. store_merged destination merged (not (HashMap.contains_key destination s.store)) s)
  merged_into-IsValid destination merged =
      Keeps-modify _ (λ s. store_merged-IsValid destination merged _ s)

  pub pfmerge-IsValid :
      (destination : String) (source_keys : List String)
      → Keeps IsValid (pfmerge destination source_keys)
  unfolding pfmerge
  pfmerge-IsValid destination source_keys = search (valid_rules, merged_into-IsValid) depth 12
