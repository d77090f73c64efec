-- ===== src/Tests/Writes.antt =====
-- The writers of the store, with a limit of two bytes where eviction is wanted.
use daikon.Prelude.{
  ℕ, add_u64, ◌≤◌, ◌⊎◌, String, ◌≡◌, refl, some, List, [], ◌∷◌, ◌==◌, if◌then◌else◌, arith,
}
use daikon.Config.{default_config}
use daikon.Error.{ok}
use daikon.HashMap
use daikon.Value.{str, op_delete, estimate_value_size}
use daikon.Store.{
  KvStore, with_config, get, validate_key, validate_value, in_transaction, enforce_memory_limit,
}
use daikon.Store.Strings.{set}
use daikon.Store.Strings.Writes.{Accepts, set-get}
use daikon.Store.Eviction.{enforce_limit}
use daikon.Store.Eviction.Prefix.{Evicted, enforce_prefix}
use daikon.Store.Validity.{IsValid}
use daikon.Store.Calls.{
  calls, Call, call_set, call_set_with_ttl, call_expire, call_multi, call_exec, call_queue,
  calls-IsValid,
}
use daikon.Tests.Samples.{whole_numbers, small}

small-Accepts : Accepts small "d" (str "4")
unfolding validate_key validate_value estimate_value_size in_transaction
small-Accepts = record { key_ok = refl; value_ok = refl; direct = refl }

set-get_example :
    ((set 7 "d" (str "4") small).0 ≡ ok tt)
    × ((later : ℕ) (j : String)
        → get later j (set 7 "d" (str "4") small).1
          ≡ (if "d" == j then some (str "4") else get later j small))
unfolding estimate_value_size add_u64
set-get_example = set-get 7 "d" (str "4") small small-Accepts refl

-- Two bytes of three are allowed.
abbrev tight : KvStore
tight = record small {
  config = record default_config { max_memory_bytes = 2 };
  stats = record small.stats { memory_bytes = 3 };
}

pub small-IsValid : IsValid small
unfolding HashMap.get
small-IsValid = record { distinct = (refl, (refl, (refl, tt))); tracked = λ k h. ground (arith, h) }

enforce_limit_example :
    ((enforce_memory_limit 7 tight).stats.memory_bytes ≤ 2)
    ⊎ ((enforce_memory_limit 7 tight).store ≡ [])
enforce_limit_example = enforce_limit 7 tight small-IsValid (omega arith)

enforce_prefix_example :
    (n : ℕ) × Evicted n ("a" ∷ "b" ∷ "c" ∷ []) tight (enforce_memory_limit 7 tight)
enforce_prefix_example = enforce_prefix 7 tight

abbrev some_calls : List (ℕ × Call)
some_calls =
    (1, call_set "a" (str "1"))
    ∷ (1, call_set_with_ttl "b" (str "2") 5)
    ∷ (2, call_multi)
    ∷ (3, call_queue (op_delete "a"))
    ∷ (4, call_exec)
    ∷ (9, call_expire "b" 2)
    ∷ []

calls-IsValid_example : IsValid (calls some_calls (with_config default_config))
calls-IsValid_example = calls-IsValid default_config some_calls
