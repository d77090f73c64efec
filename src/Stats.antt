-- ===== src/Stats.antt =====
-- stats.rs: counters that threads change without a lock. Each method is one atomic step, or a read
-- of each counter; a thread's `hit_rate` reads the hits twice, before and after others' steps.
use daikon.Prelude.{ℕ, ◌+◌, ◌-◌, ◌%◌, u64_mod, add_u64, eqb, if◌then◌else◌}
use daikon.Platform.{Platform}

pub record AtomicStoreStats : Type 0 where
  pub total_reads : ℕ
  pub total_writes : ℕ
  pub total_deletes : ℕ
  pub hits : ℕ
  pub misses : ℕ
  pub memory_bytes : ℕ
  pub total_keys : ℕ
  pub expired_keys : ℕ
  pub evictions : ℕ

abbrev pub new : AtomicStoreStats
new = record {
  total_reads = 0;
  total_writes = 0;
  total_deletes = 0;
  hits = 0;
  misses = 0;
  memory_bytes = 0;
  total_keys = 0;
  expired_keys = 0;
  evictions = 0;
}

-- `fetch_add` and `fetch_sub` wrap around.
abbrev fetch_add : ℕ → ℕ → ℕ
fetch_add n m = (n + m) % u64_mod

abbrev fetch_sub : ℕ → ℕ → ℕ
fetch_sub n m = (n + (u64_mod - m % u64_mod)) % u64_mod

unfoldable pub inc_reads : AtomicStoreStats → AtomicStoreStats
inc_reads s = record s { total_reads = fetch_add s.total_reads 1 }

unfoldable pub inc_writes : AtomicStoreStats → AtomicStoreStats
inc_writes s = record s { total_writes = fetch_add s.total_writes 1 }

unfoldable pub inc_deletes : AtomicStoreStats → AtomicStoreStats
inc_deletes s = record s { total_deletes = fetch_add s.total_deletes 1 }

unfoldable pub inc_hits : AtomicStoreStats → AtomicStoreStats
inc_hits s = record s { hits = fetch_add s.hits 1 }

unfoldable pub inc_misses : AtomicStoreStats → AtomicStoreStats
inc_misses s = record s { misses = fetch_add s.misses 1 }

unfoldable pub add_memory : ℕ → AtomicStoreStats → AtomicStoreStats
add_memory bytes s = record s { memory_bytes = fetch_add s.memory_bytes bytes }

unfoldable pub sub_memory : ℕ → AtomicStoreStats → AtomicStoreStats
sub_memory bytes s = record s { memory_bytes = fetch_sub s.memory_bytes bytes }

module _ ⦃P : Platform⦄ where
  -- `first_hits` is read for the total, `later_hits` for the quotient.
  unfoldable pub hit_rate : ℕ → ℕ → ℕ → P.Float
  hit_rate first_hits misses later_hits =
      let total = add_u64 first_hits misses in
      if eqb total 0
      then P.float_lit 0 0
      else P.float_mul (P.float_div (P.float_of_nat later_hits) (P.float_of_nat total))
          (P.float_lit 100 0)
