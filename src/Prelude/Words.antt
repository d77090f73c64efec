-- ===== src/Prelude/Words.antt =====
-- Machine words: `usize` and `u64` are numbers below 2 ^ 64, and `i64` is ℤ between -2 ^ 63 and
-- 2 ^ 63 - 1. Arithmetic wraps, as a release build of the crate does.
use Prim.Native.Nat.{ℕ, ◌+◌, ◌-◌, ◌%◌, ◌^◌, ◌<◌, ◌≤◌}
use mathlib.Core.Path.{◌≡◌}
use mathlib.Core.Option.{Option, none, some}
use native.Mathlib.Omega.{arith}
use daikon.Prelude.Tests.{ltb, if◌then◌else◌}
use daikon.Prelude.Int.{ℤ, pos, negsuc, ◌+ℤ◌}

abbrev pub u64_mod : ℕ
u64_mod = 2 ^ 64

abbrev pub i64_max : ℕ
i64_max = 2 ^ 63 - 1

-- `a + b` on `u64` and `usize`.
unfoldable pub add_u64 : ℕ → ℕ → ℕ
add_u64 a b = (a + b) % u64_mod

pub add_u64-eq-add : (a b : ℕ) → a + b < u64_mod → add_u64 a b ≡ a + b
unfolding add_u64
add_u64-eq-add a b h = omega arith

pub add_u64-lt : (a b : ℕ) → add_u64 a b < u64_mod
unfolding add_u64
add_u64-lt a b = omega arith

-- `checked_add` on `u64`.
unfoldable pub checked_add : ℕ → ℕ → Option ℕ
checked_add a b = if ltb (a + b) u64_mod then some (a + b) else none

-- The `i64` with the two's complement of an integer modulo 2 ^ 64.
abbrev pub wrap_i64 : ℤ → ℤ
wrap_i64 (pos n) = let r = n % u64_mod in if ltb i64_max r then negsuc (u64_mod - r - 1) else pos r
wrap_i64 (negsuc n) =
    let r = n % u64_mod in if ltb i64_max r then pos (u64_mod - r - 1) else negsuc r

-- `a + b` on `i64`.
unfoldable pub add_i64 : ℤ → ℤ → ℤ
add_i64 a b = wrap_i64 (a +ℤ b)

-- The range of `i64`.
abbrev pub IsI64 : ℤ → Type 0
IsI64 (pos n) = n ≤ i64_max
IsI64 (negsuc n) = n ≤ i64_max

pub add_i64-IsI64 : (a b : ℤ) → IsI64 (add_i64 a b)
unfolding add_i64 ◌+ℤ◌
add_i64-IsI64 a b = ground arith

pub add_i64-eq-add : (a b : ℤ) → IsI64 (a +ℤ b) → add_i64 a b ≡ a +ℤ b
unfolding add_i64 ◌+ℤ◌
add_i64-eq-add a b h = ground arith
