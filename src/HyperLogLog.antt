-- ===== src/HyperLogLog.antt =====
-- hyperloglog.rs: the sketch and its operations. An index out of range is `none`, a panic.
pub mod Registers
pub mod Bounds
pub mod Streams
pub mod Merge
use daikon.Prelude.{
  ℕ, zero, suc, ◌+◌, ◌-◌, ◌*◌, ◌/◌, ◌%◌, ◌^◌, ◌≤◌, min, max, String, Bool, true, false, ◌&&◌, List,
  [], ◌∷◌, Option, none, some, ltb, eqb, if◌then◌else◌, length, get_elem?, set_elem, replicate,
  u64_mod, format, decimal, map,
}
use daikon.Platform.{Platform}
use daikon.Error.{Result, ok, err, invalid_value}

pub record HyperLogLog : Type 0 where
  pub precision : ℕ
  pub registers : List ℕ

abbrev pub min_precision : ℕ
min_precision = 4

abbrev pub max_precision : ℕ
max_precision = 16

abbrev pub default_precision : ℕ
default_precision = 10

-- `precision.clamp(MIN_PRECISION, MAX_PRECISION)`
unfoldable pub clamp_precision : ℕ → ℕ
clamp_precision p =
    if ltb p min_precision then min_precision else if ltb max_precision p then max_precision else p

unfoldable pub new : ℕ → HyperLogLog
new p =
    let precision = clamp_precision p in
    record { precision = precision; registers = replicate (2 ^ precision) 0 }

abbrev pub default : HyperLogLog
default = new default_precision

-- `x.leading_zeros()` of a word of `bits` bits.
unfoldable pub leading_zeros : ℕ → ℕ → ℕ
leading_zeros zero x = 0
leading_zeros (suc bits) x =
    let rest = suc (leading_zeros bits x) in if ltb x (2 ^ bits) then rest else 0

-- `(hash >> (64 - precision)) as usize`
unfoldable pub index_of : ℕ → ℕ → ℕ
index_of precision hash = hash / 2 ^ (64 - precision)

-- The rank of the bits of the hash below the index: the leading zeros and one, capped.
unfoldable pub rank_of : ℕ → ℕ → ℕ
rank_of precision hash =
    let shifted = hash * 2 ^ precision % u64_mod in
    let max_rank = 64 - precision in min (leading_zeros 64 shifted + 1) (max_rank + 1)

-- The write of `add`, at the register that the index names.
abbrev pub raise_register : HyperLogLog → ℕ → ℕ → ℕ → HyperLogLog × Bool
raise_register h index rank old =
    if ltb old rank
    then (record h { registers = set_elem h.registers index rank }, true)
    else (h, false)

abbrev pub store_rank : HyperLogLog → ℕ → ℕ → Option (HyperLogLog × Bool)
store_rank h index rank = elim (get_elem? h.registers index) [
  | none ↦ none
  | some old ↦ some (raise_register h index rank old)
]

-- `other` wins where it is higher; a longer `target` keeps its tail.
unfoldable pub zip_max : List ℕ → List ℕ → List ℕ
zip_max [] ys = []
zip_max (x ∷ xs) [] = x ∷ xs
zip_max (x ∷ xs) (y ∷ ys) = max x y ∷ zip_max xs ys

unfoldable pub merge : HyperLogLog → HyperLogLog → Result HyperLogLog
merge h other =
    if eqb h.precision other.precision
    then ok (record h { registers = zip_max h.registers other.registers })
    else err (
        invalid_value (
          format (
            "Cannot merge HyperLogLogs with different precisions: "
            ∷ decimal h.precision
            ∷ " vs "
            ∷ decimal other.precision
            ∷ [])))

abbrev pub register_count : HyperLogLog → ℕ
register_count h = length h.registers

abbrev pub memory_bytes : HyperLogLog → ℕ
memory_bytes h = length h.registers

-- `iter().filter(|&&r| r == 0).count()`
unfoldable pub zero_registers : List ℕ → ℕ
zero_registers [] = 0
zero_registers (x ∷ xs) = (if eqb x 0 then 1 else 0) + zero_registers xs

module _ ⦃P : Platform⦄ where
  unfoldable pub add : HyperLogLog → String → Option (HyperLogLog × Bool)
  add h value =
      let hash = P.hash_value value in
      store_rank h (index_of h.precision hash) (rank_of h.precision hash)

  -- The loop `for value in &values { hll.add(value); }`.
  unfoldable pub add_all : HyperLogLog → List String → Option HyperLogLog
  add_all h [] = some h
  add_all h (value ∷ values) = elim (add h value) [ none ↦ none | some (h', _) ↦ add_all h' values ]

  -- `iter().sum()`, from the left.
  float_sum : P.Float → List P.Float → P.Float
  float_sum acc [] = acc
  float_sum acc (x ∷ xs) = float_sum (P.float_add acc x) xs

  alpha : ℕ → P.Float
  alpha m =
      if eqb m 16
      then P.float_lit 673 3
      else if eqb m 32
      then P.float_lit 697 3
      else if eqb m 64
      then P.float_lit 709 3
      else P.float_div (P.float_lit 7213 4)
          (P.float_add (P.float_lit 1 0) (P.float_div (P.float_lit 1079 3) (P.float_of_nat m)))

  unfoldable pub count : HyperLogLog → ℕ
  unfolding float_sum alpha
  count h =
      let m = P.float_of_nat (length h.registers) in
      let sum = float_sum (P.float_lit 0 0) (map P.float_pow2_neg h.registers) in
      let raw_estimate =
        P.float_div (P.float_mul (P.float_mul (alpha (length h.registers)) m) m) sum in
      let zeros = P.float_of_nat (zero_registers h.registers) in
      P.float_round (
        if P.float_leb raw_estimate (P.float_mul (P.float_lit 25 1) m)
          && P.float_ltb (P.float_lit 0 0) zeros
        then P.float_mul m (P.float_ln (P.float_div m zeros))
        else raw_estimate)
