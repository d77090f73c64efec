-- ===== src/Prelude/Decimal.antt =====
-- The decimal form of `u64` and `i64`, and `parse::<i64>()`.
use Prim.Native.Nat.{ℕ, zero, suc, ◌+◌, ◌-◌, ◌*◌, ◌/◌, ◌%◌, ◌<◌, ◌≤◌}
use Prim.Native.Char.{Char, code}
use Prim.Native.String.{String, [], ◌∷◌}
use mathlib.Core.Bool.{◌&&◌}
use mathlib.Core.Option.{Option, none, some, some-injective}
use mathlib.Core.Path.{◌≡◌, refl, ◌∙◌, ap, sym}
use native.Mathlib.Omega.{arith}
use daikon.Prelude.Tests.{ltb, leb, eqb, if◌then◌else◌, Bool-cases}
use mathlib.Core.Logic.{inl, inr}
use daikon.Prelude.Int.{ℤ, pos, negsuc}
use daikon.Prelude.Words.{i64_max, IsI64}

-- The digit of a number below 10.
unfoldable pub digit_char : ℕ → Char
digit_char zero = "0"
digit_char (suc zero) = "1"
digit_char (suc (suc zero)) = "2"
digit_char (suc (suc (suc zero))) = "3"
digit_char (suc (suc (suc (suc zero)))) = "4"
digit_char (suc (suc (suc (suc (suc zero))))) = "5"
digit_char (suc (suc (suc (suc (suc (suc zero)))))) = "6"
digit_char (suc (suc (suc (suc (suc (suc (suc zero))))))) = "7"
digit_char (suc (suc (suc (suc (suc (suc (suc (suc zero)))))))) = "8"
digit_char _ = "9"

-- The fuel is the number itself and one more, which is above its number of digits.
decimal_loop : ℕ → ℕ → String → String
decimal_loop zero n acc = acc
decimal_loop (suc fuel) n acc =
    let rest = decimal_loop fuel (n / 10) (digit_char (n % 10) ∷ acc) in
    if ltb n 10 then digit_char n ∷ acc else rest

-- `n.to_string()` of an unsigned number.
unfoldable pub decimal : ℕ → String
unfolding decimal_loop digit_char
decimal n = decimal_loop (suc n) n ""

-- `i.to_string()` of an `i64`.
unfoldable pub decimal_i64 : ℤ → String
unfolding decimal
decimal_i64 (pos n) = decimal n
decimal_i64 (negsuc n) = "-" ∷ decimal (suc n)

unfoldable pub parse_digits : ℕ → String → Option ℕ
parse_digits acc [] = some acc
parse_digits acc (c ∷ s) =
    let rest = parse_digits (acc * 10 + (code c - 48)) s in
    if leb 48 (code c) && leb (code c) 57 then rest else none

-- At least one digit.
unfoldable pub parse_unsigned : String → Option ℕ
unfolding parse_digits
parse_unsigned [] = none
parse_unsigned (c ∷ s) = parse_digits 0 (c ∷ s)

in_range_pos : Option ℕ → Option ℤ
in_range_pos none = none
in_range_pos (some n) = if leb n i64_max then some (pos n) else none

in_range_neg : Option ℕ → Option ℤ
in_range_neg none = none
in_range_neg (some zero) = some (pos 0)
in_range_neg (some (suc n)) = if leb n i64_max then some (negsuc n) else none

-- `s.parse::<i64>().ok()`
unfoldable pub parse_i64 : String → Option ℤ
unfolding parse_unsigned in_range_pos in_range_neg
parse_i64 [] = none
parse_i64 (c ∷ s) =
    if eqb (code c) b'-'
    then in_range_neg (parse_unsigned s)
    else if eqb (code c) b'+'
    then in_range_pos (parse_unsigned s)
    else in_range_pos (parse_digits 0 (c ∷ s))

code-digit_char : (d : ℕ) → d < 10 → code (digit_char d) ≡ 48 + d
unfolding digit_char
code-digit_char zero h = refl
code-digit_char (suc zero) h = refl
code-digit_char (suc (suc zero)) h = refl
code-digit_char (suc (suc (suc zero))) h = refl
code-digit_char (suc (suc (suc (suc zero)))) h = refl
code-digit_char (suc (suc (suc (suc (suc zero))))) h = refl
code-digit_char (suc (suc (suc (suc (suc (suc zero)))))) h = refl
code-digit_char (suc (suc (suc (suc (suc (suc (suc zero))))))) h = refl
code-digit_char (suc (suc (suc (suc (suc (suc (suc (suc zero)))))))) h = refl
code-digit_char (suc (suc (suc (suc (suc (suc (suc (suc (suc zero))))))))) h = refl
code-digit_char (suc (suc (suc (suc (suc (suc (suc (suc (suc (suc d)))))))))) h =
    absurd (omega arith)

parse_digits-digit :
    (acc d : ℕ) (s : String)
    → d < 10
    → parse_digits acc (digit_char d ∷ s) ≡ parse_digits (acc * 10 + d) s
unfolding parse_digits
parse_digits-digit acc d s h = ground (arith, code-digit_char d h)

parse_digits-decimal_loop :
    (fuel n : ℕ) (acc : String)
    → n < fuel
    → parse_digits 0 (decimal_loop fuel n acc) ≡ parse_digits n acc
unfolding decimal_loop
parse_digits-decimal_loop zero n acc h = absurd (omega arith)
parse_digits-decimal_loop (suc fuel) n acc h = elim (Bool-cases (ltb n 10)) [
  | inl small ↦
      let e : 0 * 10 + n ≡ n = omega arith in
      rw small (parse_digits-digit 0 n acc (ground arith) ∙ ap (λ (k : ℕ). parse_digits k acc) e)
  | inr large ↦
      let e : n / 10 * 10 + n % 10 ≡ n = omega arith in
      rw large (
        parse_digits-decimal_loop fuel (n / 10) (digit_char (n % 10) ∷ acc) (ground arith)
        ∙ parse_digits-digit (n / 10) (n % 10) acc (omega arith)
        ∙ ap (λ (k : ℕ). parse_digits k acc) e)
]

-- A decimal begins with a digit.
leading_digit :
    (fuel n : ℕ) (acc : String)
    → n < fuel
    → (c : Char) × (s : String) × (decimal_loop fuel n acc ≡ c ∷ s) × (48 ≤ code c) × (code c ≤ 57)
unfolding decimal_loop
leading_digit zero n acc h = absurd (omega arith)
leading_digit (suc fuel) n acc h = elim (Bool-cases (ltb n 10)) [
  | inl small ↦
      let below : n < 10 = ground arith in
      (
        digit_char n,
        acc,
        rw small refl,
        omega (arith, code-digit_char n below),
        omega (arith, code-digit_char n below),
      )
  | inr large ↦ rw large (leading_digit fuel (n / 10) (digit_char (n % 10) ∷ acc) (ground arith))
]

parse_digits-decimal : (n : ℕ) → parse_digits 0 (decimal n) ≡ some n
unfolding decimal parse_digits
parse_digits-decimal n = parse_digits-decimal_loop (suc n) n "" (omega arith)

decimal_leading :
    (n : ℕ) → (c : Char) × (s : String) × (decimal n ≡ c ∷ s) × (48 ≤ code c) × (code c ≤ 57)
unfolding decimal
decimal_leading n = leading_digit (suc n) n "" (omega arith)

parse_unsigned-decimal : (n : ℕ) → parse_unsigned (decimal n) ≡ some n
unfolding parse_unsigned
parse_unsigned-decimal n =
    let (c, s, e, lo, hi) = decimal_leading n in
    rw e (ap (parse_digits 0) (sym e) ∙ parse_digits-decimal n)

-- Different numbers have different decimals.
pub decimal_injective : (m n : ℕ) → decimal m ≡ decimal n → m ≡ n
decimal_injective m n e =
    some-injective m n
      (sym (parse_unsigned-decimal m) ∙ ap parse_unsigned e ∙ parse_unsigned-decimal n)

-- What `to_string` writes of an `i64`, `parse` reads back.
pub parse_i64-decimal_i64 : (i : ℤ) → IsI64 i → parse_i64 (decimal_i64 i) ≡ some i
unfolding parse_i64 decimal_i64
parse_i64-decimal_i64 (pos n) h =
    let (c, s, e, lo, hi) = decimal_leading n in
    let parsed : parse_digits 0 (c ∷ s) ≡ some n =
      ap (parse_digits 0) (sym e) ∙ parse_digits-decimal n in
    rw e (ground arith)
parse_i64-decimal_i64 (negsuc n) h = ground (arith, parse_unsigned-decimal (suc n))
