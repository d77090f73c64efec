-- ===== src/HyperLogLog/Bounds.antt =====
-- The well-formedness of a sketch of hyperloglog.rs, and that no operation leaves it: the index
-- of `add` is always a register, and a rank always fits.
use native.Mathlib.Nat.{add-zero, add-suc, pow-zero, pow-suc, mul_assoc, div-lt_iff_lt-mul}
use daikon.Prelude.{
  ℕ, zero, suc, ◌+◌, ◌-◌, ◌*◌, ◌^◌, ◌<◌, ◌≤◌, ◌≡◌, refl, ap, sym, ◌∙◌, List, [], ◌∷◌, some, Bool,
  String, arith, length, length-replicate, u64_mod, ltb, eqb_iff,
}
use daikon.Platform.{Platform}
use daikon.Error.{ok}
use daikon.HyperLogLog.{
  HyperLogLog, clamp_precision, new, index_of, rank_of, zip_max, merge, add, add_all,
}
use daikon.HyperLogLog.Registers.{
  raise, AllLe, length-raise, AllLe-raise, AllLe-replicate, length-zip_max, AllLe-zip_max,
  get_elem?-raise,
}

pub record IsValid (h : HyperLogLog) : Type 0 where
  pub precision_min : 4 ≤ h.precision
  pub precision_max : h.precision ≤ 16
  pub size : length h.registers ≡ 2 ^ h.precision
  pub ranks : AllLe (65 - h.precision) h.registers

pow-add : (b m n : ℕ) → b ^ (m + n) ≡ b ^ m * b ^ n
pow-add b m zero = simp (add-zero, pow-zero) (omega arith)
pow-add b m (suc n) = simp (add-suc, pow-suc, pow-add b m n, mul_assoc)

two_pow_pos : (n : ℕ) → 0 < 2 ^ n
two_pow_pos zero = omega arith
two_pow_pos (suc n) = rw pow-suc (omega (arith, two_pow_pos n))

two_pow_split : (p : ℕ) → p ≤ 64 → 2 ^ p * 2 ^ (64 - p) ≡ u64_mod
two_pow_split p h =
    let e : p + (64 - p) ≡ 64 = omega arith in sym (pow-add 2 p (64 - p)) ∙ ap (λ (n : ℕ). 2 ^ n) e

pub index_of-lt : (p hash : ℕ) → p ≤ 64 → hash < u64_mod → index_of p hash < 2 ^ p
unfolding index_of
index_of-lt p hash hp hh = (div-lt_iff_lt-mul (two_pow_pos (64 - p))).1 (rw (two_pow_split p hp) hh)

pub rank_of-le : (p hash : ℕ) → p ≤ 64 → rank_of p hash ≤ 65 - p
unfolding rank_of
rank_of-le p hash hp = omega arith

clamp_precision_bounds : (p : ℕ) → (4 ≤ clamp_precision p) × (clamp_precision p ≤ 16)
unfolding clamp_precision
clamp_precision_bounds p = ground arith

-- A new sketch is well formed at every requested precision.
pub new-IsValid : (p : ℕ) → IsValid (new p)
unfolding new
new-IsValid p = record {
  precision_min = (clamp_precision_bounds p).0;
  precision_max = (clamp_precision_bounds p).1;
  size = length-replicate _ 0;
  ranks = AllLe-replicate _ _;
}

-- A merge of two well-formed sketches of one precision succeeds and is well formed.
pub merge-IsValid :
    (a b : HyperLogLog)
    → IsValid a
    → IsValid b
    → a.precision ≡ b.precision
    → (c : HyperLogLog) × (merge a b ≡ ok c) × IsValid c
unfolding merge
merge-IsValid a b va vb e = (
  record a { registers = zip_max a.registers b.registers },
  rw ((eqb_iff a.precision b.precision).1 e),
  record {
    precision_min = va.precision_min;
    precision_max = va.precision_max;
    size = length-zip_max _ _ ∙ va.size;
    ranks = AllLe-zip_max _ _ _ va.ranks (rw e vb.ranks);
  },
)

module _ ⦃P : Platform⦄ where
  -- What `add` does to a well-formed sketch.
  unfoldable pub absorb : HyperLogLog → String → HyperLogLog
  absorb h value =
      let hash = P.hash_value value in
      record h {
        registers = raise (index_of h.precision hash) (rank_of h.precision hash) h.registers;
      }

  pub add-absorb :
      (h : HyperLogLog) (value : String)
      → IsValid h
      → (changed : Bool) × (add h value ≡ some (absorb h value, changed))
  unfolding add absorb
  add-absorb h value v =
      let hash = P.hash_value value in
      let i = index_of h.precision hash in
      let r = rank_of h.precision hash in
      let (old, found, written) =
        get_elem?-raise i r h.registers
          (rw v.size (index_of-lt h.precision hash (omega arith) (P.hash_value_lt value))) in
      (ltb old r, ground arith)

  pub absorb-IsValid : (h : HyperLogLog) (value : String) → IsValid h → IsValid (absorb h value)
  unfolding absorb
  absorb-IsValid h value v = record {
    precision_min = v.precision_min;
    precision_max = v.precision_max;
    size = length-raise _ _ _ ∙ v.size;
    ranks = AllLe-raise _ _ _ _ (rank_of-le h.precision _ (omega arith)) v.ranks;
  }

  unfoldable pub absorb_all : HyperLogLog → List String → HyperLogLog
  absorb_all h [] = h
  absorb_all h (value ∷ values) = absorb_all (absorb h value) values

  pub absorb_all-IsValid :
      (h : HyperLogLog) (values : List String) → IsValid h → IsValid (absorb_all h values)
  unfolding absorb_all
  absorb_all-IsValid h [] v = v
  absorb_all-IsValid h (value ∷ values) v =
      absorb_all-IsValid (absorb h value) values (absorb-IsValid h value v)

  pub add_all-absorb_all :
      (h : HyperLogLog) (values : List String)
      → IsValid h
      → add_all h values ≡ some (absorb_all h values)
  unfolding add_all absorb_all
  add_all-absorb_all h [] v = refl
  add_all-absorb_all h (value ∷ values) v =
      let (changed, added) = add-absorb h value v in
      rw (add_all, added) (add_all-absorb_all (absorb h value) values (absorb-IsValid h value v))

  pub precision-absorb_all :
      (h : HyperLogLog) (values : List String) → (absorb_all h values).precision ≡ h.precision
  unfolding absorb_all absorb
  precision-absorb_all h [] = refl
  precision-absorb_all h (value ∷ values) = precision-absorb_all (absorb h value) values

  -- On a well-formed sketch `add` never indexes out of range, keeps the precision, and leaves a
  -- well-formed sketch, for any list of values.
  pub add_all-IsValid :
      (h : HyperLogLog) (values : List String)
      → IsValid h
      → (h' : HyperLogLog) × (add_all h values ≡ some h')
        × IsValid h'
        × (h'.precision ≡ h.precision)
  add_all-IsValid h values v = (
    absorb_all h values,
    add_all-absorb_all h values v,
    absorb_all-IsValid h values v,
    precision-absorb_all h values,
  )
