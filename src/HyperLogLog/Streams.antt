-- ===== src/HyperLogLog/Streams.antt =====
-- What the sketch of a stream of values in hyperloglog.rs depends on, and that `merge` is the
-- sketch of the joint stream.
use daikon.Prelude.{
  ◌≡◌, refl, ap, sym, ◌∙◌, List, [], ◌∷◌, ◌++◌, some, Bool-cases, true, inl, inr, String, arith,
  ◌==◌, eq_iff, contains,
}
use daikon.Platform.{Platform}
use daikon.HyperLogLog.{HyperLogLog, add_all}
use daikon.HyperLogLog.Registers.{raise_self, raise_comm}
use daikon.HyperLogLog.Bounds.{IsValid, absorb, absorb_all, add_all-absorb_all}

module _ ⦃P : Platform⦄ where
  absorb_self : (h : HyperLogLog) (x : String) → absorb (absorb h x) x ≡ absorb h x
  unfolding absorb
  absorb_self h x = ap (λ r. record h { registers = r }) (raise_self _ _ h.registers)

  absorb_comm : (h : HyperLogLog) (x y : String) → absorb (absorb h x) y ≡ absorb (absorb h y) x
  unfolding absorb
  absorb_comm h x y = ap (λ r. record h { registers = r }) (raise_comm _ _ _ _ h.registers)

  absorb_all-absorb :
      (h : HyperLogLog) (x : String) (ys : List String)
      → absorb_all (absorb h x) ys ≡ absorb (absorb_all h ys) x
  unfolding absorb_all
  absorb_all-absorb h x [] = refl
  absorb_all-absorb h x (y ∷ ys) =
      ap (λ g. absorb_all g ys) (absorb_comm h x y) ∙ absorb_all-absorb (absorb h y) x ys

  pub absorb_all-append :
      (h : HyperLogLog) (xs ys : List String)
      → absorb_all h (xs ++ ys) ≡ absorb_all (absorb_all h xs) ys
  unfolding absorb_all
  absorb_all-append h [] ys = refl
  absorb_all-append h (x ∷ xs) ys = absorb_all-append (absorb h x) xs ys

  absorb_all_comm :
      (h : HyperLogLog) (xs ys : List String)
      → absorb_all (absorb_all h xs) ys ≡ absorb_all (absorb_all h ys) xs
  unfolding absorb_all
  absorb_all_comm h [] ys = refl
  absorb_all_comm h (x ∷ xs) ys =
      absorb_all_comm (absorb h x) xs ys ∙ ap (λ g. absorb_all g xs) (absorb_all-absorb h x ys)

  -- A value that the stream already holds changes nothing.
  absorb_seen :
      (h : HyperLogLog) (x : String) (ys : List String)
      → contains ys x ≡ true
      → absorb (absorb_all h ys) x ≡ absorb_all h ys
  unfolding absorb_all
  absorb_seen h x [] c = cc
  absorb_seen h x (y ∷ ys) c = elim (Bool-cases (y == x)) [
    | inl same ↦
        rw (← (eq_iff y x).0 same)
          (sym (absorb_all-absorb (absorb h y) y ys) ∙ ap (λ g. absorb_all g ys) (absorb_self h y))
    | inr other ↦ absorb_seen (absorb h y) x ys (rw other at c)
  ]

  abbrev pub Within : List String → List String → Type 0
  Within xs ys = (x : String) → contains xs x ≡ true → contains ys x ≡ true

  absorb_all_seen :
      (h : HyperLogLog) (xs ys : List String)
      → Within xs ys
      → absorb_all (absorb_all h ys) xs ≡ absorb_all h ys
  unfolding absorb_all
  absorb_all_seen h [] ys w = refl
  absorb_all_seen h (x ∷ xs) ys w =
      ap (λ g. absorb_all g xs) (absorb_seen h x ys (w x (ground (arith, eq_iff x x))))
      ∙ absorb_all_seen h xs ys (λ z c. w z (ground arith))

  -- A sketch depends on the set of the values added to it alone: two streams with the same values,
  -- in any order and with any repetitions, leave a well-formed sketch in the same state.
  pub add_all_same_set :
      (h : HyperLogLog) (xs ys : List String)
      → IsValid h
      → Within xs ys
      → Within ys xs
      → add_all h xs ≡ add_all h ys
  add_all_same_set h xs ys v xy yx =
      add_all-absorb_all h xs v
      ∙ ap some
          (sym (absorb_all_seen h ys xs yx) ∙ absorb_all_comm h xs ys ∙ absorb_all_seen h xs ys xy)
      ∙ sym (add_all-absorb_all h ys v)
