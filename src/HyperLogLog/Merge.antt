-- ===== src/HyperLogLog/Merge.antt =====
-- `merge` of hyperloglog.rs: a semilattice, and the sketch of the joint stream.
use daikon.Prelude.{
  ℕ, ◌≡◌, ◌≢◌, ◌↔◌, refl, ap, sym, ◌∙◌, List, [], ◌∷◌, ◌++◌, some, String, arith, length, ◌^◌,
  eqb_iff,
}
use daikon.Platform.{Platform}
use daikon.Error.{ok, ◌>>=◌}
use daikon.HyperLogLog.{HyperLogLog, new, index_of, rank_of, merge, zip_max, add_all}
use daikon.HyperLogLog.Registers.{
  raise, zip_max_self, zip_max_comm, zip_max_assoc, zip_max-raise, zip_max-zeros,
}
use daikon.HyperLogLog.Bounds.{
  IsValid, new-IsValid, absorb, absorb-IsValid, absorb_all, absorb_all-IsValid, add_all-absorb_all,
  precision-absorb_all,
}
use daikon.HyperLogLog.Streams.{absorb_all-append}

abbrev merged : HyperLogLog → HyperLogLog → HyperLogLog
merged a b = record a { registers = zip_max a.registers b.registers }

merge-merged : (a b : HyperLogLog) → a.precision ≡ b.precision → merge a b ≡ ok (merged a b)
unfolding merge
merge-merged a b e = rw ((eqb_iff a.precision b.precision).1 e)

same_size :
    (a b : HyperLogLog)
    → IsValid a
    → IsValid b
    → a.precision ≡ b.precision
    → length a.registers ≡ length b.registers
same_size a b va vb e = va.size ∙ ap (λ (n : ℕ). 2 ^ n) e ∙ sym vb.size

-- On well-formed sketches of one precision `merge` is idempotent, commutative and associative.
pub merge_semilattice :
    (a b c : HyperLogLog)
    → IsValid a
    → IsValid b
    → IsValid c
    → a.precision ≡ b.precision
    → b.precision ≡ c.precision
    → (merge a a ≡ ok a)
      × (merge a b ≡ merge b a)
      × ((merge a b >>= λ ab. merge ab c) ≡ (merge b c >>= λ bc. merge a bc))
merge_semilattice a b c va vb vc e f = (
  merge-merged a a refl ∙ ap (λ r. ok (record a { registers = r })) (zip_max_self a.registers),
  merge-merged a b e ∙ ap ok same ∙ sym (merge-merged b a (sym e)),
  rw (merge-merged a b e, merge-merged b c f)
      (merge-merged (merged a b) c (e ∙ f)
        ∙ ap (λ r. ok (record a { registers = r }))
            (zip_max_assoc a.registers b.registers c.registers (same_size a b va vb e))
        ∙ sym (merge-merged a (merged b c) e)),
)
  where
    same : merged a b ≡ merged b a
    same = λ i. record {
      precision = e i;
      registers = zip_max_comm a.registers b.registers (same_size a b va vb e) i;
    }

-- `merge` fails exactly on sketches of different precisions.
pub merge_fails_iff :
    (a b : HyperLogLog) → ((c : HyperLogLog) → merge a b ≢ ok c) ↔ (a.precision ≢ b.precision)
unfolding merge
merge_fails_iff a b = (
  λ fails e. fails (merged a b) (merge-merged a b e),
  λ differ c h. ground (arith, eqb_iff a.precision b.precision),
)

module _ ⦃P : Platform⦄ where
  merged-absorb :
      (a b : HyperLogLog) (y : String)
      → IsValid a
      → IsValid b
      → a.precision ≡ b.precision
      → merged a (absorb b y) ≡ absorb (merged a b) y
  unfolding absorb
  merged-absorb a b y va vb e =
      let hash = P.hash_value y in
      ap
        (λ q. record a {
          registers = zip_max a.registers (raise (index_of q hash) (rank_of q hash) b.registers);
        })
        (sym e)
      ∙ ap (λ r. record a { registers = r })
          (zip_max-raise _ _ a.registers b.registers (same_size a b va vb e))

  merged-absorb_all :
      (a b : HyperLogLog) (ys : List String)
      → IsValid a
      → IsValid b
      → a.precision ≡ b.precision
      → merged a (absorb_all b ys) ≡ absorb_all (merged a b) ys
  unfolding absorb_all
  merged-absorb_all a b [] va vb e = refl
  merged-absorb_all a b (y ∷ ys) va vb e =
      merged-absorb_all a (absorb b y) ys va (absorb-IsValid b y vb)
        (e ∙ sym (precision-absorb_all b (y ∷ [])))
      ∙ ap (λ g. absorb_all g ys) (merged-absorb a b y va vb e)

  merged-new :
      (p : ℕ) (a : HyperLogLog) → IsValid a → a.precision ≡ (new p).precision → merged a (new p) ≡ a
  unfolding new
  merged-new p a v e =
      ap (λ r. record a { registers = r })
        (zip_max-zeros _ a.registers (v.size ∙ ap (λ (n : ℕ). 2 ^ n) e))

  -- The sketch of one stream merged with the sketch of another is the sketch of the two streams
  -- one after the other, at every requested precision.
  pub merge_joint_stream :
      (p : ℕ) (xs ys : List String)
      → (a b c : HyperLogLog) × (add_all (new p) xs ≡ some a)
        × (add_all (new p) ys ≡ some b)
        × (merge a b ≡ ok c)
        × (add_all (new p) (xs ++ ys) ≡ some c)
  merge_joint_stream p xs ys =
      let v = new-IsValid p in
      let a = absorb_all (new p) xs in
      let b = absorb_all (new p) ys in
      let va = absorb_all-IsValid (new p) xs v in
      let ea = precision-absorb_all (new p) xs in
      let eb = precision-absorb_all (new p) ys in
      (
        a,
        b,
        merged a b,
        add_all-absorb_all (new p) xs v,
        add_all-absorb_all (new p) ys v,
        merge-merged a b (ea ∙ sym eb),
        add_all-absorb_all (new p) (xs ++ ys) v
            ∙ ap some (
                absorb_all-append (new p) xs ys
                ∙ ap (λ g. absorb_all g ys) (sym (merged-new p a va ea))
                ∙ sym (merged-absorb_all a (new p) ys va v ea)),
      )
