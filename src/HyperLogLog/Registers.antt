-- ===== src/HyperLogLog/Registers.antt =====
-- The register array of hyperloglog.rs: `raise` is one write of `add`; its laws, and those of the
-- pointwise maximum of `merge`.
use daikon.Prelude.{
  ℕ, zero, suc, ◌<◌, ◌≤◌, max, ◌≡◌, refl, List, [], ◌∷◌, some, arith, length, get_elem?, set_elem,
  replicate, ltb, if◌then◌else◌,
}
use daikon.HyperLogLog.{zip_max}

abbrev pub raise : ℕ → ℕ → List ℕ → List ℕ
raise i r [] = []
raise zero r (x ∷ xs) = max x r ∷ xs
raise (suc i) r (x ∷ xs) = x ∷ raise i r xs

abbrev pub AllLe : ℕ → List ℕ → Type 0
AllLe b [] = Unit
AllLe b (x ∷ xs) = (x ≤ b) × AllLe b xs

pub length-raise : (i r : ℕ) (xs : List ℕ) → length (raise i r xs) ≡ length xs
length-raise i r [] = refl
length-raise zero r (x ∷ xs) = refl
length-raise (suc i) r (x ∷ xs) = omega (arith, length-raise i r xs)

pub raise_self : (i r : ℕ) (xs : List ℕ) → raise i r (raise i r xs) ≡ raise i r xs
raise_self i r [] = refl
raise_self zero r (x ∷ xs) = ground arith
raise_self (suc i) r (x ∷ xs) = ground (arith, raise_self i r xs)

pub raise_comm : (i r j q : ℕ) (xs : List ℕ) → raise i r (raise j q xs) ≡ raise j q (raise i r xs)
raise_comm i r j q [] = refl
raise_comm zero r zero q (x ∷ xs) = ground arith
raise_comm zero r (suc j) q (x ∷ xs) = refl
raise_comm (suc i) r zero q (x ∷ xs) = refl
raise_comm (suc i) r (suc j) q (x ∷ xs) = ground (arith, raise_comm i r j q xs)

pub AllLe-raise : (b i r : ℕ) (xs : List ℕ) → r ≤ b → AllLe b xs → AllLe b (raise i r xs)
AllLe-raise b i r [] h a = a
AllLe-raise b zero r (x ∷ xs) h a = (omega arith, a.1)
AllLe-raise b (suc i) r (x ∷ xs) h a = (a.0, AllLe-raise b i r xs h a.1)

pub AllLe-replicate : (b n : ℕ) → AllLe b (replicate n 0)
AllLe-replicate b zero = tt
AllLe-replicate b (suc n) = (omega arith, AllLe-replicate b n)

pub length-zip_max : (xs ys : List ℕ) → length (zip_max xs ys) ≡ length xs
unfolding zip_max
length-zip_max [] ys = refl
length-zip_max (x ∷ xs) [] = refl
length-zip_max (x ∷ xs) (y ∷ ys) = omega (arith, length-zip_max xs ys)

pub AllLe-zip_max : (b : ℕ) (xs ys : List ℕ) → AllLe b xs → AllLe b ys → AllLe b (zip_max xs ys)
unfolding zip_max
AllLe-zip_max b [] ys p q = tt
AllLe-zip_max b (x ∷ xs) [] p q = p
AllLe-zip_max b (x ∷ xs) (y ∷ ys) p q = (omega arith, AllLe-zip_max b xs ys p.1 q.1)

pub zip_max_self : (xs : List ℕ) → zip_max xs xs ≡ xs
unfolding zip_max
zip_max_self [] = refl
zip_max_self (x ∷ xs) = ground (arith, zip_max_self xs)

pub zip_max_comm : (xs ys : List ℕ) → length xs ≡ length ys → zip_max xs ys ≡ zip_max ys xs
unfolding zip_max
zip_max_comm [] [] h = refl
zip_max_comm [] (y ∷ ys) h = absurd (omega arith)
zip_max_comm (x ∷ xs) [] h = absurd (omega arith)
zip_max_comm (x ∷ xs) (y ∷ ys) h = ground (arith, zip_max_comm xs ys)

pub zip_max_assoc :
    (xs ys zs : List ℕ)
    → length xs ≡ length ys
    → zip_max (zip_max xs ys) zs ≡ zip_max xs (zip_max ys zs)
unfolding zip_max
zip_max_assoc [] ys zs h = refl
zip_max_assoc (x ∷ xs) [] zs h = absurd (omega arith)
zip_max_assoc (x ∷ xs) (y ∷ ys) [] h = refl
zip_max_assoc (x ∷ xs) (y ∷ ys) (z ∷ zs) h = ground (arith, zip_max_assoc xs ys zs)

pub zip_max-raise :
    (i r : ℕ) (xs ys : List ℕ)
    → length xs ≡ length ys
    → zip_max xs (raise i r ys) ≡ raise i r (zip_max xs ys)
unfolding zip_max
zip_max-raise i r [] [] h = refl
zip_max-raise i r [] (y ∷ ys) h = absurd (omega arith)
zip_max-raise i r (x ∷ xs) [] h = absurd (omega arith)
zip_max-raise zero r (x ∷ xs) (y ∷ ys) h = ground arith
zip_max-raise (suc i) r (x ∷ xs) (y ∷ ys) h = ground (arith, zip_max-raise i r xs ys)

pub zip_max-zeros : (n : ℕ) (xs : List ℕ) → length xs ≡ n → zip_max xs (replicate n 0) ≡ xs
unfolding zip_max
zip_max-zeros zero [] h = refl
zip_max-zeros zero (x ∷ xs) h = absurd (omega arith)
zip_max-zeros (suc n) [] h = absurd (omega arith)
zip_max-zeros (suc n) (x ∷ xs) h = ground (arith, zip_max-zeros n xs)

-- In range, the read and the conditional write of `add` are one `raise`.
pub get_elem?-raise :
    (i r : ℕ) (xs : List ℕ)
    → i < length xs
    → (old : ℕ) × (get_elem? xs i ≡ some old)
      × ((if ltb old r then set_elem xs i r else xs) ≡ raise i r xs)
get_elem?-raise i r [] h = absurd (omega arith)
get_elem?-raise zero r (x ∷ xs) h = (x, refl, ground arith)
get_elem?-raise (suc i) r (x ∷ xs) h =
    let (old, found, written) = get_elem?-raise i r xs (omega arith) in (old, found, ground (arith))
