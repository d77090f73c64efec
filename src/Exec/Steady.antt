-- ===== src/Exec/Steady.antt =====
-- Actions that never panic and that a change of the state does not disturb: run after the change,
-- they give the same result and the changed state. One rule for each way in which an operation is
-- put together.
use daikon.Prelude.{Bool, true, false, ◌≡◌, refl, ap, if◌then◌else◌}
use daikon.Error.{KvStoreError, Result, ok, err, panic}
use daikon.Exec.{Exec, pure, fail, lift, gets, modify, ◌>>=◌}

abbrev pub is_panic {ℓ} : {A : Type ℓ} → Result A → Bool
is_panic (ok a) = false
is_panic (err e) = false
is_panic panic = true

pub record Steady {ℓ} {S A : Type ℓ} (q : S → S) (m : Exec S A) : Type ℓ where
  pub returns : (s : S) → is_panic (m s).0 ≡ false
  pub after : (s : S) → m (q s) ≡ ((m s).0, q (m s).1)

module _ {ℓ} {S A : Type ℓ} {q : S → S} where
  pub Steady-pure : (a : A) → Steady q (pure a)
  Steady-pure a = record { returns = λ s. refl; after = λ s. refl }

  pub Steady-fail : (e : KvStoreError) → Steady q (fail {A = A} e)
  Steady-fail e = record { returns = λ s. refl; after = λ s. refl }

  pub Steady-lift : (r : Result A) → is_panic r ≡ false → Steady q (lift r)
  Steady-lift r h = record { returns = λ s. h; after = λ s. refl }

  pub Steady-if :
      (b : Bool) (m n : Exec S A) → Steady q m → Steady q n → Steady q (if b then m else n)
  Steady-if true m n cm cn = cm
  Steady-if false m n cm cn = cn

module _ {ℓ} {S : Type ℓ} {q : S → S} where
  pub Steady-modify : (f : S → S) → ((s : S) → f (q s) ≡ q (f s)) → Steady q (modify f)
  Steady-modify f h = record { returns = λ s. refl; after = λ s. ap (λ t. (ok tt, t)) (h s) }

module _ {ℓ} {S A B : Type ℓ} {q : S → S} where
  -- What is read may differ where the rest of the action makes nothing of the difference.
  pub Steady-gets :
      (f : S → A) (k : A → Exec S B)
      → ((s : S) → k (f (q s)) ≡ k (f s))
      → ((a : A) → Steady q (k a))
      → Steady q (gets f >>= k)
  Steady-gets f k h c = record {
    returns = λ s. (c (f s)).returns s;
    after = λ s. rw (h s) ((c (f s)).after s);
  }

  Steady-continue :
      (r : Result A) (f : A → Exec S B) (s : S)
      → ((a : A) → Steady q (f a))
      → (lift r >>= f) (q s) ≡ (((lift r >>= f) s).0, q ((lift r >>= f) s).1)
  Steady-continue (ok a) f s c = (c a).after s
  Steady-continue (err e) f s c = refl
  Steady-continue panic f s c = refl

  continue_returns :
      (r : Result A) (f : A → Exec S B) (s : S)
      → is_panic r ≡ false
      → ((a : A) → Steady q (f a))
      → is_panic ((lift r >>= f) s).0 ≡ false
  continue_returns (ok a) f s h c = (c a).returns s
  continue_returns (err e) f s h c = refl
  continue_returns panic f s h c = h

  pub Steady-bind :
      (m : Exec S A) (f : A → Exec S B)
      → Steady q m
      → ((a : A) → Steady q (f a))
      → Steady q (m >>= f)
  Steady-bind m f cm cf = record {
    returns = λ s. let (r, s') = m s in continue_returns r f s' (cm.returns s) cf;
    after = λ s. rw (cm.after s) (let (r, s') = m s in Steady-continue r f s' cf);
  }

pub ruleset steady_rules = (Steady-pure, Steady-fail, Steady-lift, Steady-if, Steady-bind)
