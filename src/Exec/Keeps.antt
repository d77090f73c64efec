-- ===== src/Exec/Keeps.antt =====
-- Invariants of actions: one rule for each way in which an operation is put together. The state
-- that stays behind an error or a panic counts too.
use daikon.Prelude.{Bool, true, false, if◌then◌else◌}
use daikon.Error.{KvStoreError, Result, ok, err, panic}
use daikon.Exec.{Exec, pure, fail, lift, gets, modify, ◌>>=◌}

pub record Keeps {ℓ κ} {S A : Type ℓ} (P : S → Type κ) (m : Exec S A) : Type (ℓ ⊔ κ) where
  pub after : (s : S) → P s → P (m s).1

module _ {ℓ κ} {S A : Type ℓ} {P : S → Type κ} where
  pub Keeps-pure : (a : A) → Keeps P (pure a)
  Keeps-pure a = record { after = λ s h. h }

  pub Keeps-fail : (e : KvStoreError) → Keeps P (fail {A = A} e)
  Keeps-fail e = record { after = λ s h. h }

  pub Keeps-lift : (r : Result A) → Keeps P (lift r)
  Keeps-lift r = record { after = λ s h. h }

  pub Keeps-gets : (f : S → A) → Keeps P (gets f)
  Keeps-gets f = record { after = λ s h. h }

  pub Keeps-if : (b : Bool) (m n : Exec S A) → Keeps P m → Keeps P n → Keeps P (if b then m else n)
  Keeps-if true m n km kn = km
  Keeps-if false m n km kn = kn

module _ {ℓ κ} {S : Type ℓ} {P : S → Type κ} where
  pub Keeps-modify : (f : S → S) → ((s : S) → P s → P (f s)) → Keeps P (modify f)
  Keeps-modify f kf = record { after = kf }

module _ {ℓ κ} {S A B : Type ℓ} {P : S → Type κ} where
  Keeps-continue :
      (r : Result A) (f : A → Exec S B) (s : S)
      → ((a : A) → Keeps P (f a))
      → P s
      → P ((lift r >>= f) s).1
  Keeps-continue (ok a) f s kf h = (kf a).after s h
  Keeps-continue (err e) f s kf h = h
  Keeps-continue panic f s kf h = h

  pub Keeps-bind :
      (m : Exec S A) (f : A → Exec S B) → Keeps P m → ((a : A) → Keeps P (f a)) → Keeps P (m >>= f)
  Keeps-bind m f km kf = record {
    after = λ s h. let (r, s') = m s in Keeps-continue r f s' kf (km.after s h);
  }

pub ruleset keeps_rules = (Keeps-pure, Keeps-fail, Keeps-lift, Keeps-gets, Keeps-if, Keeps-bind)
