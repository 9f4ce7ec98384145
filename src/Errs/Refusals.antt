-- ===== src/Errs/Refusals.antt =====
-- With which errors a chain of calls that return an error last (errs/errs.go) can stop.
use overpass.Prelude.{◌≡◌, Bool, true, false, subst}
use overpass.Errs.{Code, Error, Result, named, ok, err, require, ◌>>=◌}

module _ {κ} (P : Error → Type κ) where
  -- An error of the result has the property.
  abbrev pub Refuses {ℓ} : {A : Type ℓ} → Result A → Type κ
  Refuses (ok a) = Unit
  Refuses (err e) = P e

  pub Refuses-require : (b : Bool) (c : Code) → P (named c) → Refuses (require b c)
  Refuses-require true c h = tt
  Refuses-require false c h = h

  pub Refuses-bind {ℓ μ} :
      {A : Type ℓ} {B : Type μ} (m : Result A) (f : A → Result B)
      → Refuses m
      → ((a : A) → Refuses (f a))
      → Refuses (m >>= f)
  Refuses-bind (ok a) f h next = next a
  Refuses-bind (err e) f h next = h

  pub refused_with {ℓ} : {A : Type ℓ} (m : Result A) (e : Error) → Refuses m → m ≡ err e → P e
  refused_with m e h same_error = subst Refuses same_error h
