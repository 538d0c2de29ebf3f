-- ===== src/Prelude/Exec.antt =====
-- Methods on `&mut self` that may fail: what was written before an error stays written, so the
-- state comes back beside the error too.
use mathlib.Core.Bool.{Bool, true, false}
use web_tos.Prelude.Fallible.{Result, ok, err}

abbrev pub Exec {σ ε ℓ} : Type σ → Type ε → Type ℓ → Type (σ ⊔ ε ⊔ ℓ)
Exec S E A = S → Result E A × S

module _ {σ ε ℓ} {S : Type σ} {E : Type ε} {A : Type ℓ} where
  abbrev pub pure : A → Exec S E A
  pure a s = (ok a, s)

  abbrev pub raise : E → Exec S E A
  raise e s = (err e, s)

  abbrev pub lift : Result E A → Exec S E A
  lift r s = (r, s)

  -- A fallible reading of the state.
  abbrev pub reads : (S → Result E A) → Exec S E A
  reads f s = (f s, s)

module _ {σ ε} {S : Type σ} {E : Type ε} where
  abbrev pub modify : (S → S) → Exec S E (Unit {0})
  modify f s = (ok tt, f s)

  -- An early return with an error.
  abbrev pub fail_if : Bool → E → Exec S E (Unit {0})
  fail_if true e s = (err e, s)
  fail_if false e s = (ok tt, s)

abbrev pub continue {σ ε ℓ κ} :
    {S : Type σ} {E : Type ε} {A : Type ℓ} {B : Type κ} → Result E A → (A → Exec S E B) → Exec S E B
continue (ok a) f s = f a s
continue (err e) f s = (err e, s)

infixl 5 ◌>>=◌ ◌>>◌
abbrev pub ◌>>=◌ {σ ε ℓ κ} :
    {S : Type σ} {E : Type ε} {A : Type ℓ} {B : Type κ} → Exec S E A → (A → Exec S E B) → Exec S E B
◌>>=◌ m f s = continue (m s).0 f (m s).1

abbrev pub ◌>>◌ {σ ε κ} :
    {S : Type σ} {E : Type ε} {B : Type κ} → Exec S E (Unit {0}) → Exec S E B → Exec S E B
m >> k = m >>= λ _. k
