-- ===== src/Prelude/Results.antt =====
-- Fallible steps (`anyhow::Result`, its messages left out) and fallible steps on a state. What was
-- written before an error stays written, so the state comes back beside the error too.
use mathlib.Core.Path.{◌≡◌, refl}

pub data Error : Type 0 where
  io_error remote_error integrity_failure execution_failed no_workers constraint_failed : Error
  -- an index out of range
  panicked : Error

pub data Result {ℓ} (A : Type ℓ) : Type ℓ where
  ok : A → Result A
  err : Error → Result A

abbrev pub Action {ℓ κ} : Type ℓ → Type κ → Type (ℓ ⊔ κ)
Action S A = S → Result A × S

module _ {ℓ κ μ} {S : Type ℓ} {A : Type κ} {B : Type μ} where
  abbrev pub and_then : Result A → (A → Action S B) → Action S B
  and_then (ok a) f s = f a s
  and_then (err e) f s = (err e, s)

  infixl 5 ◌>>=◌
  -- `?` behind a step: an error ends the rest.
  abbrev pub ◌>>=◌ : Action S A → (A → Action S B) → Action S B
  ◌>>=◌ m f s = let (r, s') = m s in and_then r f s'

module _ {ℓ κ} {S : Type ℓ} {A : Type κ} where
  abbrev pub pure : A → Action S A
  pure a s = (ok a, s)

  abbrev pub throw : Error → Action S A
  throw e s = (err e, s)

infixl 5 ◌>>◌
abbrev pub ◌>>◌ {ℓ κ μ} :
    {S : Type ℓ} {A : Type κ} {B : Type μ} → Action S A → Action S B → Action S B
m >> n = m >>= λ _. n

-- `let _ = step`: the result is dropped.
abbrev pub ignore {ℓ κ} : {S : Type ℓ} {A : Type κ} → Action S A → Action S (Unit {0})
ignore m s = let (r, s') = m s in (ok tt, s')

module _ {ℓ κ μ} {S : Type ℓ} {A : Type κ} {B : Type μ} where
  and_then-eq-ok :
      (r : Result A) (f : A → Action S B) (s : S) {b : B}
      → (and_then r f s).0 ≡ ok b
      → (a : A) × (r ≡ ok a) × ((f a s).0 ≡ ok b)
  and_then-eq-ok (ok a) f s e = (a, refl, e)
  and_then-eq-ok (err x) f s e = cc

  -- Inversion of a successful step with more behind it.
  pub >>=-eq-ok :
      (m : Action S A) (f : A → Action S B) (s : S) {b : B}
      → ((m >>= f) s).0 ≡ ok b
      → (a : A) × ((m s).0 ≡ ok a) × ((f a (m s).1).0 ≡ ok b)
  >>=-eq-ok m f s e = let (r, s') = m s in and_then-eq-ok r f s' e
