-- ===== src/Errors.antt =====
-- services/shared/errors.py: the domain exceptions, and how Python code raises and returns.
use eventsphere.Prelude.{inr, inl, ◌⊎◌, ◌≡◌, refl, Option, none, some}

-- The exceptions that the modelled code raises. The first seven are the classes of errors.py
-- (`domain` is the base class); the others are raised by the language, the ORM and the lock.
-- Messages are left out: nothing branches on them.
pub data Error : Type 0 where
  not_found conflict capacity_exceeded validation authentication authorization domain : Error
  value_error key_error runtime_error stale_data integrity lock_acquisition multiple_results kafka
        jwt_expired jwt_invalid :
      Error

pub data Result {ℓ} (A : Type ℓ) : Type ℓ where
  ok : A → Result A
  err : Error → Result A

-- A call that may raise, with the state that it leaves in either case.
abbrev pub Action {ℓ} : Type ℓ → Type ℓ → Type ℓ
Action S A = S → Result A × S

module _ {ℓ} {S A : Type ℓ} where
  abbrev pub pure : A → Action S A
  pure a s = (ok a, s)

  abbrev pub raise : Error → Action S A
  raise e s = (err e, s)

  abbrev pub or_raise : Option A → Error → Action S A
  or_raise none e = raise e
  or_raise (some a) e = pure a

module _ {ℓ} {S A B : Type ℓ} where
  abbrev pub continue : Result A × S → (A → Action S B) → Result B × S
  continue (ok a, s) f = f a s
  continue (err e, s) f = (err e, s)

  infixl 5 ◌>>=◌
  abbrev pub ◌>>=◌ : Action S A → (A → Action S B) → Action S B
  ◌>>=◌ m f s = continue (m s) f

module _ {ℓ} {S A : Type ℓ} where
  pub Result-cases :
      (out : Result A × S)
      → ((a : A) × (s : S) × (out ≡ (ok a, s))) ⊎ ((e : Error) × (s : S) × (out ≡ (err e, s)))
  Result-cases (ok a, s) = inl (a, s, refl)
  Result-cases (err e, s) = inr (e, s, refl)
