-- ===== src/Base/Outcome.antt =====
-- What a service call ends in. A handler inside `$transaction` is a `Tx`: a throw loses the state
-- it had reached, which is the roll-back. A handler that goes on after a failed transaction is an
-- `Action`: it always comes back with the state of the database.
use mathlib.Core.Path.{◌≡◌, refl}
use mathlib.Core.Logic.{◌⊎◌, inl, inr}
use mathlib.Core.Bool.{Bool, true, false}
use mathlib.Core.Option.{Option, none, some}

-- The exceptions of the services. `unique_violation` is Prisma's P2002 and `check_violation` a
-- failed CHECK constraint; `fault` is a plain `Error`.
pub data Error : Type 0 where
  not_found bad_request forbidden conflict unique_violation check_violation foreign_key_violation
        fault :
      Error

pub data Result {ℓ} (A : Type ℓ) : Type ℓ where
  ok : A → Result A
  err : Error → Result A

abbrev pub Tx : Type 0 → Type 0 → Type 0
Tx S A = S → Result (A × S)

abbrev pub Action : Type 0 → Type 0 → Type 0
Action S A = S → Result A × S

infixl 5 ◌>>=◌ ◌>>◌
abbrev pub ◌>>=◌ : {S A B : Type 0} → Tx S A → (A → Tx S B) → Tx S B
◌>>=◌ m f s = elim (m s) [ ok (a, s') ↦ f a s' | err e ↦ err e ]

abbrev pub ◌>>◌ : {S A B : Type 0} → Tx S A → Tx S B → Tx S B
m >> k = m >>= λ _. k

abbrev pub pure : {S A : Type 0} → A → Tx S A
pure a s = ok (a, s)

abbrev pub throw : {S A : Type 0} → Error → Tx S A
throw e s = err e

abbrev pub gets : {S A : Type 0} → (S → A) → Tx S A
gets f s = ok (f s, s)

abbrev pub modify : {S : Type 0} → (S → S) → Tx S (Unit {0})
modify f s = ok (tt, f s)

abbrev pub throw_if : {S : Type 0} → Bool → Error → Tx S (Unit {0})
throw_if true e s = err e
throw_if false e s = ok (tt, s)

abbrev pub or_throw : {S A : Type 0} → Option A → Error → Tx S A
or_throw none e s = err e
or_throw (some a) e s = ok (a, s)

-- `$transaction`: the state that a throw had reached is rolled back.
abbrev pub transact : {S A : Type 0} → Tx S A → Action S A
transact m s = elim (m s) [ ok (a, s') ↦ (ok a, s') | err e ↦ (err e, s) ]

pub Result-cases {ℓ} :
    {A : Type ℓ} (r : Result A) → ((a : A) × (r ≡ ok a)) ⊎ ((e : Error) × (r ≡ err e))
Result-cases (ok a) = inl (a, refl)
Result-cases (err e) = inr (e, refl)
