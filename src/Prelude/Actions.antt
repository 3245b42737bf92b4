-- ===== src/Prelude/Actions.antt =====
-- A Python method that mutates its object and may raise: what was written before the raise stays
-- written, so the object comes back beside the error too. A pure function that may raise is a
-- `Result`.
use mathlib.Core.Path.{◌≡◌, refl}
use mathlib.Core.Logic.{◌⊎◌, inl, inr}
use mathlib.Core.Bool.{Bool, true, false}

pub data Result {ℓ κ} (E : Type κ) (A : Type ℓ) : Type (ℓ ⊔ κ) where
  ok : A → Result E A
  err : E → Result E A

pub data Outcome {ℓ κ μ} (E : Type κ) (S : Type μ) (A : Type ℓ) : Type (ℓ ⊔ κ ⊔ μ) where
  returned : A → S → Outcome E S A
  raised : E → S → Outcome E S A

abbrev pub Action {ℓ κ μ} : Type κ → Type μ → Type ℓ → Type (ℓ ⊔ κ ⊔ μ)
Action E S A = S → Outcome E S A

-- The caller's view of an outcome: a raised error leaves an object that is not used again.
abbrev pub view {ℓ κ μ} :
    {E : Type κ} {S : Type μ} {A : Type ℓ}
    → Outcome E S A
    → Result E (record { value : A; object : S })
view (returned a s) = ok (record { value = a; object = s })
view (raised e s) = err e

abbrev pub then_do {ℓ κ μ ν} :
    {E : Type κ} {S : Type μ} {A : Type ℓ} {B : Type ν}
    → Outcome E S A
    → (A → Action E S B)
    → Outcome E S B
then_do (returned a s) f = f a s
then_do (raised e s) f = raised e s

infixl 5 ◌>>=◌ ◌>>◌
abbrev pub ◌>>=◌ {ℓ κ μ ν} :
    {E : Type κ} {S : Type μ} {A : Type ℓ} {B : Type ν}
    → Action E S A
    → (A → Action E S B)
    → Action E S B
◌>>=◌ m f s = then_do (m s) f

abbrev pub ◌>>◌ {ℓ κ μ ν} :
    {E : Type κ} {S : Type μ} {A : Type ℓ} {B : Type ν} → Action E S A → Action E S B → Action E S B
◌>>◌ m n s = then_do (m s) (λ _. n)

module _ {ℓ κ μ} {E : Type κ} {S : Type μ} {A : Type ℓ} where
  abbrev pub pure : A → Action E S A
  pure a s = returned a s

  abbrev pub raise : E → Action E S A
  raise e s = raised e s

  abbrev pub gets : (S → A) → Action E S A
  gets f s = returned (f s) s

  abbrev pub lift : Result E A → Action E S A
  lift (ok a) s = returned a s
  lift (err e) s = raised e s

module _ {κ μ} {E : Type κ} {S : Type μ} where
  abbrev pub modify : (S → S) → Action E S (Unit {0})
  modify f s = returned tt (f s)

  -- `if test: raise e`
  abbrev pub raise_if : Bool → E → Action E S (Unit {0})
  raise_if true e s = raised e s
  raise_if false e s = returned tt s

pub Result-cases {ℓ κ} :
    {E : Type κ} {A : Type ℓ} (r : Result E A) → ((a : A) × (r ≡ ok a)) ⊎ ((e : E) × (r ≡ err e))
Result-cases (ok a) = inl (a, refl)
Result-cases (err e) = inr (e, refl)

pub Outcome-cases {ℓ κ μ} :
    {E : Type κ} {S : Type μ} {A : Type ℓ} (o : Outcome E S A)
    → ((a : A) × (s : S) × (o ≡ returned a s)) ⊎ ((e : E) × (s : S) × (o ≡ raised e s))
Outcome-cases (returned a s) = inl (a, s, refl)
Outcome-cases (raised e s) = inr (e, s, refl)
