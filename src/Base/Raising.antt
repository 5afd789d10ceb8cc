-- ===== src/Base/Raising.antt =====
-- A computation that returns a value or raises one of the errors of `E`.
use mathlib.Core.Path.{◌≡◌, refl}
use mathlib.Core.Option.{some}
use mathlib.Core.Bool.{Bool, true, false}
use mathlib.Core.Logic.{◌≢◌, ◌⊎◌, inl, inr}

pub data Result {ℓ} (E : Type ℓ) (A : Type ℓ) : Type ℓ where
  err : E → Result E A
  ok : A → Result E A

-- `if test: raise error`
abbrev pub raise_if : {E : Type 0} → Bool → E → Result E (Unit {0})
raise_if false error = ok tt
raise_if true error = err error

infixl 5 ◌>>=◌
-- An error skips what follows.
abbrev pub ◌>>=◌ {ℓ} : {E A B : Type ℓ} → Result E A → (A → Result E B) → Result E B
err error >>= next = err error
ok value >>= next = next value

infixl 5 ◌>>◌
abbrev pub ◌>>◌ {ℓ} : {E A B : Type ℓ} → Result E A → Result E B → Result E B
first >> second = first >>= λ ignored. second

module _ {ℓ} {E A B : Type ℓ} where
  pub >>=-eq-ok :
      (before : Result E A) (next : A → Result E B) {result : B}
      → (before >>= next) ≡ ok result
      → (value : A) × (before ≡ ok value) × (next value ≡ ok result)
  >>=-eq-ok (err error) next raised = cc
  >>=-eq-ok (ok value) next returned = (value, refl, returned)

pub Result-cases {ℓ} :
    {E A : Type ℓ} (r : Result E A) → ((a : A) × (r ≡ ok a)) ⊎ ((e : E) × (r ≡ err e))
Result-cases (ok a) = inl (a, refl)
Result-cases (err e) = inr (e, refl)

pub ok_inj {ℓ} : {E A : Type ℓ} {a b : A} → ◌≡◌ {A = Result E A} (ok a) (ok b) → a ≡ b
ok_inj e = cc

pub some_inj {ℓ} : {A : Type ℓ} {a b : A} → some a ≡ some b → a ≡ b
some_inj e = cc

pub ok-err {ℓ} : {E A : Type ℓ} {a : A} {e : E} → ◌≢◌ {A = Result E A} (ok a) (err e)
ok-err h = cc
