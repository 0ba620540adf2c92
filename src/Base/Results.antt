-- ===== src/Base/Results.antt =====
-- A value or an error, with `do` blocks.
use mathlib.Core.Path.{◌≡◌, refl}
use mathlib.Core.Logic.{◌⊎◌, inl, inr}
use mathlib.Core.Bool.{Bool, true, false}
use mathlib.Core.Option.{Option, none, some}

-- Go's `(A, error)`: the error first.
pub data Result (E A : Type 0) : Type 0 where
  err : E → Result E A
  ok : A → Result E A

module _ {E : Type 0} where
  abbrev pub or_fail : {A : Type 0} → Option A → E → Result E A
  or_fail (some a) e = ok a
  or_fail none e = err e

  -- `if c { return e }`.
  abbrev pub fail_if : Bool → E → Result E (Unit {0})
  fail_if false e = ok tt
  fail_if true e = err e

  pub or_fail-some : {A : Type 0} {a : A} (o : Option A) (e : E) → or_fail o e ≡ ok a → o ≡ some a
  or_fail-some none e h = cc
  or_fail-some (some b) e h = cc

  pub Result-cases :
      {A : Type 0} (r : Result E A) → ((a : A) × (r ≡ ok a)) ⊎ ((e : E) × (r ≡ err e))
  Result-cases (err e) = inr (e, refl)
  Result-cases (ok a) = inl (a, refl)

-- What follows runs unless there is an error.
infixl 5 ◌>>=◌
abbrev pub ◌>>=◌ : {E A B : Type 0} → Result E A → (A → Result E B) → Result E B
err e >>= next = err e
ok a >>= next = next a

pub >>=-eq-ok :
    {E A B : Type 0} (first : Result E A) (next : A → Result E B) {b : B}
    → (first >>= next) ≡ ok b
    → (a : A) × (first ≡ ok a) × (next a ≡ ok b)
>>=-eq-ok (err e) next done = cc
>>=-eq-ok (ok a) next done = (a, refl, done)

infixl 5 ◌>>◌
abbrev pub ◌>>◌ : {E B : Type 0} → Result E (Unit {0}) → Result E B → Result E B
first >> rest = first >>= λ _. rest

module _ {E F A : Type 0} (f : E → F) where
  abbrev pub map_err : Result E A → Result F A
  map_err (err e) = err (f e)
  map_err (ok a) = ok a

  pub map_err-ok : {a : A} (r : Result E A) → map_err r ≡ ok a → r ≡ ok a
  map_err-ok (ok b) h = cc
  map_err-ok (err e) h = cc
