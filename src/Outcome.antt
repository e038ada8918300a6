-- ===== src/Outcome.antt =====
-- `Result` with an error of any type.
use commeatus.Prelude.{◌≡◌, refl, ◌⊎◌, inl, inr, Bool, true, false, Option, none, some}

pub data Outcome (Error Value : Type 0) : Type 0 where
  err : Error → Outcome Error Value
  ok : Value → Outcome Error Value

-- `?`
infixl 5 ◌>>=◌ ◌>>◌
abbrev pub ◌>>=◌ : {E A B : Type 0} → Outcome E A → (A → Outcome E B) → Outcome E B
err error >>= next = err error
ok value >>= next = next value

abbrev pub ◌>>◌ : {E A B : Type 0} → Outcome E A → Outcome E B → Outcome E B
first >> next = first >>= λ _. next

module _ {E : Type 0} where
  -- An early return.
  abbrev pub refuse_if : Bool → E → Outcome E (Unit {0})
  refuse_if true error = err error
  refuse_if false error = ok tt

  -- `ok_or`, and `map_err` to one error
  abbrev pub ok_or : {A : Type 0} → E → Option A → Outcome E A
  ok_or error none = err error
  ok_or error (some value) = ok value

  -- What succeeds has succeeded in its first part.
  pub >>=-eq-ok :
      {A B : Type 0} {last : B} (first : Outcome E A) (next : A → Outcome E B)
      → (first >>= next) ≡ ok last
      → (value : A) × (first ≡ ok value) × (next value ≡ ok last)
  >>=-eq-ok (err error) next e = cc
  >>=-eq-ok (ok value) next e = (value, refl, e)

  pub >>-eq-ok :
      {A B : Type 0} {last : B} (first : Outcome E A) (next : Outcome E B)
      → (first >> next) ≡ ok last
      → next ≡ ok last
  >>-eq-ok (err error) next e = cc
  >>-eq-ok (ok value) next e = e

  -- A guard that was passed.
  pub refuse_if-eq-ok :
      {B : Type 0} {last : B} (test : Bool) (error : E) (next : Outcome E B)
      → (refuse_if test error >> next) ≡ ok last
      → (test ≡ false) × (next ≡ ok last)
  refuse_if-eq-ok true error next e = cc
  refuse_if-eq-ok false error next e = (refl, e)

  pub ok_or-eq-ok :
      {A : Type 0} (error : E) (option : Option A) (value : A)
      → ok_or error option ≡ ok value
      → option ≡ some value
  ok_or-eq-ok error none value e = cc
  ok_or-eq-ok error (some given) value e = cc

  pub Outcome-cases :
      {A : Type 0} (r : Outcome E A) → ((error : E) × (r ≡ err error)) ⊎ ((a : A) × (r ≡ ok a))
  Outcome-cases (err error) = inl (error, refl)
  Outcome-cases (ok a) = inr (a, refl)
