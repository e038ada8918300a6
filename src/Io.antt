-- ===== src/Io.antt =====
-- `std::io::Result`, with the error kinds that the daemon tells apart; messages are left out.
use commeatus.Prelude.{◌≡◌, refl, ◌⊎◌, inl, inr}

pub data ErrorKind : Type 0 where
  invalid_input invalid_data unsupported permission_denied connection_refused : ErrorKind
  timed_out not_found addr_not_available quota_exceeded unexpected_eof out_of_memory
        already_exists :
      ErrorKind
  would_block interrupted write_zero other : ErrorKind

-- `Ok` and `Err`
pub data Result {ℓ} (Value : Type ℓ) : Type ℓ where
  err : ErrorKind → Result Value
  ok : Value → Result Value

-- `map_err` to one kind
abbrev pub map_err {ℓ} : {A : Type ℓ} → ErrorKind → Result A → Result A
map_err kind (ok value) = ok value
map_err kind (err _) = err kind

-- `?`
infixl 5 ◌>>=◌
abbrev pub ◌>>=◌ {ℓ₁ ℓ₂} : {A : Type ℓ₁} {B : Type ℓ₂} → Result A → (A → Result B) → Result B
err kind >>= next = err kind
ok value >>= next = next value

-- What succeeds has succeeded in its first part.
pub >>=-eq-ok {ℓ₁ ℓ₂} :
    {A : Type ℓ₁} {B : Type ℓ₂} {last : B} (first : Result A) (next : A → Result B)
    → (first >>= next) ≡ ok last
    → (value : A) × (first ≡ ok value) × (next value ≡ ok last)
>>=-eq-ok (err kind) next e = cc
>>=-eq-ok (ok value) next e = (value, refl, e)

pub Result-cases {ℓ} :
    {A : Type ℓ} (r : Result A) → ((kind : ErrorKind) × (r ≡ err kind)) ⊎ ((a : A) × (r ≡ ok a))
Result-cases (err kind) = inl (kind, refl)
Result-cases (ok a) = inr (a, refl)
