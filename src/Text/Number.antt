-- ===== src/Text/Number.antt =====
-- Decimal numbers: `str::parse` into an unsigned type whose greatest value is `max`.
use commeatus.Prelude.{
  ℕ, ◌+◌, ◌-◌, ◌*◌, ◌≤◌, ◌≡◌, Bool, ◌&&◌, Option, none, some, [], ◌∷◌, arith, leb, ◌==◌,
  if◌then◌else◌, Bytes,
}

abbrev pub is_digit : ℕ → Bool
is_digit c = leb b'0' c && leb c b'9'

unfoldable pub digits_onto : ℕ → ℕ → Bytes → Option ℕ
digits_onto max acc [] = some acc
digits_onto max acc (c ∷ cs) =
    let rest = digits_onto max (acc * 10 + (c - b'0')) cs in
    if is_digit c && leb (acc * 10 + (c - b'0')) max then rest else none

unfoldable pub digits : ℕ → Bytes → Option ℕ
unfolding digits_onto
digits max [] = none
digits max (c ∷ cs) = digits_onto max 0 (c ∷ cs)

-- One leading plus sign is allowed.
unfoldable pub parse_uint : ℕ → Bytes → Option ℕ
unfolding digits
parse_uint max [] = none
parse_uint max (c ∷ cs) = if c == b'+' then digits max cs else digits max (c ∷ cs)

digits_onto-le :
    (max acc : ℕ) (s : Bytes) (n : ℕ) → acc ≤ max → digits_onto max acc s ≡ some n → n ≤ max
unfolding digits_onto
digits_onto-le max acc [] n h e = ground arith
digits_onto-le max acc (c ∷ cs) n h e =
    ground (arith, digits_onto-le max (acc * 10 + (c - b'0')) cs n)

digits-le : (max : ℕ) (s : Bytes) (n : ℕ) → digits max s ≡ some n → n ≤ max
unfolding digits
digits-le max [] n e = cc
digits-le max (c ∷ cs) n e = digits_onto-le max 0 (c ∷ cs) n (omega arith) e

-- What is parsed is in range.
pub parse_uint-le : (max : ℕ) (s : Bytes) (n : ℕ) → parse_uint max s ≡ some n → n ≤ max
unfolding parse_uint
parse_uint-le max [] n e = cc
parse_uint-le max (c ∷ cs) n e = ground (arith, digits-le max cs n, digits-le max (c ∷ cs) n)
