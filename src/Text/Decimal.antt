-- ===== src/Text/Decimal.antt =====
-- Decimal texts of numbers, as `Display` of a `u16` writes them.
use commeatus.Prelude.{
  ℕ, zero, suc, Bool, ◌+◌, ◌-◌, ◌*◌, ◌/◌, ◌%◌, ◌≤◌, ◌<◌, ◌≡◌, refl, ◌∙◌, ap, true, false, some, [],
  ◌∷◌, arith, ltb, leb, ◌==◌, if◌then◌else◌, Bytes, length, all, Bool-cases, inl, inr,
}
use commeatus.Text.Number.{parse_uint, digits, digits_onto, is_digit}

-- The digits of a number, so many at most, in front of what follows.
digits_before : ℕ → ℕ → Bytes → Bytes
digits_before zero n rest = rest
digits_before (suc places) n rest =
    let more = digits_before places (n / 10) ((b'0' + n % 10) ∷ rest) in
    if ltb n 10 then (b'0' + n % 10) ∷ rest else more

-- `Display` of a `u16`, which has five digits at most.
unfoldable pub display_u16 : ℕ → Bytes
unfolding digits_before
display_u16 n = digits_before 5 n []

-- One more digit that is read.
digits_onto-digit :
    (max acc d : ℕ) (rest : Bytes)
    → d < 10
    → acc * 10 + d ≤ max
    → digits_onto max acc ((b'0' + d) ∷ rest) ≡ digits_onto max (acc * 10 + d) rest
unfolding digits_onto
digits_onto-digit max acc d rest small fits =
    let digit : is_digit (b'0' + d) ≡ true = ground arith in
    let value : (b'0' + d) - b'0' ≡ d = omega arith in
    let within : leb (acc * 10 + d) max ≡ true = ground arith in rw (value, digit, within) refl

-- How many numbers there are of so many digits at most.
abbrev count_of : ℕ → ℕ
count_of zero = 1
count_of (suc places) = 10 * count_of places

has_place : (places n : ℕ) → n < count_of (suc places) → 10 ≤ n → 0 < places
has_place zero n small large = absurd (omega arith)
has_place (suc places) n small large = omega arith

digits_onto-digits_before :
    (max places n : ℕ) (rest : Bytes)
    → n ≤ max
    → n < count_of places
    → 0 < places
    → digits_onto max 0 (digits_before places n rest) ≡ digits_onto max n rest
unfolding digits_before
digits_onto-digits_before max zero n rest h small some_place = absurd (omega arith)
digits_onto-digits_before max (suc places) n rest h small some_place =
    elim (Bool-cases (ltb n 10)) [
      | inl one ↦
          let last : 0 * 10 + n % 10 ≡ n = ground arith in
          rw one (
            digits_onto-digit max 0 (n % 10) rest (omega arith) (omega (arith, last))
            ∙ ap (λ k. digits_onto max k rest) last)
      | inr several ↦
          let large : 10 ≤ n = ground arith in
          rw several (
            digits_onto-digits_before max places (n / 10) ((b'0' + n % 10) ∷ rest) (omega arith)
              (omega arith) (has_place places n small large)
            ∙ digits_onto-digit max (n / 10) (n % 10) rest (omega arith) (omega arith)
            ∙ ap (λ k. digits_onto max k rest) (omega arith))
    ]

digits_before-all :
    (p : ℕ → Bool) (places n : ℕ) (rest : Bytes)
    → ((d : ℕ) → d < 10 → p (b'0' + d) ≡ true)
    → all p rest ≡ true
    → all p (digits_before places n rest) ≡ true
unfolding digits_before
digits_before-all p zero n rest digit h = h
digits_before-all p (suc places) n rest digit h =
    let here = digit (n % 10) (omega arith) in
    elim (Bool-cases (ltb n 10)) [
      | inl one ↦ rw (one, here) h
      | inr several ↦
          rw several
            (digits_before-all p places (n / 10) ((b'0' + n % 10) ∷ rest) digit (rw here h))
    ]

length-digits_before :
    (places n : ℕ) (rest : Bytes)
    → (length rest ≤ length (digits_before places n rest))
      × (length (digits_before places n rest) ≤ places + length rest)
unfolding digits_before
length-digits_before zero n rest = omega arith
length-digits_before (suc places) n rest =
    let (least, most) = length-digits_before places (n / 10) ((b'0' + n % 10) ∷ rest) in
    ground arith

parse_uint-digits :
    (max : ℕ) (s : Bytes)
    → all is_digit s ≡ true
    → 0 < length s
    → parse_uint max s ≡ digits_onto max 0 s
unfolding parse_uint digits
parse_uint-digits max [] h some_digit = absurd (omega arith)
parse_uint-digits max (c ∷ cs) h some_digit =
    let no_plus : (c == b'+') ≡ false = ground arith in rw no_plus refl

some_digit : (places n : ℕ) (rest : Bytes) → 0 < places → 0 < length (digits_before places n rest)
unfolding digits_before
some_digit zero n rest h = absurd (omega arith)
some_digit (suc places) n rest h =
    let (least, most) = length-digits_before places (n / 10) ((b'0' + n % 10) ∷ rest) in
    ground arith

pub display_u16-all :
    (p : ℕ → Bool) (n : ℕ) → ((d : ℕ) → d < 10 → p (b'0' + d) ≡ true) → all p (display_u16 n) ≡ true
unfolding display_u16
display_u16-all p n digit = digits_before-all p 5 n [] digit refl

pub length-display_u16 : (n : ℕ) → (0 < length (display_u16 n)) × (length (display_u16 n) ≤ 5)
unfolding display_u16
length-display_u16 n = (some_digit 5 n [] (omega arith), (length-digits_before 5 n []).1)

-- A number is read back from its text.
pub parse_uint-display_u16 : (n : ℕ) → n ≤ 65535 → parse_uint 65535 (display_u16 n) ≡ some n
unfolding display_u16 digits_onto
parse_uint-display_u16 n h =
    parse_uint-digits 65535 (display_u16 n) (display_u16-all is_digit n (λ d k. ground arith))
      (length-display_u16 n).0
    ∙ digits_onto-digits_before 65535 5 n [] h (omega arith) (omega arith)
