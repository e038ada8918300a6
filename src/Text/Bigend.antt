-- ===== src/Text/Bigend.antt =====
-- Big-endian integers: the two conversions undo each other.
use native.Mathlib.Nat.{div-lt_iff_lt-mul, pow-suc}
use commeatus.Prelude.{
  ℕ, zero, suc, ◌+◌, ◌*◌, ◌/◌, ◌%◌, ◌^◌, ◌<◌, ◌≡◌, ◌∙◌, refl, true, [], ◌∷◌, ◌++◌, arith, Bytes,
  length, length-append, append_assoc, append-nil,
}
use commeatus.Text.{to_be_bytes, be_onto, from_be_bytes, is_bytes}

pub length-to_be_bytes : (n x : ℕ) → length (to_be_bytes n x) ≡ n
unfolding to_be_bytes
length-to_be_bytes zero x = refl
length-to_be_bytes (suc n) x = omega (
  arith,
  length-append (to_be_bytes n (x / 256)) ((x % 256) ∷ []),
  length-to_be_bytes n (x / 256),
)

be_onto-concat : (acc : ℕ) (s : Bytes) (b : ℕ) → be_onto acc (s ++ b ∷ []) ≡ be_onto acc s * 256 + b
unfolding be_onto
be_onto-concat acc [] b = refl
be_onto-concat acc (c ∷ s) b = be_onto-concat (acc * 256 + c) s b

div-lt256 : (n x : ℕ) → x < 256 ^ suc n → x / 256 < 256 ^ n
div-lt256 n x h = (div-lt_iff_lt-mul (omega arith)).1 (rw (← pow-suc 256 n) h)

pub from_be_bytes-to_be_bytes : (n x : ℕ) → x < 256 ^ n → from_be_bytes (to_be_bytes n x) ≡ x
unfolding from_be_bytes to_be_bytes
from_be_bytes-to_be_bytes zero x h = omega arith
from_be_bytes-to_be_bytes (suc n) x h =
    be_onto-concat 0 (to_be_bytes n (x / 256)) (x % 256)
    ∙ rw (from_be_bytes-to_be_bytes n (x / 256) (div-lt256 n x h)) (omega arith)

-- Reversed order of the digits: the last byte is the low one.
to_be_bytes-be_onto :
    (s : Bytes) (n acc : ℕ)
    → is_bytes s ≡ true
    → to_be_bytes (n + length s) (be_onto acc s) ≡ to_be_bytes n acc ++ s
unfolding be_onto to_be_bytes
to_be_bytes-be_onto [] n acc h = let e : n + 0 ≡ n = omega arith in rw (e, append-nil) refl
to_be_bytes-be_onto (b ∷ s) n acc h =
    let e : n + suc (length s) ≡ suc n + length s = omega arith in
    let small : b < 256 = ground arith in
    let q : (acc * 256 + b) / 256 ≡ acc = omega arith in
    let r : (acc * 256 + b) % 256 ≡ b = omega arith in
    rw e
      (to_be_bytes-be_onto s (suc n) (acc * 256 + b) (ground arith) ∙ rw (q, r, append_assoc) refl)

pub to_be_bytes-from_be_bytes :
    (s : Bytes) → is_bytes s ≡ true → to_be_bytes (length s) (from_be_bytes s) ≡ s
unfolding from_be_bytes to_be_bytes
to_be_bytes-from_be_bytes s h =
    let e : 0 + length s ≡ length s = omega arith in rw (← e) (to_be_bytes-be_onto s 0 0 h)
