-- ===== src/Prelude/Bits.antt =====
-- Laws of `bit_and` against a mask: the top `w - k` of `w` bits.
use Prim.Native.Nat.{
  ℕ, zero, suc, ◌+◌, ◌-◌, ◌*◌, ◌/◌, ◌%◌, ◌^◌, ◌≤◌, ◌<◌, min, bit_and, digits, bit_and-bitwise,
}
use mathlib.Core.Path.{◌≡◌, refl, sym, ◌∙◌, ap}
use native.Mathlib.Nat.{
  two-pow-succ, one-le-pow, div-div-eq-div-mul, mul-add-mod_self_left, mod-eq_of_lt,
  div-lt_iff_lt-mul, mul_comm, zero-add, suc-add,
}
use native.Mathlib.Omega.{arith}

-- `bit_and` by its definition: the digits of the two numbers, lowest first, on fuel.
abbrev low_and : ℕ → ℕ → ℕ → ℕ
low_and fuel x y = digits (λ rest. zero) min fuel x y

low_and-zero : (fuel y : ℕ) → low_and fuel 0 y ≡ 0
low_and-zero zero y = refl
low_and-zero (suc fuel) y = refl

-- As much fuel as the number is enough.
low_and_enough : (x f g y : ℕ) → x ≤ f → x ≤ g → low_and f x y ≡ low_and g x y
low_and_enough zero f g y hf hg = low_and-zero f y ∙ sym (low_and-zero g y)
low_and_enough (suc x) zero g y hf hg = absurd (omega arith)
low_and_enough (suc x) (suc f) zero y hf hg = absurd (omega arith)
low_and_enough (suc x) (suc f) (suc g) y hf hg =
    let half : suc x / 2 ≤ f = omega arith in
    let half' : suc x / 2 ≤ g = omega arith in
    omega (arith, low_and_enough (suc x / 2) f g (y / 2) half half')

none-bit_and : (y : ℕ) → bit_and 0 y ≡ 0
none-bit_and y = bit_and-bitwise 0 y ∙ low_and-zero 0 y

low_and-none : (fuel x : ℕ) → low_and fuel x 0 ≡ 0
low_and-none zero zero = refl
low_and-none zero (suc x) = refl
low_and-none (suc fuel) zero = refl
low_and-none (suc fuel) (suc x) = omega (arith, low_and-none fuel (suc x / 2))

pub bit_and-none : (x : ℕ) → bit_and x 0 ≡ 0
bit_and-none x = bit_and-bitwise x 0 ∙ low_and-none x x

-- The lowest digit, and the digits above it.
bit_and-halves : (x y : ℕ) → bit_and x y ≡ min (x % 2) (y % 2) + 2 * bit_and (x / 2) (y / 2)
bit_and-halves zero y = omega (arith, none-bit_and y, none-bit_and (y / 2))
bit_and-halves (suc x) y =
    let half : suc x / 2 ≤ x = omega arith in
    let enough = low_and_enough (suc x / 2) x (suc x / 2) (y / 2) half (omega arith) in
    let whole = bit_and-bitwise (suc x) y in
    let upper = bit_and-bitwise (suc x / 2) (y / 2) in omega arith

pow_step : (n : ℕ) → (2 ^ suc n ≡ 2 * 2 ^ n) × (0 < 2 ^ n)
pow_step n = (omega (arith, two-pow-succ n), one-le-pow n 2 (omega arith))

-- A mask of `n` ones keeps the value below `2 ^ n`.
pub bit_and_ones : (n a : ℕ) → a < 2 ^ n → bit_and a (2 ^ n - 1) ≡ a
bit_and_ones zero a h = let e : a ≡ 0 = omega arith in rw e (none-bit_and 0)
bit_and_ones (suc n) a h =
    let (e, pos) = pow_step n in
    let half : (2 ^ suc n - 1) / 2 ≡ 2 ^ n - 1 = omega arith in
    let odd : (2 ^ suc n - 1) % 2 ≡ 1 = omega arith in
    let below : a / 2 < 2 ^ n = omega arith in
    bit_and-halves a (2 ^ suc n - 1) ∙ rw (half, odd, bit_and_ones n (a / 2) below) (omega arith)

-- A shifted mask acts on the shifted value.
pub bit_and_shift : (k a m : ℕ) → bit_and a (2 ^ k * m) ≡ 2 ^ k * bit_and (a / 2 ^ k) m
bit_and_shift zero a m =
    let e : 2 ^ 0 * m ≡ m = omega arith in
    let q : a / 2 ^ 0 ≡ a = omega arith in rw (e, q) (omega arith)
bit_and_shift (suc k) a m =
    let (e, pos) = pow_step k in
    let half : 2 ^ suc k * m / 2 ≡ 2 ^ k * m = rw e (omega arith) in
    let even : 2 ^ suc k * m % 2 ≡ 0 = rw e (omega arith) in
    let quot : a / 2 / 2 ^ k ≡ a / 2 ^ suc k = div-div-eq-div-mul a 2 (2 ^ k) ∙ rw e in
    bit_and-halves a (2 ^ suc k * m)
    ∙ rw (half, even, bit_and_shift k (a / 2) m, quot) (rw e (omega arith))

mask_split :
    (p q : ℕ)
    → 0 < p
    → 0 < q
    → ((p * q - 1) * p ≡ p * q * (p - 1) + p * (q - 1)) × (p * (q - 1) < p * q)
mask_split zero q hp hq = elim hp [ ]
mask_split (suc p) zero hp hq = elim hq [ ]
mask_split (suc p) (suc q) hp hq = (
  let one : suc p * suc q - 1 ≡ p * q + p + q = omega arith in
      let sp : suc p - 1 ≡ p = omega arith in
      let sq : suc q - 1 ≡ q = omega arith in rw (one, sp, sq) (omega arith),
  let sq : suc q - 1 ≡ q = omega arith in rw sq (omega arith),
)

pub pow-add : (k j : ℕ) → 2 ^ (k + j) ≡ 2 ^ k * 2 ^ j
pow-add zero j = omega (arith, ap (λ (n : ℕ). 2 ^ n) (zero-add j))
pow-add (suc k) j =
    rw (suc-add k j) (rw ((pow_step (k + j)).0, (pow_step k).0) (rw (pow-add k j) (omega arith)))

-- `(2 ^ w - 1) << k` in `w` bits, at `w = k + j`.
mask_value : (k j : ℕ) → (2 ^ (k + j) - 1) * 2 ^ k % 2 ^ (k + j) ≡ 2 ^ k * (2 ^ j - 1)
mask_value k j =
    let pk : 0 < 2 ^ k = (pow_step k).1 in
    let pj : 0 < 2 ^ j = (pow_step j).1 in
    let split = mask_split (2 ^ k) (2 ^ j) pk pj in
    rw (pow-add k j) (
      rw (split.0, mul-add-mod_self_left (2 ^ k * 2 ^ j) (2 ^ k - 1) (2 ^ k * (2 ^ j - 1)))
        (mod-eq_of_lt split.1))

-- The mask of the top `w - k` of `w` bits, built as the source shifts it, clears the low `k` bits.
pub bit_and_mask :
    (w k a : ℕ) → k ≤ w → a < 2 ^ w → bit_and a ((2 ^ w - 1) * 2 ^ k % 2 ^ w) ≡ 2 ^ k * (a / 2 ^ k)
bit_and_mask w k a h lt =
    let e : w ≡ k + (w - k) = omega arith in
    let below : a / 2 ^ k < 2 ^ (w - k) =
      (div-lt_iff_lt-mul (pow_step k).1).1
        (rw (mul_comm (2 ^ (w - k)) (2 ^ k), ← pow-add k (w - k), ← e) lt) in
    rw e (
      rw (mask_value k (w - k), bit_and_shift k a (2 ^ (w - k) - 1))
        (ap (◌*◌ (2 ^ k)) (bit_and_ones (w - k) (a / 2 ^ k) below)))
