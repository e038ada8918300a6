-- ===== src/Target/Pieces.antt =====
-- Slices of joined strings, and of prefixes; the first byte of an encoded address.
use commeatus.Prelude.{
  ℕ, zero, suc, ◌+◌, ◌-◌, ◌≤◌, ◌<◌, ◌≡◌, refl, ap, ◌∙◌, [], ◌∷◌, ◌++◌, arith, Bytes, length, get_or,
  take, drop, take-append, drop-append, length-take,
}
use commeatus.Ip.{IpAddr}
use commeatus.Flow.{DestinationHost, domain, ip}
use commeatus.Io.{ErrorKind, ok}
use commeatus.Target.{slice, address_bytes}

-- The piece in the middle.
pub slice-append :
    (front mid rest : Bytes) (i j : ℕ)
    → i ≡ length front
    → j ≡ i + length mid
    → slice (front ++ (mid ++ rest)) i j ≡ mid
slice-append front mid rest i j hi hj =
    ap (take (j - i)) (drop-append i front (mid ++ rest) hi)
    ∙ take-append (j - i) mid rest (omega arith)

take-take : (a b : ℕ) (s : Bytes) → a ≤ b → take a (take b s) ≡ take a s
take-take zero b s h = refl
take-take (suc a) zero s h = absurd (omega arith)
take-take (suc a) (suc b) [] h = refl
take-take (suc a) (suc b) (c ∷ s) h = ap (◌∷◌ c) (take-take a b s (omega arith))

take_nil : (n : ℕ) → [] ≡ take {A = ℕ} n []
take_nil zero = refl
take_nil (suc n) = refl

drop-take : (i n : ℕ) (s : Bytes) → i ≤ n → drop i (take n s) ≡ take (n - i) (drop i s)
drop-take zero n s h = let e : n - 0 ≡ n = omega arith in ap (λ (k : ℕ). take k s) (omega arith)
drop-take (suc i) zero s h = absurd (omega arith)
drop-take (suc i) (suc n) [] h = take_nil (suc n - suc i)
drop-take (suc i) (suc n) (c ∷ s) h =
    let e : suc n - suc i ≡ n - i = omega arith in rw e (drop-take i n s (omega arith))

-- A prefix that holds the slice has the same slice.
pub slice-take : (s : Bytes) (n i j : ℕ) → i ≤ j → j ≤ n → slice (take n s) i j ≡ slice s i j
slice-take s n i j hi hj =
    ap (take (j - i)) (drop-take i n s (omega arith))
    ∙ take-take (j - i) (n - i) (drop i s) (omega arith)

pub get_or-take : (s : Bytes) (n i d : ℕ) → i < n → get_or (take n s) i d ≡ get_or s i d
get_or-take s zero i d h = absurd (omega arith)
get_or-take [] (suc n) i d h = refl
get_or-take (c ∷ s) (suc n) zero d h = refl
get_or-take (c ∷ s) (suc n) (suc i) d h = get_or-take s n i d (omega arith)

pub length-take_le : (n : ℕ) (s : Bytes) → n ≤ length s → length (take n s) ≡ n
length-take_le n s h = omega (arith, length-take n s)

-- An encoded address starts with its kind.
abbrev pub kind_of : Bytes → ℕ
kind_of s = get_or s 0 0

pub address_bytes-nil :
    (kind : ErrorKind) (host : DestinationHost) → address_bytes kind host ≡ ok [] → ⊥
unfolding address_bytes
address_bytes-nil kind (ip (IpAddr.v4 x)) e = cc
address_bytes-nil kind (ip (IpAddr.v6 x)) e = cc
address_bytes-nil kind (domain name) e = ground arith

-- An encoded name stands behind its length.
pub address_bytes-domain :
    (kind : ErrorKind) (name a : Bytes)
    → address_bytes kind (domain name) ≡ ok a
    → (a ≡ 0x03 ∷ length name ∷ name) × (0 < length name)
unfolding address_bytes
address_bytes-domain kind name a e = ground arith
