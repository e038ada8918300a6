-- ===== src/Cidr/Membership.antt =====
-- A parsed network contains the addresses that share its first `prefix` bits, and no other.
use Prim.Native.Nat.{bit_and}
use native.Mathlib.Nat.{eq_of_mul-eq-mul_left, sub-zero, div-eq_of_lt, one-le-pow}
use commeatus.Prelude.{
  ℕ, zero, suc, ◌&&◌, ◌-◌, ◌*◌, ◌/◌, ◌%◌, ◌^◌, ◌<◌, ◌≤◌, ◌≡◌, ◌∙◌, Bool, true, false, ◌↔◌, some,
  Bytes, Bool-iff, ==_iff, ap, arith, ◌==◌, if◌then◌else◌,
}
use commeatus.Prelude.Bits.{bit_and_mask, bit_and-none}
use commeatus.Ip.{IpAddr, IsIp}
use commeatus.Text.{split_once}
use commeatus.Text.Number.{parse_uint}
use commeatus.Ip.Parse.{parse_ip}
use commeatus.Ip.Parse.Range.{parse_ip-IsIp}
use commeatus.Cidr.{
  IpCidr, from_str, v4_mask, v6_mask, contains, ok, err, prefix_out_of_range, of_address,
}

scaled_eq : (k x y : ℕ) → 0 < k → (k * x == k * y) ≡ (x == y)
scaled_eq k x y pos =
    Bool-iff (k * x == k * y) (x == y)
      (λ e. (==_iff x y).1 (eq_of_mul-eq-mul_left k pos x y ((==_iff (k * x) (k * y)).0 e)))
      (λ e. (==_iff (k * x) (k * y)).1 (ap (◌*◌ k) ((==_iff x y).0 e)))

-- Both masks, at their widths.
abbrev mask : ℕ → ℕ → ℕ
mask w prefix = if prefix == 0 then 0 else (2 ^ w - 1) * 2 ^ (w - prefix) % 2 ^ w

-- The mask keeps the first `prefix` bits of an address, for every prefix up to the width.
mask_keeps :
    (w a prefix : ℕ)
    → prefix ≤ w
    → a < 2 ^ w
    → bit_and a (mask w prefix) ≡ 2 ^ (w - prefix) * (a / 2 ^ (w - prefix))
mask_keeps w a zero h lt = bit_and-none a ∙ rw (sub-zero w, div-eq_of_lt lt) (omega arith)
mask_keeps w a (suc p) h lt =
    let pos : (suc p == 0) ≡ false = ground arith in
    rw pos (bit_and_mask w (w - suc p) a (omega arith) lt)

-- A masked address meets a masked network exactly if the leading bits agree.
masked_eq :
    (w a b prefix : ℕ)
    → prefix ≤ w
    → a < 2 ^ w
    → b < 2 ^ w
    → (bit_and a (mask w prefix) == bit_and b (mask w prefix))
      ≡ (a / 2 ^ (w - prefix) == b / 2 ^ (w - prefix))
masked_eq w a b prefix h ha hb =
    rw (mask_keeps w a prefix h ha, mask_keeps w b prefix h hb)
      (scaled_eq (2 ^ (w - prefix)) (a / 2 ^ (w - prefix)) (b / 2 ^ (w - prefix))
        (one-le-pow (w - prefix) 2 (omega arith)))

-- The first `prefix` bits of an address.
abbrev pub leading_bits : IpAddr → ℕ → ℕ
leading_bits (IpAddr.v4 a) prefix = a / 2 ^ (32 - prefix)
leading_bits (IpAddr.v6 a) prefix = a / 2 ^ (128 - prefix)

abbrev pub same_family : IpAddr → IpAddr → Bool
same_family (IpAddr.v4 a) (IpAddr.v4 b) = true
same_family (IpAddr.v6 a) (IpAddr.v6 b) = true
same_family _ _ = false

of_address-v4 :
    (n prefix : ℕ) {c : IpCidr}
    → of_address (IpAddr.v4 n) prefix ≡ ok c
    → (prefix ≤ 32) × (c ≡ IpCidr.v4 (bit_and n (v4_mask prefix)) prefix)
unfolding of_address
of_address-v4 n prefix e = ground arith

of_address-v6 :
    (n prefix : ℕ) {c : IpCidr}
    → of_address (IpAddr.v6 n) prefix ≡ ok c
    → (prefix ≤ 128) × (c ≡ IpCidr.v6 (bit_and n (v6_mask prefix)) prefix)
unfolding of_address
of_address-v6 n prefix e = ground arith

contains-of_address :
    (network address : IpAddr) (prefix : ℕ) {c : IpCidr}
    → IsIp network
    → IsIp address
    → of_address network prefix ≡ ok c
    → contains c address
      ≡ (same_family network address && leading_bits address prefix == leading_bits network prefix)
unfolding contains v4_mask v6_mask
contains-of_address (IpAddr.v4 n) (IpAddr.v4 a) prefix hn ha e =
    let (fits, shape) = of_address-v4 n prefix e in rw shape (masked_eq 32 a n prefix fits ha hn)
contains-of_address (IpAddr.v4 n) (IpAddr.v6 a) prefix hn ha e = rw (of_address-v4 n prefix e).1
contains-of_address (IpAddr.v6 n) (IpAddr.v4 a) prefix hn ha e = rw (of_address-v6 n prefix e).1
contains-of_address (IpAddr.v6 n) (IpAddr.v6 a) prefix hn ha e =
    let (fits, shape) = of_address-v6 n prefix e in rw shape (masked_eq 128 a n prefix fits ha hn)

abbrev pub width : IpAddr → ℕ
width (IpAddr.v4 a) = 32
width (IpAddr.v6 a) = 128

of_address_refuses :
    (network : IpAddr) (prefix : ℕ)
    → (of_address network prefix ≡ err prefix_out_of_range) ↔ (width network < prefix)
unfolding of_address
of_address_refuses (IpAddr.v4 n) prefix = ground arith
of_address_refuses (IpAddr.v6 n) prefix = ground arith

module _ (text before after : Bytes) {network : IpAddr} {prefix : ℕ}
    (cut : split_once b'/' text ≡ some (before, after)) (parsed : parse_ip before ≡ some network)
    (counted : parse_uint 255 after ≡ some prefix) where
  from_str-of_address : from_str text ≡ of_address network prefix
  unfolding from_str
  from_str-of_address = rw (cut, parsed, counted)

  -- A text `network/prefix` that parses to a network: the network contains an address exactly if
  -- the two are of one family and agree in their first `prefix` bits. The text in front of the
  -- slash parses to the address `network`, the text behind it to the number `prefix`, and the
  -- address that is tested fits its width.
  pub from_str-contains :
      (address : IpAddr) {c : IpCidr}
      → IsIp address
      → from_str text ≡ ok c
      → contains c address ≡ (
          same_family network address && leading_bits address prefix == leading_bits network prefix)
  from_str-contains address ip e =
      contains-of_address network address prefix (parse_ip-IsIp before network parsed) ip
        (rw from_str-of_address at e)

  -- A text `network/prefix` whose two parts parse, to the address `network` and the number `prefix`,
  -- is refused as out of range exactly if the prefix is longer than the address's width.
  pub from_str_refuses : (from_str text ≡ err prefix_out_of_range) ↔ (width network < prefix)
  from_str_refuses = rw from_str-of_address (of_address_refuses network prefix)
