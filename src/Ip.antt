-- ===== src/Ip.antt =====
-- `std::net::IpAddr`, as the program uses it: an address is its number, `u32::from` or `u128::from`.
use commeatus.Prelude.{ℕ, ◌/◌, ◌^◌, ◌<◌, ◌≡◌, ◌↔◌, Bool, true, false, ◌==◌, Bytes, arith}
use commeatus.Text.{to_be_bytes}
pub mod Parse
pub mod Socket

pub data IpAddr : Type 0 where
  v4 : ℕ → IpAddr
  v6 : ℕ → IpAddr

unfoldable pub ip_eq : IpAddr → IpAddr → Bool
ip_eq (v4 a) (v4 b) = a == b
ip_eq (v6 a) (v6 b) = a == b
ip_eq _ _ = false

pub ip_eq_iff : (a b : IpAddr) → (ip_eq a b ≡ true) ↔ (a ≡ b)
unfolding ip_eq
ip_eq_iff (v4 a) (v4 b) = ground arith
ip_eq_iff (v4 a) (v6 b) = ground arith
ip_eq_iff (v6 a) (v4 b) = ground arith
ip_eq_iff (v6 a) (v6 b) = ground arith

-- `octets()`
unfoldable pub octets : IpAddr → Bytes
octets (v4 a) = to_be_bytes 4 a
octets (v6 a) = to_be_bytes 16 a

-- The number fits its width.
abbrev pub IsIp : IpAddr → Type 0
IsIp (v4 a) = a < 2 ^ 32
IsIp (v6 a) = a < 2 ^ 128

unfoldable pub is_unspecified : IpAddr → Bool
is_unspecified (v4 a) = a == 0
is_unspecified (v6 a) = a == 0

-- 127.0.0.0/8 and ::1
unfoldable pub is_loopback : IpAddr → Bool
is_loopback (v4 a) = a / 2 ^ 24 == 127
is_loopback (v6 a) = a == 1

unfoldable pub is_ipv6 : IpAddr → Bool
is_ipv6 (v4 a) = false
is_ipv6 (v6 a) = true
