-- ===== src/Cidr.antt =====
-- crates/core/src/cidr.rs: `IpCidr`, its parser and membership.
use Prim.Native.Nat.{bit_and}
use commeatus.Prelude.{
  ℕ, ◌-◌, ◌*◌, ◌%◌, ◌^◌, Bool, true, false, Option, none, some, leb, ◌==◌, if◌then◌else◌, Bytes,
}
use commeatus.Text.{split_once}
use commeatus.Text.Number.{parse_uint}
use commeatus.Ip.{IpAddr}
use commeatus.Ip.Parse.{parse_ip}
pub mod Membership

pub data IpCidr : Type 0 where
  -- `V4 { network, prefix }`
  v4 : ℕ → ℕ → IpCidr
  v6 : ℕ → ℕ → IpCidr

pub data CidrParseError : Type 0 where
  missing_prefix invalid_address invalid_prefix prefix_out_of_range : CidrParseError

pub data CidrResult : Type 0 where
  ok : IpCidr → CidrResult
  err : CidrParseError → CidrResult

-- `MAX << (bits - prefix)`, with the bits that are shifted out dropped
unfoldable pub v4_mask : ℕ → ℕ
v4_mask prefix = if prefix == 0 then 0 else (2 ^ 32 - 1) * 2 ^ (32 - prefix) % 2 ^ 32

unfoldable pub v6_mask : ℕ → ℕ
v6_mask prefix = if prefix == 0 then 0 else (2 ^ 128 - 1) * 2 ^ (128 - prefix) % 2 ^ 128

unfoldable pub contains : IpCidr → IpAddr → Bool
contains (v4 network prefix) (IpAddr.v4 address) = bit_and address (v4_mask prefix) == network
contains (v6 network prefix) (IpAddr.v6 address) = bit_and address (v6_mask prefix) == network
contains _ _ = false

-- the `match` that ends `from_str`
unfoldable pub of_address : IpAddr → ℕ → CidrResult
of_address (IpAddr.v4 address) prefix =
    if leb prefix 32
    then ok (v4 (bit_and address (v4_mask prefix)) prefix)
    else err prefix_out_of_range
of_address (IpAddr.v6 address) prefix =
    if leb prefix 128
    then ok (v6 (bit_and address (v6_mask prefix)) prefix)
    else err prefix_out_of_range

of_parts : Option IpAddr → Option ℕ → CidrResult
of_parts none prefix = err invalid_address
of_parts (some address) none = err invalid_prefix
of_parts (some address) (some prefix) = of_address address prefix

of_split : Option (Bytes × Bytes) → CidrResult
unfolding of_parts
of_split none = err missing_prefix
of_split (some (address, prefix)) = of_parts (parse_ip address) (parse_uint 255 prefix)

unfoldable pub from_str : Bytes → CidrResult
unfolding of_split
from_str value = of_split (split_once b'/' value)
