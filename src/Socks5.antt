-- ===== src/Socks5.antt =====
-- crates/daemon/src/socks5.rs: the datagrams of a SOCKS5 association, and the reply codes.
pub mod RoundTrip
pub mod Associate
pub mod Handshake
pub mod Fragments
use commeatus.Prelude.{
  ℕ, ◌+◌, Bool, true, false, not, ◌||◌, Option, none, some, [], ◌∷◌, ◌++◌, ltb, leb, ◌==◌,
  if◌then◌else◌, Bytes, length, get_or, get_elem?, drop,
}
use commeatus.Text.{dot, trim_end, to_ascii_lowercase, is_utf8, to_be_bytes, from_be_bytes}
use commeatus.Text.Hostname.{is_empty}
use commeatus.Ip.{IpAddr}
use commeatus.Flow.{DestinationHost, domain, ip}
use commeatus.Io.{
  ErrorKind, invalid_data, unsupported, permission_denied, connection_refused, timed_out, not_found,
  addr_not_available, Result, ok, err, ◌>>=◌,
}
use commeatus.Target.{Target, new_target, address_bytes, slice}

-- `packet.get(i..j)`, at an `i` that is at most `j`, and `packet.get(i)`
unfoldable pub range : Bytes → ℕ → ℕ → Result Bytes
range packet i j = if leb j (length packet) then ok (slice packet i j) else err invalid_data

unfoldable pub byte_at : Bytes → ℕ → Result ℕ
byte_at packet i = if ltb i (length packet) then ok (get_or packet i 0) else err invalid_data

unfoldable pub request_name : Bytes → Result DestinationHost
request_name bytes =
    let name = to_ascii_lowercase (trim_end dot bytes) in
    if is_utf8 bytes
    then if is_empty name then err invalid_data else ok (domain name)
    else err invalid_data

-- An address of the family, at offset 4; with the offset behind it, as the next two.
unfoldable pub request_address : (ℕ → IpAddr) → ℕ → Bytes → Result (DestinationHost × ℕ)
request_address family end packet = do
  octets ← range packet 4 end
  ok (ip (family (from_be_bytes octets)), end)

unfoldable pub request_domain : Bytes → Result (DestinationHost × ℕ)
request_domain packet = do
  count ← byte_at packet 4
  bytes ← if count == 0 || ltb 253 count then err invalid_data else range packet 5 (5 + count)
  host ← request_name bytes
  ok (host, 5 + count)

unfoldable pub request_host : ℕ → Bytes → Result (DestinationHost × ℕ)
request_host kind packet =
    if kind == 0x01
    then request_address IpAddr.v4 8 packet
    else if kind == 0x03
    then request_domain packet
    else if kind == 0x04
    then request_address IpAddr.v6 20 packet
    else err invalid_data

-- From the port on. The last `get` never fails: the port ends inside the packet.
unfoldable pub request_port : Bytes → DestinationHost × ℕ → Result (Target × Bytes)
request_port packet (host, offset) = do
  port ← range packet offset (offset + 2)
  target ← new_target host (from_be_bytes port)
  ok (target, drop (offset + 2) packet)

unfoldable pub parse_udp_request : Bytes → Result (Target × Bytes)
parse_udp_request packet =
    if ltb (length packet) 4 || not (get_or packet 0 0 == 0) || not (get_or packet 1 0 == 0)
    then err invalid_data
    else if not (get_or packet 2 0 == 0)
    then err unsupported
    else (do host ← request_host (get_or packet 3 0) packet; request_port packet host)

unfoldable pub encode_udp_response : Target → Bytes → Result Bytes
encode_udp_response source payload = do
  address ← address_bytes invalid_data source.host
  ok (0 ∷ 0 ∷ 0 ∷ (address ++ (to_be_bytes 2 source.port ++ payload)))

unfoldable pub connect_error_code : ErrorKind → ℕ
connect_error_code connection_refused = 0x05
connect_error_code timed_out = 0x04
connect_error_code permission_denied = 0x02
connect_error_code not_found = 0x04
connect_error_code addr_not_available = 0x04
connect_error_code unsupported = 0x07
connect_error_code _ = 0x01
