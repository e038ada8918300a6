-- ===== src/Trojan.antt =====
-- crates/daemon/src/trojan.rs: requests and UDP frames of the Trojan protocol.
pub mod Frame
pub mod RoundTrip
pub mod Verifier
use commeatus.Prelude.{
  ℕ, ◌+◌, Bool, true, false, not, ◌&&◌, Option, none, some, [], ◌∷◌, ◌++◌, ltb, ◌==◌, if◌then◌else◌,
  Bytes, eqb, length, get_or,
}
use commeatus.Text.{is_utf8, to_be_bytes, from_be_bytes}
use commeatus.Ip.{IpAddr}
use commeatus.Flow.{DestinationHost, domain, ip}
use commeatus.Io.{invalid_input, invalid_data, Result, ok, err, ◌>>=◌, map_err}
use commeatus.Target.{Target, new_target, address_bytes, slice}

abbrev pub crlf : Bytes
crlf = b'\r' ∷ b'\n' ∷ []

-- `encode_host` and `encode_target`
pub encode_host : Bytes → DestinationHost → Result Bytes
encode_host buffer host = do address ← address_bytes invalid_input host; ok (buffer ++ address)

unfoldable pub encode_target : Bytes → Target → Result Bytes
unfolding encode_host
encode_target buffer target = do
  buffer ← encode_host buffer target.host
  ok (buffer ++ to_be_bytes 2 target.port)

unfoldable pub encode_connect_request : Bytes → Target → Result Bytes
encode_connect_request verifier target = do
  request ← encode_target (verifier ++ (crlf ++ 0x01 ∷ [])) target
  ok (request ++ crlf)

unfoldable pub encode_udp_associate_request : Bytes → Bytes
encode_udp_associate_request verifier =
    verifier ++ (crlf ++ 0x03 ∷ 0x01 ∷ 0 ∷ 0 ∷ 0 ∷ 0 ∷ 0 ∷ 0 ∷ crlf)

unfoldable pub encode_udp_frame : Target → Bytes → Result Bytes
encode_udp_frame target payload = if ltb 65535 (length payload) then err invalid_input else (do
  frame ← encode_target [] target
  ok (frame ++ (to_be_bytes 2 (length payload) ++ (crlf ++ payload))))

-- The payload is a range of the input.
pub record ParsedUdpFrame : Type 0 where
  pub source : Target
  pub payload_start : ℕ
  pub payload_end : ℕ
  pub consumed : ℕ

-- The `match` on the address type; `none` asks for more bytes. Every index is below a length that
-- was checked.
pub parse_domain : Bytes → ℕ → Result (Option (DestinationHost × ℕ))
parse_domain input count =
    if count == 0
    then err invalid_data
    else if ltb (length input) (2 + count)
    then ok none
    else if is_utf8 (slice input 2 (2 + count))
    then ok (some (domain (slice input 2 (2 + count)), 2 + count))
    else err invalid_data

-- An address that ends at `host_end`, behind the type byte.
pub parse_address : (ℕ → IpAddr) → ℕ → Bytes → Result (Option (DestinationHost × ℕ))
parse_address family host_end input =
    if ltb (length input) host_end
    then ok none
    else ok (some (ip (family (from_be_bytes (slice input 1 host_end))), host_end))

pub parse_host : ℕ → Bytes → Result (Option (DestinationHost × ℕ))
parse_host kind input =
    if kind == 0x01
    then parse_address IpAddr.v4 5 input
    else if kind == 0x03
    then if ltb (length input) 2 then ok none else parse_domain input (get_or input 1 0)
    else if kind == 0x04
    then parse_address IpAddr.v6 17 input
    else err invalid_data

pub parse_port : Bytes → Option (DestinationHost × ℕ) → Result (Option (Target × ℕ))
parse_port input none = ok none
parse_port input (some (host, host_end)) =
    if ltb (length input) (host_end + 2) then ok none else (do
      target ←
          map_err invalid_data
            (new_target host (from_be_bytes (slice input host_end (host_end + 2))))
      ok (some (target, host_end + 2)))

unfoldable pub parse_target : Bytes → Result (Option (Target × ℕ))
unfolding parse_host parse_port parse_address parse_domain
parse_target [] = ok none
parse_target (kind ∷ rest) = do host ← parse_host kind (kind ∷ rest); parse_port (kind ∷ rest) host

pub parse_payload : Bytes → Option (Target × ℕ) → Result (Option ParsedUdpFrame)
parse_payload input none = ok none
parse_payload input (some (source, address_len)) =
    let count = from_be_bytes (slice input address_len (address_len + 2)) in
    if ltb (length input) (address_len + 4)
    then ok none
    else if not (eqb (slice input (address_len + 2) (address_len + 4)) crlf)
    then err invalid_data
    else if ltb (length input) (address_len + 4 + count)
    then ok none
    else ok (
        some (record {
          source = source;
          payload_start = address_len + 4;
          payload_end = address_len + 4 + count;
          consumed = address_len + 4 + count;
        }))

unfoldable pub parse_udp_frame : Bytes → Result (Option ParsedUdpFrame)
unfolding parse_target parse_payload
parse_udp_frame input = do target ← parse_target input; parse_payload input target
