-- ===== src/Protocol.antt =====
-- crates/daemon/src/protocol.rs: the handshakes of the outbound protocols SOCKS5 and Trojan, over the
-- stream to the proxy. A `TrojanVerifier` is its bytes.
pub mod Inbound
pub mod Http
pub mod Replies
pub mod Tunnel
pub mod Request
pub mod Asked
use commeatus.Prelude.{
  ℕ, Bool, true, false, not, ◌||◌, [], ◌∷◌, ◌++◌, ◌==◌, if◌then◌else◌, Bytes, get_or, eqb,
}
use commeatus.Text.{to_be_bytes}
use commeatus.Io.{invalid_input, invalid_data, permission_denied, connection_refused}
use commeatus.Target.{Target, address_bytes}
use commeatus.Stream.{
  Exchange, ◌>>=◌, ◌>>◌, lift, return, fail, refuse_if, read_exact, write_all, flush,
}
use commeatus.Trojan.{encode_connect_request}

pub record ProtocolCapabilities : Type 0 where
  pub stream_connect : Bool
  pub requires_tls : Bool

-- `encode_socks_address` and `socks5`'s request
unfoldable pub socks5_request : Target → Exchange Bytes
socks5_request target = do
  address ← lift (address_bytes invalid_input target.host)
  return (0x05 ∷ 0x01 ∷ 0x00 ∷ (address ++ to_be_bytes 2 target.port))

unfoldable pub discard : ℕ → Exchange (Unit {0})
discard n = do _ ← read_exact n; return tt

unfoldable pub discard_domain : Exchange (Unit {0})
discard_domain = do count ← read_exact 1; discard (get_or count 0 0)

unfoldable pub discard_socks_address : ℕ → Exchange (Unit {0})
discard_socks_address kind =
    if kind == 0x01
    then discard 4
    else if kind == 0x03
    then discard_domain
    else if kind == 0x04
    then discard 16
    else fail invalid_data

-- `Socks5Protocol::handshake_stream`: the greeting, the request and the reply.
unfoldable pub offer_method : Exchange (Unit {0})
offer_method = do
  write_all (0x05 ∷ 0x01 ∷ 0x00 ∷ [])
  flush
  method ← read_exact 2
  refuse_if (not (eqb method (0x05 ∷ 0x00 ∷ []))) permission_denied

unfoldable pub send_request : Target → Exchange (Unit {0})
send_request target = do request ← socks5_request target; write_all request; flush

unfoldable pub read_reply : Exchange (Unit {0})
read_reply = do
  reply ← read_exact 4
  refuse_if (not (get_or reply 0 0 == 0x05) || not (get_or reply 2 0 == 0)) invalid_data
  refuse_if (not (get_or reply 1 0 == 0)) connection_refused
  discard_socks_address (get_or reply 3 0)
  discard 2

unfoldable pub socks5_handshake_stream : Target → Exchange (Unit {0})
socks5_handshake_stream target = do offer_method; send_request target; read_reply

-- `TrojanProtocol::handshake_stream`
unfoldable pub trojan_handshake_stream : Bytes → Target → Exchange (Unit {0})
trojan_handshake_stream verifier target = do
  request ← lift (encode_connect_request verifier target)
  write_all request
  flush

abbrev pub socks5_capabilities : ProtocolCapabilities
socks5_capabilities = record { stream_connect = true; requires_tls = false }

abbrev pub trojan_capabilities : ProtocolCapabilities
trojan_capabilities = record { stream_connect = true; requires_tls = true }
