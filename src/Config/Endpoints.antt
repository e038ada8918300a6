-- ===== src/Config/Endpoints.antt =====
-- crates/daemon/src/config.rs: the `endpoint` directive, with the transports and the protocols that
-- it makes. The protocols' capabilities are those of crates/daemon/src/protocol.rs.
use commeatus.Prelude.{
  ℕ, true, false, ◌&&◌, Option, none, some, List, [], ◌∷◌, leb, ◌==◌, if◌then◌else◌, Bytes, bytes,
  eqb, length, any,
}
use commeatus.Io
use commeatus.Ip.Socket.{SocketAddr}
use commeatus.Ip.Socket.Text.{parse_socket}
use commeatus.Plan.{new_endpoint_id}
use commeatus.Protocol.{socks5_capabilities, trojan_capabilities}
use commeatus.Trojan.Verifier.{new_verifier}
use commeatus.Outbound.{OutboundProtocol, TransportConfig, tcp, tls, ProxyEndpointConfig}
use commeatus.Outcome.{Outcome, ok, err, ◌>>=◌, ◌>>◌, refuse_if, ok_or}
use commeatus.Config.{Surroundings, ConfigError, at, max_proxy_endpoints, Parsing, push}

unfoldable pub parse_proxy_address : Bytes → ℕ → Outcome ConfigError SocketAddr
parse_proxy_address value line = do
  address ← ok_or (at line) (parse_socket value)
  refuse_if (address.port == 0) (at line)
  ok address

abbrev pub of_io : {A : Type 0} → ℕ → Io.Result A → Outcome ConfigError A
of_io line (Io.err _) = err (at line)
of_io line (Io.ok value) = ok value

module _ {Session Association FilePath : Type 0}
    (host : Surroundings Session Association FilePath) where
  -- `protocol::socks5`, `http_connect` and `trojan_with_verifier`
  abbrev pub socks5 : OutboundProtocol Session
  socks5 = record { capabilities = socks5_capabilities; handshake_stream = host.socks5_handshake }

  abbrev pub http_connect : OutboundProtocol Session
  http_connect = record {
    capabilities = record { stream_connect = true; requires_tls = false };
    handshake_stream = host.http_handshake;
  }

  abbrev pub trojan_with_verifier : Bytes → OutboundProtocol Session
  trojan_with_verifier verifier = record {
    capabilities = trojan_capabilities;
    handshake_stream = host.trojan_handshake verifier;
  }

  -- `parse_tls_transport_raw`, for what its `connect` gives
  unfoldable pub parse_tls_transport_raw :
      Bytes → Bytes → ℕ → Outcome ConfigError (Io.Result Session)
  parse_tls_transport_raw value server_name line = do
    address ← parse_proxy_address value line
    ok_or (at line) (host.tls_transport address server_name)

  unfoldable pub parse_tls_transport :
      Bytes → Bytes → ℕ → Outcome ConfigError (TransportConfig Session)
  parse_tls_transport value server_name line = do
    session ← parse_tls_transport_raw value server_name line
    ok (tls session)

  unfoldable pub parse_tcp_transport : Bytes → ℕ → Outcome ConfigError (TransportConfig Session)
  parse_tcp_transport value line = do
    address ← parse_proxy_address value line
    ok (tcp (host.tcp_transport address))

  -- SOCKS5 or HTTP, by its word.
  unfoldable pub stream_protocol : Bytes → Option (OutboundProtocol Session)
  stream_protocol word =
      if eqb word (bytes "socks5")
      then some socks5
      else if eqb word (bytes "http")
      then some http_connect
      else none

  unfoldable pub stream_endpoint :
      Bytes
      → Bytes
      → ℕ
      → Outcome ConfigError (TransportConfig Session)
      → Outcome ConfigError (ProxyEndpointConfig Session Association)
  stream_endpoint id word line parsed = do
    protocol ← ok_or (at line) (stream_protocol word)
    transport ← parsed
    ok (record { id = id; protocol = protocol; datagram = none; transport = transport })

  unfoldable pub trojan_endpoint :
      Bytes
      → Bytes
      → Bytes
      → Bytes
      → ℕ
      → Outcome ConfigError (ProxyEndpointConfig Session Association)
  trojan_endpoint id address server_name password line = do
    verifier ← of_io line (new_verifier host.sha224 password)
    session ← parse_tls_transport_raw address server_name line
    ok (record {
      id = id;
      protocol = trojan_with_verifier verifier;
      datagram = some (host.trojan_datagram verifier session);
      transport = tls session;
    })

  -- The `match` on the fields, from the protocol on.
  unfoldable pub make_endpoint :
      Bytes → List Bytes → ℕ → Outcome ConfigError (ProxyEndpointConfig Session Association)
  make_endpoint id (word ∷ address ∷ []) line =
      stream_endpoint id word line (parse_tcp_transport address line)
  make_endpoint id (word ∷ transport ∷ address ∷ []) line =
      if eqb transport (bytes "tcp")
      then stream_endpoint id word line (parse_tcp_transport address line)
      else err (at line)
  make_endpoint id (word ∷ transport ∷ address ∷ server_name ∷ []) line =
      if eqb transport (bytes "tls")
      then stream_endpoint id word line (parse_tls_transport address server_name line)
      else err (at line)
  make_endpoint id (word ∷ transport ∷ address ∷ server_name ∷ password ∷ []) line =
      if eqb word (bytes "trojan") && eqb transport (bytes "tls")
      then trojan_endpoint id address server_name password line
      else err (at line)
  make_endpoint id _ line = err (at line)

  unfoldable pub endpoint_directive :
      List Bytes
      → ℕ
      → Parsing Session Association FilePath
      → Outcome ConfigError (Parsing Session Association FilePath)
  endpoint_directive (first ∷ word ∷ fields) line p = do
    refuse_if (leb max_proxy_endpoints (length p.endpoint_configs)) (at line)
    id ← ok_or (at line) (new_endpoint_id word)
    refuse_if (any (eqb id) p.endpoint_ids) (at line)
    config ← make_endpoint id fields line
    ok (record p {
      endpoint_ids = id ∷ p.endpoint_ids;
      endpoint_configs = push config p.endpoint_configs;
    })
  endpoint_directive _ line p = err (at line)
