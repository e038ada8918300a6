-- ===== src/Outbound.antt =====
-- crates/daemon/src/outbound.rs: the registry of proxy endpoints. A session to a proxy and an opened
-- datagram path are of any types; what opening them gives stands in the endpoint's configuration.
pub mod Registered
use commeatus.Prelude.{
  Bool, true, false, not, ◌&&◌, Option, none, some, List, [], ◌∷◌, if◌then◌else◌, Bytes, eqb, any,
  find,
}
use commeatus.Plan.{Endpoint, direct, proxy}
use commeatus.Io.{invalid_input, not_found, unsupported, Result, ok, err}
use commeatus.Target.{Target}
use commeatus.Protocol.{ProtocolCapabilities}

-- crates/transport/src/lib.rs and tls.rs: `TransportCapabilities`
pub record TransportCapabilities : Type 0 where
  pub reliable_stream : Bool
  pub datagram : Bool
  pub encrypted : Bool

-- A transport, with what its `connect` gives.
pub data TransportConfig (Session : Type 0) : Type 0 where
  tcp tls : Result Session → TransportConfig Session

module _ {Session : Type 0} where
  abbrev pub transport_capabilities : TransportConfig Session → TransportCapabilities
  transport_capabilities (tcp _) = record {
    reliable_stream = true;
    datagram = false;
    encrypted = false;
  }
  transport_capabilities (tls _) = record {
    reliable_stream = true;
    datagram = false;
    encrypted = true;
  }

  abbrev pub is_tls : TransportConfig Session → Bool
  is_tls (tcp _) = false
  is_tls (tls _) = true

  abbrev pub connect : TransportConfig Session → Result Session
  connect (tcp session) = session
  connect (tls session) = session

-- `OutboundProtocol`
pub record OutboundProtocol (Session : Type 0) : Type 0 where
  pub capabilities : ProtocolCapabilities
  pub handshake_stream : Session → Target → Result (Unit {0}) × Session

pub record ProxyEndpointConfig (Session Association : Type 0) : Type 0 where
  pub id : Bytes
  pub protocol : OutboundProtocol Session
  pub datagram : Option (Result Association)
  pub transport : TransportConfig Session

pub record EndpointCapabilities : Type 0 where
  pub tcp : Bool
  pub udp : Bool
  pub encrypted_transport : Bool

-- The map as a list of its endpoints.
abbrev pub OutboundRegistry : Type 0 → Type 0 → Type 0
OutboundRegistry Session Association = List (ProxyEndpointConfig Session Association)

abbrev pub supports_tcp : Option EndpointCapabilities → Bool
supports_tcp none = false
supports_tcp (some c) = c.tcp

abbrev pub supports_udp : Option EndpointCapabilities → Bool
supports_udp none = false
supports_udp (some c) = c.udp

module _ {Session Association : Type 0} where
  abbrev pub has_id : Bytes → ProxyEndpointConfig Session Association → Bool
  has_id id config = eqb config.id id

  abbrev pub contains : OutboundRegistry Session Association → Bytes → Bool
  contains registry id = any (has_id id) registry

  abbrev pub get :
      OutboundRegistry Session Association
      → Bytes
      → Option (ProxyEndpointConfig Session Association)
  get registry id = find (has_id id) registry

  -- The loop in `OutboundRegistry::new`.
  unfoldable pub add_endpoints :
      OutboundRegistry Session Association
      → OutboundRegistry Session Association
      → Result (OutboundRegistry Session Association)
  add_endpoints registry [] = ok registry
  add_endpoints registry (endpoint ∷ endpoints) =
      let rest = add_endpoints (endpoint ∷ registry) endpoints in
      if endpoint.protocol.capabilities.requires_tls && not (is_tls endpoint.transport)
      then err invalid_input
      else if contains registry endpoint.id
      then err invalid_input
      else rest

  unfoldable pub new_registry :
      OutboundRegistry Session Association → Result (OutboundRegistry Session Association)
  new_registry endpoints = add_endpoints [] endpoints

  abbrev pub proxy_capabilities : ProxyEndpointConfig Session Association → EndpointCapabilities
  proxy_capabilities config = record {
    tcp =
        config.protocol.capabilities.stream_connect
        && (transport_capabilities config.transport).reliable_stream;
    udp = elim config.datagram [ none ↦ false | some _ ↦ true ];
    encrypted_transport = (transport_capabilities config.transport).encrypted;
  }

  unfoldable pub capabilities :
      OutboundRegistry Session Association → Endpoint → Option EndpointCapabilities
  capabilities registry direct =
      some (record { tcp = true; udp = true; encrypted_transport = false })
  capabilities registry (proxy id) = elim (get registry id) [
    | none ↦ none
    | some config ↦ some (proxy_capabilities config)
  ]

  -- The handshake on a session that was opened.
  unfoldable pub shake :
      ProxyEndpointConfig Session Association → Target → Result Session → Result Session
  shake config target (err kind) = err kind
  shake config target (ok session) =
      let (result, after) = config.protocol.handshake_stream session target in
      elim result [ err kind ↦ err kind | ok _ ↦ ok after ]

  -- From the `match` on, with what `connect_direct` gives.
  unfoldable pub connect_endpoint :
      OutboundRegistry Session Association → Endpoint → Target → Result Session → Result Session
  connect_endpoint registry direct target connected = connected
  connect_endpoint registry (proxy id) target connected = elim (get registry id) [
    | none ↦ err not_found
    | some config ↦ shake config target (connect config.transport)
  ]

  unfoldable pub connect_tcp :
      OutboundRegistry Session Association → Endpoint → Target → Result Session → Result Session
  connect_tcp registry endpoint target connected =
      if not (supports_tcp (capabilities registry endpoint))
      then err unsupported
      else connect_endpoint registry endpoint target connected

  -- `open_datagram`, with what opening a direct association gives.
  unfoldable pub open_datagram :
      OutboundRegistry Session Association → Endpoint → Result Association → Result Association
  open_datagram registry direct opened = opened
  open_datagram registry (proxy id) opened = elim (get registry id) [
    | none ↦ err not_found
    | some config ↦ elim config.datagram [ none ↦ err unsupported | some path ↦ path ]
  ]
