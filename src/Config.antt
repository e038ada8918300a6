-- ===== src/Config.antt =====
-- crates/daemon/src/config.rs: the configuration, what its parser keeps while it reads one, and what
-- the parser asks of its surroundings. Of an error, the model has the line.
pub mod Action
pub mod Assets
pub mod Endpoints
pub mod Directives
pub mod Steps
pub mod Accepted
pub mod Invariant
pub mod Finished
pub mod Limits
pub mod Listeners
pub mod Private
pub mod Routes
pub mod Planned
pub mod Reload
pub mod Errors
pub mod Compile
use commeatus.Prelude.{
  ℕ, Bool, true, false, Option, none, some, List, [], ◌∷◌, ◌++◌, if◌then◌else◌, Bytes, eqb, any,
  ◌&&◌,
}
use commeatus.Io.{Result}
use commeatus.Ip.Socket.{SocketAddr, socket_eq}
use commeatus.Target.{Target}
use commeatus.Policy.{PolicyAction, PolicyRule, PolicyEngine}
use commeatus.Blocklist.{BlocklistStats}
use commeatus.Dns.Engine.{Resolver, Hosts, DnsEngine}
use commeatus.Outbound.{ProxyEndpointConfig, OutboundRegistry}

abbrev pub max_config_bytes : ℕ
max_config_bytes = 1048576

abbrev pub max_rules : ℕ
max_rules = 4096

abbrev pub max_listeners : ℕ
max_listeners = 16

abbrev pub max_blocklists : ℕ
max_blocklists = 8

abbrev pub max_hosts_files : ℕ
max_hosts_files = 4

abbrev pub max_proxy_endpoints : ℕ
max_proxy_endpoints = 64

abbrev pub max_dns_resolvers : ℕ
max_dns_resolvers = 8

pub data ListenerProtocol : Type 0 where
  socks5 http_connect tproxy_tcp tproxy_udp : ListenerProtocol

unfoldable pub is_udp : ListenerProtocol → Bool
is_udp tproxy_udp = true
is_udp _ = false

pub record ListenerConfig : Type 0 where
  pub protocol : ListenerProtocol
  pub address : SocketAddr

pub record BlocklistSummary (FilePath : Type 0) : Type 0 where
  pub path : FilePath
  pub stats : BlocklistStats

pub record HostsSummary (FilePath : Type 0) : Type 0 where
  pub path : FilePath
  pub records : ℕ

-- `DnsResolverSummary`, and the key of a resolver: for `dot`, the text of its address and its name.
pub data DnsResolverSummary : Type 0 where
  system : DnsResolverSummary
  dot : SocketAddr → Bytes → DnsResolverSummary

unfoldable pub same_resolver : DnsResolverSummary → DnsResolverSummary → Bool
same_resolver system system = true
same_resolver (dot a name) (dot b other) = socket_eq a b && eqb name other
same_resolver _ _ = false

pub record ConfigError : Type 0 where
  pub line : Option ℕ

-- `ConfigError::global` and `ConfigError::at`
abbrev pub global : ConfigError
global = record { line = none }

abbrev pub at : ℕ → ConfigError
at line = record { line = some line }

-- What the parser calls: paths and files of the operating system, the calls that make resolvers and
-- transports, and the handshakes of the protocols.
pub record Surroundings (Session Association FilePath : Type 0) : Type 0 where
  -- `Path::is_absolute`, `to_path_buf`, `join` and the equality of paths
  pub is_absolute : Bytes → Bool
  pub to_path : Bytes → FilePath
  pub join : FilePath → Bytes → FilePath
  pub same_path : FilePath → FilePath → Bool
  -- `fs::metadata`, for the length, and `fs::read_to_string`
  pub file_size : FilePath → Option ℕ
  pub read_to_string : FilePath → Option Bytes
  -- `SystemResolver` and `DotResolver::webpki`
  pub system_resolver : Resolver
  pub dot_resolver : SocketAddr → Bytes → Option Resolver
  -- `TcpTransport::new` and `TlsTransport::webpki`, with what `connect` gives
  pub tcp_transport : SocketAddr → Result Session
  pub tls_transport : SocketAddr → Bytes → Option (Result Session)
  pub sha224 : Bytes → Bytes
  pub socks5_handshake : Session → Target → Result (Unit {0}) × Session
  pub http_handshake : Session → Target → Result (Unit {0}) × Session
  pub trojan_handshake : Bytes → Session → Target → Result (Unit {0}) × Session
  -- what opening a datagram path with a verifier over a transport gives
  pub trojan_datagram : Bytes → Result Session → Result Association

-- The variables of `parse_config_at`. A set is the list of its members.
pub record Parsing (Session Association FilePath : Type 0) : Type 0 where
  pub version_seen : Bool
  pub default_action : Option PolicyAction
  pub allow_public_listen : Option Bool
  pub listeners : List ListenerConfig
  pub listener_addresses : List (Bool × SocketAddr)
  pub blocklists : List (BlocklistSummary FilePath)
  pub blocklist_paths : List FilePath
  pub hosts : List (HostsSummary FilePath)
  pub hosts_paths : List FilePath
  pub hosts_table : Hosts
  pub dns_resolver_summaries : List DnsResolverSummary
  pub dns_resolvers : List Resolver
  pub dns_resolver_keys : List DnsResolverSummary
  pub endpoint_configs : List (ProxyEndpointConfig Session Association)
  pub endpoint_ids : List Bytes
  pub referenced_endpoints : List Bytes
  pub rules : List PolicyRule
  pub next_rule_id : ℕ

pub record CompiledConfig (Session Association FilePath : Type 0) : Type 0 where
  pub listeners : List ListenerConfig
  pub blocklists : List (BlocklistSummary FilePath)
  pub hosts : List (HostsSummary FilePath)
  pub dns_resolvers : List DnsResolverSummary
  pub runtime : PolicyEngine
  pub dns : DnsEngine
  pub outbounds : OutboundRegistry Session Association

-- `insert` into a set of ids, for what it adds.
unfoldable pub insert_id : Bytes → List Bytes → List Bytes
insert_id id ids = if any (eqb id) ids then ids else id ∷ ids

-- `Vec::push`
abbrev pub push : {A : Type 0} → A → List A → List A
push x xs = xs ++ (x ∷ [])
