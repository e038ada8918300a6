-- ===== src/Flow.antt =====
-- crates/core/src/flow.rs: the canonical flow. The identifiers of flows and rules are their `u64`s.
use commeatus.Prelude.{ℕ, Option, Bytes, Bool, true, false}
use commeatus.Ip.{IpAddr}

pub record SourceContext : Type 0 where
  pub uid : Option ℕ
  pub package_name : Option Bytes

pub data DestinationHost : Type 0 where
  domain : Bytes → DestinationHost
  ip : IpAddr → DestinationHost

pub record Destination : Type 0 where
  pub host : DestinationHost
  pub port : ℕ

pub data TransportProtocol : Type 0 where
  tcp udp : TransportProtocol

pub data NetworkKind : Type 0 where
  unknown ethernet wifi cellular : NetworkKind

pub record NetworkContext : Type 0 where
  pub kind : NetworkKind
  pub interface : Option Bytes

pub record FlowContext : Type 0 where
  pub id : ℕ
  pub source : SourceContext
  pub destination : Destination
  pub transport : TransportProtocol
  pub network : NetworkContext

abbrev pub same_transport : TransportProtocol → TransportProtocol → Bool
same_transport tcp tcp = true
same_transport udp udp = true
same_transport _ _ = false

abbrev pub same_kind : NetworkKind → NetworkKind → Bool
same_kind unknown unknown = true
same_kind ethernet ethernet = true
same_kind wifi wifi = true
same_kind cellular cellular = true
same_kind _ _ = false
