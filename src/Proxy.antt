-- ===== src/Proxy.antt =====
-- crates/daemon/src/proxy.rs: flows for targets, resolution and direct connections. Times are
-- nanoseconds. The calls that open a connection are a parameter.
pub mod Deadline
use commeatus.Prelude.{
  ℕ, ◌+◌, ◌-◌, ◌*◌, ◌%◌, ◌^◌, true, false, Option, none, some, List, [], ◌∷◌, map, ◌==◌,
  if◌then◌else◌, Bytes,
}
use commeatus.Ip.{IpAddr}
use commeatus.Ip.Socket.{SocketAddr}
use commeatus.Flow.{DestinationHost, domain, ip, FlowContext, TransportProtocol, unknown}
use commeatus.Plan.{ExecutionAction}
use commeatus.Policy.{PolicyEngine, plan}
use commeatus.Io.{ErrorKind, addr_not_available, timed_out, Result, ok, err}
use commeatus.Target.{Target}
use commeatus.Dns.Answer.{DnsResult}
use commeatus.Dns.Engine.{DnsEngine, resolve}

-- `Target::flow`, with the counter's value.
unfoldable pub flow : ℕ → Target → TransportProtocol → FlowContext
flow next_flow_id target transport = record {
  id = next_flow_id;
  source = record { uid = none; package_name = none };
  destination = record { host = target.host; port = target.port };
  transport = transport;
  network = record { kind = unknown; interface = none };
}

-- The action, and the counter after it, which wraps at 64 bits.
unfoldable pub plan_action : PolicyEngine → ℕ → Target → TransportProtocol → ExecutionAction × ℕ
plan_action runtime next_flow_id target transport =
    ((plan runtime (flow next_flow_id target transport)).action, (next_flow_id + 1) % 2 ^ 64)

abbrev at_port : ℕ → IpAddr → SocketAddr
at_port port address = record { ip = address; port = port }

-- The check at the end of `resolve_target`.
unfoldable pub usable : List SocketAddr → Result (List SocketAddr)
usable [] = err addr_not_available
usable (address ∷ addresses) = ok (address ∷ addresses)

unfoldable pub of_answer : ℕ → DnsResult (List IpAddr) → Result (List SocketAddr)
of_answer port (DnsResult.err _) = err addr_not_available
of_answer port (DnsResult.ok addresses) = usable (map (at_port port) addresses)

-- `resolve_target` at the time `now`, with the resolver's state.
unfoldable pub resolve_target : Target → DnsEngine → ℕ → Result (List SocketAddr) × DnsEngine
resolve_target target dns now = elim target.host [
  | domain name ↦
      let (answer, after) = resolve dns name now in (of_answer target.port answer, after)
  | ip address ↦ (usable (at_port target.port address ∷ []), dns)
]

abbrev pub connect_timeout : ℕ
connect_timeout = 10 * 1000000000

-- `TcpStream::connect_timeout`, at a time, to an address, with a timeout: the result, and the time
-- at which it comes; and `set_nodelay`.
pub record Connector (TcpStream : Type 0) : Type 0 where
  pub connect : ℕ → SocketAddr → ℕ → Result TcpStream × ℕ
  pub set_nodelay : TcpStream → Result TcpStream

module _ {TcpStream : Type 0} (connector : Connector TcpStream) where
  -- The loop over the addresses: the result, and the time at its end. Only the calls take time.
  unfoldable pub connect_first : ℕ → List SocketAddr → ErrorKind → ℕ → Result TcpStream × ℕ
  connect_first deadline [] last_error now = (err last_error, now)
  connect_first deadline (address ∷ addresses) last_error now =
      let remaining = deadline - now in
      let (result, later) = connector.connect now address remaining in
      let rest : Result TcpStream × ℕ = elim result [
        | ok stream ↦ (connector.set_nodelay stream, later)
        | err kind ↦ connect_first deadline addresses kind later
      ] in
      if remaining == 0 then (err last_error, now) else rest

  -- `connect_direct`, from the resolution's result and its time on.
  unfoldable pub connect_direct : Result (List SocketAddr) → ℕ → Result TcpStream × ℕ
  connect_direct (err kind) now = (err kind, now)
  connect_direct (ok addresses) now = connect_first (now + connect_timeout) addresses timed_out now
