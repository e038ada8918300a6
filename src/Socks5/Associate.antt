-- ===== src/Socks5/Associate.antt =====
-- crates/daemon/src/socks5.rs: the loop of a UDP association, as its reactions to what the poll
-- reports. The poll, the relay socket and the control stream are the outside; what they give is an
-- argument of the reaction.
pub mod Client
pub mod Replies
pub mod Flush
use commeatus.Prelude.{
  ℕ, ◌+◌, Bool, true, false, not, ◌&&◌, Option, none, some, List, [], ◌∷◌, ◌++◌, leb, ◌==◌,
  if◌then◌else◌, Bytes, length, take, ◌||◌, ◌≡◌,
}
use commeatus.Ip.{IpAddr, ip_eq}
use commeatus.Ip.Socket.{SocketAddr, socket_eq}
use commeatus.Flow.{udp}
use commeatus.Plan.{Endpoint, ExecutionAction}
use commeatus.Policy.{PolicyEngine}
use commeatus.Io.{would_block, interrupted, permission_denied, Result, ok, err}
use commeatus.Target.{Target}
use commeatus.Proxy.{plan_action}
use commeatus.Datagram.{
  DatagramExecution, DatagramRouteSet, ReceivedDatagram, new_routes, send_with, receive_ready,
}
use commeatus.Outbound.{EndpointCapabilities, supports_udp}
use commeatus.Socks5.{parse_udp_request, encode_udp_response}
use commeatus.Socks5.Handshake.{UdpClientHint}

abbrev pub max_pending_client_replies : ℕ
max_pending_client_replies = 64

-- What the association is given: the policy, the registry of endpoints, the operations of its
-- datagram paths, and the address of the control stream's peer.
pub record Context (Association Registry : Type 0) : Type 0 where
  pub runtime : PolicyEngine
  pub capabilities : Endpoint → Option EndpointCapabilities
  pub open_datagram : Endpoint → Result Association
  pub operations : DatagramExecution Association Registry
  pub control_ip : IpAddr

-- The variables of the loop, and the counter of flows.
pub record Associated (Association Registry : Type 0) : Type 0 where
  pub routes : DatagramRouteSet Association Registry
  pub client_address : Option SocketAddr
  pub pending_replies : List (Bytes × SocketAddr)
  pub next_flow_id : ℕ

abbrev pub is_ok : Result (Unit {0}) → Bool
is_ok (ok _) = true
is_ok (err _) = false

-- The client's address in front of the loop.
unfoldable pub hinted_client : UdpClientHint → IpAddr → Option SocketAddr
hinted_client hint control_ip = elim hint.port [
  | none ↦ none
  | some port ↦ some (record { ip = control_ip; port = port })
]

-- The state in front of the loop.
unfoldable pub begin_associated :
    {Association Registry : Type 0}
    → UdpClientHint
    → IpAddr
    → Registry
    → ℕ
    → Associated Association Registry
begin_associated hint control_ip registry next_flow_id = record {
  routes = new_routes registry 2;
  client_address = hinted_client hint control_ip;
  pending_replies = [];
  next_flow_id = next_flow_id;
}

unfoldable pub is_client_packet : SocketAddr → IpAddr → Option SocketAddr → Bool
is_client_packet source control_ip none = ip_eq source.ip control_ip
is_client_packet source control_ip (some client) = socket_eq source client

-- The queueing of a reply that could not be sent yet.
unfoldable pub queue_reply :
    List (Bytes × SocketAddr) → Bytes → SocketAddr → Bool × List (Bytes × SocketAddr)
queue_reply pending packet client =
    if leb max_pending_client_replies (length pending)
    then (false, pending)
    else (true, pending ++ ((packet, client) ∷ []))

-- `send_or_queue_client_reply`, with what `send_to` gives.
unfoldable pub send_or_queue_client_reply :
    Result ℕ → List (Bytes × SocketAddr) → Bytes → SocketAddr → Bool × List (Bytes × SocketAddr)
send_or_queue_client_reply (ok sent) pending packet client = (sent == length packet, pending)
send_or_queue_client_reply (err would_block) pending packet client =
    queue_reply pending packet client
send_or_queue_client_reply (err interrupted) pending packet client =
    queue_reply pending packet client
send_or_queue_client_reply (err kind) pending packet client = (false, pending)

-- `flush_pending_client_replies`, with what `send_to` gives, call by call; `none` where it waits for
-- more of these.
unfoldable pub flush_pending_client_replies :
    List (Result ℕ) → Bool → List (Bytes × SocketAddr) → Option (Bool × List (Bytes × SocketAddr))
flush_pending_client_replies results sent_any [] = some (sent_any, [])
flush_pending_client_replies [] sent_any (reply ∷ pending) = none
flush_pending_client_replies (ok sent ∷ results) sent_any (reply ∷ pending) =
    flush_pending_client_replies results (sent == length reply.0 || sent_any) pending
flush_pending_client_replies (err would_block ∷ results) sent_any (reply ∷ pending) =
    some (sent_any, reply ∷ pending)
flush_pending_client_replies (err interrupted ∷ results) sent_any (reply ∷ pending) =
    flush_pending_client_replies results sent_any (reply ∷ pending)
flush_pending_client_replies (err kind ∷ results) sent_any (reply ∷ pending) =
    flush_pending_client_replies results sent_any pending

module _ {Association Registry : Type 0} (context : Context Association Registry) where
  -- From the plan on.
  unfoldable pub forward :
      Target
      → Bytes
      → ExecutionAction
      → Associated Association Registry
      → Bool × Associated Association Registry
  forward target payload (ExecutionAction.reject _) s = (false, s)
  forward target payload (ExecutionAction.route endpoint) s =
      let (result, routes) =
        send_with context.operations endpoint target payload context.open_datagram s.routes in
      if not (supports_udp (context.capabilities endpoint))
      then (false, s)
      else (is_ok result, record s { routes = routes })

  unfoldable pub handle_udp_client_packet :
      Bytes → Associated Association Registry → Bool × Associated Association Registry
  handle_udp_client_packet packet s = elim (parse_udp_request packet) [
    | err _ ↦ (false, s)
    | ok (target, payload) ↦
        let (action, next_flow_id) = plan_action context.runtime s.next_flow_id target udp in
        forward target payload action (record s { next_flow_id = next_flow_id })
  ]

  -- The client's address after a datagram that was accepted.
  abbrev pub set_client : Option SocketAddr → SocketAddr → Option SocketAddr
  set_client none source = some source
  set_client (some client) source = some client

  -- A datagram at the relay socket.
  unfoldable pub client_datagram :
      SocketAddr → Bytes → Associated Association Registry → Associated Association Registry
  client_datagram source packet s =
      let (accepted, after) = handle_udp_client_packet packet s in
      if not (is_client_packet source context.control_ip s.client_address)
      then s
      else if accepted
      then record after { client_address = set_client after.client_address source }
      else after

  -- The reply for a datagram that a path gave, to the client, with what `send_to` gives.
  unfoldable pub reply_to :
      Option SocketAddr
      → ReceivedDatagram
      → Bytes
      → Result ℕ
      → Associated Association Registry
      → Result (Associated Association Registry)
  reply_to none received filled sent s = ok s
  reply_to (some client) received filled sent s =
      elim (encode_udp_response received.source (take received.length filled)) [
        | err kind ↦ err kind
        | ok packet ↦ ok (record s {
          pending_replies = (send_or_queue_client_reply sent s.pending_replies packet client).1;
        })
      ]

  -- A token of a route that is ready; an error ends the association.
  unfoldable pub outbound_datagram :
      ℕ
      → Bytes
      → Result ℕ
      → Associated Association Registry
      → Result (Associated Association Registry)
  outbound_datagram token buffer sent s =
      let (result, filled, routes) = receive_ready context.operations token buffer s.routes in
      let after : Associated Association Registry = record s { routes = routes } in
      elim result [
        | err kind ↦ err kind
        | ok none ↦ ok after
        | ok (some received) ↦ reply_to s.client_address received filled sent after
      ]

  -- What an event makes of the state: a datagram of anyone at the relay socket, a datagram on a
  -- path, room at the relay socket.
  pub data Step : Associated Association Registry → Associated Association Registry → Type 0 where
    client_readable :
        (source : SocketAddr) (packet : Bytes) (s : Associated Association Registry)
        → Step s (client_datagram source packet s)
    outbound_ready :
        (token : ℕ) (buffer : Bytes) (sent : Result ℕ) (s after : Associated Association Registry)
        → outbound_datagram token buffer sent s ≡ ok after
        → Step s after
    client_writable :
        (results : List (Result ℕ)) (s : Associated Association Registry) (sent_any : Bool)
        (left : List (Bytes × SocketAddr))
        → flush_pending_client_replies results false s.pending_replies ≡ some (sent_any, left)
        → Step s (record s { pending_replies = left })

  -- The states that the loop comes to.
  pub data Reaches (start : Associated Association Registry)
      : Associated Association Registry → Type 0 where
    started : Reaches start start
    went_on :
        (s after : Associated Association Registry)
        → Reaches start s
        → Step s after
        → Reaches start after
