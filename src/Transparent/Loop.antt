-- ===== src/Transparent/Loop.antt =====
-- crates/daemon/src/transparent_udp.rs: `handle_inbound` as a whole, and what the loop of `serve_forever`
-- does with each event. The socket's `recvmsg` and the reply sockets are not here.
use commeatus.Prelude.{
  ℕ, Bool, true, false, ◌&&◌, Option, none, some, List, [], ◌∷◌, ◌==◌, if◌then◌else◌, Bytes, find,
}
use commeatus.Io
use commeatus.Io.{Result}
use commeatus.Ip.Socket.{SocketAddr}
use commeatus.Flow.{TransportProtocol}
use commeatus.Plan.{ExecutionAction}
use commeatus.Policy.{PolicyEngine}
use commeatus.Target.{Target}
use commeatus.Proxy.{plan_action}
use commeatus.Outbound.{OutboundRegistry, supports_udp, capabilities, open_datagram}
use commeatus.Datagram.{DatagramExecution, DatagramRouteSet, ReceivedDatagram, receive_ready}
use commeatus.Transparent.{
  ClientState, Serving, is_client, cleanup_idle_clients, route_inbound, set_routes, remove_token,
}

-- `last_activity` of a client, if it is there.
unfoldable pub touch :
    {Association : Type 0}
    → SocketAddr
    → ℕ
    → List (ClientState Association)
    → List (ClientState Association)
touch client now [] = []
touch client now (state ∷ states) =
    let rest = touch client now states in
    if is_client client state then record state { last_activity = now } ∷ states else state ∷ rest

unfoldable pub client_of : ℕ → List (ℕ × SocketAddr) → Option SocketAddr
client_of token [] = none
client_of token ((t, client) ∷ rest) =
    let later = client_of token rest in if t == token then some client else later

-- What comes between two states of the loop, in any order. An error of a receive ends the loop; what
-- comes behind one is only more than the loop does.
pub data Event : Type 0 where
  idle : ℕ → Event
  inbound : SocketAddr → Target → Bytes → ℕ → Event
  outbound : ℕ → Bytes → ℕ → Bool → Event

-- A receive that gave a datagram.
abbrev pub has_datagram : Result (Option ReceivedDatagram) → Bool
has_datagram (Io.ok (some _)) = true
has_datagram (Io.ok none) = false
has_datagram (Io.err _) = false

module _ {Session Association Registry : Type 0}
    (operations : DatagramExecution Association Registry) (runtime : PolicyEngine)
    (outbounds : OutboundRegistry Session Association) (direct : Result Association) where
  unfoldable pub act :
      SocketAddr
      → Target
      → Bytes
      → ℕ
      → ExecutionAction
      → Serving Association Registry
      → Bool × Serving Association Registry
  act client target payload now (ExecutionAction.reject _) s = (false, s)
  act client target payload now (ExecutionAction.route endpoint) s =
      route_inbound operations (λ e. open_datagram outbounds e direct) client endpoint target
        payload now (supports_udp (capabilities outbounds endpoint)) s

  unfoldable pub handle_inbound :
      SocketAddr
      → Target
      → Bytes
      → ℕ
      → Serving Association Registry
      → Bool × Serving Association Registry
  handle_inbound client target payload now s =
      let (action, next) = plan_action runtime s.next_flow_id target TransportProtocol.udp in
      act client target payload now action (record s { next_flow_id = next })

  -- One datagram of the burst.
  unfoldable pub serve_inbound :
      SocketAddr → Target → Bytes → ℕ → Serving Association Registry → Serving Association Registry
  serve_inbound client target payload now s =
      let (handled, s') = handle_inbound client target payload now s in
      if handled then record s' { clients = touch client now s'.clients } else s'

  -- One datagram from a path, for a client whose token is ready; `replied` says whether the reply
  -- socket took it.
  unfoldable pub receive_for :
      ℕ
      → Bytes
      → ℕ
      → Bool
      → SocketAddr
      → Option (ClientState Association)
      → Serving Association Registry
      → Serving Association Registry
  receive_for token buffer now replied client none s = record s {
    token_clients = remove_token token s.token_clients;
  }
  receive_for token buffer now replied client (some state) s =
      let set : DatagramRouteSet Association Registry = record {
        routes = state.routes;
        registry = s.registry;
        next_token = s.next_token;
      } in
      let (result, _, set') = receive_ready operations token buffer set in
      let clients = set_routes client set'.routes s.clients in
      record s {
        clients = if has_datagram result && replied then touch client now clients else clients;
      }

  unfoldable pub serve_outbound :
      ℕ → Bytes → ℕ → Bool → Serving Association Registry → Serving Association Registry
  serve_outbound token buffer now replied s = elim (client_of token s.token_clients) [
    | none ↦ s
    | some client ↦
        receive_for token buffer now replied client (find (is_client client) s.clients) s
  ]

  unfoldable pub serve : List Event → Serving Association Registry → Serving Association Registry
  serve [] s = s
  serve (idle now ∷ events) s = serve events (cleanup_idle_clients now s)
  serve (inbound client target payload now ∷ events) s =
      serve events (serve_inbound client target payload now s)
  serve (outbound token buffer now replied ∷ events) s =
      serve events (serve_outbound token buffer now replied s)
