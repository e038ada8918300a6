-- ===== src/Transparent/Served/Runs.antt =====
-- The invariant of a transparent UDP listener, over any events.
use commeatus.Prelude.{
  ℕ, ◌<◌, ◌≡◌, refl, Bool, true, false, ◌&&◌, some, List, [], ◌∷◌, leb, length, any, find, All-map,
  Bytes, arith, Bool-cases, Option-cases, inl, inr, not_within,
}
use commeatus.Io.{Result, Result-cases}
use commeatus.Ip.Socket.{SocketAddr, socket_eq_iff}
use commeatus.Flow.{TransportProtocol}
use commeatus.Plan.{Endpoint, ExecutionAction}
use commeatus.Policy.{PolicyEngine}
use commeatus.Target.{Target}
use commeatus.Proxy.{plan_action}
use commeatus.Outbound.{OutboundRegistry, open_datagram, supports_udp, capabilities}
use commeatus.Datagram.{DatagramExecution, DatagramRouteSet, send_with, receive_ready}
use commeatus.Transparent.{
  ClientState, Serving, is_client, cleanup_idle_clients, remove_client, set_routes, after_send,
  send_for, admit, route_inbound,
}
use commeatus.Transparent.Loop.{
  has_datagram, client_of, act, handle_inbound, serve_inbound, receive_for, serve_outbound, Event,
  idle, inbound, outbound, serve,
}
use commeatus.Transparent.Served.{IsHeld, remove_token-All, cleanup-kept}
use commeatus.Transparent.Served.Kept.{IsAbsent, any-IsAbsent, remove_client-IsAbsent}
use commeatus.Transparent.Served.Routes.{send_with-Covers, receive_ready-Covers}
use commeatus.Transparent.Served.Always.{
  IsServed, cleanup-IsServed, touch-IsServed, set_routes-IsServed, insert_tokens-IsServed,
  send_for_known,
}

module _ {Association Registry : Type 0} where
  module _ (operations : DatagramExecution Association Registry)
      (open_path : Endpoint → Result Association) (client : SocketAddr) (endpoint : Endpoint)
      (target : Target) (payload : Bytes) where
    -- A client that comes in, and goes again if its first datagram cannot be sent.
    send_for_new :
        (state : ClientState Association) (s : Serving Association Registry)
        → state.client ≡ client
        → length s.clients < 512
        → IsAbsent client s.clients
        → IsServed s
        → IsServed
            (send_for operations open_path client endpoint target payload true
              (record s { clients = state ∷ s.clients })).1
    unfolding send_for after_send remove_client
    send_for_new state s mine room absent h =
        let seen : is_client client state ≡ true = (socket_eq_iff state.client client).1 mine in
        let joined : Serving Association Registry = record s { clients = state ∷ s.clients } in
        let served : IsServed joined = record {
          within = omega arith;
          distinct = (rw mine absent, h.distinct);
          held = All-map s.token_clients (λ e k. inr k) h.held;
        } in
        let set : DatagramRouteSet Association Registry = record {
          routes = state.routes;
          registry = s.registry;
          next_token = s.next_token;
        } in
        let sent = send_with operations endpoint target payload open_path set in
        let more = send_with-Covers operations endpoint target payload open_path set in
        let found : find (is_client client) joined.clients ≡ some state = rw seen refl in
        elim (Result-cases sent.0) [
          | inl (kind, e) ↦
              rw
                (
                  found,
                  send_for,
                  e,
                  after_send,
                  seen,
                  remove_client-IsAbsent client s.clients absent,
                )
                (record { within = h.within; distinct = h.distinct; held = h.held })
          | inr (_, e) ↦
              rw (found, send_for, e, after_send)
                (insert_tokens-IsServed client state sent.1 joined found more served)
        ]

    admit-IsServed :
        (now : ℕ) (s : Serving Association Registry)
        → any (is_client client) s.clients ≡ false
        → IsServed s
        → IsServed (admit operations open_path client endpoint target payload now s).1
    unfolding admit cleanup_idle_clients
    admit-IsServed now s new h =
        let cleaned = cleanup_idle_clients now s in
        let clean = cleanup-IsServed now s h in
        let absent = cleanup_absent now s (any-IsAbsent client s.clients new) in
        elim (Bool-cases (leb 512 (length cleaned.clients))) [
          | inl full ↦ rw full clean
          | inr room ↦ rw room (
              send_for_new _ cleaned refl (not_within 512 (length cleaned.clients) room) absent
                clean)
        ]
      where
        cleanup_absent :
            (now : ℕ) (s : Serving Association Registry)
            → IsAbsent client s.clients
            → IsAbsent client (cleanup_idle_clients now s).clients
        cleanup_absent now s h = cleanup-kept _ now s.clients s.token_clients h

    route_inbound-IsServed :
        (now : ℕ) (able : Bool) (s : Serving Association Registry)
        → IsServed s
        → IsServed (route_inbound operations open_path client endpoint target payload now able s).1
    unfolding route_inbound
    route_inbound-IsServed now false s h = h
    route_inbound-IsServed now true s h = elim (Bool-cases (any (is_client client) s.clients)) [
      | inl known ↦
          rw known (send_for_known operations open_path client endpoint target payload s h)
      | inr new ↦ rw new (admit-IsServed now s new h)
    ]

  module _ {Session : Type 0} (operations : DatagramExecution Association Registry)
      (runtime : PolicyEngine) (outbounds : OutboundRegistry Session Association)
      (direct : Result Association) where
    act-IsServed :
        (client : SocketAddr) (target : Target) (payload : Bytes) (now : ℕ)
        (action : ExecutionAction) (s : Serving Association Registry)
        → IsServed s
        → IsServed (act operations runtime outbounds direct client target payload now action s).1
    unfolding act
    act-IsServed client target payload now (ExecutionAction.reject _) s h = h
    act-IsServed client target payload now (ExecutionAction.route endpoint) s h =
        route_inbound-IsServed operations (λ e. open_datagram outbounds e direct) client endpoint
          target payload now (supports_udp (capabilities outbounds endpoint)) s h

    serve_inbound-IsServed :
        (client : SocketAddr) (target : Target) (payload : Bytes) (now : ℕ)
        (s : Serving Association Registry)
        → IsServed s
        → IsServed (serve_inbound operations runtime outbounds direct client target payload now s)
    unfolding serve_inbound handle_inbound
    serve_inbound-IsServed client target payload now s h =
        let (action, next) = plan_action runtime s.next_flow_id target TransportProtocol.udp in
        let counted : Serving Association Registry = record s { next_flow_id = next } in
        let done =
          act operations runtime outbounds direct client target payload now action counted in
        let served =
          act-IsServed client target payload now action counted
            (record { within = h.within; distinct = h.distinct; held = h.held }) in
        elim (Bool-cases done.0) [
          | inl handled ↦ rw handled (touch-IsServed client now done.1 served)
          | inr refused ↦ rw refused served
        ]

    receive_for-IsServed :
        (token : ℕ) (buffer : Bytes) (now : ℕ) (replied : Bool) (client : SocketAddr)
        (s : Serving Association Registry)
        → IsServed s
        → IsServed (
            receive_for operations runtime outbounds direct token buffer now replied client
              (find (is_client client) s.clients)
              s)
    unfolding receive_for
    receive_for-IsServed token buffer now replied client s h =
        elim (Option-cases (find (is_client client) s.clients)) [
          | inl missing ↦
              rw (missing, receive_for)
                (record {
                  within = h.within;
                  distinct = h.distinct;
                  held = remove_token-All (λ e. IsHeld s.clients e) token s.token_clients h.held;
                })
          | inr (state, found) ↦
              let set : DatagramRouteSet Association Registry = record {
                routes = state.routes;
                registry = s.registry;
                next_token = s.next_token;
              } in
              let got = receive_ready operations token buffer set in
              let more = receive_ready-Covers operations token buffer set in
              let changed =
                set_routes-IsServed client state got.2.routes s.registry s.next_token s found more
                  h in
              elim (Bool-cases (has_datagram got.0 && replied)) [
                | inl seen ↦
                    rw (found, receive_for, seen)
                      (touch-IsServed client now
                        (record s { clients = set_routes client got.2.routes s.clients }) changed)
                | inr quiet ↦ rw (found, receive_for, quiet) changed
              ]
        ]

    serve_outbound-IsServed :
        (token : ℕ) (buffer : Bytes) (now : ℕ) (replied : Bool) (s : Serving Association Registry)
        → IsServed s
        → IsServed (serve_outbound operations runtime outbounds direct token buffer now replied s)
    unfolding serve_outbound
    serve_outbound-IsServed token buffer now replied s h =
        elim (Option-cases (client_of token s.token_clients)) [
          | inl missing ↦ rw (missing, serve_outbound) h
          | inr (client, found) ↦
              rw (found, serve_outbound) (receive_for-IsServed token buffer now replied client s h)
        ]

    -- Whatever comes in, from whichever clients, and whatever the paths and the clock do: a listener
    -- that starts without clients has at most 512 of them at all times, each of them once, and every
    -- token that it keeps leads to a client that is there and has the token.
    pub serve-IsServed :
        (events : List Event) (s : Serving Association Registry)
        → IsServed s
        → IsServed (serve operations runtime outbounds direct events s)
    unfolding serve
    serve-IsServed [] s h = h
    serve-IsServed (idle now ∷ events) s h =
        serve-IsServed events (cleanup_idle_clients now s) (cleanup-IsServed now s h)
    serve-IsServed (inbound client target payload now ∷ events) s h =
        serve-IsServed events _ (serve_inbound-IsServed client target payload now s h)
    serve-IsServed (outbound token buffer now replied ∷ events) s h =
        serve-IsServed events _ (serve_outbound-IsServed token buffer now replied s h)
