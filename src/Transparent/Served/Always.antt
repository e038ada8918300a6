-- ===== src/Transparent/Served/Always.antt =====
-- What holds of a transparent UDP listener at all times.
use commeatus.Prelude.{
  ℕ, ◌≤◌, ◌≡◌, false, some, List, length, find, All, All-map, Bytes, arith, Option-cases, inl, inr,
}
use commeatus.Io.{Result, Result-cases}
use commeatus.Ip.Socket.{SocketAddr}
use commeatus.Plan.{Endpoint}
use commeatus.Target.{Target}
use commeatus.Datagram.{DatagramExecution, DatagramRoute, DatagramRouteSet, owned_tokens, send_with}
use commeatus.Transparent.{
  ClientState, Serving, is_client, cleanup_idle_clients, set_routes, insert_tokens, after_send,
  send_for,
}
use commeatus.Transparent.Loop.{touch}
use commeatus.Transparent.Served.{
  IsHeld, IsDistinct, insert_tokens-All, cleanup-All, length-cleanup, cleanup-IsDistinct,
}
use commeatus.Transparent.Served.Kept.{
  Covers, length-set_routes, set_routes-IsDistinct, set_routes-IsHeld, set_routes_holds,
}
use commeatus.Transparent.Served.Routes.{
  send_with-Covers, length-touch, touch-IsDistinct, touch-IsHeld,
}

module _ {Association Registry : Type 0} where
  -- At most 512 clients, each of them once, and a token leads to a client that has it.
  pub record IsServed (s : Serving Association Registry) : Type 0 where
    pub within : length s.clients ≤ 512
    pub distinct : IsDistinct s.clients
    pub held : All (λ e. IsHeld s.clients e) s.token_clients

  pub cleanup-IsServed :
      (now : ℕ) (s : Serving Association Registry)
      → IsServed s
      → IsServed (cleanup_idle_clients now s)
  unfolding cleanup_idle_clients
  cleanup-IsServed now s h = record {
    within = omega (arith, h.within, length-cleanup now s.clients s.token_clients);
    distinct = cleanup-IsDistinct now s.clients s.token_clients h.distinct;
    held = cleanup-All now s.clients s.token_clients h.held;
  }

  -- A client's routes, and what was registered and allotted for them, after a call.
  pub set_routes-IsServed :
      (client : SocketAddr) (state : ClientState Association)
      (routes : List (DatagramRoute Association)) (registry : Registry) (next_token : ℕ)
      (s : Serving Association Registry)
      → find (is_client client) s.clients ≡ some state
      → Covers state.routes routes
      → IsServed s
      → IsServed (record s {
        clients = set_routes client routes s.clients;
        registry = registry;
        next_token = next_token;
      })
  set_routes-IsServed client state routes registry next_token s found more h = record {
    within = omega (arith, h.within, length-set_routes client routes s.clients);
    distinct = set_routes-IsDistinct client routes s.clients h.distinct;
    held =
        All-map s.token_clients
          (λ e k. set_routes-IsHeld client routes s.clients state e found more k) h.held;
  }

  pub touch-IsServed :
      (client : SocketAddr) (now : ℕ) (s : Serving Association Registry)
      → IsServed s
      → IsServed (record s { clients = touch client now s.clients })
  touch-IsServed client now s h = record {
    within = omega (arith, h.within, length-touch client now s.clients);
    distinct = touch-IsDistinct client now s.clients h.distinct;
    held = All-map s.token_clients (λ e k. touch-IsHeld client now s.clients e k) h.held;
  }

  -- The tokens that a client has lead to it.
  pub insert_tokens-IsServed :
      (client : SocketAddr) (state : ClientState Association)
      (set : DatagramRouteSet Association Registry) (s : Serving Association Registry)
      → find (is_client client) s.clients ≡ some state
      → Covers state.routes set.routes
      → IsServed s
      → IsServed (record s {
        clients = set_routes client set.routes s.clients;
        token_clients = insert_tokens (owned_tokens set.routes) client s.token_clients;
        registry = set.registry;
        next_token = set.next_token;
      })
  insert_tokens-IsServed client state set s found more h =
      let changed =
        set_routes-IsServed client state set.routes set.registry set.next_token s found more h in
      record {
        within = changed.within;
        distinct = changed.distinct;
        held =
            insert_tokens-All _ (owned_tokens set.routes) client s.token_clients changed.held
              (λ t owns. set_routes_holds client set.routes s.clients state t found owns);
      }

  module _ (operations : DatagramExecution Association Registry)
      (open_path : Endpoint → Result Association) (client : SocketAddr) (endpoint : Endpoint)
      (target : Target) (payload : Bytes) where
    pub send_for_known :
        (s : Serving Association Registry)
        → IsServed s
        → IsServed (send_for operations open_path client endpoint target payload false s).1
    unfolding send_for after_send
    send_for_known s h = elim (Option-cases (find (is_client client) s.clients)) [
      | inl missing ↦ rw (missing, send_for) h
      | inr (state, found) ↦
          let set : DatagramRouteSet Association Registry = record {
            routes = state.routes;
            registry = s.registry;
            next_token = s.next_token;
          } in
          let sent = send_with operations endpoint target payload open_path set in
          let more = send_with-Covers operations endpoint target payload open_path set in
          elim (Result-cases sent.0) [
            | inl (kind, e) ↦
                rw (found, send_for, e, after_send)
                  (set_routes-IsServed client state sent.1.routes sent.1.registry sent.1.next_token
                    s found more h)
            | inr (_, e) ↦
                rw (found, send_for, e, after_send)
                  (insert_tokens-IsServed client state sent.1 s found more h)
          ]
    ]
