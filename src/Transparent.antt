-- ===== src/Transparent.antt =====
-- crates/daemon/src/transparent_udp.rs: the clients of a transparent UDP listener and their tokens.
-- Times are nanoseconds. A client's routes are those of `Datagram`, whose allocator and registry are
-- the listener's.
pub mod Loop
pub mod Served
use commeatus.Prelude.{
  ℕ, ◌+◌, ◌-◌, ◌*◌, Bool, true, false, not, ◌||◌, Option, none, some, List, [], ◌∷◌, leb, ◌==◌,
  if◌then◌else◌, Bytes, length, any, find,
}
use commeatus.Io
use commeatus.Io.{Result}
use commeatus.Ip.Socket.{SocketAddr, socket_eq}
use commeatus.Flow.{TransportProtocol}
use commeatus.Plan.{Endpoint, ExecutionAction}
use commeatus.Policy.{PolicyEngine}
use commeatus.Target.{Target}
use commeatus.Proxy.{plan_action}
use commeatus.Datagram.{DatagramExecution, DatagramRoute, DatagramRouteSet, owned_tokens, send_with}

abbrev pub max_clients : ℕ
max_clients = 512

abbrev pub client_idle_timeout : ℕ
client_idle_timeout = 120 * 1000000000

-- A client, with its key in the map.
pub record ClientState (Association : Type 0) : Type 0 where
  pub client : SocketAddr
  pub routes : List (DatagramRoute Association)
  pub last_activity : ℕ

-- What the listener's loop keeps. The maps are lists.
pub record Serving (Association Registry : Type 0) : Type 0 where
  pub clients : List (ClientState Association)
  pub token_clients : List (ℕ × SocketAddr)
  pub registry : Registry
  pub next_token : ℕ
  pub next_flow_id : ℕ

-- `HashMap::remove` and `insert` on the tokens.
unfoldable pub remove_token : ℕ → List (ℕ × SocketAddr) → List (ℕ × SocketAddr)
remove_token token [] = []
remove_token token ((t, client) ∷ rest) =
    let kept = remove_token token rest in if t == token then kept else (t, client) ∷ kept

unfoldable pub remove_tokens : List ℕ → List (ℕ × SocketAddr) → List (ℕ × SocketAddr)
remove_tokens [] map = map
remove_tokens (token ∷ tokens) map = remove_tokens tokens (remove_token token map)

unfoldable pub insert_tokens : List ℕ → SocketAddr → List (ℕ × SocketAddr) → List (ℕ × SocketAddr)
insert_tokens [] client map = map
insert_tokens (token ∷ tokens) client map =
    insert_tokens tokens client ((token, client) ∷ remove_token token map)

module _ {Association : Type 0} where
  unfoldable pub is_expired : ℕ → ClientState Association → Bool
  is_expired now state = leb client_idle_timeout (now - state.last_activity)

  abbrev pub is_client : SocketAddr → ClientState Association → Bool
  is_client client state = socket_eq state.client client

  -- `cleanup_idle_clients`
  unfoldable pub cleanup :
      ℕ
      → List (ClientState Association)
      → List (ℕ × SocketAddr)
      → List (ClientState Association) × List (ℕ × SocketAddr)
  cleanup now [] map = ([], map)
  cleanup now (state ∷ states) map =
      let expired = cleanup now states (remove_tokens (owned_tokens state.routes) map) in
      let (kept, map') = cleanup now states map in
      if is_expired now state then expired else (state ∷ kept, map')

  unfoldable pub remove_client :
      SocketAddr → List (ClientState Association) → List (ClientState Association)
  remove_client client [] = []
  remove_client client (state ∷ states) =
      let rest = remove_client client states in
      if is_client client state then rest else state ∷ rest

  -- What a `&mut` to the client's state leaves behind.
  unfoldable pub set_routes :
      SocketAddr
      → List (DatagramRoute Association)
      → List (ClientState Association)
      → List (ClientState Association)
  set_routes client routes [] = []
  set_routes client routes (state ∷ states) =
      let rest = set_routes client routes states in
      if is_client client state then record state { routes = routes } ∷ states else state ∷ rest

module _ {Association Registry : Type 0} where
  unfoldable pub cleanup_idle_clients :
      ℕ → Serving Association Registry → Serving Association Registry
  cleanup_idle_clients now s =
      let (clients, token_clients) = cleanup now s.clients s.token_clients in
      record s { clients = clients; token_clients = token_clients }

  -- The last part of `handle_inbound`, with what the send gave.
  unfoldable pub after_send :
      SocketAddr
      → Bool
      → Result (Unit {0}) × DatagramRouteSet Association Registry
      → Serving Association Registry
      → Bool × Serving Association Registry
  after_send client inserted (Io.err kind, set) s = (
    false,
    record s {
      clients =
          if inserted
          then remove_client client s.clients
          else set_routes client set.routes s.clients;
      registry = set.registry;
      next_token = set.next_token;
    },
  )
  after_send client inserted (Io.ok _, set) s = (
    true,
    record s {
      clients = set_routes client set.routes s.clients;
      token_clients = insert_tokens (owned_tokens set.routes) client s.token_clients;
      registry = set.registry;
      next_token = set.next_token;
    },
  )

  module _ (operations : DatagramExecution Association Registry)
      (open_datagram : Endpoint → Result Association) where
    -- The send, for a client that the map has.
    unfoldable pub send_for :
        SocketAddr
        → Endpoint
        → Target
        → Bytes
        → Bool
        → Serving Association Registry
        → Bool × Serving Association Registry
    send_for client endpoint target payload inserted s = elim (find (is_client client) s.clients) [
      | none ↦ (false, s)
      | some state ↦
          let set : DatagramRouteSet Association Registry = record {
            routes = state.routes;
            registry = s.registry;
            next_token = s.next_token;
          } in
          after_send client inserted
            (send_with operations endpoint target payload open_datagram set) s
    ]

    -- For a client that the map does not have, `now` is the time of the cleanup and of its entry.
    unfoldable pub admit :
        SocketAddr
        → Endpoint
        → Target
        → Bytes
        → ℕ
        → Serving Association Registry
        → Bool × Serving Association Registry
    admit client endpoint target payload now s =
        let cleaned = cleanup_idle_clients now s in
        let state : ClientState Association = record {
          client = client;
          routes = [];
          last_activity = now;
        } in
        if leb max_clients (length cleaned.clients)
        then (false, cleaned)
        else send_for client endpoint target payload true
            (record cleaned { clients = state ∷ cleaned.clients })

    -- From the check of the capabilities on; `able` is what they say.
    unfoldable pub route_inbound :
        SocketAddr
        → Endpoint
        → Target
        → Bytes
        → ℕ
        → Bool
        → Serving Association Registry
        → Bool × Serving Association Registry
    route_inbound client endpoint target payload now able s =
        if not able
        then (false, s)
        else if any (is_client client) s.clients
        then send_for client endpoint target payload false s
        else admit client endpoint target payload now s
