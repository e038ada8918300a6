-- ===== src/Datagram.antt =====
-- crates/daemon/src/datagram.rs: the interface of datagram associations, and `DatagramRouteSet`. A
-- token is its number.
pub mod Direct
pub mod Owned
pub mod Owner
pub mod Steps
use commeatus.Prelude.{
  ℕ, zero, suc, Bool, true, false, Option, none, some, List, [], ◌∷◌, ◌++◌, leb, ◌==◌,
  if◌then◌else◌, Bytes, eqb, eqb_iff, ◌≡◌, ◌↔◌, refl, ap, length, any, find,
}
use commeatus.Plan.{Endpoint, direct, proxy}
use commeatus.Io.{quota_exceeded, other, Result, ok, err}
use commeatus.Target.{Target}
use commeatus.Tokens.{allocate}

pub record ReceivedDatagram : Type 0 where
  pub source : Target
  pub length : ℕ

-- `DatagramAssociation` and `DatagramExecution`: the associations, whichever type they have, and the
-- poll's registry. A buffer is given back as it is filled.
pub record DatagramExecution (Association Registry : Type 0) : Type 0 where
  pub send : Association → Target → Bytes → Result (Unit {0}) × Association
  pub receive : Association → Bytes → Result (Option ReceivedDatagram) × Bytes × Association
  pub readiness_source_count : Association → ℕ
  pub register_readiness :
      Association → Registry → List ℕ → Result (Unit {0}) × Association × Registry

abbrev pub max_datagram_routes : ℕ
max_datagram_routes = 32

unfoldable pub endpoint_eq : Endpoint → Endpoint → Bool
endpoint_eq direct direct = true
endpoint_eq (proxy a) (proxy b) = eqb a b
endpoint_eq _ _ = false

pub endpoint_eq_iff : (a b : Endpoint) → (endpoint_eq a b ≡ true) ↔ (a ≡ b)
unfolding endpoint_eq
endpoint_eq_iff direct direct = (λ h. refl, λ e. refl)
endpoint_eq_iff direct (proxy b) = (λ h. cc, λ e. cc)
endpoint_eq_iff (proxy a) direct = (λ h. cc, λ e. cc)
endpoint_eq_iff (proxy a) (proxy b) = (λ h. ap proxy ((eqb_iff a b).0 h), λ e. (eqb_iff a b).1 cc)

-- A route, with its key in the map.
pub record DatagramRoute (Association : Type 0) : Type 0 where
  pub endpoint : Endpoint
  pub execution : Association
  pub tokens : List ℕ

-- The map as a list of its routes; with the poll's registry and the allocator's next token, which
-- the callers pass on from call to call.
pub record DatagramRouteSet (Association Registry : Type 0) : Type 0 where
  pub routes : List (DatagramRoute Association)
  pub registry : Registry
  pub next_token : ℕ

module _ {Association : Type 0} where
  abbrev pub is_route : Endpoint → DatagramRoute Association → Bool
  is_route endpoint route = endpoint_eq route.endpoint endpoint

  abbrev pub has_token : ℕ → DatagramRoute Association → Bool
  has_token token route = any (λ t. t == token) route.tokens

  unfoldable pub owned_tokens : List (DatagramRoute Association) → List ℕ
  owned_tokens [] = []
  owned_tokens (route ∷ routes) = route.tokens ++ owned_tokens routes

  abbrev pub owns_token : List (DatagramRoute Association) → ℕ → Bool
  owns_token routes token = any (has_token token) routes

  -- What a `&mut` to the first such route leaves behind.
  unfoldable pub update :
      (DatagramRoute Association → Bool)
      → Association
      → List (DatagramRoute Association)
      → List (DatagramRoute Association)
  update p execution [] = []
  update p execution (route ∷ routes) =
      let rest = update p execution routes in
      if p route then record route { execution = execution } ∷ routes else route ∷ rest

module _ {Association Registry : Type 0} where
  unfoldable pub new_routes : Registry → ℕ → DatagramRouteSet Association Registry
  new_routes registry first_token = record {
    routes = [];
    registry = registry;
    next_token = first_token;
  }

  module _ (operations : DatagramExecution Association Registry) where
    -- The sending at the end of `send_with`.
    unfoldable pub send_on :
        Endpoint
        → Target
        → Bytes
        → DatagramRouteSet Association Registry
        → Result (Unit {0}) × DatagramRouteSet Association Registry
    send_on endpoint target payload s = elim (find (is_route endpoint) s.routes) [
      | none ↦ (err other, s)
      | some route ↦
          let (result, execution) = operations.send route.execution target payload in
          (result, record s { routes = update (is_route endpoint) execution s.routes })
    ]

    -- From the registration on.
    unfoldable pub register :
        Endpoint
        → Target
        → Bytes
        → Association
        → List ℕ
        → DatagramRouteSet Association Registry
        → Result (Unit {0}) × DatagramRouteSet Association Registry
    register endpoint target payload opened tokens s =
        let (result, execution, registry) =
          operations.register_readiness opened s.registry tokens in
        let registered : DatagramRouteSet Association Registry = record s { registry = registry } in
        let route : DatagramRoute Association = record {
          endpoint = endpoint;
          execution = execution;
          tokens = tokens;
        } in
        elim result [
          | err kind ↦ (err kind, registered)
          | ok _ ↦ send_on endpoint target payload (record registered { routes = route ∷ s.routes })
        ]

    -- From the opening on.
    unfoldable pub add_route :
        Endpoint
        → Target
        → Bytes
        → Result Association
        → DatagramRouteSet Association Registry
        → Result (Unit {0}) × DatagramRouteSet Association Registry
    add_route endpoint target payload (err kind) s = (err kind, s)
    add_route endpoint target payload (ok opened) s =
        let (granted, next_token) =
          allocate s.next_token (operations.readiness_source_count opened) in
        let allocated : DatagramRouteSet Association Registry = record s {
          next_token = next_token;
        } in
        elim granted [
          | err kind ↦ (err kind, allocated)
          | ok tokens ↦ register endpoint target payload opened tokens allocated
        ]

    unfoldable pub send_with :
        Endpoint
        → Target
        → Bytes
        → (Endpoint → Result Association)
        → DatagramRouteSet Association Registry
        → Result (Unit {0}) × DatagramRouteSet Association Registry
    send_with endpoint target payload open_path s =
        if any (is_route endpoint) s.routes
        then send_on endpoint target payload s
        else if leb max_datagram_routes (length s.routes)
        then (err quota_exceeded, s)
        else add_route endpoint target payload (open_path endpoint) s

    unfoldable pub receive_ready :
        ℕ
        → Bytes
        → DatagramRouteSet Association Registry
        → Result (Option ReceivedDatagram) × Bytes × DatagramRouteSet Association Registry
    receive_ready token buffer s = elim (find (has_token token) s.routes) [
      | none ↦ (ok none, buffer, s)
      | some route ↦
          let (result, filled, execution) = operations.receive route.execution buffer in
          (result, filled, record s { routes = update (has_token token) execution s.routes })
    ]
