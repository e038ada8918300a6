-- ===== src/Datagram/Steps.antt =====
-- Whatever is sent and received, a token has one owner.
use commeatus.Prelude.{
  ℕ, zero, suc, ◌+◌, ◌≤◌, ◌<◌, ◌≡◌, false, List, [], ◌∷◌, leb, Bytes, length, any, find, All,
  All-map, NoDup, Option-cases, arith, Bool-cases, inl, inr, not_within, ◌^◌, ◌-◌,
}
use commeatus.Plan.{Endpoint}
use commeatus.Io.{Result, ok, err, Result-cases}
use commeatus.Target.{Target}
use commeatus.Tokens.{allocate, allocate-range, range_from}
use commeatus.Datagram.Owned.{IsOwned, update-IsOwned, advance-IsOwned, refused, joined}
use commeatus.Datagram.{
  DatagramExecution, DatagramRoute, DatagramRouteSet, is_route, has_token, owned_tokens, send_on,
  send_with, receive_ready, register, add_route, new_routes,
}

range_from-within :
    (start count : ℕ) → All (λ t. (start ≤ t) × (t < start + count)) (range_from start count)
unfolding range_from
range_from-within start zero = tt
range_from-within start (suc count) = (
  (omega arith, omega arith),
  All-map (range_from (start + 1) count) (λ t h. (omega arith, omega arith))
      (range_from-within (start + 1) count),
)

range_from-NoDup : (start count : ℕ) → NoDup (range_from start count)
unfolding range_from
range_from-NoDup start zero = tt
range_from-NoDup start (suc count) = (
  All-map (range_from (start + 1) count) (λ t h. omega arith) (range_from-within (start + 1) count),
  range_from-NoDup (start + 1) count,
)

module _ {Association Registry : Type 0} where
  module _ (operations : DatagramExecution Association Registry) where
    send_on-IsOwned :
        (first : ℕ) (endpoint : Endpoint) (target : Target) (payload : Bytes)
        (s : DatagramRouteSet Association Registry)
        → IsOwned first s
        → IsOwned first (send_on operations endpoint target payload s).1
    unfolding send_on
    send_on-IsOwned first endpoint target payload s h =
        elim (Option-cases (find (is_route endpoint) s.routes)) [
          | inl none_here ↦ rw (none_here, send_on) h
          | inr (route, here) ↦
              rw (here, send_on)
                (update-IsOwned first s (is_route endpoint)
                  (operations.send route.execution target payload).1 h)
        ]

    receive_ready-IsOwned :
        (first token : ℕ) (buffer : Bytes) (s : DatagramRouteSet Association Registry)
        → IsOwned first s
        → IsOwned first (receive_ready operations token buffer s).2
    unfolding receive_ready
    receive_ready-IsOwned first token buffer s h =
        elim (Option-cases (find (has_token token) s.routes)) [
          | inl none_here ↦ rw (none_here, receive_ready) h
          | inr (route, here) ↦
              rw (here, receive_ready)
                (update-IsOwned first s (has_token token)
                  (operations.receive route.execution buffer).2 h)
        ]

    register-IsOwned :
        (first n : ℕ) (endpoint : Endpoint) (target : Target) (payload : Bytes)
        (opened : Association) (tokens : List ℕ) (s : DatagramRouteSet Association Registry)
        → length s.routes < 32
        → any (is_route endpoint) s.routes ≡ false
        → IsOwned first s
        → first ≤ n
        → All (λ t. (n ≤ t) × (t < s.next_token)) tokens
        → NoDup tokens
        → All (λ t. t < n) (owned_tokens s.routes)
        → IsOwned first (register operations endpoint target payload opened tokens s).1
    unfolding register
    register-IsOwned first n endpoint target payload opened tokens s room new h low given distinct
          old =
        let (result, execution, registry) =
          operations.register_readiness opened s.registry tokens in
        let registered : DatagramRouteSet Association Registry = record s { registry = registry } in
        let route : DatagramRoute Association = record {
          endpoint = endpoint;
          execution = execution;
          tokens = tokens;
        } in
        elim (Result-cases result) [
          | inl (kind, e) ↦ rw (e, register) (refused first s registry h)
          | inr (_, e) ↦
              rw (e, register)
                (send_on-IsOwned first endpoint target payload
                  (record registered { routes = route ∷ s.routes })
                  (joined first n s route registry room new h low given distinct old))
        ]

    add_route-IsOwned :
        (first : ℕ) (endpoint : Endpoint) (target : Target) (payload : Bytes)
        (opened : Result Association) (s : DatagramRouteSet Association Registry)
        → length s.routes < 32
        → any (is_route endpoint) s.routes ≡ false
        → IsOwned first s
        → IsOwned first (add_route operations endpoint target payload opened s).1
    unfolding add_route
    add_route-IsOwned first endpoint target payload (err kind) s room new h = h
    add_route-IsOwned first endpoint target payload (ok opened) s room new h =
        let count = operations.readiness_source_count opened in
        let next = (allocate s.next_token count).1 in
        let (up, fits, tokens) = allocate-range s.next_token count h.fits in
        let advanced = advance-IsOwned first s next up fits h in
        elim (Result-cases (allocate s.next_token count).0) [
          | inl (kind, none_left) ↦ rw (none_left, add_route) advanced
          | inr (given, e) ↦
              let same : given ≡ range_from s.next_token (next - s.next_token) = rw e at tokens in
              let size : s.next_token + (next - s.next_token) ≡ next = omega arith in
              rw (e, add_route)
                (register-IsOwned first s.next_token endpoint target payload opened given
                  (record s { next_token = next }) room new advanced h.started
                  (rw same (
                    All-map (range_from s.next_token (next - s.next_token))
                      (λ t k. (k.0, omega (arith, k.1)))
                      (range_from-within s.next_token (next - s.next_token))))
                  (rw same (range_from-NoDup s.next_token (next - s.next_token)))
                  (All-map (owned_tokens s.routes) (λ t k. k.1) h.ours))
        ]

    send_with-IsOwned :
        (first : ℕ) (endpoint : Endpoint) (target : Target) (payload : Bytes)
        (open_path : Endpoint → Result Association) (s : DatagramRouteSet Association Registry)
        → IsOwned first s
        → IsOwned first (send_with operations endpoint target payload open_path s).1
    unfolding send_with
    send_with-IsOwned first endpoint target payload open_path s h =
        elim (Bool-cases (any (is_route endpoint) s.routes)) [
          | inl known ↦ rw (known, send_with) (send_on-IsOwned first endpoint target payload s h)
          | inr new ↦ elim (Bool-cases (leb 32 (length s.routes))) [
            | inl full ↦ rw (new, full, send_with) h
            | inr room ↦
                rw (new, room, send_with)
                  (add_route-IsOwned first endpoint target payload (open_path endpoint) s
                    (not_within 32 (length s.routes) room) new h)
          ]
        ]

    -- A call of the set, with what it is given.
    pub data RouteStep : Type 0 where
      sent : Endpoint → Target → Bytes → (Endpoint → Result Association) → RouteStep
      received : ℕ → Bytes → RouteStep

    abbrev pub take_step :
        RouteStep → DatagramRouteSet Association Registry → DatagramRouteSet Association Registry
    take_step (sent endpoint target payload open_path) s =
        (send_with operations endpoint target payload open_path s).1
    take_step (received token buffer) s = (receive_ready operations token buffer s).2

    abbrev pub run :
        List RouteStep
        → DatagramRouteSet Association Registry
        → DatagramRouteSet Association Registry
    run [] s = s
    run (step ∷ steps) s = run steps (take_step step s)

    keeps :
        (first : ℕ) (steps : List RouteStep) (s : DatagramRouteSet Association Registry)
        → IsOwned first s
        → IsOwned first (run steps s)
    keeps first [] s h = h
    keeps first (sent endpoint target payload open_path ∷ steps) s h =
        keeps first steps (send_with operations endpoint target payload open_path s).1
          (send_with-IsOwned first endpoint target payload open_path s h)
    keeps first (received token buffer ∷ steps) s h =
        keeps first steps (receive_ready operations token buffer s).2
          (receive_ready-IsOwned first token buffer s h)

    -- From an empty set, whatever datagrams are sent and received, to whatever endpoints, and
    -- whatever the associations, their opening and their registration do: the set has at most 32
    -- routes and one for an endpoint, no token stands in two routes or twice in one, and the tokens
    -- lie between the first one and the allocator's next one, which fits in 64 bits. The first token
    -- fits in 64 bits.
    pub run-IsOwned :
        (registry : Registry) (first : ℕ) (steps : List RouteStep)
        → first < 2 ^ 64
        → IsOwned first (run steps (new_routes registry first))
    unfolding new_routes owned_tokens
    run-IsOwned registry first steps h = keeps first steps (new_routes registry first) (record {
      within = omega arith;
      one_each = tt;
      one_owner = tt;
      ours = tt;
      started = omega arith;
      fits = h;
    })
