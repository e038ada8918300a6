-- ===== src/Transparent/Served/Routes.antt =====
-- A set of routes never loses a token, whatever is sent and received; and what a time of activity
-- leaves of the clients.
use commeatus.Prelude.{
  ℕ, suc, ◌≡◌, ◌≢◌, refl, ap, Bool, true, List, [], ◌∷◌, ◌++◌, ◌==◌, leb, length, any, any-append,
  find, All, Bytes, arith, Bool-cases, Option-cases, inl, inr,
}
use commeatus.Io.{Result, Result-cases}
use commeatus.Ip.Socket.{SocketAddr}
use commeatus.Plan.{Endpoint}
use commeatus.Target.{Target}
use commeatus.Tokens.{allocate}
use commeatus.Datagram.{
  DatagramExecution, DatagramRoute, DatagramRouteSet, owned_tokens, update, is_route, has_token,
  send_on, register, add_route, send_with, receive_ready,
}
use commeatus.Datagram.Owned.{owned_tokens-update}
use commeatus.Transparent.{ClientState, is_client}
use commeatus.Transparent.Loop.{touch}
use commeatus.Transparent.Served.{has, IsHeld, IsDistinct}
use commeatus.Transparent.Served.Kept.{Covers}

module _ {Association Registry : Type 0} (operations : DatagramExecution Association Registry) where
  update-Covers :
      (p : DatagramRoute Association → Bool) (execution : Association)
      (routes : List (DatagramRoute Association))
      → Covers routes (update p execution routes)
  update-Covers p execution routes t h = rw (owned_tokens-update p execution routes) h

  send_on-Covers :
      (endpoint : Endpoint) (target : Target) (payload : Bytes)
      (s : DatagramRouteSet Association Registry)
      → Covers s.routes (send_on operations endpoint target payload s).1.routes
  unfolding send_on
  send_on-Covers endpoint target payload s t h =
      elim (Option-cases (find (is_route endpoint) s.routes)) [
        | inl missing ↦ rw (missing, send_on) h
        | inr (route, here) ↦
            rw (here, send_on)
              (update-Covers (is_route endpoint) (operations.send route.execution target payload).1
                s.routes t h)
      ]

  register-Covers :
      (endpoint : Endpoint) (target : Target) (payload : Bytes) (opened : Association)
      (tokens : List ℕ) (s : DatagramRouteSet Association Registry)
      → Covers s.routes (register operations endpoint target payload opened tokens s).1.routes
  unfolding register owned_tokens
  register-Covers endpoint target payload opened tokens s t h =
      let made = operations.register_readiness opened s.registry tokens in
      let route : DatagramRoute Association = record {
        endpoint = endpoint;
        execution = made.1;
        tokens = tokens;
      } in
      elim (Result-cases made.0) [
        | inl (kind, e) ↦ rw (e, register) h
        | inr (_, e) ↦
            let joined : has t (owned_tokens (route ∷ s.routes)) ≡ true =
              more t tokens s.routes h in
            let registered : DatagramRouteSet Association Registry = record s {
              registry = made.2;
              routes = route ∷ s.routes;
            } in
            rw (e, register) (send_on-Covers endpoint target payload registered t joined)
      ]
    where
      more :
          (t : ℕ) (tokens : List ℕ) (routes : List (DatagramRoute Association))
          → has t (owned_tokens routes) ≡ true
          → has t (tokens ++ owned_tokens routes) ≡ true
      more t tokens routes h =
          ground (arith, any-append (λ x. t == x) tokens (owned_tokens routes), h)

  pub send_with-Covers :
      (endpoint : Endpoint) (target : Target) (payload : Bytes)
      (open_path : Endpoint → Result Association) (s : DatagramRouteSet Association Registry)
      → Covers s.routes (send_with operations endpoint target payload open_path s).1.routes
  unfolding send_with add_route
  send_with-Covers endpoint target payload open_path s t h =
      elim (Bool-cases (any (is_route endpoint) s.routes)) [
        | inl known ↦ rw (known, send_with) (send_on-Covers endpoint target payload s t h)
        | inr new ↦ elim (Bool-cases (leb 32 (length s.routes))) [
          | inl full ↦ rw (new, full, send_with) h
          | inr room ↦ elim (Result-cases (open_path endpoint)) [
            | inl (kind, e) ↦ rw (new, room, send_with, e, add_route) h
            | inr (opened, e) ↦
                let made = allocate s.next_token (operations.readiness_source_count opened) in
                elim (Result-cases made.0) [
                  | inl (kind, none_left) ↦ rw (new, room, send_with, e, none_left, add_route) h
                  | inr (tokens, granted) ↦
                      rw (new, room, send_with, e, granted, add_route)
                        (register-Covers endpoint target payload opened tokens
                          (record s { next_token = made.1 }) t h)
                ]
          ]
        ]
      ]

  pub receive_ready-Covers :
      (token : ℕ) (buffer : Bytes) (s : DatagramRouteSet Association Registry)
      → Covers s.routes (receive_ready operations token buffer s).2.routes
  unfolding receive_ready
  receive_ready-Covers token buffer s t h = elim (Option-cases (find (has_token token) s.routes)) [
    | inl missing ↦ rw (missing, receive_ready) h
    | inr (route, here) ↦
        rw (here, receive_ready)
          (update-Covers (has_token token) (operations.receive route.execution buffer).2 s.routes t
            h)
  ]

module _ {Association : Type 0} (client : SocketAddr) (now : ℕ) where
  pub length-touch :
      (states : List (ClientState Association)) → length (touch client now states) ≡ length states
  unfolding touch
  length-touch [] = refl
  length-touch (state ∷ states) = elim (Bool-cases (is_client client state)) [
    | inl here ↦ rw here refl
    | inr other ↦ rw other (ap suc (length-touch states))
  ]

  touch-All :
      (P : SocketAddr → Type 0) (states : List (ClientState Association))
      → All (λ state. P state.client) states
      → All (λ state. P state.client) (touch client now states)
  unfolding touch
  touch-All P [] h = tt
  touch-All P (state ∷ states) (x, h) = elim (Bool-cases (is_client client state)) [
    | inl here ↦ rw here (x, h)
    | inr other ↦ rw other (x, touch-All P states h)
  ]

  pub touch-IsDistinct :
      (states : List (ClientState Association))
      → IsDistinct states
      → IsDistinct (touch client now states)
  unfolding touch
  touch-IsDistinct [] h = tt
  touch-IsDistinct (state ∷ states) (x, h) = elim (Bool-cases (is_client client state)) [
    | inl here ↦ rw here (x, h)
    | inr other ↦ rw other (touch-All (λ c. c ≢ state.client) states x, touch-IsDistinct states h)
  ]

  pub touch-IsHeld :
      (states : List (ClientState Association)) (e : ℕ × SocketAddr)
      → IsHeld states e
      → IsHeld (touch client now states) e
  unfolding touch
  touch-IsHeld [] e held = held
  touch-IsHeld (state ∷ states) e held = elim (Bool-cases (is_client client state)) [
    | inl here ↦ rw here (same held)
    | inr other ↦ rw other (rest held (λ there. touch-IsHeld states e there))
  ]
    where
      same : IsHeld (state ∷ states) e → IsHeld (record state { last_activity = now } ∷ states) e
      same (inl here) = inl here
      same (inr there) = inr there

      rest :
          IsHeld (state ∷ states) e
          → (IsHeld states e → IsHeld (touch client now states) e)
          → IsHeld (state ∷ touch client now states) e
      rest (inl here) f = inl here
      rest (inr there) f = inr (f there)
