-- ===== src/Socks5/Associate/Client.antt =====
-- Who the client of an association is.
use commeatus.Prelude.{ℕ, ◌≡◌, refl, ap, ◌∙◌, Option, none, some, Bytes, take, Bool-cases, inl, inr}
use commeatus.Ip.Socket.{SocketAddr}
use commeatus.Io.{Result, ok, Result-cases}
use commeatus.Plan.{ExecutionAction}
use commeatus.Target.{Target}
use commeatus.Flow.{udp}
use commeatus.Proxy.{plan_action}
use commeatus.Datagram.{ReceivedDatagram, receive_ready}
use commeatus.Outbound.{supports_udp}
use commeatus.Socks5.{parse_udp_request, encode_udp_response}
use commeatus.Socks5.Associate.{
  Context, Associated, is_client_packet, send_or_queue_client_reply, forward,
  handle_udp_client_packet, set_client, client_datagram, reply_to, outbound_datagram, Step,
  client_readable, outbound_ready, client_writable, Reaches, started, went_on,
}

module _ {Association Registry : Type 0} (context : Context Association Registry) where
  -- A packet leaves the client and the replies as they are.
  forward-same :
      (target : Target) (payload : Bytes) (action : ExecutionAction)
      (s : Associated Association Registry)
      → ((forward context target payload action s).1.client_address ≡ s.client_address)
        × ((forward context target payload action s).1.pending_replies ≡ s.pending_replies)
  unfolding forward
  forward-same target payload (ExecutionAction.reject _) s = (refl, refl)
  forward-same target payload (ExecutionAction.route endpoint) s =
      elim (Bool-cases (supports_udp (context.capabilities endpoint))) [
        | inl able ↦ rw able (refl, refl)
        | inr unable ↦ rw unable (refl, refl)
      ]

  pub handle_udp_client_packet-same :
      (packet : Bytes) (s : Associated Association Registry)
      → ((handle_udp_client_packet context packet s).1.client_address ≡ s.client_address)
        × ((handle_udp_client_packet context packet s).1.pending_replies ≡ s.pending_replies)
  unfolding handle_udp_client_packet
  handle_udp_client_packet-same packet s = elim (Result-cases (parse_udp_request packet)) [
    | inl (kind, e) ↦ rw (e, handle_udp_client_packet) (refl, refl)
    | inr ((target, payload), e) ↦
        let (action, next) = plan_action context.runtime s.next_flow_id target udp in
        rw (e, handle_udp_client_packet)
          (forward-same target payload action (record s { next_flow_id = next }))
  ]

  client_datagram-same :
      (source client : SocketAddr) (packet : Bytes) (s : Associated Association Registry)
      → s.client_address ≡ some client
      → (client_datagram context source packet s).client_address ≡ some client
  unfolding client_datagram
  client_datagram-same source client packet s e =
      let (accepted, after) = handle_udp_client_packet context packet s in
      let same : after.client_address ≡ some client =
        (handle_udp_client_packet-same packet s).0 ∙ e in
      elim (Bool-cases (is_client_packet source context.control_ip s.client_address)) [
        | inr stranger ↦ rw stranger e
        | inl known ↦ elim (Bool-cases accepted) [
          | inr dropped ↦ rw (known, dropped, client_datagram) same
          | inl taken ↦
              rw (known, taken, client_datagram)
                (ap (λ before. set_client context before source) same)
        ]
      ]

  reply_to-same :
      (client : Option SocketAddr) (received : ReceivedDatagram) (filled : Bytes) (sent : Result ℕ)
      (s after : Associated Association Registry)
      → reply_to context client received filled sent s ≡ ok after
      → after.client_address ≡ s.client_address
  unfolding reply_to
  reply_to-same none received filled sent s after e = let same : s ≡ after = cc in rw (← same) refl
  reply_to-same (some client) received filled sent s after e =
      elim (Result-cases (encode_udp_response received.source (take received.length filled))) [
        | inl (kind, bad) ↦ absurd (cc (rw (bad, reply_to) at e))
        | inr (packet, good) ↦
            let replied : Associated Association Registry = record s {
              pending_replies = (send_or_queue_client_reply sent s.pending_replies packet client).1;
            } in
            let same : ok replied ≡ ok after = rw (good, reply_to) at e in
            let made : replied ≡ after = cc in rw (← made) refl
      ]

  outbound_datagram-same :
      (token : ℕ) (buffer : Bytes) (sent : Result ℕ) (s after : Associated Association Registry)
      → outbound_datagram context token buffer sent s ≡ ok after
      → after.client_address ≡ s.client_address
  unfolding outbound_datagram
  outbound_datagram-same token buffer sent s after e =
      let (result, filled, routes) = receive_ready context.operations token buffer s.routes in
      let moved : Associated Association Registry = record s { routes = routes } in
      elim (Result-cases result) [
        | inl (kind, bad) ↦ absurd (cc (rw (bad, outbound_datagram) at e))
        | inr (none, nothing) ↦
            let same : ok moved ≡ ok after = rw (nothing, outbound_datagram) at e in
            let made : moved ≡ after = cc in rw (← made) refl
        | inr (some received, something) ↦
            reply_to-same s.client_address received filled sent moved after
              (rw (something, outbound_datagram) at e)
      ]

  Step-same :
      (client : SocketAddr) {s after : Associated Association Registry}
      → Step context s after
      → s.client_address ≡ some client
      → after.client_address ≡ some client
  Step-same client (client_readable source packet s) e =
      client_datagram-same source client packet s e
  Step-same client (outbound_ready token buffer sent s after made) e =
      outbound_datagram-same token buffer sent s after made ∙ e
  Step-same client (client_writable results s sent_any left made) e = e

  -- An association has one client: from a state with a client, whatever comes from whomever at the
  -- relay socket and on the paths, the client stays the same.
  pub Reaches-client_address :
      (client : SocketAddr) (start : Associated Association Registry)
      {s : Associated Association Registry}
      → start.client_address ≡ some client
      → Reaches context start s
      → s.client_address ≡ some client
  Reaches-client_address client start e (started) = e
  Reaches-client_address client start e (went_on before s path step) =
      Step-same client step (Reaches-client_address client start e path)
