-- ===== src/Socks5/Associate/Replies.antt =====
-- What waits for the client of an association.
use commeatus.Prelude.{
  ℕ, ◌≤◌, ◌≡◌, refl, Bool, true, false, ◌||◌, Option, none, some, List, [], ◌∷◌, ◌++◌, leb, ◌==◌,
  Bytes, length, take, All, All-map, All-append, Bool-cases, Option-cases, inl, inr, arith,
  length-append, not_within,
}
use commeatus.Ip.{ip_eq_iff}
use commeatus.Ip.Socket.{SocketAddr}
use commeatus.Io.{ErrorKind, Result, ok, err, Result-cases}
use commeatus.Datagram.{ReceivedDatagram, receive_ready}
use commeatus.Socks5.{encode_udp_response}
use commeatus.Socks5.Handshake.{UdpClientHint}
use commeatus.Socks5.Associate.{
  hinted_client, begin_associated, Context, Associated, is_client_packet, queue_reply,
  send_or_queue_client_reply, flush_pending_client_replies, handle_udp_client_packet, set_client,
  client_datagram, reply_to, outbound_datagram, Step, client_readable, outbound_ready,
  client_writable, Reaches, started, went_on,
}
use commeatus.Socks5.Associate.Client.{handle_udp_client_packet-same}

-- A reply is for the client.
abbrev pub IsFor : Option SocketAddr → Bytes × SocketAddr → Type 0
IsFor client reply = some reply.1 ≡ client

-- Few replies wait, and all for the client.
pub record IsQueue (client : Option SocketAddr) (pending : List (Bytes × SocketAddr)) : Type 0 where
  pub within : length pending ≤ 64
  pub addressed : All (IsFor client) pending

push-IsQueue :
    (pending : List (Bytes × SocketAddr)) (packet : Bytes) (client : SocketAddr)
    → leb 64 (length pending) ≡ false
    → IsQueue (some client) pending
    → IsQueue (some client) (pending ++ ((packet, client) ∷ []))
push-IsQueue pending packet client room h = record {
  within =
      omega
        (arith, length-append pending ((packet, client) ∷ []), not_within 64 (length pending) room);
  addressed =
      All-append (IsFor (some client)) pending ((packet, client) ∷ []) h.addressed (refl, tt);
}

queue_reply-IsQueue :
    (pending : List (Bytes × SocketAddr)) (packet : Bytes) (client : SocketAddr)
    → IsQueue (some client) pending
    → IsQueue (some client) (queue_reply pending packet client).1
unfolding queue_reply
queue_reply-IsQueue pending packet client h = elim (Bool-cases (leb 64 (length pending))) [
  | inl full ↦ rw full h
  | inr room ↦ rw room (push-IsQueue pending packet client room h)
]

send_or_queue_client_reply-IsQueue :
    (sent : Result ℕ) (pending : List (Bytes × SocketAddr)) (packet : Bytes) (client : SocketAddr)
    → IsQueue (some client) pending
    → IsQueue (some client) (send_or_queue_client_reply sent pending packet client).1
unfolding send_or_queue_client_reply
send_or_queue_client_reply-IsQueue (ok sent) pending packet client h = h
send_or_queue_client_reply-IsQueue (err ErrorKind.would_block) pending packet client h =
    queue_reply-IsQueue pending packet client h
send_or_queue_client_reply-IsQueue (err ErrorKind.interrupted) pending packet client h =
    queue_reply-IsQueue pending packet client h
send_or_queue_client_reply-IsQueue (err kind) pending packet client h = h

behind :
    (client : Option SocketAddr) (reply : Bytes × SocketAddr) (pending : List (Bytes × SocketAddr))
    → IsQueue client (reply ∷ pending)
    → IsQueue client pending
behind client reply pending h = record {
  within = omega (arith, h.within);
  addressed = h.addressed.1;
}

flush_pending_client_replies-IsQueue :
    (client : Option SocketAddr) (results : List (Result ℕ)) (sent_any : Bool)
    (pending : List (Bytes × SocketAddr)) (any_sent : Bool) (left : List (Bytes × SocketAddr))
    → flush_pending_client_replies results sent_any pending ≡ some (any_sent, left)
    → IsQueue client pending
    → IsQueue client left
unfolding flush_pending_client_replies
flush_pending_client_replies-IsQueue client results sent_any [] any_sent left e h =
    let same : [] ≡ left = cc in rw (← same) h
flush_pending_client_replies-IsQueue client [] sent_any (reply ∷ pending) any_sent left e h = cc
flush_pending_client_replies-IsQueue client (ok sent ∷ results) sent_any (reply ∷ pending) any_sent
      left e h =
    flush_pending_client_replies-IsQueue client results (sent == length reply.0 || sent_any) pending
      any_sent left e (behind client reply pending h)
flush_pending_client_replies-IsQueue client (err ErrorKind.would_block ∷ results) sent_any
      (reply ∷ pending) any_sent left e h =
    let same : reply ∷ pending ≡ left = cc in rw (← same) h
flush_pending_client_replies-IsQueue client (err ErrorKind.interrupted ∷ results) sent_any
      (reply ∷ pending) any_sent left e h =
    flush_pending_client_replies-IsQueue client results sent_any (reply ∷ pending) any_sent left e h
flush_pending_client_replies-IsQueue client (err kind ∷ results) sent_any (reply ∷ pending) any_sent
      left e h =
    flush_pending_client_replies-IsQueue client results sent_any pending any_sent left e
      (behind client reply pending h)

module _ {Association Registry : Type 0} (context : Context Association Registry) where
  -- The client is at the address of the control stream's peer.
  abbrev pub IsOwn : Option SocketAddr → Type 0
  IsOwn none = Unit
  IsOwn (some client) = client.ip ≡ context.control_ip

  pub record IsServed (s : Associated Association Registry) : Type 0 where
    pub own : IsOwn s.client_address
    pub queue : IsQueue s.client_address s.pending_replies

  -- The client that an accepted datagram leaves.
  set_client-IsServed :
      (client : Option SocketAddr) (source : SocketAddr) (pending : List (Bytes × SocketAddr))
      → is_client_packet source context.control_ip client ≡ true
      → IsOwn client
      → IsQueue client pending
      → IsOwn (set_client context client source)
        × IsQueue (set_client context client source) pending
  unfolding is_client_packet
  set_client-IsServed none source pending e own queue = (
    (ip_eq_iff source.ip context.control_ip).0 e,
    record { within = queue.within; addressed = All-map pending (λ reply h. cc) queue.addressed },
  )
  set_client-IsServed (some client) source pending e own queue = (own, queue)

  client_datagram-IsServed :
      (source : SocketAddr) (packet : Bytes) (s : Associated Association Registry)
      → IsServed s
      → IsServed (client_datagram context source packet s)
  unfolding client_datagram
  client_datagram-IsServed source packet s h =
      let (accepted, after) = handle_udp_client_packet context packet s in
      let (same_client, same_pending) = handle_udp_client_packet-same context packet s in
      elim (Bool-cases (is_client_packet source context.control_ip s.client_address)) [
        | inr stranger ↦ rw stranger h
        | inl client ↦ elim (Bool-cases accepted) [
          | inr dropped ↦
              rw (client, dropped, client_datagram)
                (record {
                  own = rw same_client h.own;
                  queue = rw (same_client, same_pending) h.queue;
                })
          | inl taken ↦
              let (own, queue) =
                set_client-IsServed s.client_address source s.pending_replies client h.own
                  h.queue in
              rw (client, taken, client_datagram)
                (record { own = rw same_client own; queue = rw (same_client, same_pending) queue })
        ]
      ]

  reply_to-IsServed :
      (client : Option SocketAddr) (received : ReceivedDatagram) (filled : Bytes) (sent : Result ℕ)
      (s after : Associated Association Registry)
      → client ≡ s.client_address
      → reply_to context client received filled sent s ≡ ok after
      → IsServed s
      → IsServed after
  unfolding reply_to
  reply_to-IsServed none received filled sent s after c e h =
      let same : s ≡ after = cc in rw (← same) h
  reply_to-IsServed (some client) received filled sent s after c e h =
      elim (Result-cases (encode_udp_response received.source (take received.length filled))) [
        | inl (kind, bad) ↦ absurd (cc (rw (bad, reply_to) at e))
        | inr (packet, good) ↦
            let replied : Associated Association Registry = record s {
              pending_replies = (send_or_queue_client_reply sent s.pending_replies packet client).1;
            } in
            let same : ok replied ≡ ok after = rw (good, reply_to) at e in
            let made : replied ≡ after = cc in
            let queue =
              send_or_queue_client_reply-IsQueue sent s.pending_replies packet client
                (rw c h.queue) in
            rw (← made) (record { own = h.own; queue = rw (← c) queue })
      ]

  outbound_datagram-IsServed :
      (token : ℕ) (buffer : Bytes) (sent : Result ℕ) (s after : Associated Association Registry)
      → outbound_datagram context token buffer sent s ≡ ok after
      → IsServed s
      → IsServed after
  unfolding outbound_datagram
  outbound_datagram-IsServed token buffer sent s after e h =
      let (result, filled, routes) = receive_ready context.operations token buffer s.routes in
      let moved : Associated Association Registry = record s { routes = routes } in
      let kept : IsServed moved = record { own = h.own; queue = h.queue } in
      elim (Result-cases result) [
        | inl (kind, bad) ↦ absurd (cc (rw (bad, outbound_datagram) at e))
        | inr (none, nothing) ↦
            let same : ok moved ≡ ok after = rw (nothing, outbound_datagram) at e in
            let made : moved ≡ after = cc in rw (← made) kept
        | inr (some received, something) ↦
            reply_to-IsServed s.client_address received filled sent moved after refl
              (rw (something, outbound_datagram) at e) kept
      ]

  Step-IsServed :
      {s after : Associated Association Registry}
      → Step context s after
      → IsServed s
      → IsServed after
  Step-IsServed (client_readable source packet s) h = client_datagram-IsServed source packet s h
  Step-IsServed (outbound_ready token buffer sent s after e) h =
      outbound_datagram-IsServed token buffer sent s after e h
  Step-IsServed (client_writable results s sent_any left e) h = record {
    own = h.own;
    queue =
        flush_pending_client_replies-IsQueue s.client_address results false s.pending_replies
          sent_any left e h.queue;
  }

  hinted-IsOwn : (hint : UdpClientHint) → IsOwn (hinted_client hint context.control_ip)
  unfolding hinted_client
  hinted-IsOwn hint = elim (Option-cases hint.port) [
    | inl unknown ↦ rw (unknown, hinted_client) tt
    | inr (port, given) ↦ rw (given, hinted_client) refl
  ]

  -- From the start of an association, whatever the request hinted at and whatever comes from
  -- whomever at the relay socket and on the paths: the client, where there is one, has the address of
  -- the control stream's peer, at most 64 replies wait, and every reply that waits is for the client.
  pub Reaches-IsServed :
      (hint : UdpClientHint) (registry : Registry) (next_flow_id : ℕ)
      {s : Associated Association Registry}
      → Reaches context (begin_associated hint context.control_ip registry next_flow_id) s
      → IsServed s
  unfolding begin_associated
  Reaches-IsServed hint registry next_flow_id (started) = record {
    own = hinted-IsOwn hint;
    queue = record { within = omega arith; addressed = tt };
  }
  Reaches-IsServed hint registry next_flow_id (went_on before s path step) =
      Step-IsServed step (Reaches-IsServed hint registry next_flow_id path)
