-- ===== src/Datagram/Direct/Trusted.antt =====
-- Whose datagrams a direct association gives.
use commeatus.Prelude.{
  ◌↔◌, ℕ, zero, suc, ◌<◌, ◌≡◌, refl, ap, ◌∙◌, true, Option, none, some, List, [], ◌∷◌, Bytes, Any,
  any_iff, Bool-cases, inl, inr, arith,
}
use commeatus.Ip.Socket.{SocketAddr, socket_eq, socket_eq_iff}
use commeatus.Flow.{ip}
use commeatus.Io.{ErrorKind, Result, ok, err, Result-cases}
use commeatus.Target.{new_target, new_target-eq-ok}
use commeatus.Text.Hostname.{is_empty}
use commeatus.Datagram.{ReceivedDatagram}
use commeatus.Datagram.Direct.{
  UdpSockets, DirectDatagramAssociation, is_peer, receive_rounds, receive_round, received_from,
  receive_ipv6, receive,
}

-- A datagram that is given comes from a peer, and its port is not zero.
abbrev pub IsTrusted : List SocketAddr → Result (Option ReceivedDatagram) → Type 0
IsTrusted peers (err _) = Unit
IsTrusted peers (ok none) = Unit
IsTrusted peers (ok (some given)) =
    Any (λ peer. (0 < peer.port) × (given.source ≡ record { host = ip peer.ip; port = peer.port }))
      peers

pub Any-map :
    {A : Type 0} {P Q : A → Type 0} (xs : List A) → ((x : A) → P x → Q x) → Any P xs → Any Q xs
Any-map [] f h = h
Any-map (x ∷ xs) f (inl h) = inl (f x h)
Any-map (x ∷ xs) f (inr h) = inr (Any-map xs f h)

pub is_peer_iff :
    (peers : List SocketAddr) (source : SocketAddr)
    → (is_peer peers source ≡ true) ↔ Any (λ peer. source ≡ peer) peers
is_peer_iff peers source =
    any_iff (socket_eq source) (λ peer. source ≡ peer) peers (socket_eq_iff source)

received_from-IsTrusted :
    (peers : List SocketAddr) (count : ℕ) (source : SocketAddr)
    → is_peer peers source ≡ true
    → IsTrusted peers (received_from count (new_target (ip source.ip) source.port))
unfolding received_from
received_from-IsTrusted peers count source h =
    elim (Result-cases (new_target (ip source.ip) source.port)) [
      | inl (kind, e) ↦ rw (e, received_from) tt
      | inr (target, e) ↦
          let (pos, same) = new_target-eq-ok (ip source.ip) source.port target e in
          rw (e, received_from)
            (Any-map peers
              (λ peer s. (
                omega (arith, pos, ap SocketAddr.port s),
                same ∙ ap (λ (a : SocketAddr). record { host = ip a.ip; port = a.port }) s,
              ))
              ((is_peer_iff peers source).0 h))
    ]

receive_round-IsTrusted :
    {UdpSocket : Type 0} (peers : List SocketAddr) (result : Result (ℕ × SocketAddr))
    (filled : Bytes) (socket : UdpSocket)
    (rest : Result (Option ReceivedDatagram) × Bytes × UdpSocket)
    → IsTrusted peers rest.0
    → IsTrusted peers (receive_round peers result filled socket rest).0
unfolding receive_round
receive_round-IsTrusted peers (ok (count, source)) filled socket rest h =
    elim (Bool-cases (is_peer peers source)) [
      | inl known ↦ rw known (received_from-IsTrusted peers count source known)
      | inr unknown ↦ rw unknown h
    ]
receive_round-IsTrusted peers (err ErrorKind.would_block) filled socket rest h = tt
receive_round-IsTrusted peers (err ErrorKind.interrupted) filled socket rest h = h
receive_round-IsTrusted peers (err kind) filled socket rest h = tt

module _ {UdpSocket Registry : Type 0} (sockets : UdpSockets UdpSocket Registry) where
  receive_rounds-IsTrusted :
      (rounds : ℕ) (socket : UdpSocket) (peers : List SocketAddr) (buffer : Bytes)
      → IsTrusted peers (receive_rounds sockets rounds socket peers buffer).0
  unfolding receive_rounds
  receive_rounds-IsTrusted zero socket peers buffer = tt
  receive_rounds-IsTrusted (suc rounds) socket peers buffer =
      let (result, filled, after) = sockets.recv_from socket buffer in
      receive_round-IsTrusted peers result filled after
        (receive_rounds sockets rounds after peers filled)
        (receive_rounds-IsTrusted rounds after peers filled)

  receive_ipv6-IsTrusted :
      (ipv6 : Option UdpSocket) (buffer : Bytes) (d : DirectDatagramAssociation UdpSocket)
      → IsTrusted d.remote_peers (receive_ipv6 sockets ipv6 buffer d).0
        × ((receive_ipv6 sockets ipv6 buffer d).2.remote_peers ≡ d.remote_peers)
  unfolding receive_ipv6
  receive_ipv6-IsTrusted none buffer d = (tt, refl)
  receive_ipv6-IsTrusted (some ipv6) buffer d =
      (receive_rounds-IsTrusted 32 ipv6 d.remote_peers buffer, refl)

  -- A datagram that a receive gives comes from the address and the port of a peer, whatever else
  -- the sockets receive, and the port is not zero; and a receive never changes the peers.
  pub receive-IsTrusted :
      (buffer : Bytes) (d : DirectDatagramAssociation UdpSocket)
      → IsTrusted d.remote_peers (receive sockets buffer d).0
        × ((receive sockets buffer d).2.remote_peers ≡ d.remote_peers)
  unfolding receive
  receive-IsTrusted buffer d =
      let (result, filled, socket) = receive_rounds sockets 32 d.ipv4 d.remote_peers buffer in
      let trusted = receive_rounds-IsTrusted 32 d.ipv4 d.remote_peers buffer in
      elim (Bool-cases (is_empty buffer)) [
        | inl nothing ↦ rw (nothing, receive) (tt, refl)
        | inr room ↦ elim (Result-cases result) [
          | inl (kind, e) ↦ rw (room, e, receive) (tt, refl)
          | inr (none, e) ↦
              rw (room, e, receive)
                (receive_ipv6-IsTrusted d.ipv6 filled (record d { ipv4 = socket }))
          | inr (some given, e) ↦ rw (room, e, receive) (rw e at trusted, refl)
        ]
      ]
