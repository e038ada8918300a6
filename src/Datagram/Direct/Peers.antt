-- ===== src/Datagram/Direct/Peers.antt =====
-- Whom a direct association has sent to.
use commeatus.Prelude.{
  ◌⊎◌, ℕ, ◌<◌, ◌≡◌, refl, ◌∙◌, true, false, not, ◌&&◌, Option, none, some, List, [], ◌∷◌, leb, ◌==◌,
  Bytes, length, Any, Bool-cases, inl, inr, not_within,
}
use commeatus.Ip.{IpAddr}
use commeatus.Ip.Socket.{SocketAddr}
use commeatus.Io.{ErrorKind, Result, ok, err, Result-cases}
use commeatus.Datagram.Direct.{
  UdpSockets, DirectDatagramAssociation, is_peer, insert_peer, record_sent, send_from, send_ipv6,
  send_to_resolved, send_to_first, send,
}

-- What a send leaves of the peers: one more if it succeeds, and otherwise the same.
abbrev pub PeersAfter : SocketAddr → List SocketAddr → Result (Unit {0}) → List SocketAddr → Type 0
PeersAfter address peers (ok _) after = after ≡ insert_peer peers address
PeersAfter address peers (err _) after = after ≡ peers

-- An address may be added to the peers.
abbrev pub HasRoom : List SocketAddr → SocketAddr → Type 0
HasRoom peers address = (is_peer peers address ≡ true) ⊎ (length peers < 256)

room_cases :
    (peers : List SocketAddr) (address : SocketAddr)
    → (not (is_peer peers address) && leb 256 (length peers)) ≡ false
    → HasRoom peers address
room_cases peers address e = elim (Bool-cases (is_peer peers address)) [
  | inl old ↦ inl old
  | inr new ↦ inr (not_within 256 (length peers) (rw new at e))
]

-- What a send to the first address that works leaves of the peers.
abbrev pub SentTo : List SocketAddr → List SocketAddr → Result (Unit {0}) → List SocketAddr → Type 0
SentTo addresses peers (ok _) after =
    Any (λ address. HasRoom peers address × (after ≡ insert_peer peers address)) addresses
SentTo addresses peers (err _) after = after ≡ peers

SentTo-later :
    (address : SocketAddr) (addresses peers between : List SocketAddr) (result : Result (Unit {0}))
    (after : List SocketAddr)
    → between ≡ peers
    → SentTo addresses between result after
    → SentTo (address ∷ addresses) peers result after
SentTo-later address addresses peers between (ok _) after e h = inr (rw e at h)
SentTo-later address addresses peers between (err _) after e h = h ∙ e

SentTo-one :
    (address : SocketAddr) (peers : List SocketAddr) (result : Result (Unit {0}))
    (after : List SocketAddr)
    → HasRoom peers address
    → PeersAfter address peers result after
    → SentTo (address ∷ []) peers result after
SentTo-one address peers (ok _) after room h = inl (room, h)
SentTo-one address peers (err _) after room h = h

SentTo-first :
    (address : SocketAddr) (addresses peers after : List SocketAddr)
    → SentTo (address ∷ []) peers (ok tt) after
    → SentTo (address ∷ addresses) peers (ok tt) after
SentTo-first address addresses peers after (inl h) = inl h
SentTo-first address addresses peers after (inr h) = elim h [ ]

module _ {UdpSocket Registry : Type 0} (sockets : UdpSockets UdpSocket Registry) where
  record_sent-PeersAfter :
      (address : SocketAddr) (payload : Bytes) (sent : Result ℕ)
      (d : DirectDatagramAssociation UdpSocket)
      → PeersAfter address d.remote_peers
          (record_sent sockets address payload sent d).0
          (record_sent sockets address payload sent d).1.remote_peers
  unfolding record_sent
  record_sent-PeersAfter address payload (err kind) d = refl
  record_sent-PeersAfter address payload (ok sent) d = elim (Bool-cases (sent == length payload)) [
    | inl whole ↦ rw whole refl
    | inr partial ↦ rw partial refl
  ]

  send_ipv6-PeersAfter :
      (socket : Option UdpSocket) (address : SocketAddr) (payload : Bytes)
      (d : DirectDatagramAssociation UdpSocket)
      → PeersAfter address d.remote_peers
          (send_ipv6 sockets socket address payload d).0
          (send_ipv6 sockets socket address payload d).1.remote_peers
  unfolding send_ipv6
  send_ipv6-PeersAfter none address payload d = refl
  send_ipv6-PeersAfter (some ipv6) address payload d =
      let (sent, socket) = sockets.send_to ipv6 payload address in
      record_sent-PeersAfter address payload sent (record d { ipv6 = some socket })

  send_from-PeersAfter :
      (family : IpAddr) (address : SocketAddr) (payload : Bytes)
      (d : DirectDatagramAssociation UdpSocket)
      → PeersAfter address d.remote_peers
          (send_from sockets family address payload d).0
          (send_from sockets family address payload d).1.remote_peers
  unfolding send_from
  send_from-PeersAfter (IpAddr.v4 _) address payload d =
      let (sent, socket) = sockets.send_to d.ipv4 payload address in
      record_sent-PeersAfter address payload sent (record d { ipv4 = socket })
  send_from-PeersAfter (IpAddr.v6 _) address payload d =
      send_ipv6-PeersAfter d.ipv6 address payload d

  send_to_resolved-SentTo :
      (address : SocketAddr) (payload : Bytes) (d : DirectDatagramAssociation UdpSocket)
      → SentTo
          (address ∷ [])
          d.remote_peers
          (send_to_resolved sockets address payload d).0
          (send_to_resolved sockets address payload d).1.remote_peers
  unfolding send_to_resolved
  send_to_resolved-SentTo address payload d =
      elim (Bool-cases (not (is_peer d.remote_peers address) && leb 256 (length d.remote_peers))) [
        | inl full ↦ rw full refl
        | inr room ↦
            let (result, after) = send_from sockets address.ip address payload d in
            rw room (
              SentTo-one address d.remote_peers result after.remote_peers
                (room_cases d.remote_peers address room)
                (send_from-PeersAfter address.ip address payload d))
      ]

  send_to_first-SentTo :
      (addresses : List SocketAddr) (payload : Bytes) (last : ErrorKind)
      (d : DirectDatagramAssociation UdpSocket)
      → SentTo addresses d.remote_peers
          (send_to_first sockets addresses payload last d).0
          (send_to_first sockets addresses payload last d).1.remote_peers
  unfolding send_to_first
  send_to_first-SentTo [] payload last d = refl
  send_to_first-SentTo (address ∷ addresses) payload last d =
      let (result, after) = send_to_resolved sockets address payload d in
      let now = send_to_resolved-SentTo address payload d in
      elim (Result-cases result) [
        | inl (kind, e) ↦
            let same : after.remote_peers ≡ d.remote_peers = rw e at now in
            rw (e, send_to_first)
              (SentTo-later address addresses d.remote_peers after.remote_peers
                (send_to_first sockets addresses payload kind after).0
                (send_to_first sockets addresses payload kind after).1.remote_peers same
                (send_to_first-SentTo addresses payload kind after))
        | inr (_, e) ↦
            rw (e, send_to_first)
              (SentTo-first address addresses d.remote_peers after.remote_peers (rw e at now))
      ]

  -- A send that succeeds adds one of the target's addresses to the peers, unless it is one already,
  -- and only if it is one or there are fewer than 256; a send that fails leaves the peers as they
  -- are, however many addresses it tried.
  pub send-SentTo :
      (addresses : List SocketAddr) (payload : Bytes) (d : DirectDatagramAssociation UdpSocket)
      → SentTo addresses d.remote_peers
          (send sockets (ok addresses) payload d).0
          (send sockets (ok addresses) payload d).1.remote_peers
  unfolding send
  send-SentTo addresses payload d = send_to_first-SentTo addresses payload _ d
