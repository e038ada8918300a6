-- ===== src/Datagram/Direct.antt =====
-- crates/daemon/src/datagram.rs: `DirectDatagramAssociation`. The sockets are a parameter.
pub mod Peers
pub mod Trusted
pub mod Contacted
use commeatus.Prelude.{
  ℕ, zero, suc, ◌+◌, Bool, true, false, not, ◌&&◌, Option, none, some, List, [], ◌∷◌, leb, ◌==◌,
  if◌then◌else◌, Bytes, length, any, get_or,
}
use commeatus.Ip.{IpAddr}
use commeatus.Ip.Socket.{SocketAddr, socket_eq}
use commeatus.Flow.{ip}
use commeatus.Io.{
  ErrorKind, invalid_input, quota_exceeded, addr_not_available, write_zero, would_block,
  interrupted, unsupported, Result, ok, err,
}
use commeatus.Target.{Target, new_target}
use commeatus.Text.Hostname.{is_empty}
use commeatus.Datagram.{ReceivedDatagram}

-- `UdpSocket` and the poll's registry. A buffer is given back as it is filled.
pub record UdpSockets (UdpSocket Registry : Type 0) : Type 0 where
  pub bind_nonblocking : SocketAddr → Result UdpSocket
  pub send_to : UdpSocket → Bytes → SocketAddr → Result ℕ × UdpSocket
  pub recv_from : UdpSocket → Bytes → Result (ℕ × SocketAddr) × Bytes × UdpSocket
  pub register : Registry → UdpSocket → ℕ → Result (Unit {0}) × Registry × UdpSocket

abbrev pub max_datagram_remote_peers : ℕ
max_datagram_remote_peers = 256

abbrev pub max_untrusted_drain_per_receive : ℕ
max_untrusted_drain_per_receive = 32

-- The resolver is left to the callers.
pub record DirectDatagramAssociation (UdpSocket : Type 0) : Type 0 where
  pub ipv4 : UdpSocket
  pub ipv6 : Option UdpSocket
  pub remote_peers : List SocketAddr

abbrev pub is_peer : List SocketAddr → SocketAddr → Bool
is_peer peers address = any (socket_eq address) peers

-- `HashSet::insert`
unfoldable pub insert_peer : List SocketAddr → SocketAddr → List SocketAddr
insert_peer peers address = if is_peer peers address then peers else address ∷ peers

-- A datagram from a peer.
unfoldable pub received_from : ℕ → Result Target → Result (Option ReceivedDatagram)
received_from length (err kind) = err kind
received_from length (ok source) = ok (some (record { source = source; length = length }))

-- A round of the loop in `receive_from_socket`, from the result of `recv_from` on, with what the
-- further rounds give.
unfoldable pub receive_round :
    {UdpSocket : Type 0}
    → List SocketAddr
    → Result (ℕ × SocketAddr)
    → Bytes
    → UdpSocket
    → Result (Option ReceivedDatagram) × Bytes × UdpSocket
    → Result (Option ReceivedDatagram) × Bytes × UdpSocket
receive_round peers (ok (length, source)) filled socket rest =
    if not (is_peer peers source)
    then rest
    else (received_from length (new_target (ip source.ip) source.port), filled, socket)
receive_round peers (err would_block) filled socket rest = (ok none, filled, socket)
receive_round peers (err interrupted) filled socket rest = rest
receive_round peers (err kind) filled socket rest = (err kind, filled, socket)

module _ {UdpSocket Registry : Type 0} (sockets : UdpSockets UdpSocket Registry) where
  pub with_ipv6 : UdpSocket → Result UdpSocket → Result (DirectDatagramAssociation UdpSocket)
  with_ipv6 ipv4 (ok socket) = ok (record { ipv4 = ipv4; ipv6 = some socket; remote_peers = [] })
  with_ipv6 ipv4 (err addr_not_available) =
      ok (record { ipv4 = ipv4; ipv6 = none; remote_peers = [] })
  with_ipv6 ipv4 (err unsupported) = ok (record { ipv4 = ipv4; ipv6 = none; remote_peers = [] })
  with_ipv6 ipv4 (err kind) = err kind

  unfoldable pub new_direct : Result (DirectDatagramAssociation UdpSocket)
  unfolding with_ipv6
  new_direct = elim (sockets.bind_nonblocking (record { ip = IpAddr.v4 0; port = 0 })) [
    | err kind ↦ err kind
    | ok ipv4 ↦ with_ipv6 ipv4 (sockets.bind_nonblocking (record { ip = IpAddr.v6 0; port = 0 }))
  ]

  -- From the result of `send_to` on.
  unfoldable pub record_sent :
      SocketAddr
      → Bytes
      → Result ℕ
      → DirectDatagramAssociation UdpSocket
      → Result (Unit {0}) × DirectDatagramAssociation UdpSocket
  record_sent address payload (err kind) d = (err kind, d)
  record_sent address payload (ok sent) d =
      if not (sent == length payload)
      then (err write_zero, d)
      else (ok tt, record d { remote_peers = insert_peer d.remote_peers address })

  unfoldable pub send_ipv6 :
      Option UdpSocket
      → SocketAddr
      → Bytes
      → DirectDatagramAssociation UdpSocket
      → Result (Unit {0}) × DirectDatagramAssociation UdpSocket
  send_ipv6 none address payload d = (err addr_not_available, d)
  send_ipv6 (some ipv6) address payload d =
      let (sent, socket) = sockets.send_to ipv6 payload address in
      record_sent address payload sent (record d { ipv6 = some socket })

  -- On the socket of the address's family.
  unfoldable pub send_from :
      IpAddr
      → SocketAddr
      → Bytes
      → DirectDatagramAssociation UdpSocket
      → Result (Unit {0}) × DirectDatagramAssociation UdpSocket
  send_from (IpAddr.v4 _) address payload d =
      let (sent, socket) = sockets.send_to d.ipv4 payload address in
      record_sent address payload sent (record d { ipv4 = socket })
  send_from (IpAddr.v6 _) address payload d = send_ipv6 d.ipv6 address payload d

  unfoldable pub send_to_resolved :
      SocketAddr
      → Bytes
      → DirectDatagramAssociation UdpSocket
      → Result (Unit {0}) × DirectDatagramAssociation UdpSocket
  send_to_resolved address payload d =
      if not (is_peer d.remote_peers address)
        && leb max_datagram_remote_peers (length d.remote_peers)
      then (err quota_exceeded, d)
      else send_from address.ip address payload d

  -- The loop over the addresses; the kind of the last error, or of the error for no address.
  unfoldable pub send_to_first :
      List SocketAddr
      → Bytes
      → ErrorKind
      → DirectDatagramAssociation UdpSocket
      → Result (Unit {0}) × DirectDatagramAssociation UdpSocket
  send_to_first [] payload last_error d = (err last_error, d)
  send_to_first (address ∷ addresses) payload last_error d =
      let (result, after) = send_to_resolved address payload d in
      elim result [ ok _ ↦ (ok tt, after) | err kind ↦ send_to_first addresses payload kind after ]

  -- `DatagramAssociation::send`, with what the target resolves to.
  unfoldable pub send :
      Result (List SocketAddr)
      → Bytes
      → DirectDatagramAssociation UdpSocket
      → Result (Unit {0}) × DirectDatagramAssociation UdpSocket
  send (err kind) payload d = (err kind, d)
  send (ok addresses) payload d = send_to_first addresses payload addr_not_available d

  -- `receive_from_socket`; the loop's rounds are counted down.
  unfoldable pub receive_rounds :
      ℕ → UdpSocket → List SocketAddr → Bytes → Result (Option ReceivedDatagram) × Bytes × UdpSocket
  receive_rounds zero socket peers buffer = (ok none, buffer, socket)
  receive_rounds (suc rounds) socket peers buffer =
      let (result, filled, after) = sockets.recv_from socket buffer in
      receive_round peers result filled after (receive_rounds rounds after peers filled)

  -- The second socket, where the first one has nothing.
  unfoldable pub receive_ipv6 :
      Option UdpSocket
      → Bytes
      → DirectDatagramAssociation UdpSocket
      → Result (Option ReceivedDatagram) × Bytes × DirectDatagramAssociation UdpSocket
  receive_ipv6 none buffer d = (ok none, buffer, d)
  receive_ipv6 (some ipv6) buffer d =
      let (result, filled, socket) =
        receive_rounds max_untrusted_drain_per_receive ipv6 d.remote_peers buffer in
      (result, filled, record d { ipv6 = some socket })

  -- `DatagramAssociation::receive`
  unfoldable pub receive :
      Bytes
      → DirectDatagramAssociation UdpSocket
      → Result (Option ReceivedDatagram) × Bytes × DirectDatagramAssociation UdpSocket
  receive buffer d =
      let (result, filled, socket) =
        receive_rounds max_untrusted_drain_per_receive d.ipv4 d.remote_peers buffer in
      let after : DirectDatagramAssociation UdpSocket = record d { ipv4 = socket } in
      if is_empty buffer then (err invalid_input, buffer, d) else elim result [
        | err kind ↦ (err kind, filled, after)
        | ok (some received) ↦ (ok (some received), filled, after)
        | ok none ↦ receive_ipv6 after.ipv6 filled after
      ]

  unfoldable pub readiness_source_count : DirectDatagramAssociation UdpSocket → ℕ
  readiness_source_count d = elim d.ipv6 [ none ↦ 1 | some _ ↦ 2 ]

  unfoldable pub register_readiness :
      DirectDatagramAssociation UdpSocket
      → Registry
      → List ℕ
      → Result (Unit {0}) × DirectDatagramAssociation UdpSocket × Registry
  register_readiness d registry tokens =
      let (result, registry', socket) = sockets.register registry d.ipv4 (get_or tokens 0 0) in
      let after : DirectDatagramAssociation UdpSocket = record d { ipv4 = socket } in
      if not (length tokens == readiness_source_count d)
      then (err invalid_input, d, registry)
      else elim result [
        | err kind ↦ (err kind, after, registry')
        | ok _ ↦ elim d.ipv6 [
          | none ↦ (ok tt, after, registry')
          | some ipv6 ↦
              let (result', registry'', socket') =
                sockets.register registry' ipv6 (get_or tokens 1 0) in
              (result', record after { ipv6 = some socket' }, registry'')
        ]
      ]
