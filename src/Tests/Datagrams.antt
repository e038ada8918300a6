-- ===== src/Tests/Datagrams.antt =====
-- Routes whose associations count what they send, and a direct association whose sockets always work.
use commeatus.Prelude.{
  ℕ, ◌+◌, ◌*◌, ◌^◌, ◌≤◌, ◌<◌, ◌≡◌, refl, true, none, some, List, [], ◌∷◌, ◌++◌, arith, Bytes, bytes,
  length,
}
use commeatus.Prelude
use commeatus.Ip.{IpAddr}
use commeatus.Ip.Socket.{SocketAddr}
use commeatus.Flow.{ip}
use commeatus.Plan.{direct, proxy}
use commeatus.Io.{timed_out, ok, err}
use commeatus.Target.{Target}
use commeatus.Tokens.{allocate, range_from}
use commeatus.Datagram
use commeatus.Datagram.{
  DatagramExecution, DatagramRoute, DatagramRouteSet, new_routes, send_with, receive_ready,
  has_token,
}
use commeatus.Datagram.Owned.{IsOwned}
use commeatus.Datagram.Steps.{RouteStep, sent, received, run, run-IsOwned}
use commeatus.Datagram.Direct
use commeatus.Datagram.Direct.{UdpSockets, DirectDatagramAssociation}
use commeatus.Datagram.Direct.Trusted.{IsTrusted, receive-IsTrusted}
use commeatus.Datagram.Direct.Contacted
use commeatus.Datagram.Direct.Contacted.{DirectStep, IsAllowed, run-IsAllowed}
use commeatus.Proxy.{Connector, connect_direct, connect_timeout}
use commeatus.Proxy.Deadline.{connect_direct-within}

abbrev counting : DatagramExecution ℕ (List ℕ)
counting = record {
  send = λ count target payload. (ok tt, count + 1);
  receive = λ count buffer. (ok none, buffer, count);
  readiness_source_count = λ count. 2;
  register_readiness = λ count registry tokens. (ok tt, count, tokens ++ registry);
}

abbrev target : Target
target = record { host = ip (IpAddr.v4 16909060); port = 53 }

abbrev steps : List (RouteStep counting)
steps =
    sent direct target (bytes "a") (λ endpoint. ok 0)
    ∷ sent (proxy (bytes "p")) target (bytes "b") (λ endpoint. ok 10)
    ∷ received 3 (bytes "buffer")
    ∷ []

run-IsOwned_example : IsOwned 2 (run counting steps (new_routes [] 2))
run-IsOwned_example = run-IsOwned counting [] 2 steps (omega arith)

abbrev route : DatagramRoute ℕ
route = record { endpoint = direct; execution = 1; tokens = 2 ∷ 3 ∷ [] }

abbrev other_route : DatagramRoute ℕ
other_route = record { endpoint = proxy (bytes "p"); execution = 11; tokens = 4 ∷ 5 ∷ [] }

abbrev routes : DatagramRouteSet ℕ (List ℕ)
routes = record { routes = other_route ∷ route ∷ []; registry = 4 ∷ 5 ∷ 2 ∷ 3 ∷ []; next_token = 6 }

reached : run counting steps (new_routes [] 2) ≡ routes
unfolding send_with receive_ready new_routes Datagram.add_route allocate Datagram.register
    Datagram.send_on Datagram.endpoint_eq Datagram.update Prelude.eqb range_from
reached = refl

routes-IsOwned : IsOwned 2 routes
routes-IsOwned = rw reached at (run-IsOwned counting [] 2 steps (omega arith))

abbrev peer : SocketAddr
peer = record { ip = IpAddr.v4 16909060; port = 53 }

abbrev working : UdpSockets ℕ ℕ
working = record {
  bind_nonblocking = λ address. ok 0;
  send_to = λ socket payload address. (ok (length payload), socket);
  recv_from = λ socket buffer. (ok (length buffer, peer), buffer, socket);
  register = λ registry socket token. (ok tt, registry, socket);
}

abbrev fresh : DirectDatagramAssociation ℕ
fresh = record { ipv4 = 0; ipv6 = none; remote_peers = [] }

abbrev direct_steps : List DirectStep
direct_steps =
    DirectStep.sent (ok (peer ∷ [])) (bytes "a") ∷ DirectStep.received (bytes "buffer") ∷ []

run-IsAllowed_example :
    IsAllowed
      (Contacted.run working direct_steps [] fresh).0
      (Contacted.run working direct_steps [] fresh).1.remote_peers
run-IsAllowed_example = run-IsAllowed working direct_steps fresh refl

abbrev after : DirectDatagramAssociation ℕ
after = record fresh { remote_peers = peer ∷ [] }

receive-IsTrusted_example :
    IsTrusted (peer ∷ []) (Direct.receive working (bytes "buffer") after).0
    × ((Direct.receive working (bytes "buffer") after).2.remote_peers ≡ peer ∷ [])
receive-IsTrusted_example = receive-IsTrusted working (bytes "buffer") after

abbrev slow : Connector ℕ
slow = record {
  connect = λ now address timeout. (err timed_out, now + timeout);
  set_nodelay = λ stream. ok stream;
}

connect_direct-within_example : (connect_direct slow (ok (peer ∷ [])) 5).1 ≤ 5 + connect_timeout
connect_direct-within_example =
    connect_direct-within slow (λ now address timeout. (omega arith, omega arith)) (peer ∷ []) 5
