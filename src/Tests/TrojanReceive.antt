-- ===== src/Tests/TrojanReceive.antt =====
-- Two datagrams that come over a Trojan stream in three pieces.
use commeatus.Prelude.{
  eqb, ℕ, ◌≡◌, refl, false, none, some, List, [], ◌∷◌, ◌++◌, arith, Bytes, bytes,
}
use commeatus.Flow.{ip}
use commeatus.Io.{ok, err, would_block}
use commeatus.Ip.{IpAddr, octets}
use commeatus.Target.{new_target, Target, IsTarget, address_bytes}
use commeatus.Text.{from_be_bytes, to_be_bytes}
use commeatus.Trojan.{parse_udp_frame, encode_udp_frame, encode_target}
use commeatus.TrojanDatagram.{enqueue, take_frame, drain_pending, drain, give_frame}
use commeatus.TrojanDatagram.Receiving.{
  enqueue_step, receive, take_frame_step, service_ready, drain_step, read_plaintext_into_rx,
  read_into, refresh_readiness, send, Execution, Calls,
}
use commeatus.TrojanDatagram.Receiving.Front.{Encodes}
use commeatus.TrojanDatagram.Receiving.InOrder.{GoesOn, receive-GoesOn}
use commeatus.TrojanDatagram.Receiving.Kept.{stream}
use commeatus.TrojanDatagram.Receiving.Runs.{Event, receiving, sending, run, run-Encodes}

abbrev resolver : Target
resolver = record { host = ip (IpAddr.v4 0x01020304); port = 53 }

resolver-IsTarget : IsTarget resolver
resolver-IsTarget = record { host = omega arith; port_pos = omega arith; port_fits = omega arith }

abbrev first : Bytes
first = 0x01 ∷ 1 ∷ 2 ∷ 3 ∷ 4 ∷ 0 ∷ 53 ∷ 0 ∷ 3 ∷ 13 ∷ 10 ∷ bytes "ABC"

abbrev second : Bytes
second = 0x01 ∷ 1 ∷ 2 ∷ 3 ∷ 4 ∷ 0 ∷ 53 ∷ 0 ∷ 2 ∷ 13 ∷ 10 ∷ bytes "DE"

first_encoded : encode_udp_frame resolver (bytes "ABC") ≡ ok first
unfolding encode_udp_frame encode_target address_bytes octets to_be_bytes
first_encoded = refl

second_encoded : encode_udp_frame resolver (bytes "DE") ≡ ok second
unfolding encode_udp_frame encode_target address_bytes octets to_be_bytes
second_encoded = refl

abbrev datagrams : List (Target × Bytes)
datagrams = (resolver, bytes "ABC") ∷ (resolver, bytes "DE") ∷ []

abbrev beginning : Execution
beginning = record {
  sending = record { taken = []; pending = []; pending_bytes = 0 };
  rx = [];
  plaintext = first ++ second;
  registry = false;
  token = none;
}

-- The calls of a receive whose one read takes so many bytes.
abbrev reading : ℕ → Calls
reading size = record {
  writes = [];
  service_io = ok tt;
  later_writes = [];
  reads = ok size ∷ err would_block ∷ [];
  refresh = ok tt;
  remote_eof = false;
}

abbrev events : List Event
events =
    receiving (reading 5) (bytes "---")
    ∷ receiving (reading 12) (bytes "----")
    ∷ sending resolver (bytes "DE") (ok 100 ∷ []) (ok tt)
    ∷ []

abbrev ending : Execution
ending = record {
  sending = record { taken = second; pending = []; pending_bytes = 0 };
  rx = 0x01 ∷ 1 ∷ 2 ∷ [];
  plaintext = 3 ∷ 4 ∷ 0 ∷ 53 ∷ 0 ∷ 2 ∷ 13 ∷ 10 ∷ bytes "DE";
  registry = false;
  token = none;
}

beginning-Encodes : Encodes datagrams (stream beginning)
beginning-Encodes = (
  first,
  second,
  resolver-IsTarget,
  first_encoded,
  refl,
  (second, [], resolver-IsTarget, second_encoded, refl, refl),
)

ran : run events beginning ≡ some ((resolver, bytes "ABC") ∷ [], ending)
unfolding run receive take_frame_step take_frame parse_udp_frame service_ready drain_step
    drain_pending drain read_plaintext_into_rx read_into refresh_readiness new_target from_be_bytes
    eqb give_frame send encode_udp_frame enqueue_step enqueue encode_target address_bytes octets
    to_be_bytes
ran = refl

run-Encodes_example :
    (left : List (Target × Bytes)) × (datagrams ≡ ((resolver, bytes "ABC") ∷ []) ++ left)
    × Encodes left (stream ending)
run-Encodes_example =
    run-Encodes 3 events datagrams ((resolver, bytes "ABC") ∷ []) beginning ending beginning-Encodes
      (omega arith) (omega arith) ran

abbrev waiting : Execution
waiting = record beginning {
  rx = 0x01 ∷ 1 ∷ 2 ∷ 3 ∷ 4 ∷ [];
  plaintext = 0 ∷ 53 ∷ 0 ∷ 3 ∷ 13 ∷ 10 ∷ (bytes "ABC" ++ second);
}

waited : receive (reading 5) (bytes "---") beginning ≡ some (ok (none, bytes "---"), waiting)
unfolding receive take_frame_step take_frame parse_udp_frame service_ready drain_step drain_pending
    drain read_plaintext_into_rx read_into refresh_readiness new_target from_be_bytes eqb
    address_bytes octets to_be_bytes
waited = refl

receive-GoesOn_example : GoesOn datagrams (ok (none, bytes "---")) waiting
receive-GoesOn_example =
    receive-GoesOn (reading 5) datagrams (bytes "---") (omega arith) (ok (none, bytes "---"))
      waiting beginning beginning-Encodes waited
