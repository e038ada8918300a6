-- ===== src/Protocol/Inbound.antt =====
-- The outbound protocol and the program's own inbound.
use commeatus.Prelude.{
  ℕ, ◌≡◌, refl, sym, false, [], ◌∷◌, ◌++◌, ◌==◌, arith, Bytes, eqb, length, append_assoc, is_apart,
  ◌≢◌, ltb, ◌<◌, not_zero,
}
use commeatus.Text.{to_be_bytes}
use commeatus.Text.Bigend.{length-to_be_bytes}
use commeatus.Flow.{DestinationHost, domain, ip}
use commeatus.Ip.{IpAddr, octets}
use commeatus.Ip.Socket.{SocketAddr}
use commeatus.Io.{ErrorKind, invalid_input, connection_refused, ok, err}
use commeatus.Target.{Target, address_bytes, IsTarget}
use commeatus.Stream.{◌>>◌, working, read_exact-append, write_all, flush}
use commeatus.Socks5.RoundTrip.{IsCanonical}
use commeatus.Socks5.Handshake.{negotiate_method, read_request, connect, reply_bytes, reply_kind}
use commeatus.Socks5.Handshake.Requests.{negotiate_method-any, read_request-address_bytes}
use commeatus.Protocol.{
  offer_method, send_request, socks5_request, read_reply, discard, discard_socks_address,
  socks5_handshake_stream,
}

abbrev greeting : Bytes
greeting = 0x05 ∷ 0x01 ∷ 0x00 ∷ []

abbrev request : Bytes → Target → Bytes
request address target = 0x05 ∷ 0x01 ∷ 0x00 ∷ (address ++ to_be_bytes 2 target.port)

discard-append :
    (n : ℕ) (ended : ErrorKind) (front rest output : Bytes)
    → n ≡ length front
    → discard n (working ended (front ++ rest) output) ≡ (ok tt, working ended rest output)
unfolding discard
discard-append n ended front rest output e = rw (read_exact-append n ended front rest output e) refl

discard_bound :
    (address : IpAddr) (ended : ErrorKind) (rest output : Bytes)
    → discard_socks_address (reply_kind address) (working ended (octets address ++ rest) output)
      ≡ (ok tt, working ended rest output)
unfolding discard_socks_address octets
discard_bound (IpAddr.v4 x) ended rest output =
    discard-append 4 ended (to_be_bytes 4 x) rest output (sym (length-to_be_bytes 4 x))
discard_bound (IpAddr.v6 x) ended rest output =
    discard-append 16 ended (to_be_bytes 16 x) rest output (sym (length-to_be_bytes 16 x))

-- A reply of code zero is taken whole.
pub read_reply-reply_bytes :
    (bound : SocketAddr) (ended : ErrorKind) (rest output : Bytes)
    → read_reply (working ended (reply_bytes 0 bound ++ rest) output)
      ≡ (ok tt, working ended rest output)
unfolding read_reply
read_reply-reply_bytes bound ended rest output =
    let port = to_be_bytes 2 bound.port in
    let first = 0x05 ∷ 0 ∷ 0x00 ∷ reply_kind bound.ip ∷ [] in
    let header = read_exact-append 4 ended first (octets bound.ip ++ (port ++ rest)) output refl in
    let address = discard_bound bound.ip ended (port ++ rest) output in
    let last = discard-append 2 ended port rest output (sym (length-to_be_bytes 2 bound.port)) in
    rw (append_assoc (octets bound.ip) port rest, header, address, last) refl

-- Another code is a refusal.
pub read_reply_refuses :
    (code : ℕ) (bound : SocketAddr) (ended : ErrorKind) (rest output : Bytes)
    → (code == 0) ≡ false
    → (read_reply (working ended (reply_bytes code bound ++ rest) output)).0
      ≡ err connection_refused
unfolding read_reply
read_reply_refuses code bound ended rest output h =
    let tail = octets bound.ip ++ to_be_bytes 2 bound.port in
    let first = 0x05 ∷ code ∷ 0x00 ∷ reply_kind bound.ip ∷ [] in
    let header = read_exact-append 4 ended first (tail ++ rest) output refl in rw (header, h) refl

offers :
    (ended : ErrorKind) (rest : Bytes)
    → offer_method (working ended (0x05 ∷ 0x00 ∷ rest) []) ≡ (ok tt, working ended rest greeting)
unfolding offer_method write_all flush eqb
offers ended rest = rw (read_exact-append 2 ended (0x05 ∷ 0x00 ∷ []) rest greeting refl) refl

requests :
    (target : Target) (a : Bytes) (ended : ErrorKind) (rest output : Bytes)
    → address_bytes invalid_input target.host ≡ ok a
    → send_request target (working ended rest output)
      ≡ (ok tt, working ended rest (output ++ request a target))
unfolding send_request socks5_request write_all flush
requests target a ended rest output e = rw e refl

-- A target is an address or a name that is not empty.
abbrev pub IsNamed : DestinationHost → Type 0
IsNamed (domain name) = 0 < length name
IsNamed (ip a) = Unit

-- The encoder takes every such target with a canonical name.
address_bytes-ok :
    (kind : ErrorKind) (host : DestinationHost)
    → IsCanonical host
    → IsNamed host
    → (a : Bytes) × (address_bytes kind host ≡ ok a)
unfolding address_bytes
address_bytes-ok kind (ip (IpAddr.v4 x)) canonical named = (0x01 ∷ octets (IpAddr.v4 x), refl)
address_bytes-ok kind (ip (IpAddr.v6 x)) canonical named = (0x04 ∷ octets (IpAddr.v6 x), refl)
address_bytes-ok kind (domain name) (small, lower) named =
    let within : ltb 255 (length name) ≡ false = ground arith in
    let some_name : (length name == 0) ≡ false = not_zero _ named in
    (0x03 ∷ length name ∷ name, rw (within, some_name) refl)

-- With a target with a port that is an address or a canonical name that is not empty, the outbound
-- protocol talks to the program's own inbound as it is meant to: the inbound answers the greeting
-- with the method that needs no authentication and reads the request as a connection to the target;
-- and where the proxy accepts the greeting and replies with code zero, the handshake succeeds, has
-- written what the inbound reads, and leaves what is behind the reply unread.
pub socks5_handshake_stream-read_request :
    (target : Target) (bound : SocketAddr) (rest : Bytes) (ended : ErrorKind)
    → IsTarget target
    → IsCanonical target.host
    → IsNamed target.host
    → (written : Bytes) × (socks5_handshake_stream target
          (working ended (0x05 ∷ 0x00 ∷ (reply_bytes 0 bound ++ rest)) [])
        ≡ (ok tt, working ended rest written))
      × ((negotiate_method >> read_request) (working ended (written ++ rest) [])
          ≡ (ok (connect target), working ended rest (0x05 ∷ 0x00 ∷ [])))
unfolding socks5_handshake_stream
socks5_handshake_stream-read_request target bound rest ended h canonical named =
    let (a, e) = address_bytes-ok invalid_input target.host canonical named in
    let written = greeting ++ request a target in
    let port = to_be_bytes 2 target.port in
    let reply = reply_bytes 0 bound ++ rest in
    let greeted =
      negotiate_method-any ended (0x00 ∷ []) (request a target ++ rest) [] (omega arith) in
    let read : read_request (working ended (request a target ++ rest) (0x05 ∷ 0x00 ∷ []))
        ≡ (ok (connect target), working ended rest (0x05 ∷ 0x00 ∷ [])) =
      rw (append_assoc a port rest) (
        read_request-address_bytes invalid_input target a rest (0x05 ∷ 0x00 ∷ []) ended h canonical
          e) in
    (
      written,
      rw (offers ended reply, requests target a ended reply greeting e)
          (read_reply-reply_bytes bound ended rest written),
      rw (greeted, read) refl,
    )

-- A proxy that accepts the greeting and replies with another code refuses the connection, whatever
-- the address in its reply.
pub socks5_handshake_stream_refused :
    (target : Target) (bound : SocketAddr) (a rest : Bytes) (ended : ErrorKind) (code : ℕ)
    → address_bytes invalid_input target.host ≡ ok a
    → code ≢ 0
    → (socks5_handshake_stream target
        (working ended (0x05 ∷ 0x00 ∷ (reply_bytes code bound ++ rest)) [])).0
      ≡ err connection_refused
unfolding socks5_handshake_stream
socks5_handshake_stream_refused target bound a rest ended code e h =
    let reply = reply_bytes code bound ++ rest in
    let apart : (code == 0) ≡ false = is_apart code 0 h in
    rw (offers ended reply, requests target a ended reply greeting e)
      (read_reply_refuses code bound ended rest (greeting ++ request a target) apart)
