-- ===== src/Socks5/Handshake/Requests.antt =====
-- Greetings and requests as clients write them.
use commeatus.Prelude.{
  ℕ, ◌^◌, ◌<◌, ◌≡◌, refl, sym, false, ◌||◌, [], ◌∷◌, ◌++◌, ltb, ◌==◌, if◌then◌else◌, arith, Bytes,
  length, any, Bool-cases, inl, inr, not_zero,
}
use commeatus.Text.{to_be_bytes}
use commeatus.Text.Bigend.{length-to_be_bytes, from_be_bytes-to_be_bytes}
use commeatus.Ip.{IpAddr, octets}
use commeatus.Flow.{DestinationHost, domain, ip}
use commeatus.Io.{ErrorKind, permission_denied, ok, err}
use commeatus.Target.{Target, new_target, address_bytes, IsHost, IsTarget}
use commeatus.Target.Pieces.{address_bytes-nil, address_bytes-domain}
use commeatus.Stream.{working, read_exact-append, write_all}
use commeatus.Socks5.{request_name}
use commeatus.Socks5.RoundTrip.{IsCanonical}
use commeatus.Socks5.Handshake.{
  negotiate_method, read_ip, read_domain, read_host, read_address, read_request, of_command,
  connect,
}

-- A greeting is answered with the method that needs no authentication if it offers that method, and
-- is refused otherwise; in both cases the client is told, and what it sends next is left unread.
pub negotiate_method-any :
    (ended : ErrorKind) (methods rest output : Bytes)
    → 0 < length methods
    → negotiate_method (working ended (0x05 ∷ length methods ∷ (methods ++ rest)) output) ≡ (
        if any (λ m. m == 0x00) methods
        then (ok tt, working ended rest (output ++ (0x05 ∷ 0x00 ∷ [])))
        else (err permission_denied, working ended rest (output ++ (0x05 ∷ 0xff ∷ []))))
unfolding negotiate_method write_all
negotiate_method-any ended methods rest output h =
    let header =
      read_exact-append 2 ended (0x05 ∷ length methods ∷ []) (methods ++ rest) output refl in
    let body = read_exact-append (length methods) ended methods rest output refl in
    let some_methods = not_zero (length methods) h in
    elim (Bool-cases (any (λ m. m == 0x00) methods)) [
      | inl offered ↦ rw (header, some_methods, body, offered) refl
      | inr missing ↦ rw (header, some_methods, body, missing) refl
    ]

read_ip-octets :
    (family : ℕ → IpAddr) (width a : ℕ) (ended : ErrorKind) (rest output : Bytes)
    → a < 256 ^ width
    → read_ip family width (working ended (to_be_bytes width a ++ rest) output)
      ≡ (ok (ip (family a)), working ended rest output)
unfolding read_ip
read_ip-octets family width a ended rest output h =
    let cut =
      read_exact-append width ended (to_be_bytes width a) rest output
        (sym (length-to_be_bytes width a)) in
    rw (cut, from_be_bytes-to_be_bytes width a h) refl

read_domain-name :
    (name rest output : Bytes) (ended : ErrorKind)
    → IsHost (domain name)
    → IsCanonical (domain name)
    → 0 < length name
    → read_domain (working ended (length name ∷ (name ++ rest)) output)
      ≡ (ok (domain name), working ended rest output)
unfolding read_domain request_name
read_domain-name [] rest output ended valid (small, same) some_name = absurd (omega arith)
read_domain-name (c ∷ cs) rest output ended valid (small, same) some_name =
    let name = c ∷ cs in
    let count = read_exact-append 1 ended (length name ∷ []) (name ++ rest) output refl in
    let body = read_exact-append (length name) ended name rest output refl in
    let allowed : (length name == 0 || ltb 253 (length name)) ≡ false = ground arith in
    rw (count, allowed, body, same, valid) refl

-- The address behind its type byte.
read_host-address_bytes :
    (kind : ErrorKind) (host : DestinationHost) (c : ℕ) (a rest output : Bytes) (ended : ErrorKind)
    → IsHost host
    → IsCanonical host
    → address_bytes kind host ≡ ok (c ∷ a)
    → read_host c (working ended (a ++ rest) output) ≡ (ok host, working ended rest output)
unfolding read_host address_bytes octets
read_host-address_bytes kind (ip (IpAddr.v4 x)) c a rest output ended h canonical e =
    let first : c ≡ 0x01 = cc in
    let encoded : a ≡ to_be_bytes 4 x = cc in
    rw (first, encoded) (read_ip-octets IpAddr.v4 4 x ended rest output (omega arith))
read_host-address_bytes kind (ip (IpAddr.v6 x)) c a rest output ended h canonical e =
    let first : c ≡ 0x04 = cc in
    let encoded : a ≡ to_be_bytes 16 x = cc in
    rw (first, encoded) (read_ip-octets IpAddr.v6 16 x ended rest output (omega arith))
read_host-address_bytes kind (domain name) c a rest output ended h canonical e =
    let (shape, some_name) = address_bytes-domain kind name (c ∷ a) e in
    let first : c ≡ 0x03 = cc in
    let encoded : a ≡ length name ∷ name = cc in
    rw (first, encoded) (read_domain-name name rest output ended h canonical some_name)

read_address-address_bytes :
    (kind : ErrorKind) (target : Target) (c : ℕ) (a rest output : Bytes) (ended : ErrorKind)
    → IsTarget target
    → IsCanonical target.host
    → address_bytes kind target.host ≡ ok (c ∷ a)
    → read_address c (working ended (a ++ (to_be_bytes 2 target.port ++ rest)) output)
      ≡ (ok (target.host, target.port), working ended rest output)
unfolding read_address
read_address-address_bytes kind target c a rest output ended h canonical e =
    let port = to_be_bytes 2 target.port in
    let host =
      read_host-address_bytes kind target.host c a (port ++ rest) output ended h.host canonical e in
    let behind =
      read_exact-append 2 ended port rest output (sym (length-to_be_bytes 2 target.port)) in
    rw (host, behind, from_be_bytes-to_be_bytes 2 target.port h.port_fits) refl

-- A request to connect to a target with a port and a canonical name is read as it was meant,
-- whatever the address's kind, and nothing behind it is read.
pub read_request-address_bytes :
    (kind : ErrorKind) (target : Target) (a rest output : Bytes) (ended : ErrorKind)
    → IsTarget target
    → IsCanonical target.host
    → address_bytes kind target.host ≡ ok a
    → read_request
        (working ended (0x05 ∷ 0x01 ∷ 0x00 ∷ (a ++ (to_be_bytes 2 target.port ++ rest))) output)
      ≡ (ok (connect target), working ended rest output)
unfolding read_request of_command new_target
read_request-address_bytes kind target [] rest output ended h canonical e =
    absurd (address_bytes-nil kind target.host e)
read_request-address_bytes kind target (c ∷ a) rest output ended h canonical e =
    let tail = a ++ (to_be_bytes 2 target.port ++ rest) in
    let header = read_exact-append 4 ended (0x05 ∷ 0x01 ∷ 0x00 ∷ c ∷ []) tail output refl in
    let address = read_address-address_bytes kind target c a rest output ended h canonical e in
    rw (header, address, not_zero target.port h.port_pos) refl
