-- ===== src/Socks5/RoundTrip.antt =====
-- The datagrams that the association sends are read by its own parser.
use commeatus.Prelude.{
  is_within, not_below, not_zero, ℕ, ◌+◌, ◌^◌, ◌≤◌, ◌<◌, ◌≡◌, refl, sym, ap, ◌∙◌, true, false, [],
  ◌∷◌, ◌++◌, arith, ltb, leb, ◌==◌, ◌||◌, Bytes, length, length-append, drop-append, drop,
  append_assoc,
}
use commeatus.Text.{dot, trim_end, to_ascii_lowercase, to_be_bytes}
use commeatus.Text.Bigend.{length-to_be_bytes, from_be_bytes-to_be_bytes}
use commeatus.Ip.{IpAddr, octets}
use commeatus.Flow.{DestinationHost, domain, ip}
use commeatus.Io.{ErrorKind, invalid_data, ok, >>=-eq-ok}
use commeatus.Target.{Target, new_target, address_bytes, IsHost, IsTarget}
use commeatus.Target.Pieces.{address_bytes-nil, address_bytes-domain, kind_of, slice-append}
use commeatus.Socks5.{
  range, byte_at, request_name, request_address, request_domain, request_host, request_port,
  parse_udp_request, encode_udp_response,
}

-- A name as the parser gives it: at most 253 bytes, in lower case, and no dot at its end.
abbrev pub IsCanonical : DestinationHost → Type 0
IsCanonical (domain name) = (length name ≤ 253) × (to_ascii_lowercase (trim_end dot name) ≡ name)
IsCanonical (ip a) = Unit

range-append :
    (front mid rest : Bytes) (i j : ℕ)
    → i ≡ length front
    → j ≡ i + length mid
    → range (front ++ (mid ++ rest)) i j ≡ ok mid
unfolding range
range-append front mid rest i j hi hj =
    let room : leb j (length (front ++ (mid ++ rest))) ≡ true =
      is_within j _ (omega (arith, length-append front (mid ++ rest), length-append mid rest)) in
    rw (room, slice-append front mid rest i j hi hj) refl

-- The bytes in front of an address: two that are reserved, the fragment's number.
abbrev reserved : Bytes
reserved = 0 ∷ 0 ∷ 0 ∷ []

request_address-octets :
    (family : ℕ → IpAddr) (kind width a : ℕ) (rest : Bytes)
    → a < 256 ^ width
    → request_address family (4 + width) (reserved ++ (kind ∷ (to_be_bytes width a ++ rest)))
      ≡ ok (ip (family a), 4 + width)
unfolding request_address
request_address-octets family kind width a rest h =
    let octet = length-to_be_bytes width a in
    let cut =
      range-append (reserved ++ (kind ∷ [])) (to_be_bytes width a) rest 4 (4 + width) refl
        (omega arith) in
    rw (cut, from_be_bytes-to_be_bytes width a h) refl

request_domain-name :
    (name rest : Bytes)
    → IsHost (domain name)
    → IsCanonical (domain name)
    → 0 < length name
    → request_domain (reserved ++ (0x03 ∷ length name ∷ (name ++ rest)))
      ≡ ok (domain name, 5 + length name)
unfolding request_domain request_name byte_at
request_domain-name [] rest valid (small, same) some_name = absurd (omega arith)
request_domain-name (c ∷ cs) rest valid (small, same) some_name =
    let name = c ∷ cs in
    let cut =
      range-append (reserved ++ (0x03 ∷ length name ∷ [])) name rest 5 (5 + length name) refl
        (omega arith) in
    let inside : ltb 4 (length (reserved ++ (0x03 ∷ length name ∷ (name ++ rest)))) ≡ true =
      ground arith in
    let allowed : (length name == 0 || ltb 253 (length name)) ≡ false = ground arith in
    rw (inside, allowed, cut, same, valid) refl

request_host-address_bytes :
    (kind : ErrorKind) (host : DestinationHost) (a rest : Bytes)
    → IsHost host
    → IsCanonical host
    → address_bytes kind host ≡ ok a
    → request_host (kind_of a) (reserved ++ (a ++ rest)) ≡ ok (host, 3 + length a)
unfolding request_host address_bytes octets
request_host-address_bytes kind (ip (IpAddr.v4 x)) a rest h canonical e =
    let encoded : a ≡ 0x01 ∷ to_be_bytes 4 x = cc in
    rw (encoded, length-to_be_bytes 4 x)
      (request_address-octets IpAddr.v4 0x01 4 x rest (omega arith))
request_host-address_bytes kind (ip (IpAddr.v6 x)) a rest h canonical e =
    let encoded : a ≡ 0x04 ∷ to_be_bytes 16 x = cc in
    rw (encoded, length-to_be_bytes 16 x)
      (request_address-octets IpAddr.v6 0x04 16 x rest (omega arith))
request_host-address_bytes kind (domain name) a rest h canonical e =
    let (encoded, some_name) = address_bytes-domain kind name a e in
    rw encoded (
      request_domain-name name rest h canonical some_name
      ∙ ap (λ (k : ℕ). ok (domain name, k)) (omega arith))

request_port-encode :
    (front payload : Bytes) (t : Target)
    → 0 < t.port
    → t.port < 2 ^ 16
    → request_port (front ++ (to_be_bytes 2 t.port ++ payload)) (t.host, length front)
      ≡ ok (t, payload)
unfolding request_port new_target
request_port-encode front payload t pos fits =
    let octet = length-to_be_bytes 2 t.port in
    let cut =
      range-append front (to_be_bytes 2 t.port) payload (length front) (length front + 2) refl
        (omega arith) in
    let nonzero : (t.port == 0) ≡ false = not_zero t.port pos in
    let behind : drop (length front + 2) (front ++ (to_be_bytes 2 t.port ++ payload)) ≡ payload =
      rw (sym (append_assoc front (to_be_bytes 2 t.port) payload)) (
        drop-append (length front + 2) (front ++ to_be_bytes 2 t.port) payload
          (omega (arith, length-append front (to_be_bytes 2 t.port)))) in
    rw (cut, from_be_bytes-to_be_bytes 2 t.port fits, nonzero, behind) refl

parse_udp_request-address_bytes :
    (source : Target) (a payload : Bytes)
    → IsTarget source
    → IsCanonical source.host
    → address_bytes invalid_data source.host ≡ ok a
    → parse_udp_request (reserved ++ (a ++ (to_be_bytes 2 source.port ++ payload)))
      ≡ ok (source, payload)
unfolding parse_udp_request
parse_udp_request-address_bytes source [] payload h canonical e =
    absurd (address_bytes-nil invalid_data source.host e)
parse_udp_request-address_bytes source (c ∷ a) payload h canonical e =
    let rest = to_be_bytes 2 source.port ++ payload in
    let room = not_below (length (reserved ++ ((c ∷ a) ++ rest))) 4 (omega arith) in
    let host =
      request_host-address_bytes invalid_data source.host (c ∷ a) rest h.host canonical e in
    let size : 3 + length (c ∷ a) ≡ length (reserved ++ (c ∷ a)) = omega arith in
    rw (room, host, size)
      (request_port-encode (reserved ++ (c ∷ a)) payload source h.port_pos h.port_fits)

-- A response that is encoded for a source with a port and a canonical name is read back, as a
-- request to that source with the same payload.
pub parse_udp_request-encode_udp_response :
    (source : Target) (payload response : Bytes)
    → IsTarget source
    → IsCanonical source.host
    → encode_udp_response source payload ≡ ok response
    → parse_udp_request response ≡ ok (source, payload)
unfolding encode_udp_response
parse_udp_request-encode_udp_response source payload response h canonical e =
    let (a, e_a, e_r) = >>=-eq-ok (address_bytes invalid_data source.host) _ e in
    let shape : response ≡ reserved ++ (a ++ (to_be_bytes 2 source.port ++ payload)) = cc in
    rw shape (parse_udp_request-address_bytes source a payload h canonical e_a)
