-- ===== src/Socks5/Fragments.antt =====
-- What the parser of datagrams refuses, and what it accepts.
use commeatus.Prelude.{
  ℕ, ◌+◌, ◌≤◌, ◌<◌, ◌≡◌, ◌≢◌, ◌↔◌, refl, ◌||◌, arith, ltb, ◌==◌, if◌then◌else◌, Bytes, length,
  get_or, Bool-cases, inl, inr,
}
use commeatus.Text.{from_be_bytes}
use commeatus.Ip.{IpAddr}
use commeatus.Flow.{DestinationHost}
use commeatus.Io.{invalid_data, unsupported, Result, ok, err, ◌>>=◌}
use commeatus.Target.{Target, new_target}
use commeatus.Socks5.{
  range, byte_at, request_name, request_address, request_domain, request_host, request_port,
  parse_udp_request,
}

-- An error that is not `unsupported`.
abbrev Supported {ℓ} : {A : Type ℓ} → Result A → Type 0
Supported (ok value) = Unit
Supported (err kind) = kind ≢ unsupported

>>=-Supported {ℓ₁ ℓ₂} :
    {A : Type ℓ₁} {B : Type ℓ₂} (m : Result A) (next : A → Result B)
    → Supported m
    → ((value : A) → m ≡ ok value → Supported (next value))
    → Supported (m >>= next)
>>=-Supported (ok value) next h k = k value refl
>>=-Supported (err kind) next h k = h

range-Supported : (packet : Bytes) (i j : ℕ) → Supported (range packet i j)
unfolding range
range-Supported packet i j = ground arith

byte_at-Supported : (packet : Bytes) (i : ℕ) → Supported (byte_at packet i)
unfolding byte_at
byte_at-Supported packet i = ground arith

request_name-Supported : (name : Bytes) → Supported (request_name name)
unfolding request_name
request_name-Supported name = ground arith

request_address-Supported :
    (family : ℕ → IpAddr) (end : ℕ) (packet : Bytes) → Supported (request_address family end packet)
unfolding request_address
request_address-Supported family end packet =
    >>=-Supported (range packet 4 end) _ (range-Supported packet 4 end) (λ octets e. tt)

request_domain-Supported : (packet : Bytes) → Supported (request_domain packet)
unfolding request_domain
request_domain-Supported packet =
    >>=-Supported (byte_at packet 4) _ (byte_at-Supported packet 4) λ count e.
      >>=-Supported _ _ (checked count)
        λ bytes e. >>=-Supported (request_name bytes) _ (request_name-Supported bytes) λ host e. tt
  where
    checked :
        (count : ℕ)
        → Supported
            (if count == 0 || ltb 253 count then err invalid_data else range packet 5 (5 + count))
    checked count = elim (Bool-cases (count == 0 || ltb 253 count)) [
      | inl refused ↦ rw refused (cc)
      | inr allowed ↦ rw allowed (range-Supported packet 5 (5 + count))
    ]

request_host-Supported : (kind : ℕ) (packet : Bytes) → Supported (request_host kind packet)
unfolding request_host
request_host-Supported kind packet = elim (Bool-cases (kind == 0x01)) [
  | inl v4 ↦ rw v4 (request_address-Supported IpAddr.v4 8 packet)
  | inr not_v4 ↦ elim (Bool-cases (kind == 0x03)) [
    | inl named ↦ rw (not_v4, named) (request_domain-Supported packet)
    | inr not_named ↦ elim (Bool-cases (kind == 0x04)) [
      | inl v6 ↦ rw (not_v4, not_named, v6) (request_address-Supported IpAddr.v6 20 packet)
      | inr neither ↦ rw (not_v4, not_named, neither) (cc)
    ]
  ]
]

new_target-Supported : (host : DestinationHost) (port : ℕ) → Supported (new_target host port)
unfolding new_target
new_target-Supported host port = ground arith

never_unsupported {ℓ} : {A : Type ℓ} (m : Result A) → Supported m → m ≢ err unsupported
never_unsupported (ok value) h e = cc
never_unsupported (err kind) h e = h (cc)

request_port-Supported :
    (packet : Bytes) (host : DestinationHost × ℕ) → Supported (request_port packet host)
unfolding request_port
request_port-Supported packet (host, offset) =
    >>=-Supported (range packet offset (offset + 2)) _ (range-Supported packet offset (offset + 2))
      λ port e. >>=-Supported _ _ (new_target-Supported host (from_be_bytes port)) λ target e'. tt

-- A datagram is refused as unsupported exactly if it has the four header bytes, the two reserved
-- ones are zero, and the fragment's number is not: a fragment is always reported as one, and
-- nothing else is.
pub parse_udp_request_fragments :
    (packet : Bytes)
    → (parse_udp_request packet ≡ err unsupported) ↔ (
        (4 ≤ length packet)
        × (get_or packet 0 0 ≡ 0)
        × (get_or packet 1 0 ≡ 0)
        × (0 < get_or packet 2 0))
unfolding parse_udp_request
parse_udp_request_fragments packet =
    let host = request_host (get_or packet 3 0) packet in
    let body : Result (Target × Bytes) = host >>= request_port packet in
    let never = never_unsupported body (
      >>=-Supported host (request_port packet) (request_host-Supported (get_or packet 3 0) packet)
        λ found e. request_port-Supported packet found) in
    ground arith
