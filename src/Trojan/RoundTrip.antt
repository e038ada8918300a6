-- ===== src/Trojan/RoundTrip.antt =====
-- What is encoded is read back.
use commeatus.Prelude.{
  not_below, not_zero, ℕ, ◌+◌, ◌^◌, ◌≤◌, ◌<◌, ◌≡◌, refl, sym, ap, ◌∙◌, true, false, some, [], ◌∷◌,
  ◌++◌, arith, ltb, ◌==◌, Bytes, length, length-append, append_assoc, Bool-cases, inl, inr,
  eqb_refl,
}
use commeatus.Text.{is_utf8, to_be_bytes}
use commeatus.Text.Bigend.{length-to_be_bytes, from_be_bytes-to_be_bytes}
use commeatus.Ip.{IpAddr, octets}
use commeatus.Flow.{DestinationHost, domain, ip}
use commeatus.Io.{ErrorKind, invalid_input, ok, >>=-eq-ok}
use commeatus.Target.{Target, new_target, address_bytes, slice, IsHost, IsTarget}
use commeatus.Target.Pieces.{address_bytes-nil, kind_of, slice-append}
use commeatus.Trojan.{
  crlf, encode_host, encode_target, encode_udp_frame, parse_domain, parse_address, parse_host,
  parse_port, parse_target, parse_payload, ParsedUdpFrame, parse_udp_frame,
}

parse_address-octets :
    (family : ℕ → IpAddr) (kind width a : ℕ) (rest : Bytes)
    → a < 256 ^ width
    → parse_address family (1 + width) (kind ∷ (to_be_bytes width a ++ rest))
      ≡ ok (some (ip (family a), 1 + width))
unfolding parse_address
parse_address-octets family kind width a rest h =
    let size = length-append (to_be_bytes width a) rest in
    let octet = length-to_be_bytes width a in
    let cut =
      slice-append (kind ∷ []) (to_be_bytes width a) rest 1 (1 + width) refl (omega arith) in
    let room : ltb (length (kind ∷ (to_be_bytes width a ++ rest))) (1 + width) ≡ false =
      ground arith in
    rw (room, cut, from_be_bytes-to_be_bytes width a h)

-- The encoded address in front of more bytes is read back, with where it ends.
parse_host-domain :
    (kind : ErrorKind) (name rest a : Bytes)
    → is_utf8 name ≡ true
    → address_bytes kind (domain name) ≡ ok a
    → (a ≡ 0x03 ∷ length name ∷ name)
      × (parse_host 0x03 (a ++ rest) ≡ ok (some (domain name, length a)))
unfolding parse_host address_bytes parse_domain
parse_host-domain kind name rest a h e =
    let encoded : a ≡ 0x03 ∷ length name ∷ name = ground arith in
    let some_name : (length name == 0) ≡ false = ground arith in
    let cut =
      slice-append (0x03 ∷ length name ∷ []) name rest 2 (2 + length name) refl (omega arith) in
    let size = length-append name rest in
    let room : ltb (length ((0x03 ∷ length name ∷ name) ++ rest)) (2 + length name) ≡ false =
      ground arith in
    let room_2 : ltb (length ((0x03 ∷ length name ∷ name) ++ rest)) 2 ≡ false = ground arith in
    (
      encoded,
      rw encoded (
          rw (room_2, some_name, room, cut, h)
            (ap (λ (k : ℕ). ok (some (domain name, k))) (omega arith))),
    )

parse_host-address_bytes :
    (kind : ErrorKind) (host : DestinationHost) (a rest : Bytes)
    → IsHost host
    → address_bytes kind host ≡ ok a
    → parse_host (kind_of a) (a ++ rest) ≡ ok (some (host, length a))
unfolding parse_host address_bytes octets
parse_host-address_bytes kind (ip (IpAddr.v4 x)) a rest h e =
    let encoded : a ≡ 0x01 ∷ to_be_bytes 4 x = cc in
    rw (encoded, length-to_be_bytes 4 x)
      (parse_address-octets IpAddr.v4 0x01 4 x rest (omega arith))
parse_host-address_bytes kind (ip (IpAddr.v6 x)) a rest h e =
    let encoded : a ≡ 0x04 ∷ to_be_bytes 16 x = cc in
    rw (encoded, length-to_be_bytes 16 x)
      (parse_address-octets IpAddr.v6 0x04 16 x rest (omega arith))
parse_host-address_bytes kind (domain name) a rest h e =
    let (encoded, read) = parse_host-domain kind name rest a h e in
    let front : kind_of a ≡ 0x03 = rw encoded refl in rw front read

-- A piece in the middle ends before the end.
room_for :
    (front mid rest : Bytes) (k : ℕ)
    → k ≤ length front + length mid
    → ltb (length (front ++ (mid ++ rest))) k ≡ false
room_for front mid rest k h =
    not_below _ k (omega (arith, length-append front (mid ++ rest), length-append mid rest))

parse_target-encode :
    (kind : ErrorKind) (t : Target) (a rest : Bytes)
    → IsTarget t
    → address_bytes kind t.host ≡ ok a
    → parse_target (a ++ (to_be_bytes 2 t.port ++ rest)) ≡ ok (some (t, length a + 2))
unfolding parse_target parse_port new_target
parse_target-encode kind t [] rest h e = absurd (address_bytes-nil kind t.host e)
parse_target-encode kind t (c ∷ a) rest h e =
    let port_bytes = to_be_bytes 2 t.port in
    let read = parse_host-address_bytes kind t.host (c ∷ a) (port_bytes ++ rest) h.host e in
    let octet = length-to_be_bytes 2 t.port in
    let cut =
      slice-append (c ∷ a) port_bytes rest (length (c ∷ a)) (length (c ∷ a) + 2) refl
        (omega arith) in
    let room = room_for (c ∷ a) port_bytes rest (length (c ∷ a) + 2) (omega arith) in
    rw (read, room, cut, from_be_bytes-to_be_bytes 2 t.port h.port_fits, not_zero t.port h.port_pos)
      refl

-- The frame whose payload starts at `start` and is `count` bytes long.
abbrev frame_at : Target → ℕ → ℕ → ParsedUdpFrame
frame_at t start count = record {
  source = t;
  payload_start = start;
  payload_end = start + count;
  consumed = start + count;
}

parse_payload-slices :
    (s : Bytes) (t : Target) (n count : ℕ)
    → count ≤ 65535
    → slice s n (n + 2) ≡ to_be_bytes 2 count
    → slice s (n + 2) (n + 4) ≡ crlf
    → n + 4 + count ≤ length s
    → parse_payload s (some (t, n)) ≡ ok (some (frame_at t (n + 4) count))
unfolding parse_payload
parse_payload-slices s t n count small e_count e_crlf room =
    rw
      (
        e_count,
        from_be_bytes-to_be_bytes 2 count (omega (arith, small)),
        e_crlf,
        not_below (length s) (n + 4) (omega arith),
        not_below (length s) (n + 4 + count) room,
        eqb_refl crlf,
      )
      refl

parse_payload-encode :
    (front payload rest : Bytes) (t : Target)
    → length payload ≤ 65535
    → parse_payload
        (front ++ (to_be_bytes 2 (length payload) ++ (crlf ++ (payload ++ rest))))
        (some (t, length front))
      ≡ ok (some (frame_at t (length front + 4) (length payload)))
parse_payload-encode front payload rest t h =
    let count = to_be_bytes 2 (length payload) in
    let behind = crlf ++ (payload ++ rest) in
    let octet = length-to_be_bytes 2 (length payload) in
    let front_size = length-append front count in
    let whole_size = length-append front (count ++ behind) in
    let behind_size = length-append count behind in
    let payload_size = length-append payload rest in
    let cut_crlf : slice (front ++ (count ++ behind)) (length front + 2) (length front + 4) ≡ crlf =
      rw (sym (append_assoc front count behind)) (
        slice-append (front ++ count) crlf (payload ++ rest) (length front + 2) (length front + 4)
          (omega arith) (omega arith)) in
    parse_payload-slices (front ++ (count ++ behind)) t (length front) (length payload) h
      (slice-append front count behind (length front) (length front + 2) refl (omega arith))
      cut_crlf (omega arith)

-- A frame's parts: the address, the port, the payload's length, CRLF and the payload.
encode_udp_frame-parts :
    (t : Target) (payload f : Bytes)
    → encode_udp_frame t payload ≡ ok f
    → (a : Bytes) × (address_bytes invalid_input t.host ≡ ok a)
      × (length payload ≤ 65535)
      × (f ≡ (a ++ to_be_bytes 2 t.port) ++ (to_be_bytes 2 (length payload) ++ (crlf ++ payload)))
unfolding encode_udp_frame encode_target encode_host
encode_udp_frame-parts t payload f e = elim (Bool-cases (ltb 65535 (length payload))) [
  | inl large ↦ absurd (cc (rw large at e))
  | inr small ↦
      let fits : length payload ≤ 65535 = ground arith in
      let (frame, e_frame, e_f) = >>=-eq-ok _ _ (rw small at e) in
      let (buffer, e_buffer, e_port) = >>=-eq-ok _ _ e_frame in
      let (a, e_a, e_host) = >>=-eq-ok _ _ e_buffer in (a, e_a, fits, cc)
]

-- Where the payload stands.
frame-slice :
    (front count payload rest : Bytes)
    → length count ≡ 2
    → slice
        (front ++ (count ++ (crlf ++ (payload ++ rest))))
        (length front + 4)
        (length front + 4 + length payload)
      ≡ payload
frame-slice front count payload rest two =
    let size = length-append front (count ++ crlf) in
    let more = length-append count crlf in
    rw
      (
        sym (append_assoc count crlf (payload ++ rest)),
        sym (append_assoc front (count ++ crlf) (payload ++ rest)),
      )
      (slice-append (front ++ (count ++ crlf)) payload rest (length front + 4)
        (length front + 4 + length payload) (omega arith) (omega arith))

frame-length :
    (front count payload : Bytes)
    → length count ≡ 2
    → length (front ++ (count ++ (crlf ++ payload))) ≡ length front + 4 + length payload
frame-length front count payload two =
    omega (
      arith,
      length-append front (count ++ (crlf ++ payload)),
      length-append count (crlf ++ payload),
    )

-- A target with a port and a valid name, and any payload, that are encoded as a frame are read
-- back from the frame, whatever bytes follow it: the target, the payload as the bytes between
-- `payload_start` and `payload_end`, and the frame's length as `consumed`.
pub parse_udp_frame-encode_udp_frame :
    (t : Target) (payload f rest : Bytes)
    → IsTarget t
    → encode_udp_frame t payload ≡ ok f
    → (r : ParsedUdpFrame) × (parse_udp_frame (f ++ rest) ≡ ok (some r))
      × (r.source ≡ t)
      × (slice (f ++ rest) r.payload_start r.payload_end ≡ payload)
      × (r.consumed ≡ length f)
unfolding parse_udp_frame
parse_udp_frame-encode_udp_frame t payload f rest h e =
    let (a, e_a, fits, e_f) = encode_udp_frame-parts t payload f e in
    let front = a ++ to_be_bytes 2 t.port in
    let count = to_be_bytes 2 (length payload) in
    let whole : f ++ rest ≡ front ++ (count ++ (crlf ++ (payload ++ rest))) = rw e_f (
      append_assoc front (count ++ (crlf ++ payload)) rest
      ∙ ap (◌++◌ front) (append_assoc count (crlf ++ payload) rest)) in
    let target : parse_target (f ++ rest) ≡ ok (some (t, length front)) =
      rw (whole, append_assoc a (to_be_bytes 2 t.port) (count ++ (crlf ++ (payload ++ rest))))
        (parse_target-encode invalid_input t a (count ++ (crlf ++ (payload ++ rest))) h e_a
          ∙ ap (λ (k : ℕ). ok (some (t, k)))
              (omega
                (arith, length-append a (to_be_bytes 2 t.port), length-to_be_bytes 2 t.port))) in
    let payload_read = parse_payload-encode front payload rest t fits in
    let size : length f ≡ length front + 4 + length payload =
      rw e_f (frame-length front count payload (length-to_be_bytes 2 (length payload))) in
    (
      frame_at t (length front + 4) (length payload),
      rw (target, whole) payload_read,
      refl,
      rw whole (frame-slice front count payload rest (length-to_be_bytes 2 (length payload))),
      sym size,
    )
