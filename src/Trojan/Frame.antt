-- ===== src/Trojan/Frame.antt =====
-- Frames read from a stream: a frame is read as soon as it is complete, and not before.
use commeatus.Prelude.{
  ℕ, zero, suc, ◌+◌, ◌≤◌, ◌≡◌, refl, ◌∙◌, true, Option, none, some, [], ◌∷◌, arith, ltb,
  if◌then◌else◌, Bytes, length, take, get_or, Bool-cases, Option-cases, inl, inr, ◌==◌,
}
use commeatus.Ip.{IpAddr}
use commeatus.Flow.{DestinationHost}
use commeatus.Io.{Result, ok, >>=-eq-ok}
use commeatus.Target.{Target, new_target}
use commeatus.Target.Pieces.{slice-take, get_or-take, length-take_le}
use commeatus.Trojan.{
  parse_address, parse_domain, parse_host, parse_port, parse_target, parse_payload, ParsedUdpFrame,
  parse_udp_frame,
}

-- What a prefix of length `n` gives where the whole gives `r`, which ends at `end`.
abbrev so_far {ℓ} : {A : Type ℓ} → ℕ → ℕ → A → Result (Option A)
so_far n end r = if ltb n end then ok none else ok (some r)

parse_domain-take :
    (s : Bytes) (n count : ℕ) (r : DestinationHost × ℕ)
    → n ≤ length s
    → parse_domain s count ≡ ok (some r)
    → parse_domain (take n s) count ≡ so_far n r.1 r
unfolding parse_domain
parse_domain-take s n count r h e =
    rw (length-take_le n s h) (ground (arith, slice-take s n 2 (2 + count)))

parse_domain-end :
    (s : Bytes) (count : ℕ) (r : DestinationHost × ℕ)
    → parse_domain s count ≡ ok (some r)
    → r.1 ≡ 2 + count
unfolding parse_domain
parse_domain-end s count r e = ground arith

parse_address-take :
    (family : ℕ → IpAddr) (host_end : ℕ) (s : Bytes) (n : ℕ) (r : DestinationHost × ℕ)
    → 1 ≤ host_end
    → n ≤ length s
    → parse_address family host_end s ≡ ok (some r)
    → parse_address family host_end (take n s) ≡ so_far n r.1 r
unfolding parse_address
parse_address-take family host_end s n r pos h e =
    rw (length-take_le n s h) (ground (arith, slice-take s n 1 host_end))

parse_host-take :
    (kind : ℕ) (s : Bytes) (n : ℕ) (r : DestinationHost × ℕ)
    → n ≤ length s
    → parse_host kind s ≡ ok (some r)
    → parse_host kind (take n s) ≡ so_far n r.1 r
unfolding parse_host
parse_host-take kind s n r h e = elim (Bool-cases (kind == 0x01)) [
  | inl v4 ↦ rw v4 (parse_address-take IpAddr.v4 5 s n r (omega arith) h (rw v4 at e))
  | inr not_v4 ↦ elim (Bool-cases (kind == 0x03)) [
    | inl named ↦
        let e' = rw (not_v4, named) at e in
        rw (not_v4, named, length-take_le n s h)
          (ground (
            arith,
            get_or-take s n 1 0,
            parse_domain-take s n (get_or s 1 0) r h,
            parse_domain-end s (get_or s 1 0) r,
          ))
    | inr not_named ↦ elim (Bool-cases (kind == 0x04)) [
      | inl v6 ↦
          rw (not_v4, not_named, v6)
            (parse_address-take IpAddr.v6 17 s n r (omega arith) h
              (rw (not_v4, not_named, v6) at e))
      | inr neither ↦ absurd (cc (rw (not_v4, not_named, neither) at e))
    ]
  ]
]

parse_port-end :
    (s : Bytes) (host : DestinationHost × ℕ) (r : Target × ℕ)
    → parse_port s (some host) ≡ ok (some r)
    → r.1 ≡ host.1 + 2
unfolding parse_port new_target
parse_port-end s host r e = ground arith

parse_port-take :
    (s : Bytes) (n : ℕ) (host : DestinationHost × ℕ) (r : Target × ℕ)
    → n ≤ length s
    → parse_port s (some host) ≡ ok (some r)
    → parse_port (take n s) (some host) ≡ so_far n r.1 r
unfolding parse_port
parse_port-take s n host r h e =
    let end = parse_port-end s host r e in
    rw (length-take_le n s h) (ground (arith, slice-take s n host.1 (host.1 + 2)))

parse_target-pos : (s : Bytes) (r : Target × ℕ) → parse_target s ≡ ok (some r) → 2 ≤ r.1
unfolding parse_target
parse_target-pos [] r e = cc
parse_target-pos (kind ∷ rest) r e =
    let (o, parsed, later) = >>=-eq-ok (parse_host kind (kind ∷ rest)) _ e in
    elim (Option-cases o) [
      | inl nothing ↦ absurd (cc (rw (nothing, parse_port) at later))
      | inr (host, found) ↦
          let end = parse_port-end (kind ∷ rest) host r (rw found at later) in omega arith
    ]

parse_target-take :
    (s : Bytes) (n : ℕ) (r : Target × ℕ)
    → n ≤ length s
    → parse_target s ≡ ok (some r)
    → parse_target (take n s) ≡ so_far n r.1 r
unfolding parse_target
parse_target-take [] n r h e = cc
parse_target-take (kind ∷ rest) zero r h e =
    let pos = parse_target-pos (kind ∷ rest) r e in ground arith
parse_target-take (kind ∷ rest) (suc n) r h e =
    let (o, parsed, later) = >>=-eq-ok (parse_host kind (kind ∷ rest)) _ e in
    elim (Option-cases o) [
      | inl nothing ↦ absurd (cc (rw (nothing, parse_port) at later))
      | inr (host, found) ↦
          let at_port = rw found at later in
          let end = parse_port-end (kind ∷ rest) host r at_port in
          let head = parse_host-take kind (kind ∷ rest) (suc n) host h (rw found at parsed) in
          elim (Bool-cases (ltb (suc n) host.1)) [
            | inl short ↦
                let nothing_yet : parse_host kind (take (suc n) (kind ∷ rest)) ≡ ok none =
                  head ∙ rw short in
                let out : ltb (suc n) r.1 ≡ true = ground arith in
                rw (nothing_yet, out) (unfold parse_port in refl)
            | inr long ↦ rw (head, long) (parse_port-take (kind ∷ rest) (suc n) host r h at_port)
          ]
    ]

parse_payload-end :
    (s : Bytes) (t : Target × ℕ) (r : ParsedUdpFrame)
    → parse_payload s (some t) ≡ ok (some r)
    → t.1 + 4 ≤ r.consumed
unfolding parse_payload
parse_payload-end s t r e = ground arith

parse_payload-take :
    (s : Bytes) (n : ℕ) (t : Target × ℕ) (r : ParsedUdpFrame)
    → n ≤ length s
    → parse_payload s (some t) ≡ ok (some r)
    → parse_payload (take n s) (some t) ≡ so_far n r.consumed r
unfolding parse_payload
parse_payload-take s n t r h e =
    rw (length-take_le n s h)
      (ground (arith, slice-take s n t.1 (t.1 + 2), slice-take s n (t.1 + 2) (t.1 + 4)))

-- Where a frame is read from some bytes, a prefix of them gives the same frame if it holds the
-- frame's `consumed` bytes, and asks for more bytes if it does not.
pub parse_udp_frame-take :
    (s : Bytes) (n : ℕ) (r : ParsedUdpFrame)
    → n ≤ length s
    → parse_udp_frame s ≡ ok (some r)
    → parse_udp_frame (take n s) ≡ (if ltb n r.consumed then ok none else ok (some r))
unfolding parse_udp_frame
parse_udp_frame-take s n r h e =
    let (o, parsed, later) = >>=-eq-ok (parse_target s) _ e in
    elim (Option-cases o) [
      | inl nothing ↦ absurd (cc (rw (nothing, parse_payload) at later))
      | inr (t, found) ↦
          let at_payload = rw found at later in
          let end = parse_payload-end s t r at_payload in
          let head = parse_target-take s n t h (rw found at parsed) in
          elim (Bool-cases (ltb n t.1)) [
            | inl short ↦
                let nothing_yet : parse_target (take n s) ≡ ok none = head ∙ rw short in
                let out : ltb n r.consumed ≡ true = ground arith in
                rw (nothing_yet, out) (unfold parse_payload in refl)
            | inr long ↦
                let read : parse_target (take n s) ≡ ok (some t) = head ∙ rw long in
                rw read (parse_payload-take s n t r h at_payload)
          ]
    ]
