-- ===== src/Dns/Wire/Bound.antt =====
-- The loop over a name ends: its fuel is enough for every message.
use commeatus.Prelude.{
  ℕ, zero, suc, ◌+◌, ◌-◌, ◌≤◌, ◌<◌, ◌≡◌, ◌≢◌, refl, none, ◌⊎◌, List, arith, Bytes, get_or, inl, inr,
}
use commeatus.Dns.Answer.{DnsErrorKind}
use commeatus.Dns.Wire.{
  Decoder, Round, failed, goes_on, breaks, follow, take_label, decode_round, decode_loop, start_at,
  decode_fuel,
}

-- Pointers and bytes that are left.
abbrev left : Decoder → ℕ
left d = 33 - d.hops + (254 - d.decoded_bytes)

record IsWithin (d : Decoder) : Type 0 where
  hops_within : d.hops ≤ 32
  bytes_within : d.decoded_bytes ≤ 253

-- A round that goes on stays within the limits and comes closer to them.
abbrev Descends : Decoder → Round → Type 0
Descends d (failed kind) = Unit
Descends d (goes_on d') = IsWithin d' × (left d' < left d)
Descends d (breaks labels offset) = Unit

follow-Descends :
    (message : Bytes) (d : Decoder) (first : ℕ) → IsWithin d → Descends d (follow message d first)
unfolding follow
follow-Descends message d first h = ground (arith, h.hops_within, h.bytes_within)

take_label-Descends :
    (message : Bytes) (d : Decoder) (count : ℕ)
    → IsWithin d
    → 0 < count
    → Descends d (take_label message d count)
unfolding take_label
take_label-Descends message d count h pos = ground (arith, h.hops_within, h.bytes_within)

decode_round-Descends :
    (message : Bytes) (d : Decoder) → IsWithin d → Descends d (decode_round message d)
unfolding decode_round
decode_round-Descends message d h =
    let first = get_or message d.cursor 0 in
    ground (arith, follow-Descends message d first h, take_label-Descends message d first h)

Round-cases :
    (r : Round)
    → ((kind : DnsErrorKind) × (r ≡ failed kind))
      ⊎ ((d : Decoder) × (r ≡ goes_on d))
      ⊎ ((labels : List Bytes) × (offset : ℕ) × (r ≡ breaks labels offset))
Round-cases (failed kind) = inl (kind, refl)
Round-cases (goes_on d) = inr (inl (d, refl))
Round-cases (breaks labels offset) = inr (inr (labels, offset, refl))

-- With more fuel than is left to do, the loop ends by itself.
decode_loop-ends :
    (fuel : ℕ) (message : Bytes) (d : Decoder)
    → IsWithin d
    → left d < fuel
    → decode_loop fuel message d ≢ none
unfolding decode_loop
decode_loop-ends zero message d h enough = absurd (omega arith)
decode_loop-ends (suc fuel) message d h enough = elim (Round-cases (decode_round message d)) [
  | inl (kind, e) ↦ rw (e, decode_loop) (λ eq. cc)
  | inr (inl (d', e)) ↦
      let (h', less) = rw e at (decode_round-Descends message d h) in
      rw (e, decode_loop) (decode_loop-ends fuel message d' h' (omega arith))
  | inr (inr (labels, offset, e)) ↦ rw (e, decode_loop) (λ eq. cc)
]

-- Decoding a name ends, whatever the bytes are and wherever it starts: the loop's fuel, 288 rounds,
-- is never spent.
pub decode_loop-total :
    (message : Bytes) (offset : ℕ) → decode_loop decode_fuel message (start_at offset) ≢ none
decode_loop-total message offset =
    decode_loop-ends decode_fuel message (start_at offset)
      (record { hops_within = omega arith; bytes_within = omega arith }) (omega arith)
