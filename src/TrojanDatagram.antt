-- ===== src/TrojanDatagram.antt =====
-- crates/daemon/src/trojan_datagram.rs: datagrams over a Trojan stream. Of the TLS session, the model
-- has the plaintext that it took; what its calls give is an argument.
pub mod Frames
pub mod Order
pub mod Sent
pub mod Receiving
use commeatus.Prelude.{
  ℕ, ◌+◌, ◌-◌, ◌*◌, ◌^◌, Bool, true, false, Option, none, some, List, [], ◌∷◌, ◌++◌, ltb, leb, ◌==◌,
  if◌then◌else◌, Bytes, length, take, drop,
}
use Prim.Native.Nat.{min}
use commeatus.Text.Hostname.{is_empty}
use commeatus.Io.{
  invalid_input, quota_exceeded, out_of_memory, would_block, interrupted, write_zero, Result, ok,
  err,
}
use commeatus.Target.{Target, slice}
use commeatus.Trojan.{encode_udp_frame, parse_udp_frame, ParsedUdpFrame}
use commeatus.Datagram.{ReceivedDatagram}

abbrev pub max_pending_frames : ℕ
max_pending_frames = 64

abbrev pub max_pending_bytes : ℕ
max_pending_bytes = 512 * 1024

pub record PendingFrame : Type 0 where
  pub bytes : Bytes
  pub offset : ℕ

-- The part of `TrojanDatagramExecution` that sends: what TLS took, and what is yet to be given to it.
pub record Sending : Type 0 where
  pub taken : Bytes
  pub pending : List PendingFrame
  pub pending_bytes : ℕ

unfoldable pub enqueue : Bytes → Sending → Result (Unit {0}) × Sending
enqueue bytes s =
    let next = s.pending_bytes + length bytes in
    if leb max_pending_frames (length s.pending)
    then (err quota_exceeded, s)
    else if leb (2 ^ 64) next
    then (err out_of_memory, s)
    else if ltb max_pending_bytes next
    then (err quota_exceeded, s)
    else (
      ok tt,
      record s {
        pending = s.pending ++ (record { bytes = bytes; offset = 0 } ∷ []);
        pending_bytes = next;
      },
    )

-- `&frame.bytes[frame.offset..]`
abbrev pub remaining : PendingFrame → Bytes
remaining frame = drop frame.offset frame.bytes

-- The loop of `drain_pending`, on the results of `write_plaintext`, call by call: how much it would
-- take, of which it takes what it is given, or its error. `none` where it waits for another result.
unfoldable pub drain :
    List (Result ℕ) → List PendingFrame → Bytes → ℕ → Option (Result (Unit {0}) × Sending)
drain results [] taken count =
    some (ok tt, record { taken = taken; pending = []; pending_bytes = count })
drain [] (frame ∷ pending) taken count =
    let popped = drain [] pending taken count in if is_empty (remaining frame) then popped else none
drain (ok room ∷ results) (frame ∷ pending) taken count =
    let popped = drain (ok room ∷ results) pending taken count in
    let written = min room (length (remaining frame)) in
    let after = taken ++ take written (remaining frame) in
    let offset = frame.offset + written in
    let whole = drain results pending after (count - written) in
    let partial =
      drain results (record frame { offset = offset } ∷ pending) after (count - written) in
    if is_empty (remaining frame)
    then popped
    else if written == 0
    then some
        (err write_zero, record { taken = taken; pending = frame ∷ pending; pending_bytes = count })
    else if offset == length frame.bytes
    then whole
    else partial
drain (err would_block ∷ results) (frame ∷ pending) taken count =
    let popped = drain (err would_block ∷ results) pending taken count in
    if is_empty (remaining frame)
    then popped
    else some (ok tt, record { taken = taken; pending = frame ∷ pending; pending_bytes = count })
drain (err interrupted ∷ results) (frame ∷ pending) taken count =
    let popped = drain (err interrupted ∷ results) pending taken count in
    let again = drain results (frame ∷ pending) taken count in
    if is_empty (remaining frame) then popped else again
drain (err kind ∷ results) (frame ∷ pending) taken count =
    let popped = drain (err kind ∷ results) pending taken count in
    if is_empty (remaining frame)
    then popped
    else some (err kind, record { taken = taken; pending = frame ∷ pending; pending_bytes = count })

unfoldable pub drain_pending : List (Result ℕ) → Sending → Option (Result (Unit {0}) × Sending)
drain_pending results s = drain results s.pending s.taken s.pending_bytes

-- `take_frame`: the result, the output buffer, and the bytes that are left of `rx`.
unfoldable pub give_frame :
    Bytes → Bytes → ParsedUdpFrame → Result (Option ReceivedDatagram) × Bytes × Bytes
give_frame rx output frame =
    let payload = slice rx frame.payload_start frame.payload_end in
    if ltb (length output) (length payload) then (err invalid_input, output, rx) else (
      ok (some (record { source = frame.source; length = length payload })),
      payload ++ drop (length payload) output,
      drop frame.consumed rx,
    )

unfoldable pub take_frame : Bytes → Bytes → Result (Option ReceivedDatagram) × Bytes × Bytes
take_frame rx output = elim (parse_udp_frame rx) [
  | err kind ↦ (err kind, output, rx)
  | ok none ↦ (ok none, output, rx)
  | ok (some frame) ↦ give_frame rx output frame
]
