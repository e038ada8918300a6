-- ===== src/TrojanDatagram/Frames.antt =====
-- Datagrams that arrive over the stream.
use commeatus.Prelude.{
  ◌≤◌, ◌≡◌, refl, false, some, ◌++◌, ltb, Bytes, length, drop, drop-append, not_below,
}
use commeatus.Io.{ok}
use commeatus.Target.{Target, IsTarget}
use commeatus.Trojan.{encode_udp_frame}
use commeatus.Trojan.RoundTrip.{parse_udp_frame-encode_udp_frame}
use commeatus.TrojanDatagram.{take_frame, give_frame}

-- Where a frame stands at the front of what was received, and the output buffer holds its payload,
-- the datagram is given, with its source, its payload in the buffer, and what stands behind the
-- frame is left for the next one, whatever it is.
pub take_frame-encode_udp_frame :
    (target : Target) (payload frame rest output : Bytes)
    → IsTarget target
    → encode_udp_frame target payload ≡ ok frame
    → length payload ≤ length output
    → take_frame (frame ++ rest) output ≡ (
      ok (some (record { source = target; length = length payload })),
      payload ++ drop (length payload) output,
      rest,
    )
unfolding take_frame give_frame
take_frame-encode_udp_frame target payload frame rest output h e room =
    let (r, parsed, source, body, size) =
      parse_udp_frame-encode_udp_frame target payload frame rest h e in
    let fits : ltb (length output) (length payload) ≡ false =
      not_below (length output) (length payload) room in
    let left : drop r.consumed (frame ++ rest) ≡ rest = drop-append r.consumed frame rest size in
    rw (parsed, take_frame, source, body, fits, left) refl
