-- ===== src/Tests/TrojanStream.antt =====
-- Frames that a stream takes in pieces.
use commeatus.Prelude.{◌≡◌, refl, some, [], ◌∷◌, bytes}
use commeatus.Io.{ok, err, would_block}
use commeatus.TrojanDatagram.{Sending, enqueue, drain, drain_pending}
use commeatus.TrojanDatagram.Sent.{
  opened, accepted, drained, nothing_sent, IsOrdered, Sends-IsOrdered,
}

abbrev queued : Sending
queued = record {
  taken = [];
  pending = record { bytes = bytes "hello"; offset = 0 } ∷ [];
  pending_bytes = 5;
}

abbrev half : Sending
half = record {
  taken = bytes "he";
  pending = record { bytes = bytes "hello"; offset = 2 } ∷ [];
  pending_bytes = 3;
}

enqueued : enqueue (bytes "hello") nothing_sent ≡ (ok tt, queued)
unfolding enqueue
enqueued = refl

half_taken : drain_pending (ok 2 ∷ err would_block ∷ []) queued ≡ some (ok tt, half)
unfolding drain_pending drain
half_taken = refl

Sends-IsOrdered_example : IsOrdered (bytes "hello") half
Sends-IsOrdered_example = Sends-IsOrdered (
    drained (bytes "hello") (ok 2 ∷ err would_block ∷ []) (ok tt) queued half
      (accepted [] (bytes "hello") nothing_sent queued opened enqueued) half_taken)
