-- ===== src/TrojanDatagram/Sent.antt =====
-- The stream that a Trojan association writes over its life.
use commeatus.Prelude.{
  ℕ, ◌+◌, ◌*◌, ◌^◌, ◌≤◌, ◌≡◌, refl, sym, ap, ◌∙◌, false, some, List, [], ◌∷◌, ◌++◌, ltb, leb, Bytes,
  length, arith, Bool-cases, inl, inr, append_assoc, append-nil, length-append, not_within,
}
use commeatus.Io.{Result, ok}
use commeatus.TrojanDatagram.{PendingFrame, Sending, enqueue, remaining, drain_pending}
use commeatus.TrojanDatagram.Order.{waiting, drain-IsKept}

abbrev pub nothing_sent : Sending
nothing_sent = record { taken = []; pending = []; pending_bytes = 0 }

-- The states that an association comes to, with the bytes of the frames that were accepted so far.
pub data Sends : Bytes → Sending → Type 0 where
  opened : Sends [] nothing_sent
  accepted :
      (sent bytes : Bytes) (s after : Sending)
      → Sends sent s
      → enqueue bytes s ≡ (ok tt, after)
      → Sends (sent ++ bytes) after
  drained :
      (sent : Bytes) (results : List (Result ℕ)) (r : Result (Unit {0})) (s after : Sending)
      → Sends sent s
      → drain_pending results s ≡ some (r, after)
      → Sends sent after

pub record IsOrdered (sent : Bytes) (s : Sending) : Type 0 where
  pub whole : s.taken ++ waiting s.pending ≡ sent
  pub counted : s.pending_bytes ≡ length (waiting s.pending)
  pub frames : length s.pending ≤ 64
  pub small : s.pending_bytes ≤ 512 * 1024

waiting-append :
    (pending : List PendingFrame) (bytes : Bytes)
    → waiting (pending ++ (record { bytes = bytes; offset = 0 } ∷ [])) ≡ waiting pending ++ bytes
unfolding waiting
waiting-append [] bytes = append-nil bytes
waiting-append (frame ∷ pending) bytes =
    ap (◌++◌ (remaining frame)) (waiting-append pending bytes)
    ∙ sym (append_assoc (remaining frame) (waiting pending) bytes)

enqueue-IsOrdered :
    (sent bytes : Bytes) (s after : Sending)
    → enqueue bytes s ≡ (ok tt, after)
    → IsOrdered sent s
    → IsOrdered (sent ++ bytes) after
unfolding enqueue
enqueue-IsOrdered sent bytes s after e h =
    let next = s.pending_bytes + length bytes in
    let frame : PendingFrame = record { bytes = bytes; offset = 0 } in
    elim (Bool-cases (leb 64 (length s.pending))) [
      | inl full ↦ absurd (cc (rw full at e))
      | inr room ↦ elim (Bool-cases (leb (2 ^ 64) next)) [
        | inl over ↦ absurd (cc (rw (room, over) at e))
        | inr fits ↦ elim (Bool-cases (ltb (512 * 1024) next)) [
          | inl big ↦ absurd (cc (rw (room, fits, big) at e))
          | inr small ↦
              let queued : Sending = record s {
                pending = s.pending ++ (frame ∷ []);
                pending_bytes = next;
              } in
              let made : (ok tt, queued) ≡ (ok tt, after) = rw (room, fits, small) at e in
              let same : queued ≡ after = ap (λ (x : Result (Unit {0}) × Sending). x.1) made in
              let shape = waiting-append s.pending bytes in
              rw (← same) (record {
                whole =
                    ap (◌++◌ s.taken) shape
                    ∙ sym (append_assoc s.taken (waiting s.pending) bytes)
                    ∙ ap (λ (b : Bytes). b ++ bytes) h.whole;
                counted =
                    omega
                      (arith, h.counted, length-append (waiting s.pending) bytes, ap length shape);
                frames = omega (
                  arith,
                  length-append s.pending (frame ∷ []),
                  not_within 64 (length s.pending) room,
                );
                small = not_over next small;
              })
        ]
      ]
    ]
  where
    not_over : (n : ℕ) → ltb (512 * 1024) n ≡ false → n ≤ 512 * 1024
    not_over n e = ground arith

-- Over the life of an association, whatever frames it accepts and however the stream takes them, in
-- however many pieces: what the stream has taken and what waits for it are together the accepted
-- frames, whole and in their order; the count of the waiting bytes is exact; and at most 64 frames
-- and 512 KiB wait.
pub Sends-IsOrdered : {sent : Bytes} {s : Sending} → Sends sent s → IsOrdered sent s
unfolding waiting drain_pending
Sends-IsOrdered (opened) = record {
  whole = refl;
  counted = refl;
  frames = omega arith;
  small = omega arith;
}
Sends-IsOrdered (accepted sent bytes s after path e) =
    enqueue-IsOrdered sent bytes s after e (Sends-IsOrdered path)
Sends-IsOrdered (drained sent results r s after path e) =
    let h = Sends-IsOrdered path in
    let kept = drain-IsKept results s.pending s.taken s.pending_bytes r after h.counted e in
    record {
      whole = kept.whole ∙ h.whole;
      counted = kept.counted;
      frames = omega (arith, kept.fewer, h.frames);
      small = omega (arith, kept.counted, kept.less, h.counted, h.small);
    }
