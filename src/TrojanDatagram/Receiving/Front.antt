-- ===== src/TrojanDatagram/Receiving/Front.antt =====
-- The frame at the front of what was received.
use commeatus.Prelude.{
  ltb→lt, ◌<◌, ℕ, ◌≤◌, ◌≡◌, refl, sym, ap, ◌∙◌, ◌⊎◌, inl, inr, Option, none, some, List, [], ◌∷◌,
  ◌++◌, ltb, Bytes, length, take, drop, arith, Bool-cases, take-append, drop-append, take-append-le,
  drop-append-le, take-append-drop, length-append, All,
}
use commeatus.Io.{Result, ok}
use commeatus.Target.{Target, IsTarget}
use commeatus.Trojan.{encode_udp_frame, parse_udp_frame}
use commeatus.Trojan.Frame.{parse_udp_frame-take}
use commeatus.Trojan.RoundTrip.{parse_udp_frame-encode_udp_frame}
use commeatus.Datagram.{ReceivedDatagram}
use commeatus.TrojanDatagram.{take_frame}
use commeatus.TrojanDatagram.Frames.{take_frame-encode_udp_frame}
use commeatus.TrojanDatagram.Receiving.Kept.{stream}
use commeatus.TrojanDatagram.Receiving.{Execution}

-- Bytes that are the frames of some datagrams, one behind the other.
abbrev pub Encodes : List (Target × Bytes) → Bytes → Type 0
Encodes [] s = s ≡ []
Encodes ((target, payload) ∷ datagrams) s =
    (frame : Bytes) × (rest : Bytes) × IsTarget target
    × (encode_udp_frame target payload ≡ ok frame)
    × (s ≡ frame ++ rest)
    × Encodes datagrams rest

-- What was received does not hold the first frame.
abbrev pub IsPartial : List (Target × Bytes) → Bytes → Type 0
IsPartial [] rx = Unit
IsPartial ((target, payload) ∷ datagrams) rx =
    (frame : Bytes) → encode_udp_frame target payload ≡ ok frame → length rx < length frame

-- The datagram at the front, which the buffer holds.
abbrev pub given : Target → Bytes → Bytes → Bytes → Result (Option ReceivedDatagram) × Bytes × Bytes
given target payload output rx = (
  ok (some (record { source = target; length = length payload })),
  payload ++ drop (length payload) output,
  rx,
)

-- Of a stream that begins with a frame, what was received gives the datagram, if it holds the frame,
-- and nothing before.
take_frame-front :
    (target : Target) (payload frame rest rx plaintext output : Bytes)
    → IsTarget target
    → encode_udp_frame target payload ≡ ok frame
    → length payload ≤ length output
    → rx ++ plaintext ≡ frame ++ rest
    → (take_frame rx output ≡ (ok none, output, rx)) × (length rx < length frame)
      ⊎ ((left : Bytes) × (take_frame rx output ≡ given target payload output left)
          × (left ++ plaintext ≡ rest))
take_frame-front target payload frame rest rx plaintext output h e room same =
    elim (Bool-cases (ltb (length rx) (length frame))) [
      | inl short ↦
          let (r, parsed, _, _, size) =
            parse_udp_frame-encode_udp_frame target payload frame rest h e in
          let front : take (length rx) (frame ++ rest) ≡ rx =
            ap (take (length rx)) (sym same) ∙ take-append (length rx) rx plaintext refl in
          let inside = ap (length {A = ℕ}) same in
          let seen =
            parse_udp_frame-take (frame ++ rest) (length rx) r
              (omega (arith, inside, length-append rx plaintext)) parsed in
          let nothing : parse_udp_frame rx ≡ ok none =
            ap parse_udp_frame (sym front) ∙ seen ∙ rw (size, short) refl in
          inl (
            unfold take_frame in rw (nothing, take_frame) refl,
            ltb→lt (length rx) (length frame) short,
          )
      | inr long ↦
          let enough : length frame ≤ length rx = ground arith in
          let head : take (length frame) rx ≡ frame =
            sym (take-append-le (length frame) rx plaintext enough)
            ∙ ap (take (length frame)) same
            ∙ take-append (length frame) frame rest refl in
          let left = drop (length frame) rx in
          let whole : frame ++ left ≡ rx =
            ap (λ l. l ++ left) (sym head) ∙ take-append-drop (length frame) rx in
          let tail : left ++ plaintext ≡ rest =
            sym (drop-append-le (length frame) rx plaintext enough)
            ∙ ap (drop (length frame)) same
            ∙ drop-append (length frame) frame rest refl in
          inr (
            left,
            ap (λ l. take_frame l output) (sym whole)
                ∙ take_frame-encode_udp_frame target payload frame left output h e room,
            tail,
          )
    ]

append-eq-nil : (xs ys : Bytes) → xs ++ ys ≡ [] → xs ≡ []
append-eq-nil [] ys e = refl
append-eq-nil (x ∷ xs) ys e = cc

nothing_received : (output : Bytes) → take_frame [] output ≡ (ok none, output, [])
unfolding take_frame parse_udp_frame
nothing_received output = refl

pub take_frame-Encodes :
    (datagrams : List (Target × Bytes)) (output : Bytes) (e : Execution)
    → Encodes datagrams (stream e)
    → All (λ d. length d.1 ≤ length output) datagrams
    → (take_frame e.rx output ≡ (ok none, output, e.rx)) × IsPartial datagrams e.rx
      ⊎ ((d : Target × Bytes) × (left : List (Target × Bytes)) × (rx : Bytes) × (datagrams
            ≡ d ∷ left)
          × (take_frame e.rx output ≡ given d.0 d.1 output rx)
          × Encodes left (rx ++ e.plaintext))
take_frame-Encodes [] output e h room =
    let empty = append-eq-nil e.rx e.plaintext h in
    inl (
      ap (λ l. take_frame l output) empty
          ∙ nothing_received output
          ∙ ap (λ l. (ok none, output, l)) (sym empty),
      tt,
    )
take_frame-Encodes ((target, payload) ∷ left) output e
      (frame, rest, is_target, encoded, same, later) (here, room) =
    elim (take_frame-front target payload frame rest e.rx e.plaintext output is_target encoded here
      same) [
        | inl (nothing, short) ↦
            inl (
              nothing,
              λ frame' e'. let same_frame : frame ≡ frame' = cc in rw (← same_frame) short,
            )
        | inr (rx, got, tail) ↦ inr ((target, payload), left, rx, refl, got, rw tail later)
      ]
