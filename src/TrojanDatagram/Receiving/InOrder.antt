-- ===== src/TrojanDatagram/Receiving/InOrder.antt =====
-- Datagrams that come in pieces.
use commeatus.Prelude.{
  ◌≤◌, ◌≡◌, refl, sym, ap, ◌∙◌, inl, inr, Option, none, some, List, [], ◌∷◌, ◌++◌, Bytes, length,
  take, drop, Bool-cases, take-append, All,
}
use commeatus.Io.{Result, ok, err, unexpected_eof}
use commeatus.Target.{Target}
use commeatus.Datagram.{ReceivedDatagram}
use commeatus.TrojanDatagram.Receiving.Front.{Encodes, IsPartial, given, take_frame-Encodes}
use commeatus.TrojanDatagram.Receiving.Kept.{stream, Keeps, service_ready-Keeps}
use commeatus.TrojanDatagram.Receiving.{
  Execution, Calls, ◌>>=◌, lift, take_frame_step, at_end, with_output, continue, service_ready,
  receive,
}

-- The datagrams that a receive gives, as the caller's buffer holds them.
abbrev pub datagrams_of : Result (Option ReceivedDatagram × Bytes) → List (Target × Bytes)
datagrams_of (ok (some datagram, output)) = (datagram.source, take datagram.length output) ∷ []
datagrams_of (ok (none, output)) = []
datagrams_of (err kind) = []

-- A receive that says that there is nothing has not got the first frame whole.
abbrev pub Waits : Result (Option ReceivedDatagram × Bytes) → List (Target × Bytes) → Bytes → Type 0
Waits (ok (some datagram, output)) datagrams rx = Unit
Waits (ok (none, output)) datagrams rx = IsPartial datagrams rx
Waits (err kind) datagrams rx = Unit

-- What was given stood at the front, and the stream goes on behind it.
abbrev pub GoesOn :
    List (Target × Bytes) → Result (Option ReceivedDatagram × Bytes) → Execution → Type 0
GoesOn datagrams result e =
    (left : List (Target × Bytes)) × (datagrams ≡ datagrams_of result ++ left)
    × Encodes left (stream e)
    × Waits result left e.rx

abbrev gave :
    Result (Option ReceivedDatagram × Bytes)
    → Execution
    → Option (Result (Option ReceivedDatagram × Bytes) × Execution)
gave result e = some (result, e)

module _ (calls : Calls) (datagrams : List (Target × Bytes)) (output : Bytes)
    (room : All (λ d. length d.1 ≤ length output) datagrams)
    (result : Result (Option ReceivedDatagram × Bytes)) (e' : Execution) where
  -- From what a step gave.
  stays :
      (r : Result (Option ReceivedDatagram × Bytes)) (e₁ : Execution)
      → datagrams_of r ≡ []
      → Encodes datagrams (stream e₁)
      → Waits r datagrams e₁.rx
      → gave r e₁ ≡ gave result e'
      → GoesOn datagrams result e'
  stays r e₁ nothing h waits q =
      let same : r ≡ result = cc in
      let state : e₁ ≡ e' = cc in rw (← same, ← state, nothing) (datagrams, refl, h, waits)

  moves :
      (d : Target × Bytes) (left : List (Target × Bytes)) (rx : Bytes) (e : Execution)
      → datagrams ≡ d ∷ left
      → Encodes left (rx ++ e.plaintext)
      → gave
          (with_output (given d.0 d.1 output rx).1 (given d.0 d.1 output rx).0)
          (record e { rx = rx })
        ≡ gave result e'
      → GoesOn datagrams result e'
  moves d left rx e split later q =
      let same : with_output (given d.0 d.1 output rx).1 (given d.0 d.1 output rx).0 ≡ result =
        cc in
      let state : record e { rx = rx } ≡ e' = cc in
      let kept = take-append (length d.1) d.1 (drop (length d.1) output) refl in
      rw (← same, ← state) (left, split ∙ ap (λ l. (d.0, l) ∷ left) (sym kept), later, tt)

  at_end-GoesOn :
      (e : Execution)
      → Encodes datagrams (stream e)
      → (take_frame_step output >>= λ frame. lift (at_end calls.remote_eof frame)) e
        ≡ some (result, e')
      → GoesOn datagrams result e'
  unfolding take_frame_step
  at_end-GoesOn e h q = elim (take_frame-Encodes datagrams output e h room) [
    | inl (nothing, partial) ↦ elim (Bool-cases calls.remote_eof) [
      | inl over ↦ stays (err unexpected_eof) e refl h tt (rw (nothing, over) at q)
      | inr open_still ↦ stays (ok (none, output)) e refl h partial (rw (nothing, open_still) at q)
    ]
    | inr (d, left, rx, split, got, later) ↦ moves d left rx e split later (rw got at q)
  ]

  after_service-GoesOn :
      (e : Execution) (o : Option (Result (Unit {0}) × Execution))
      → Keeps e o
      → Encodes datagrams (stream e)
      → continue o (λ _. take_frame_step output >>= λ frame. lift (at_end calls.remote_eof frame))
        ≡ some (result, e')
      → GoesOn datagrams result e'
  after_service-GoesOn e none keeps h q = absurd (cc)
  after_service-GoesOn e (some (err kind, e₁)) keeps h q =
      stays (err kind) e₁ refl (rw keeps h) tt q
  after_service-GoesOn e (some (ok _, e₁)) keeps h q = at_end-GoesOn e₁ (rw keeps h) q

  -- A receive gives the first datagram or nothing: where the plaintext, what was received of it and
  -- what is yet to come, is the frames of some datagrams one behind the other, the datagram that a
  -- receive gives, if it does, is the first one, with source and payload, and what is left are the
  -- frames of the others; where it says that there is nothing yet, what it has received, its own
  -- reads included, does not hold the first frame. The buffer holds every payload.
  pub receive-GoesOn :
      (e : Execution)
      → Encodes datagrams (stream e)
      → receive calls output e ≡ some (result, e')
      → GoesOn datagrams result e'
  unfolding receive take_frame_step
  receive-GoesOn e h q = elim (take_frame-Encodes datagrams output e h room) [
    | inl (nothing, _) ↦
        after_service-GoesOn e (service_ready calls e) (service_ready-Keeps calls e) h
          (rw nothing at q)
    | inr (d, left, rx, split, got, later) ↦ moves d left rx e split later (rw got at q)
  ]
