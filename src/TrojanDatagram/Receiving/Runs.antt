-- ===== src/TrojanDatagram/Receiving/Runs.antt =====
-- The datagrams of an association over any of its receives and sends.
use commeatus.Prelude.{
  ℕ, ◌≤◌, ◌≡◌, refl, sym, ap, ◌∙◌, Option, none, some, Option-cases, inl, inr, List, [], ◌∷◌, ◌++◌,
  append_assoc, Bytes, length, arith, All, All-map,
}
use commeatus.Io.{Result}
use commeatus.Target.{Target}
use commeatus.TrojanDatagram.Receiving.{Execution, Calls, receive, send}
use commeatus.TrojanDatagram.Receiving.Kept.{stream, send-Keeps}
use commeatus.TrojanDatagram.Receiving.InOrder.{datagrams_of, receive-GoesOn}
use commeatus.TrojanDatagram.Receiving.Front.{Encodes}

-- A receive into a buffer, or a send, with what the calls below them give.
pub data Event : Type 0 where
  receiving : Calls → Bytes → Event
  sending : Target → Bytes → List (Result ℕ) → Result (Unit {0}) → Event

abbrev prepend :
    List (Target × Bytes)
    → Option (List (Target × Bytes) × Execution)
    → Option (List (Target × Bytes) × Execution)
prepend datagrams none = none
prepend datagrams (some (later, e)) = some (datagrams ++ later, e)

abbrev follow :
    {A : Type 0}
    → (A → List (Target × Bytes))
    → (Execution → Option (List (Target × Bytes) × Execution))
    → Option (A × Execution)
    → Option (List (Target × Bytes) × Execution)
follow of_result later none = none
follow of_result later (some (result, e)) = prepend (of_result result) (later e)

-- The datagrams that all the receives give, and the association after them.
unfoldable pub run : List Event → Execution → Option (List (Target × Bytes) × Execution)
run [] e = some ([], e)
run (receiving calls output ∷ events) e = follow datagrams_of (run events) (receive calls output e)
run (sending target payload writes refresh ∷ events) e =
    follow (λ _. []) (run events) (send target payload writes refresh e)

-- A receive's buffer holds a payload of a size.
abbrev pub HasRoom : ℕ → Event → Type 0
HasRoom size (receiving calls output) = size ≤ length output
HasRoom size (sending target payload writes refresh) = Unit

All-behind :
    (P : Target × Bytes → Type 0) (front back : List (Target × Bytes))
    → All P (front ++ back)
    → All P back
All-behind P [] back h = h
All-behind P (d ∷ front) back h = All-behind P front back h.1

prepend-eq-some :
    (datagrams given : List (Target × Bytes)) (o : Option (List (Target × Bytes) × Execution))
    (e' : Execution)
    → prepend datagrams o ≡ some (given, e')
    → (later : List (Target × Bytes)) × (o ≡ some (later, e')) × (given ≡ datagrams ++ later)
prepend-eq-some datagrams given none e' q = cc
prepend-eq-some datagrams given (some (later, e)) e' q =
    let state : e ≡ e' = cc in (later, ap (λ k. some (later, k)) state, cc)

-- Datagrams come in order and whole: where the plaintext of the session, what was received of it and
-- what is yet to come, is the frames of some datagrams one behind the other, then whatever receives
-- and sends there are, in whatever pieces the plaintext comes and whatever errors the calls give, the
-- datagrams that the receives give are the first ones, each once, in their order, with source and
-- payload, and what is left of the plaintext is the frames of the others. Every buffer of a receive
-- holds every payload.
pub run-Encodes :
    (size : ℕ) (events : List Event) (datagrams given : List (Target × Bytes)) (e e' : Execution)
    → Encodes datagrams (stream e)
    → All (λ d. length d.1 ≤ size) datagrams
    → All (HasRoom size) events
    → run events e ≡ some (given, e')
    → (left : List (Target × Bytes)) × (datagrams ≡ given ++ left) × Encodes left (stream e')
unfolding run
run-Encodes size [] datagrams given e e' h small room q =
    let state : e ≡ e' = cc in
    let none_given : [] ≡ given = cc in rw (← state, ← none_given) (datagrams, refl, h)
run-Encodes size (receiving calls output ∷ events) datagrams given e e' h small (holds, room) q =
    elim (Option-cases (receive calls output e)) [
      | inl nothing ↦ absurd (cc (rw nothing at q))
      | inr ((result, e₁), found) ↦
          let (later, ran, joined) =
            prepend-eq-some (datagrams_of result) given (run events e₁) e' (rw found at q) in
          let fits = All-map datagrams (λ d (k : length d.1 ≤ size). omega arith) small in
          let (left, split, rest, _) =
            receive-GoesOn calls datagrams output fits result e₁ e h found in
          let small' =
            All-behind (λ d. length d.1 ≤ size) (datagrams_of result) left (rw split at small) in
          let (left', split', rest') =
            run-Encodes size events left later e₁ e' rest small' room ran in
          (
            left',
            split
                ∙ ap (λ l. datagrams_of result ++ l) split'
                ∙ sym (append_assoc (datagrams_of result) later left')
                ∙ ap (λ l. l ++ left') (sym joined),
            rest',
          )
    ]
run-Encodes size (sending target payload writes refresh ∷ events) datagrams given e e' h small
      (_, room) q =
    let keeps = send-Keeps target payload writes refresh e in
    elim (Option-cases (send target payload writes refresh e)) [
      | inl nothing ↦ absurd (cc (rw nothing at q))
      | inr ((result, e₁), found) ↦
          let (later, ran, joined) = prepend-eq-some [] given (run events e₁) e' (rw found at q) in
          let same : stream e₁ ≡ stream e = rw found at keeps in
          let (left, split, rest) =
            run-Encodes size events datagrams later e₁ e' (rw same h) small room ran in
          (left, split ∙ ap (λ l. l ++ left) (sym joined), rest)
    ]
