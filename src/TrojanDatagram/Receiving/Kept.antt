-- ===== src/TrojanDatagram/Receiving/Kept.antt =====
-- What is between the plaintext of TLS and the datagrams is neither lost nor made up.
use commeatus.Prelude.{
  ℕ, ◌≡◌, refl, ap, ◌∙◌, Bool, true, false, Option, none, some, List, [], ◌∷◌, ◌++◌, append_assoc,
  leb, ◌==◌, if◌then◌else◌, Bytes, length, take, drop, take-append-drop,
}
use commeatus.Io.{Result, ok, err, would_block, interrupted}
use commeatus.Target.{Target}
use commeatus.Trojan.{encode_udp_frame}
use commeatus.TrojanDatagram.{Sending}
use commeatus.TrojanDatagram.Receiving.{
  Execution, Calls, Step, drained, after_read, continue, read_into, read_count, max_rx_bytes,
  drain_step, enqueue_step, refresh_readiness, read_plaintext_into_rx, service_ready, send,
}

-- What was received and is not given yet, and what is yet to come.
abbrev pub stream : Execution → Bytes
stream e = e.rx ++ e.plaintext

-- A step that gives a state leaves the stream as it is.
abbrev pub Keeps : {A : Type 0} → Execution → Option (Result A × Execution) → Type 0
Keeps e none = Unit
Keeps e (some (result, e')) = stream e' ≡ stream e

Keeps-eq :
    {A : Type 0} (e e' : Execution) (o : Option (Result A × Execution))
    → stream e' ≡ stream e
    → Keeps e' o
    → Keeps e o
Keeps-eq e e' none same h = tt
Keeps-eq e e' (some (result, e'')) same h = h ∙ same

pub Keeps-continue :
    {A B : Type 0} (e : Execution) (o : Option (Result A × Execution)) (next : A → Step B)
    → Keeps e o
    → ((value : A) (e' : Execution) → Keeps e' (next value e'))
    → Keeps e (continue o next)
Keeps-continue e none next h later = tt
Keeps-continue e (some (err kind, e')) next h later = h
Keeps-continue e (some (ok value, e')) next h later =
    Keeps-eq e e' (next value e') h (later value e')

abbrev KeepsRead : Bytes → Option (Result (Unit {0}) × Bytes × Bytes) → Type 0
KeepsRead s none = Unit
KeepsRead s (some (result, rx, plaintext)) = rx ++ plaintext ≡ s

KeepsRead-if :
    (s : Bytes) (test : Bool) (o o' : Option (Result (Unit {0}) × Bytes × Bytes))
    → KeepsRead s o
    → KeepsRead s o'
    → KeepsRead s (if test then o else o')
KeepsRead-if s true o o' h h' = h
KeepsRead-if s false o o' h h' = h'

read_into-KeepsRead :
    (reads : List (Result ℕ)) (s rx plaintext : Bytes)
    → rx ++ plaintext ≡ s
    → KeepsRead s (read_into reads rx plaintext)
unfolding read_into
read_into-KeepsRead [] s rx plaintext h = KeepsRead-if s (leb max_rx_bytes (length rx)) _ _ h tt
read_into-KeepsRead (ok size ∷ reads) s rx plaintext h =
    let count = read_count size rx plaintext in
    let joined =
      append_assoc rx (take count plaintext) (drop count plaintext)
      ∙ ap (λ l. rx ++ l) (take-append-drop count plaintext) in
    KeepsRead-if s (leb max_rx_bytes (length rx)) _ _ h (
      KeepsRead-if s (count == 0) _ _ h (
        read_into-KeepsRead reads s (rx ++ take count plaintext) (drop count plaintext)
          (joined ∙ h)))
read_into-KeepsRead (err would_block ∷ reads) s rx plaintext h = h
read_into-KeepsRead (err interrupted ∷ reads) s rx plaintext h =
    KeepsRead-if s (leb max_rx_bytes (length rx)) _ _ h (read_into-KeepsRead reads s rx plaintext h)
read_into-KeepsRead (err kind ∷ reads) s rx plaintext h = h

pub drained-Keeps :
    (e : Execution) (o : Option (Result (Unit {0}) × Sending)) → Keeps e (drained o e)
drained-Keeps e none = tt
drained-Keeps e (some (result, sending)) = refl

after_read-Keeps :
    (e : Execution) (o : Option (Result (Unit {0}) × Bytes × Bytes))
    → KeepsRead (stream e) o
    → Keeps e (after_read o e)
after_read-Keeps e none h = tt
after_read-Keeps e (some (result, rx, plaintext)) h = h

pub refresh_readiness-Keeps :
    (refresh : Result (Unit {0})) (token : Option ℕ) (e : Execution)
    → Keeps e (refresh_readiness refresh (record e { token = token }))
unfolding refresh_readiness
refresh_readiness-Keeps refresh none e = refl
refresh_readiness-Keeps refresh (some token) e = refl

pub service_ready-Keeps : (calls : Calls) (e : Execution) → Keeps e (service_ready calls e)
unfolding service_ready drain_step read_plaintext_into_rx
service_ready-Keeps calls e = Keeps-continue e _ _ (drained-Keeps e _) (λ _ e₁.
    Keeps-continue e₁ (some (calls.service_io, e₁)) _ refl (λ _ e₂.
      Keeps-continue e₂ _ _ (drained-Keeps e₂ _) (λ _ e₃.
        Keeps-continue e₃ _ _
          (after_read-Keeps e₃ _
            (read_into-KeepsRead calls.reads (stream e₃) e₃.rx e₃.plaintext refl))
          (λ _ e₄. refresh_readiness-Keeps calls.refresh e₄.token e₄))))

-- A send leaves the stream as it is.
pub send-Keeps :
    (target : Target) (payload : Bytes) (writes : List (Result ℕ)) (refresh : Result (Unit {0}))
    (e : Execution)
    → Keeps e (send target payload writes refresh e)
unfolding send enqueue_step drain_step
send-Keeps target payload writes refresh e =
    Keeps-continue e (some (encode_udp_frame target payload, e)) _ refl (λ frame e₁.
      Keeps-continue e₁ (enqueue_step frame e₁) _ refl (λ _ e₂.
        Keeps-continue e₂ _ _ (drained-Keeps e₂ _)
          (λ _ e₃. refresh_readiness-Keeps refresh e₃.token e₃)))
