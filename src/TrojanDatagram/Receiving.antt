-- ===== src/TrojanDatagram/Receiving.antt =====
-- crates/daemon/src/trojan_datagram.rs: the whole of an association, of which the parent module has
-- the sending part. Of the TLS session, the model has the plaintext that it is yet to give; what else
-- its calls give is an argument.
pub mod Kept
pub mod Front
pub mod InOrder
pub mod Runs
use commeatus.Prelude.{
  ℕ, ◌+◌, ◌-◌, ◌*◌, Bool, true, false, not, ◌||◌, Option, none, some, List, [], ◌∷◌, ◌++◌, leb,
  ◌==◌, if◌then◌else◌, Bytes, length, take, drop, get_or,
}
use Prim.Native.Nat.{min}
use commeatus.Io.{
  ErrorKind, invalid_input, invalid_data, unexpected_eof, would_block, interrupted, already_exists,
  other, Result, ok, err,
}
use commeatus.Target.{Target}
use commeatus.Trojan.{encode_udp_frame, encode_udp_associate_request}
use commeatus.Datagram.{ReceivedDatagram}
use commeatus.TrojanDatagram.{Sending, enqueue, drain_pending, take_frame}

abbrev pub max_rx_bytes : ℕ
max_rx_bytes = 128 * 1024

abbrev pub tls_plaintext_read_chunk : ℕ
tls_plaintext_read_chunk = 16 * 1024

-- `TrojanDatagramExecution`, with the plaintext that is yet to be read. Of the registry, only whether
-- there is one plays a part.
pub record Execution : Type 0 where
  pub sending : Sending
  pub rx : Bytes
  pub plaintext : Bytes
  pub registry : Bool
  pub token : Option ℕ

-- What the calls of the TLS session give: how much each write and each read takes, the others'
-- results, and whether the remote has closed.
pub record Calls : Type 0 where
  pub writes : List (Result ℕ)
  pub service_io : Result (Unit {0})
  pub later_writes : List (Result ℕ)
  pub reads : List (Result ℕ)
  pub refresh : Result (Unit {0})
  pub remote_eof : Bool

-- A step gives nothing where it waits for another result of a call.
abbrev pub Step : Type 0 → Type 0
Step Value = Execution → Option (Result Value × Execution)

abbrev pub continue :
    {A B : Type 0} → Option (Result A × Execution) → (A → Step B) → Option (Result B × Execution)
continue none next = none
continue (some (err kind, e)) next = some (err kind, e)
continue (some (ok value, e)) next = next value e

infixl 5 ◌>>=◌ ◌>>◌
abbrev pub ◌>>=◌ : {A B : Type 0} → Step A → (A → Step B) → Step B
(first >>= next) e = continue (first e) next

abbrev pub ◌>>◌ : {A B : Type 0} → Step A → Step B → Step B
(first >> next) e = continue (first e) (λ _. next)

abbrev pub lift : {A : Type 0} → Result A → Step A
lift result e = some (result, e)

abbrev pub drained : Option (Result (Unit {0}) × Sending) → Step (Unit {0})
drained none e = none
drained (some (result, sending)) e = some (result, record e { sending = sending })

unfoldable pub drain_step : List (Result ℕ) → Step (Unit {0})
drain_step writes e = drained (drain_pending writes e.sending) e

unfoldable pub enqueue_step : Bytes → Step (Unit {0})
enqueue_step bytes e =
    let (result, sending) = enqueue bytes e.sending in some (result, record e { sending = sending })

unfoldable pub refresh_readiness : Result (Unit {0}) → Step (Unit {0})
refresh_readiness refresh e = elim e.token [
  | some token ↦ some (if e.registry then refresh else err other, e)
  | none ↦ some (if e.registry then err other else ok tt, e)
]

-- The bytes that a call of `read_plaintext` gives, of those that there are and that the buffer takes.
abbrev pub read_count : ℕ → Bytes → Bytes → ℕ
read_count size rx plaintext =
    min (min size (min (max_rx_bytes - length rx) tls_plaintext_read_chunk)) (length plaintext)

-- The loop of `read_plaintext_into_rx`, on the results of its calls: what is in `rx`, and what is yet
-- to be read.
unfoldable pub read_into :
    List (Result ℕ) → Bytes → Bytes → Option (Result (Unit {0}) × Bytes × Bytes)
read_into [] rx plaintext =
    if leb max_rx_bytes (length rx) then some (err invalid_data, rx, plaintext) else none
read_into (ok size ∷ results) rx plaintext =
    let count = read_count size rx plaintext in
    let rest = read_into results (rx ++ take count plaintext) (drop count plaintext) in
    if leb max_rx_bytes (length rx)
    then some (err invalid_data, rx, plaintext)
    else if count == 0
    then some (ok tt, rx, plaintext)
    else rest
read_into (err would_block ∷ results) rx plaintext =
    some (if leb max_rx_bytes (length rx) then err invalid_data else ok tt, rx, plaintext)
read_into (err interrupted ∷ results) rx plaintext =
    let rest = read_into results rx plaintext in
    if leb max_rx_bytes (length rx) then some (err invalid_data, rx, plaintext) else rest
read_into (err kind ∷ results) rx plaintext =
    some (if leb max_rx_bytes (length rx) then err invalid_data else err kind, rx, plaintext)

abbrev pub after_read : Option (Result (Unit {0}) × Bytes × Bytes) → Step (Unit {0})
after_read none e = none
after_read (some (result, rx, plaintext)) e =
    some (result, record e { rx = rx; plaintext = plaintext })

unfoldable pub read_plaintext_into_rx : List (Result ℕ) → Step (Unit {0})
read_plaintext_into_rx reads e = after_read (read_into reads e.rx e.plaintext) e

unfoldable pub service_ready : Calls → Step (Unit {0})
service_ready calls = do
  drain_step calls.writes
  lift calls.service_io
  drain_step calls.later_writes
  read_plaintext_into_rx calls.reads
  refresh_readiness calls.refresh

abbrev pub with_output :
    Bytes → Result (Option ReceivedDatagram) → Result (Option ReceivedDatagram × Bytes)
with_output output (err kind) = err kind
with_output output (ok datagram) = ok (datagram, output)

-- `take_frame` on the association: the datagram, if there is one, and the output buffer.
unfoldable pub take_frame_step : Bytes → Step (Option ReceivedDatagram × Bytes)
take_frame_step output e =
    let (result, output', rx) = take_frame e.rx output in
    some (with_output output' result, record e { rx = rx })

-- The end of `receive`, with what the second `take_frame` gave.
abbrev pub at_end :
    Bool → Option ReceivedDatagram × Bytes → Result (Option ReceivedDatagram × Bytes)
at_end remote_eof (some frame, output) = ok (some frame, output)
at_end remote_eof (none, output) = if remote_eof then err unexpected_eof else ok (none, output)

abbrev pub after_take :
    Calls → Option ReceivedDatagram × Bytes → Step (Option ReceivedDatagram × Bytes)
after_take calls (some frame, output) = lift (ok (some frame, output))
after_take calls (none, output) = do
  service_ready calls
  frame ← take_frame_step output
  lift (at_end calls.remote_eof frame)

unfoldable pub receive : Calls → Bytes → Step (Option ReceivedDatagram × Bytes)
receive calls output = take_frame_step output >>= after_take calls

-- With what the drain's writes and the refreshing give.
unfoldable pub send : Target → Bytes → List (Result ℕ) → Result (Unit {0}) → Step (Unit {0})
send target payload writes refresh = do
  frame ← lift (encode_udp_frame target payload)
  enqueue_step frame
  drain_step writes
  refresh_readiness refresh

-- `OutboundDatagramProvider::open`, on a session that is connected, with the plaintext that it is
-- going to give.
unfoldable pub open_execution :
    Bytes → Bytes → List (Result ℕ) → Option (Result (Unit {0}) × Execution)
open_execution verifier plaintext writes =
    (do enqueue_step (encode_udp_associate_request verifier); drain_step writes)
      (record {
        sending = record { taken = []; pending = []; pending_bytes = 0 };
        rx = [];
        plaintext = plaintext;
        registry = false;
        token = none;
      })

abbrev pub has_token : Option ℕ → Bool
has_token none = false
has_token (some _) = true

-- With what the cloning of the registry and the registration of the session give.
unfoldable pub register_readiness : List ℕ → Result (Unit {0}) → Result (Unit {0}) → Step (Unit {0})
register_readiness tokens cloned registered e =
    if not (length tokens == 1)
    then some (err invalid_input, e)
    else if e.registry || has_token e.token
    then some (err already_exists, e)
    else (do
      lift cloned
      lift registered
      λ e. some (ok tt, record e { registry = true; token = some (get_or tokens 0 0) }))
        e
