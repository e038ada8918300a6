-- ===== src/Dns/Dot/Recovers.antt =====
-- A connection that went stale is made anew, and the messages on it are framed by their length.
use commeatus.Prelude.{
  ℕ, ◌+◌, ◌≤◌, ◌≡◌, refl, sym, ◌⊎◌, inl, inr, false, none, some, [], ◌++◌, append_assoc, ltb, Bytes,
  length, arith, not_below,
}
use commeatus.Text.{to_be_bytes, from_be_bytes}
use commeatus.Text.Bigend.{length-to_be_bytes, from_be_bytes-to_be_bytes}
use commeatus.Io
use commeatus.Io.{ErrorKind, Result}
use commeatus.Stream.{ByteStream, working, read_exact-append, write_all, flush}
use commeatus.Dns.Answer.{ok}
use commeatus.Dns.Dot.{DotResolver, exchange_message, talk, connect, attempt, exchange}

-- A message behind its length.
abbrev pub framed : Bytes → Bytes
framed message = to_be_bytes 2 (length message) ++ message

pub exchange_message-framed :
    (request response rest output : Bytes) (ended : ErrorKind)
    → length request ≤ 65535
    → 12 ≤ length response
    → length response ≤ 65535
    → exchange_message request (working ended (framed response ++ rest) output)
      ≡ (Io.ok response, working ended rest (output ++ framed request))
unfolding exchange_message write_all flush
exchange_message-framed request response rest output ended fits header small =
    let count = to_be_bytes 2 (length response) in
    let room : ltb 65535 (length request) ≡ false = not_below 65535 (length request) fits in
    let long : ltb (length response) 12 ≡ false = not_below (length response) 12 header in
    let sent = output ++ framed request in
    let first =
      read_exact-append 2 ended count (response ++ rest) sent
        (sym (length-to_be_bytes 2 (length response))) in
    let size : from_be_bytes count ≡ length response =
      from_be_bytes-to_be_bytes 2 (length response) (omega arith) in
    let second = read_exact-append (length response) ended response rest sent refl in
    rw (room, append_assoc count response rest, first, size, long, second) refl

-- The session that is kept, if any, is of no use for the request.
abbrev pub IsLost : Bytes → DotResolver → Type 0
IsLost request s =
    (s.session ≡ none)
    ⊎ ((session : ByteStream) × (kind : ErrorKind) × (after : ByteStream) × (s.session
          ≡ some session)
        × (exchange_message request session ≡ (Io.err kind, after)))

module _ (connector : ℕ → Result ByteStream) where
  -- A request is answered although the kept session is lost, or there is none, if the next
  -- connection takes it and brings a response of 12 to 65535 bytes behind its length: the response
  -- is given, exactly the framed request was sent, what follows the response stays unread, and the
  -- new session is kept, after one call of the connector.
  pub exchange-framed :
      (s : DotResolver) (request response rest : Bytes) (ended : ErrorKind)
      → IsLost request s
      → length request ≤ 65535
      → 12 ≤ length response
      → length response ≤ 65535
      → connector s.connects ≡ Io.ok (working ended (framed response ++ rest) [])
      → exchange connector request s ≡ (
        ok response,
        record s {
          session = some (working ended rest (framed request));
          connects = s.connects + 1;
        },
      )
  unfolding exchange attempt talk connect
  exchange-framed s request response rest ended (inl e) fits header small next =
      let answered = exchange_message-framed request response rest [] ended fits header small in
      rw (e, next, connect, answered, talk) refl
  exchange-framed s request response rest ended (inr (session, kind, after, e, lost)) fits header
        small next =
      let answered = exchange_message-framed request response rest [] ended fits header small in
      rw (e, lost, talk, next, connect, answered, talk) refl

  -- Whatever the sessions and the connector do, one exchange calls the connector at most twice.
  pub exchange-connects :
      (s : DotResolver) (request : Bytes)
      → (exchange connector request s).1.connects ≤ s.connects + 2
  unfolding exchange attempt talk connect
  exchange-connects s request = ground arith
