-- ===== src/Dns/Dot.antt =====
-- crates/dns/src/dot.rs: DNS over a stream that TLS protects. A session is a byte stream. The
-- connector is the function that gives what its n-th call gives.
pub mod Recovers
use commeatus.Prelude.{
  ℕ, zero, suc, ◌+◌, ◌%◌, ◌^◌, Bool, true, false, Option, none, some, List, [], ◌∷◌, ◌++◌, ltb,
  if◌then◌else◌, Bytes, length, any,
}
use Prim.Native.Nat.{min}
use commeatus.Text.{to_be_bytes, from_be_bytes}
use commeatus.Io
use commeatus.Io.{Result, invalid_input, invalid_data}
use commeatus.Ip.{IpAddr, ip_eq}
use commeatus.Stream.{ByteStream, Exchange, ◌>>=◌, ◌>>◌, refuse_if, read_exact, write_all, flush}
use commeatus.Dns.Answer
use commeatus.Dns.Answer.{
  DnsErrorKind, no_records, resolver_failure, invalid_response, DnsResult, ok, err, DnsAnswer,
  new_answer, no_addresses, push_new,
}
use commeatus.Dns.Records.{AddressRecordType, a, aaaa}
use commeatus.Dns.Message.{encode_address_query, parse_address_response}

abbrev pub dns_header_bytes : ℕ
dns_header_bytes = 12

abbrev pub dot_connect_attempts : ℕ
dot_connect_attempts = 2

unfoldable pub exchange_message : Bytes → Exchange Bytes
exchange_message request = do
  refuse_if (ltb 65535 (length request)) invalid_input
  write_all (to_be_bytes 2 (length request) ++ request)
  flush
  prefix ← read_exact 2
  refuse_if (ltb (from_be_bytes prefix) dns_header_bytes) invalid_data
  read_exact (from_be_bytes prefix)

-- The resolver's state: the session, with how often the connector was called, and the next id.
pub record DotResolver : Type 0 where
  pub session : Option ByteStream
  pub connects : ℕ
  pub next_id : ℕ

-- `DotResolver::with_connector`
abbrev pub with_connector : DotResolver
with_connector = record { session = none; connects = 0; next_id = 1 }

-- What one exchange on a session leads to: its response, or another attempt without the session.
unfoldable pub talk :
    (DotResolver → DnsResult Bytes × DotResolver)
    → Result Bytes × ByteStream
    → DotResolver
    → DnsResult Bytes × DotResolver
talk retry (Io.ok response, session) s = (ok response, record s { session = some session })
talk retry (Io.err _, session) s = retry (record s { session = none })

unfoldable pub connect :
    (DotResolver → DnsResult Bytes × DotResolver)
    → Bytes
    → Result ByteStream
    → DotResolver
    → DnsResult Bytes × DotResolver
connect retry request (Io.err _) s = retry (record s { connects = s.connects + 1 })
connect retry request (Io.ok session) s =
    talk retry (exchange_message request session) (record s { connects = s.connects + 1 })

-- A malformed response ends the session.
unfoldable pub accept : DnsResult DnsAnswer → DotResolver → DnsResult DnsAnswer × DotResolver
accept (ok answer) s = (ok answer, s)
accept (err invalid_response) s = (err invalid_response, record s { session = none })
accept (err kind) s = (err kind, s)

unfoldable pub parse_exchanged :
    ℕ
    → Bytes
    → AddressRecordType
    → DnsResult Bytes × DotResolver
    → DnsResult DnsAnswer × DotResolver
parse_exchanged id name record_type (err kind, s) = (err kind, s)
parse_exchanged id name record_type (ok response, s) =
    accept (parse_address_response id name record_type response) s

-- The addresses and the time to live so far, and the last error.
pub record Gathered : Type 0 where
  pub addresses : List IpAddr
  pub ttl : Option ℕ
  pub last_error : DnsErrorKind

unfoldable pub min_ttl : Option ℕ → Option ℕ → Option ℕ
min_ttl ttl none = ttl
min_ttl none (some t) = some t
min_ttl (some current) (some t) = some (min current t)

unfoldable pub gather : DnsResult DnsAnswer → Gathered → Gathered
gather (ok answer) g = record g {
  addresses = push_new g.addresses answer.addresses;
  ttl = min_ttl g.ttl answer.ttl;
}
gather (err kind) g = record g { last_error = kind }

unfoldable pub answer_of : Gathered → DnsResult DnsAnswer
answer_of g = if no_addresses g.addresses then err g.last_error else new_answer g.addresses g.ttl

module _ (connector : ℕ → Result ByteStream) where
  -- The loop of `DotState::exchange`, with the attempts that are left.
  unfoldable pub attempt : ℕ → Bytes → DotResolver → DnsResult Bytes × DotResolver
  attempt zero request s = (err resolver_failure, s)
  attempt (suc left) request s = elim s.session [
    | some session ↦ talk (attempt left request) (exchange_message request session) s
    | none ↦ connect (attempt left request) request (connector s.connects) s
  ]

  unfoldable pub exchange : Bytes → DotResolver → DnsResult Bytes × DotResolver
  exchange request s = attempt dot_connect_attempts request s

  unfoldable pub exchange_query :
      ℕ
      → Bytes
      → AddressRecordType
      → DnsResult Bytes
      → DotResolver
      → DnsResult DnsAnswer × DotResolver
  exchange_query id name record_type (err kind) s = (err kind, s)
  exchange_query id name record_type (ok request) s =
      parse_exchanged id name record_type (exchange request s)

  -- The id is a `u16` that wraps around.
  unfoldable pub resolve_family :
      Bytes → AddressRecordType → DotResolver → DnsResult DnsAnswer × DotResolver
  resolve_family name record_type s =
      exchange_query s.next_id name record_type (encode_address_query s.next_id name record_type)
        (record s { next_id = (s.next_id + 1) % 2 ^ 16 })

  -- `Resolver::resolve`. Without an error there is the one that names no records.
  unfoldable pub resolve : Bytes → DotResolver → DnsResult DnsAnswer × DotResolver
  resolve name s =
      let (first, s1) = resolve_family name a s in
      let (second, s2) = resolve_family name aaaa s1 in
      let nothing : Gathered = record { addresses = []; ttl = none; last_error = no_records } in
      (answer_of (gather second (gather first nothing)), s2)
