-- ===== src/Tests/Http.antt =====
-- A client that asks for a tunnel over HTTP, in pieces.
use commeatus.Prelude.{
  arith, eqb, ℕ, ◌≡◌, ◌↔◌, refl, ap, sym, none, some, List, [], ◌∷◌, ◌++◌, Bytes, bytes,
}
use commeatus.Flow.{ip}
use commeatus.HttpConnect.{parse_authority, rsplit_once, parse_port}
use commeatus.HttpConnect.Authority.{IsNameable}
use commeatus.HttpConnect.Handle.{act, answer_tunnel, forward, answer_request, handle, established}
use commeatus.HttpConnect.Handle.Relayed.{IsRelayed, handle-IsRelayed}
use commeatus.HttpConnect.Header.{
  read_header, find_header_end, parse_header, connect_authority, first_line, read_request,
}
use commeatus.HttpConnect.Header.Whole.{rejoined, header_of, request_of, read_request-rejoined}
use commeatus.Io
use commeatus.Io.{ErrorKind, ok, err, timed_out, unexpected_eof, Result}
use commeatus.Ip.{IpAddr}
use commeatus.Ip.Parse.{parse_ip}
use commeatus.Plan.{direct, Endpoint}
use commeatus.Policy.{plan, decide, PolicyEngine, PolicyAction}
use commeatus.Protocol.Asked.{http_handshake_stream-read_request}
use commeatus.Protocol.Http.{read_response, http_handshake_stream}
use commeatus.Protocol.Replies.{Connects}
use commeatus.Protocol.Tunnel.{handle-read_response}
use commeatus.Proxy.{plan_action}
use commeatus.Stream.{write_all, ByteStream, working}
use commeatus.Target.{new_target, Target}
use commeatus.Text.{is_utf8, to_ascii_lowercase, trim_end}
use commeatus.Text.Lines.{split_whitespace, strip_prefix}
use commeatus.Text.Number.{parse_uint}

abbrev sent : Bytes
sent = bytes "CONNECT a.example:443 HTTP/1.1\r\nHost: a.example\r\n\r\nhello"

abbrev client : ByteStream
client = working unexpected_eof sent []

-- The header's last piece has two bytes of the tunnel.
abbrev pieces : List ℕ
pieces = 5 ∷ 0 ∷ 47 ∷ []

abbrev all_direct : PolicyEngine
all_direct = record { rules = []; default_action = PolicyAction.route direct }

abbrev remote : Endpoint → Target → Result ByteStream
remote endpoint target = ok (working timed_out [] [])

remote_works :
    (endpoint : Endpoint) (target : Target) (session : ByteStream)
    → remote endpoint target ≡ ok session
    → session.refuses ≡ none
remote_works endpoint target session e =
    let same : working timed_out [] [] ≡ session = cc in ap (λ r. r.refuses) (sym same)

read_request-rejoined_example :
    rejoined (read_request pieces client) ≡ Io.◌>>=◌ (header_of unexpected_eof sent) request_of
read_request-rejoined_example = read_request-rejoined pieces client

handle-read_response_example : Connects (handle all_direct 1 remote pieces client).0 ↔ (
    (read_response (
      working unexpected_eof
        ((handle all_direct 1 remote pieces client).1.output ++ bytes "data")
        [])).0
    ≡ ok tt)
handle-read_response_example =
    handle-read_response all_direct 1 remote remote_works unexpected_eof (bytes "data") pieces sent

relayed : handle all_direct 1 remote pieces client ≡ (
  ok (some (working timed_out [] (bytes "he"))),
  working unexpected_eof (bytes "llo") established,
)
unfolding handle answer_request read_header find_header_end eqb parse_header is_utf8
    connect_authority split_whitespace first_line strip_prefix parse_authority rsplit_once parse_ip
    to_ascii_lowercase trim_end parse_port parse_uint new_target act plan_action plan decide
    answer_tunnel write_all forward read_request
relayed = refl

handle-IsRelayed_example :
    IsRelayed all_direct 1 remote client (working timed_out [] (bytes "he")) (bytes "llo")
handle-IsRelayed_example =
    handle-IsRelayed all_direct 1 remote pieces client
      (working unexpected_eof (bytes "llo") established) (working timed_out [] (bytes "he")) relayed

-- A standard library that knows one address.
abbrev display : IpAddr → Bytes
display address = bytes "1.2.3.4"

abbrev server : Target
server = record { host = ip (IpAddr.v4 0x01020304); port = 8080 }

server-IsNameable : IsNameable display server.host
unfolding parse_ip
server-IsNameable = (refl, omega arith, omega arith, refl)

http_handshake_stream-read_request_example :
    (written : Bytes) × (http_handshake_stream display server
        (working timed_out (established ++ bytes "data") [])
      ≡ (ok tt, working timed_out (bytes "data") written))
    × ((sizes : List ℕ) (ended : ErrorKind) (rest : Bytes)
        → rejoined (read_request sizes (working ended (written ++ rest) [])) ≡ ok (server, rest))
http_handshake_stream-read_request_example =
    http_handshake_stream-read_request display server server-IsNameable (omega arith) (omega arith)
      timed_out (bytes "data")
