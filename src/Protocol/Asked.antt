-- ===== src/Protocol/Asked.antt =====
-- The outbound protocol HTTP CONNECT and the program's own inbound.
use commeatus.Prelude.{
  ℕ, ◌≤◌, ◌<◌, ◌≡◌, refl, ◌∙◌, true, List, [], ◌∷◌, ◌++◌, arith, Bytes, length, all, all-append,
  length-append,
}
use commeatus.Text.Decimal.{display_u16, display_u16-all, length-display_u16}
use commeatus.Text.Lines.Words.{is_visible}
use commeatus.Ip.{IpAddr}
use commeatus.Io.{ErrorKind, ok}
use commeatus.Target.{Target}
use commeatus.Stream.{working, write_all, flush}
use commeatus.HttpConnect.{parse_authority}
use commeatus.HttpConnect.Authority.{IsNameable, parse_authority-host, host_text-is_visible}
use commeatus.HttpConnect.Handle.{established}
use commeatus.HttpConnect.Header.{read_request}
use commeatus.HttpConnect.Header.Whole.{rejoined, read_request-rejoined}
use commeatus.Protocol.Http.{target_authority, host_text, connect_request, http_handshake_stream}
use commeatus.Protocol.Request.{header_of-connect_request, parse_header-header}
use commeatus.Protocol.Tunnel.{responses, read_response-head}

module _ (display : IpAddr → Bytes) (target : Target) (nameable : IsNameable display target.host)
    (positive : 0 < target.port) (small : target.port ≤ 65535) where
  authority-is_visible :
      (all is_visible (target_authority display target) ≡ true)
      × (0 < length (target_authority display target))
      × (length (target_authority display target) ≤ 512)
  unfolding target_authority
  authority-is_visible =
      let host = host_text display target.host in
      let (visible, filled, short) = host_text-is_visible display target.host nameable in
      let digits = display_u16-all is_visible target.port (λ d h. ground arith) in
      let size = length-append host (b':' ∷ display_u16 target.port) in
      let port_size = length-display_u16 target.port in
      (
        rw (all-append is_visible host (b':' ∷ display_u16 target.port), visible) digits,
        omega (arith, size),
        omega (arith, size, port_size),
      )

  parse_authority-target_authority : parse_authority (target_authority display target) ≡ ok target
  unfolding target_authority
  parse_authority-target_authority =
      parse_authority-host target.port positive small display target.host nameable

  read_request-connect_request :
      (sizes : List ℕ) (ended : ErrorKind) (rest output : Bytes)
      → rejoined (
          read_request sizes
            (working ended (connect_request (target_authority display target) ++ rest) output))
        ≡ ok (target, rest)
  read_request-connect_request sizes ended rest output =
      let text = target_authority display target in
      let (visible, filled, short) = authority-is_visible in
      read_request-rejoined sizes (working ended (connect_request text ++ rest) output)
      ∙ rw
          (
            header_of-connect_request text visible filled ended rest short,
            parse_header-header text visible filled,
            parse_authority-target_authority,
          )
          refl

  -- With a target with a port and a host that a request can name, the outbound protocol HTTP CONNECT
  -- talks to the program's own inbound as it is meant to: the inbound reads the request as a
  -- connection to the target, in pieces of whatever sizes it comes, and what follows the request is
  -- the tunnel's; and where the proxy's response is the one that the inbound gives to a connection,
  -- the handshake succeeds and leaves what follows the response unread.
  pub http_handshake_stream-read_request :
      (ended : ErrorKind) (input : Bytes)
      → (written : Bytes) × (http_handshake_stream display target
            (working ended (established ++ input) [])
          ≡ (ok tt, working ended input written))
        × ((sizes : List ℕ) (ended : ErrorKind) (rest : Bytes)
            → rejoined (read_request sizes (working ended (written ++ rest) []))
              ≡ ok (target, rest))
  unfolding http_handshake_stream write_all flush
  http_handshake_stream-read_request ended input = (
    connect_request (target_authority display target),
    rw
        (
          read_response-head established input (connect_request (target_authority display target))
              ended (omega arith) responses.3.0,
          responses.3.1,
        )
        refl,
    λ sizes ended rest. read_request-connect_request sizes ended rest [],
  )
