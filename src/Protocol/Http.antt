-- ===== src/Protocol/Http.antt =====
-- crates/daemon/src/protocol.rs: the handshake of the outbound protocol HTTP CONNECT. How an address is
-- written is a parameter, since the standard library writes it.
use commeatus.Prelude.{
  ℕ, zero, suc, ◌*◌, Bool, true, false, not, ◌&&◌, Option, none, some, List, [], ◌∷◌, ◌++◌, leb,
  ltb, if◌then◌else◌, Bytes, bytes,
}
use commeatus.Text.{is_utf8}
use commeatus.Text.Lines.{lines, split_whitespace, strip_suffix}
use commeatus.Text.Decimal.{display_u16}
use commeatus.Text.Number.{parse_uint}
use commeatus.Ip.{IpAddr}
use commeatus.Flow.{DestinationHost, domain, ip}
use commeatus.Io.{invalid_data, connection_refused, Result, ok, err}
use commeatus.Target.{Target}
use commeatus.Stream.{Exchange, ◌>>=◌, ◌>>◌, lift, read_exact, write_all, flush}
use commeatus.Protocol.{ProtocolCapabilities}
use commeatus.HttpConnect.Header.{blank_line, starts_with}

abbrev pub max_http_response_head : ℕ
max_http_response_head = 16 * 1024

unfoldable pub host_text : (IpAddr → Bytes) → DestinationHost → Bytes
host_text display (ip (IpAddr.v4 n)) = display (IpAddr.v4 n)
host_text display (ip (IpAddr.v6 n)) = bytes "[" ++ (display (IpAddr.v6 n) ++ bytes "]")
host_text display (domain name) = name

unfoldable pub target_authority : (IpAddr → Bytes) → Target → Bytes
target_authority display target = host_text display target.host ++ (b':' ∷ display_u16 target.port)

unfoldable pub connect_request : Bytes → Bytes
connect_request authority =
    bytes "CONNECT "
    ++ (authority
        ++ (bytes " HTTP/1.1\r\nHost: "
            ++ (authority ++ bytes "\r\nProxy-Connection: Keep-Alive\r\n\r\n")))

abbrev pub ends_with : Bytes → Bytes → Bool
ends_with suffix s = elim (strip_suffix suffix s) [ none ↦ false | some _ ↦ true ]

-- The loop of `read_http_response_head`; the number is what the head may still take.
unfoldable pub read_head : ℕ → Bytes → Exchange Bytes
read_head zero head s = (if ends_with blank_line head then ok head else err invalid_data, s)
read_head (suc left) head s = elim (ends_with blank_line head) [
  | true ↦ (ok head, s)
  | false ↦ (do byte ← read_exact 1; read_head left (head ++ byte)) s
]

unfoldable pub read_http_response_head : Exchange Bytes
read_http_response_head = read_head max_http_response_head []

unfoldable pub check_status : Option ℕ → Result (Unit {0})
check_status none = err invalid_data
check_status (some status) =
    if leb 200 status && ltb status 300 then ok tt else err connection_refused

-- The fields of the status line; one that is not there is empty.
unfoldable pub check_fields : List Bytes → Result (Unit {0})
check_fields (version ∷ status ∷ fields) =
    if not (starts_with (bytes "HTTP/1.") version)
    then err invalid_data
    else check_status (parse_uint 65535 status)
check_fields _ = err invalid_data

unfoldable pub check_lines : List Bytes → Result (Unit {0})
check_lines [] = err invalid_data
check_lines (status_line ∷ rest) = check_fields (split_whitespace status_line)

unfoldable pub check_head : Bytes → Result (Unit {0})
check_head head = if not (is_utf8 head) then err invalid_data else check_lines (lines head)

-- What the handshake does with the proxy's response.
unfoldable pub read_response : Exchange (Unit {0})
read_response = do head ← read_http_response_head; lift (check_head head)

unfoldable pub http_handshake_stream : (IpAddr → Bytes) → Target → Exchange (Unit {0})
http_handshake_stream display target = do
  write_all (connect_request (target_authority display target))
  flush
  read_response

abbrev pub http_capabilities : ProtocolCapabilities
http_capabilities = record { stream_connect = true; requires_tls = false }
