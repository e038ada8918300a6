-- ===== src/HttpConnect/Handle.antt =====
-- crates/daemon/src/http_connect.rs: `handle`, from the request to the relay. The timeouts of the sockets
-- are left out, and so is the relay itself.
pub mod Relayed
use commeatus.Prelude.{ℕ, Option, none, some, List, [], ◌∷◌, ◌++◌, Bytes, bytes, if◌then◌else◌}
use commeatus.Text.Hostname.{is_empty}
use commeatus.Flow.{TransportProtocol}
use commeatus.Plan.{Endpoint, ExecutionAction}
use commeatus.Policy.{PolicyEngine}
use commeatus.Io.{Result, ok, err}
use commeatus.Proxy.{plan_action}
use commeatus.Target.{Target}
use commeatus.Stream.{ByteStream, Exchange, ◌>>=◌, ◌>>◌, lift, return, write_all}
use commeatus.HttpConnect.Header.{read_request}

abbrev pub bad_request : Bytes
bad_request = bytes "HTTP/1.1 400 Bad Request\r\nConnection: close\r\nContent-Length: 0\r\n\r\n"

abbrev pub forbidden : Bytes
forbidden = bytes "HTTP/1.1 403 Forbidden\r\nConnection: close\r\nContent-Length: 0\r\n\r\n"

abbrev pub bad_gateway : Bytes
bad_gateway = bytes "HTTP/1.1 502 Bad Gateway\r\nConnection: close\r\nContent-Length: 0\r\n\r\n"

-- The version is the package's, in the workspace's `Cargo.toml`.
abbrev pub established : Bytes
established =
    bytes "HTTP/1.1 200 Connection Established\r\nProxy-Agent: Commeatus/0.6.0-alpha.1\r\n\r\n"

abbrev pub written : Result (Unit {0}) × ByteStream → Result (Option ByteStream)
written (err kind, remote) = err kind
written (ok _, remote) = ok (some remote)

-- The buffered bytes of the tunnel go to the remote first; the remote that is then to be relayed.
unfoldable pub forward : Bytes → ByteStream → Result (Option ByteStream)
forward tunnel remote =
    if is_empty tunnel then ok (some remote) else written (write_all tunnel remote)

-- With what connecting gives. An error in the writing of a refusal is passed over.
unfoldable pub answer_tunnel : Bytes → Result ByteStream → Exchange (Option ByteStream)
answer_tunnel tunnel (err kind) s = (err kind, (write_all bad_gateway s).1)
answer_tunnel tunnel (ok remote) s = (do write_all established; lift (forward tunnel remote)) s

unfoldable pub act :
    (Endpoint → Target → Result ByteStream)
    → Target
    → Bytes
    → ExecutionAction
    → Exchange (Option ByteStream)
act connect_tcp target tunnel (ExecutionAction.reject _) = do write_all forbidden; return none
act connect_tcp target tunnel (ExecutionAction.route endpoint) =
    answer_tunnel tunnel (connect_tcp endpoint target)

-- With what the reading of the request gives.
unfoldable pub answer_request :
    PolicyEngine
    → ℕ
    → (Endpoint → Target → Result ByteStream)
    → Result (Target × Bytes) × ByteStream
    → Result (Option ByteStream) × ByteStream
answer_request runtime next_flow_id connect_tcp (err kind, s) =
    (err kind, (write_all bad_request s).1)
answer_request runtime next_flow_id connect_tcp (ok (target, tunnel), s) =
    act connect_tcp target tunnel (plan_action runtime next_flow_id target TransportProtocol.tcp).0
      s

unfoldable pub handle :
    PolicyEngine
    → ℕ
    → (Endpoint → Target → Result ByteStream)
    → List ℕ
    → Exchange (Option ByteStream)
handle runtime next_flow_id connect_tcp sizes s =
    answer_request runtime next_flow_id connect_tcp (read_request sizes s)
