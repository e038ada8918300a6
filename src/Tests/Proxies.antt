-- ===== src/Tests/Proxies.antt =====
-- A SOCKS5 client and the inbound, a registry of one encrypted endpoint, and an association.
use commeatus.Prelude.{
  ℕ, ◌+◌, ◌≤◌, ◌<◌, ◌≡◌, ◌↔◌, refl, Bool, true, false, none, some, List, [], ◌∷◌, ◌++◌, arith,
  Bytes, bytes, length, any, ◌==◌, if◌then◌else◌,
}
use commeatus.Prelude
use commeatus.Text
use commeatus.Ip.{IpAddr}
use commeatus.Ip.Socket.{SocketAddr}
use commeatus.Flow.{domain}
use commeatus.Plan.{direct, proxy, ExecutionAction}
use commeatus.Policy.{PolicyAction, new_engine}
use commeatus.Io.{ok, err, unexpected_eof, timed_out}
use commeatus.Target.{Target, IsTarget}
use commeatus.Stream
use commeatus.Stream.{working}
use commeatus.Datagram.{DatagramExecution}
use commeatus.Socks5.RoundTrip.{IsCanonical}
use commeatus.Socks5.Handshake.{
  negotiate_method, read_request, connect, handle_connect, reply_bytes,
}
use commeatus.Protocol.{socks5_handshake_stream, read_reply, trojan_capabilities}
use commeatus.Protocol.Replies.{Connects, handle_connect-read_reply}
use commeatus.Protocol.Inbound.{IsNamed, socks5_handshake_stream-read_request}
use commeatus.Outbound
use commeatus.Outbound.{ProxyEndpointConfig, OutboundRegistry, TransportConfig, open_datagram}
use commeatus.Socks5.Associate.{
  Context, Associated, Reaches, started, went_on, client_readable, client_writable, client_datagram,
  flush_pending_client_replies,
}
use commeatus.Socks5.Associate.Client.{Reaches-client_address}
use commeatus.Socks5.Associate.Replies.{IsServed, Reaches-IsServed}

abbrev site : Target
site = record { host = domain (bytes "a.example"); port = 443 }

site-IsTarget : IsTarget site
unfolding Text.is_utf8
site-IsTarget = record { host = refl; port_pos = omega arith; port_fits = omega arith }

site-IsCanonical : IsCanonical site.host
unfolding Text.to_ascii_lowercase Text.lower Text.trim_end
site-IsCanonical = (omega arith, refl)

site-IsNamed : IsNamed site.host
site-IsNamed = omega arith

abbrev bound : SocketAddr
bound = record { ip = IpAddr.v4 2130706433; port = 1080 }

socks5_handshake_stream-read_request_example :
    (written : Bytes) × (socks5_handshake_stream site
        (working unexpected_eof (0x05 ∷ 0x00 ∷ (reply_bytes 0 bound ++ bytes "data")) [])
      ≡ (ok tt, working unexpected_eof (bytes "data") written))
    × (Stream.◌>>◌ negotiate_method read_request
          (working unexpected_eof (written ++ bytes "data") [])
        ≡ (ok (connect site), working unexpected_eof (bytes "data") (0x05 ∷ 0x00 ∷ [])))
socks5_handshake_stream-read_request_example =
    socks5_handshake_stream-read_request site bound (bytes "data") unexpected_eof site-IsTarget
      site-IsCanonical site-IsNamed

handle_connect-read_reply_example :
    Connects
      (handle_connect {Session = ℕ}
        (λ endpoint. err timed_out)
        (λ session. none)
        (ExecutionAction.route direct)
        (working unexpected_eof [] [])).0
    ↔ ((read_reply (
          working unexpected_eof
            ((handle_connect {Session = ℕ}
                (λ endpoint. err timed_out)
                (λ session. none)
                (ExecutionAction.route direct)
                (working unexpected_eof [] [])).1.output
              ++ bytes "data")
            [])).0
        ≡ ok tt)
handle_connect-read_reply_example =
    handle_connect-read_reply (λ endpoint. err timed_out) (λ session. none)
      (ExecutionAction.route direct) unexpected_eof [] (bytes "data")

-- An endpoint that requires TLS and has it; its sessions are numbers.
abbrev secure : ProxyEndpointConfig ℕ ℕ
secure = record {
  id = bytes "secure";
  protocol = record {
    capabilities = trojan_capabilities;
    handshake_stream = λ session target. (ok tt, session + 1);
  };
  datagram = some (ok 7);
  transport = TransportConfig.tls (ok 1);
}

abbrev registry : OutboundRegistry ℕ ℕ
registry = secure ∷ []

opened : open_datagram registry (proxy (bytes "secure")) (ok 0) ≡ ok 7
unfolding open_datagram Prelude.eqb
opened = refl

-- An association of a client at 127.0.0.1 that may go anywhere.
abbrev counting : DatagramExecution ℕ (List ℕ)
counting = record {
  send = λ count target payload. (ok tt, count + 1);
  receive = λ count buffer. (ok none, buffer, count);
  readiness_source_count = λ count. 1;
  register_readiness = λ count registry tokens. (ok tt, count, tokens ++ registry);
}

abbrev context : Context ℕ (List ℕ)
context = record {
  runtime = new_engine [] (PolicyAction.route direct);
  capabilities = λ endpoint. some (record { tcp = true; udp = true; encrypted_transport = false });
  open_datagram = λ endpoint. ok 0;
  operations = counting;
  control_ip = IpAddr.v4 2130706433;
}

abbrev beginning : Associated ℕ (List ℕ)
beginning = record {
  routes = record { routes = []; registry = []; next_token = 2 };
  client_address = none;
  pending_replies = [];
  next_flow_id = 1;
}

abbrev packet : Bytes
packet = 0 ∷ 0 ∷ 0 ∷ 1 ∷ 1 ∷ 2 ∷ 3 ∷ 4 ∷ 0 ∷ 53 ∷ bytes "ask"

Reaches-IsServed_example : IsServed context (client_datagram context bound packet beginning)
unfolding commeatus.Socks5.Associate.begin_associated commeatus.Datagram.new_routes
    commeatus.Socks5.Associate.hinted_client
Reaches-IsServed_example =
    Reaches-IsServed context (record { ip = none; port = none }) [] 1
      (went_on beginning (client_datagram context bound packet beginning) started
        (client_readable bound packet beginning))

abbrev with_client : Associated ℕ (List ℕ)
with_client = record beginning { client_address = some bound }

Reaches-client_address_example :
    (client_datagram context bound packet with_client).client_address ≡ some bound
Reaches-client_address_example = Reaches-client_address context bound with_client refl (
    went_on with_client (client_datagram context bound packet with_client) started
      (client_readable bound packet with_client))
