-- ===== src/Socks5/Handshake.antt =====
-- crates/daemon/src/socks5.rs: the greeting, the request and the replies on the control stream.
pub mod Requests
use commeatus.Prelude.{
  ℕ, ◌+◌, Bool, true, false, not, ◌||◌, Option, none, some, [], ◌∷◌, ◌++◌, ltb, ◌==◌, if◌then◌else◌,
  Bytes, any, get_or,
}
use commeatus.Text.{to_be_bytes, from_be_bytes}
use commeatus.Ip.{IpAddr, octets, is_unspecified}
use commeatus.Ip.Socket.{SocketAddr}
use commeatus.Flow.{DestinationHost, domain, ip}
use commeatus.Io.{invalid_data, unsupported, permission_denied, Result, ok, err}
use commeatus.Plan.{Endpoint, ExecutionAction}
use commeatus.Target.{Target, new_target}
use commeatus.Stream.{Exchange, ◌>>=◌, ◌>>◌, lift, return, fail, refuse_if, read_exact, write_all}
use commeatus.Socks5.{request_name, connect_error_code}

pub record UdpClientHint : Type 0 where
  pub ip : Option IpAddr
  pub port : Option ℕ

pub data Request : Type 0 where
  connect : Target → Request
  udp_associate : UdpClientHint → Request

abbrev pub choose_method : Bool → Exchange (Unit {0})
choose_method true = write_all (0x05 ∷ 0x00 ∷ [])
choose_method false = do write_all (0x05 ∷ 0xff ∷ []); fail permission_denied

unfoldable pub negotiate_method : Exchange (Unit {0})
negotiate_method = do
  header ← read_exact 2
  refuse_if (not (get_or header 0 0 == 0x05) || get_or header 1 0 == 0) invalid_data
  methods ← read_exact (get_or header 1 0)
  choose_method (any (λ m. m == 0x00) methods)

unfoldable pub read_ip : (ℕ → IpAddr) → ℕ → Exchange DestinationHost
read_ip family width = do bytes ← read_exact width; return (ip (family (from_be_bytes bytes)))

unfoldable pub read_domain : Exchange DestinationHost
read_domain = do
  count ← read_exact 1
  refuse_if (get_or count 0 0 == 0 || ltb 253 (get_or count 0 0)) invalid_data
  bytes ← read_exact (get_or count 0 0)
  lift (request_name bytes)

unfoldable pub read_host : ℕ → Exchange DestinationHost
read_host kind =
    if kind == 0x01
    then read_ip IpAddr.v4 4
    else if kind == 0x03
    then read_domain
    else if kind == 0x04
    then read_ip IpAddr.v6 16
    else fail invalid_data

unfoldable pub read_address : ℕ → Exchange (DestinationHost × ℕ)
read_address kind = do host ← read_host kind; port ← read_exact 2; return (host, from_be_bytes port)

abbrev pub unspecified : SocketAddr
unspecified = record { ip = IpAddr.v4 0; port = 0 }

abbrev pub reply_kind : IpAddr → ℕ
reply_kind (IpAddr.v4 _) = 0x01
reply_kind (IpAddr.v6 _) = 0x04

abbrev pub reply_address : Option SocketAddr → SocketAddr
reply_address none = unspecified
reply_address (some address) = address

-- `write_reply`, the bytes and the writing
abbrev pub reply_bytes : ℕ → SocketAddr → Bytes
reply_bytes code address =
    0x05 ∷ code ∷ 0x00 ∷ reply_kind address.ip ∷ (octets address.ip ++ to_be_bytes 2 address.port)

unfoldable pub write_reply : ℕ → Option SocketAddr → Exchange (Unit {0})
write_reply code address = write_all (reply_bytes code (reply_address address))

abbrev pub hint_ip : DestinationHost → Option IpAddr
hint_ip (domain name) = none
hint_ip (ip address) = if is_unspecified address then none else some address

-- The `match` on the command.
unfoldable pub of_command : ℕ → DestinationHost → ℕ → Exchange Request
of_command command host port =
    if command == 0x01
    then (do target ← lift (new_target host port); return (connect target))
    else if command == 0x03
    then return
        (udp_associate (record { ip = hint_ip host; port = if port == 0 then none else some port }))
    else (do write_reply 0x07 none; fail unsupported)

unfoldable pub read_request : Exchange Request
read_request = do
  header ← read_exact 4
  refuse_if (not (get_or header 0 0 == 0x05) || not (get_or header 2 0 == 0)) invalid_data
  (host, port) ← read_address (get_or header 3 0)
  of_command (get_or header 1 0) host port

-- The reply on a connection that was tried; an error in the writing of a refusal is passed over.
unfoldable pub answer_client :
    {Session : Type 0} → (Session → Option SocketAddr) → Result Session → Exchange (Option Session)
answer_client local_addr (err kind) s = (err kind, (write_reply (connect_error_code kind) none s).1)
answer_client local_addr (ok session) s =
    (do write_reply 0x00 (local_addr session); return (some session)) s

-- `handle_connect`, with the plan, what connecting gives and the local address of a session; the
-- session that is to be relayed.
unfoldable pub handle_connect :
    {Session : Type 0}
    → (Endpoint → Result Session)
    → (Session → Option SocketAddr)
    → ExecutionAction
    → Exchange (Option Session)
handle_connect connected local_addr (ExecutionAction.reject _) = do
  write_reply 0x02 none
  return none
handle_connect connected local_addr (ExecutionAction.route endpoint) =
    answer_client local_addr (connected endpoint)
