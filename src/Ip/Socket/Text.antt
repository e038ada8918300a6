-- ===== src/Ip/Socket/Text.antt =====
-- `str::parse::<SocketAddr>`: `a.b.c.d:port`, or `[v6]:port` without a scope.
use commeatus.Prelude.{ℕ, Option, none, some, [], ◌∷◌, ◌==◌, if◌then◌else◌, Bytes}
use commeatus.Text.{split_once}
use commeatus.Text.Number.{digits}
use commeatus.Ip.{IpAddr, v4, v6}
use commeatus.Ip.Socket.{SocketAddr}
use commeatus.Ip.Parse.{parse_ip}

with_port : IpAddr → Option ℕ → Option SocketAddr
with_port address none = none
with_port address (some port) = some (record { ip = address; port = port })

-- a port without a sign, in any number of digits
parse_port : IpAddr → Bytes → Option SocketAddr
unfolding with_port
parse_port address text = with_port address (digits 65535 text)

v4_socket : Option IpAddr → Bytes → Option SocketAddr
unfolding parse_port
v4_socket (some (v4 a)) text = parse_port (v4 a) text
v4_socket _ text = none

v6_socket : Option IpAddr → Bytes → Option SocketAddr
unfolding parse_port
v6_socket (some (v6 a)) (c ∷ text) = if c == b':' then parse_port (v6 a) text else none
v6_socket _ text = none

plain : Option (Bytes × Bytes) → Option SocketAddr
unfolding v4_socket
plain none = none
plain (some (address, port)) = v4_socket (parse_ip address) port

bracketed : Option (Bytes × Bytes) → Option SocketAddr
unfolding v6_socket
bracketed none = none
bracketed (some (address, rest)) = v6_socket (parse_ip address) rest

unfoldable pub parse_socket : Bytes → Option SocketAddr
unfolding plain bracketed
parse_socket [] = none
parse_socket (c ∷ cs) =
    if c == b'[' then bracketed (split_once b']' cs) else plain (split_once b':' (c ∷ cs))
