-- ===== src/Target.antt =====
-- crates/daemon/src/proxy.rs: `Target`. The SOCKS address form that crates/daemon/src/trojan.rs
-- (`encode_host`), crates/daemon/src/protocol.rs (`encode_socks_address`) and
-- crates/daemon/src/socks5.rs (`encode_udp_response`) write in the same words.
pub mod Pieces
use commeatus.Prelude.{
  ℕ, ◌-◌, ◌^◌, ◌<◌, ◌≤◌, ◌≡◌, true, Bool-cases, inl, inr, is_positive, [], ◌∷◌, ◌++◌, ltb, ◌==◌,
  if◌then◌else◌, Bytes, length, take, drop,
}
use commeatus.Text.{is_utf8, to_be_bytes}
use commeatus.Ip.{IpAddr, IsIp, octets}
use commeatus.Flow.{DestinationHost, domain, ip, FlowContext, TransportProtocol, NetworkKind}
use commeatus.Io.{ErrorKind, invalid_input, Result, ok, err}

pub record Target : Type 0 where
  pub host : DestinationHost
  pub port : ℕ

-- `Target::new`
unfoldable pub new_target : DestinationHost → ℕ → Result Target
new_target host port =
    if port == 0 then err invalid_input else ok (record { host = host; port = port })

pub new_target-eq-ok :
    (host : DestinationHost) (port : ℕ) (target : Target)
    → new_target host port ≡ ok target
    → (0 < port) × (target ≡ record { host = host; port = port })
unfolding new_target
new_target-eq-ok host port target e = elim (Bool-cases (port == 0)) [
  | inl zero_port ↦ absurd (cc (rw zero_port at e))
  | inr port_ok ↦
      let made : ok (record { host = host; port = port }) ≡ ok target = rw port_ok at e in
      (is_positive port port_ok, cc)
]

-- A type, a length for a domain, and the address; the callers differ in their error's kind.
unfoldable pub address_bytes : ErrorKind → DestinationHost → Result Bytes
address_bytes kind (ip (IpAddr.v4 a)) = ok (0x01 ∷ octets (IpAddr.v4 a))
address_bytes kind (domain name) =
    if ltb 255 (length name)
    then err kind
    else if length name == 0
    then err kind
    else ok (0x03 ∷ length name ∷ name)
address_bytes kind (ip (IpAddr.v6 a)) = ok (0x04 ∷ octets (IpAddr.v6 a))

-- `data[i..j]`
abbrev pub slice : Bytes → ℕ → ℕ → Bytes
slice s i j = take (j - i) (drop i s)

-- What the types of the source say of a target: the address fits, the name is valid UTF-8, the
-- port has 16 bits; and it is not zero, which `Target::new` sees to.
abbrev pub IsHost : DestinationHost → Type 0
IsHost (domain name) = is_utf8 name ≡ true
IsHost (ip a) = IsIp a

pub record IsTarget (t : Target) : Type 0 where
  pub host : IsHost t.host
  pub port_pos : 0 < t.port
  pub port_fits : t.port < 2 ^ 16
