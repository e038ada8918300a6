-- ===== src/HttpConnect.antt =====
-- crates/daemon/src/http_connect.rs: the authority of a CONNECT request.
pub mod Header
pub mod Handle
pub mod Authority
use commeatus.Prelude.{
  ℕ, ◌≤◌, ◌<◌, ◌≡◌, Bool, false, ◌||◌, Option, none, some, [], ◌∷◌, arith, ltb, ◌==◌, if◌then◌else◌,
  Bytes, any, length, Bool-cases, Option-cases, inl, inr,
}
use commeatus.Text.{dot, trim_end, to_ascii_lowercase, split_once}
use commeatus.Text.Hostname.{is_empty}
use commeatus.Text.Number.{parse_uint, parse_uint-le}
use commeatus.Ip.{IpAddr, IsIp, is_ipv6}
use commeatus.Ip.Parse.Range.{parse_ip-IsIp}
use commeatus.Ip.Parse.{parse_ip}
use commeatus.Flow.{DestinationHost, domain, ip}
use commeatus.Io.{invalid_data, Result, ok, err, ◌>>=◌, >>=-eq-ok}
use commeatus.Target.{Target, new_target}

has_colon : Bytes → Bool
has_colon = any (λ b. b == b':')

-- `rsplit_once(':')`, by the last colon
unfoldable pub rsplit_once : Bytes → Option (Bytes × Bytes)
rsplit_once [] = none
rsplit_once (c ∷ cs) = elim (rsplit_once cs) [
  | some (front, back) ↦ some (c ∷ front, back)
  | none ↦ if c == b':' then some ([], cs) else none
]

-- the value, or the error of the codec
require {ℓ} : {A : Type ℓ} → Option A → Result A
require none = err invalid_data
require (some value) = ok value

unfoldable pub parse_port : Bytes → Result ℕ
unfolding require
parse_port value = do
  port ← require (parse_uint 65535 value)
  if port == 0 then err invalid_data else ok port

-- `strip_prefix(':')`
strip_colon : Bytes → Option Bytes
strip_colon [] = none
strip_colon (c ∷ cs) = if c == b':' then some cs else none

-- The port of a bracketed address, which holds no colon of its own.
bracketed_port : Bytes → Result Bytes
unfolding require strip_colon
bracketed_port rest = do
  port ← require (strip_colon rest)
  if has_colon port then err invalid_data else ok port

ipv6_only : IpAddr → Result IpAddr
ipv6_only address = if is_ipv6 address then ok address else err invalid_data

bracketed : Bytes → Result Target
unfolding bracketed_port has_colon require ipv6_only
bracketed rest = do
  parts ← require (split_once b']' rest)
  port ← bracketed_port parts.1
  address ← require (parse_ip parts.0)
  address ← ipv6_only address
  port ← parse_port port
  new_target (ip address) port

destination_of : Bytes → Option IpAddr → Result DestinationHost
destination_of host (some address) = ok (ip address)
destination_of host none =
    let name = to_ascii_lowercase (trim_end dot host) in
    if is_empty name || ltb 253 (length name) then err invalid_data else ok (domain name)

plain_host : Bytes → Result Bytes
plain_host host = if is_empty host || has_colon host then err invalid_data else ok host

plain : Bytes → Result Target
unfolding has_colon require destination_of plain_host
plain authority = do
  parts ← require (rsplit_once authority)
  host ← plain_host parts.0
  destination ← destination_of host (parse_ip host)
  port ← parse_port parts.1
  new_target destination port

unfoldable pub parse_authority : Bytes → Result Target
unfolding bracketed plain
parse_authority [] = plain []
parse_authority (c ∷ rest) = if c == b'[' then bracketed rest else plain (c ∷ rest)

require-eq-ok {ℓ} : {A : Type ℓ} (o : Option A) {a : A} → require o ≡ ok a → o ≡ some a
unfolding require
require-eq-ok none e = cc
require-eq-ok (some b) e = cc

port_range : (value : Bytes) (port : ℕ) → parse_port value ≡ ok port → (0 < port) × (port ≤ 65535)
unfolding parse_port
port_range value port e =
    let (parsed, e_parsed, e_port) = >>=-eq-ok (require (parse_uint 65535 value)) _ e in
    let small = parse_uint-le 65535 value parsed (require-eq-ok _ e_parsed) in ground arith

-- An address that fits its width, or a name of 1 to 253 bytes.
abbrev pub IsConnectHost : DestinationHost → Type 0
IsConnectHost (domain name) = (0 < length name) × (length name ≤ 253)
IsConnectHost (ip address) = IsIp address

at_most : (n : ℕ) → ltb 253 n ≡ false → n ≤ 253
at_most n h = ground arith

ipv6_only-eq-ok : (found address : IpAddr) → ipv6_only found ≡ ok address → found ≡ address
unfolding ipv6_only
ipv6_only-eq-ok found address e = ground arith

destination_of-IsConnectHost :
    (host : Bytes) (destination : DestinationHost)
    → destination_of host (parse_ip host) ≡ ok destination
    → IsConnectHost destination
unfolding destination_of
destination_of-IsConnectHost host destination e = elim (Option-cases (parse_ip host)) [
  | inr (address, parsed) ↦
      let q : ip address ≡ destination = cc (rw (parsed, destination_of) at e) in
      rw (← q) (parse_ip-IsIp host address parsed)
  | inl named ↦
      named_host (to_ascii_lowercase (trim_end dot host)) destination
        (rw (named, destination_of) at e)
]
  where
    named_host :
        (name : Bytes) (destination : DestinationHost)
        → (if is_empty name || ltb 253 (length name) then err invalid_data else ok (domain name))
          ≡ ok destination
        → IsConnectHost destination
    named_host [] destination e = cc
    named_host (c ∷ cs) destination e = elim (Bool-cases (ltb 253 (length (c ∷ cs)))) [
      | inl long ↦ absurd (cc (rw long at e))
      | inr short ↦
          let q : domain (c ∷ cs) ≡ destination = cc (rw short at e) in
          rw (← q) (omega arith, at_most (length (c ∷ cs)) short)
    ]

target-IsConnectHost :
    (host : DestinationHost) (value : Bytes) (port : ℕ) (t : Target)
    → IsConnectHost host
    → parse_port value ≡ ok port
    → new_target host port ≡ ok t
    → (0 < t.port) × (t.port ≤ 65535) × IsConnectHost t.host
unfolding new_target
target-IsConnectHost host value port t h e_port e =
    let (pos, small) = port_range value port e_port in
    elim (Bool-cases (port == 0)) [
      | inl zero_port ↦ absurd (cc (rw zero_port at e))
      | inr other ↦
          let q : record { host = host; port = port } ≡ t = cc (rw other at e) in
          rw (← q) (pos, small, h)
    ]

bracketed-IsConnectHost :
    (rest : Bytes) (t : Target)
    → bracketed rest ≡ ok t
    → (0 < t.port) × (t.port ≤ 65535) × IsConnectHost t.host
unfolding bracketed
bracketed-IsConnectHost rest t e =
    let (parts, e_parts, e₁) = >>=-eq-ok (require (split_once b']' rest)) _ e in
    let (port_text, e_text, e₂) = >>=-eq-ok (bracketed_port parts.1) _ e₁ in
    let (found, e_found, e₃) = >>=-eq-ok (require (parse_ip parts.0)) _ e₂ in
    let (address, e_address, e₄) = >>=-eq-ok (ipv6_only found) _ e₃ in
    let (port, e_port, e₅) = >>=-eq-ok (parse_port port_text) _ e₄ in
    let same = ipv6_only-eq-ok found address e_address in
    let fits = parse_ip-IsIp parts.0 found (require-eq-ok _ e_found) in
    target-IsConnectHost (ip address) port_text port t (rw (← same) fits) e_port e₅

plain-IsConnectHost :
    (authority : Bytes) (t : Target)
    → plain authority ≡ ok t
    → (0 < t.port) × (t.port ≤ 65535) × IsConnectHost t.host
unfolding plain
plain-IsConnectHost authority t e =
    let (parts, e_parts, e₁) = >>=-eq-ok (require (rsplit_once authority)) _ e in
    let (host, e_host, e₂) = >>=-eq-ok (plain_host parts.0) _ e₁ in
    let (destination, e_destination, e₃) = >>=-eq-ok (destination_of host (parse_ip host)) _ e₂ in
    let (port, e_port, e₄) = >>=-eq-ok (parse_port parts.1) _ e₃ in
    target-IsConnectHost destination parts.1 port t
      (destination_of-IsConnectHost host destination e_destination) e_port e₄

-- An authority that is accepted names a port from 1 to 65535 and a host that is an address of its
-- family's width or a name of 1 to 253 bytes.
pub parse_authority-IsConnectHost :
    (authority : Bytes) (t : Target)
    → parse_authority authority ≡ ok t
    → (0 < t.port) × (t.port ≤ 65535) × IsConnectHost t.host
unfolding parse_authority
parse_authority-IsConnectHost [] t e = plain-IsConnectHost [] t e
parse_authority-IsConnectHost (c ∷ rest) t e = elim (Bool-cases (c == b'[')) [
  | inl bracket ↦ bracketed-IsConnectHost rest t (rw bracket at e)
  | inr other ↦ plain-IsConnectHost (c ∷ rest) t (rw other at e)
]
