-- ===== src/Ip/Socket.antt =====
-- `SocketAddr`. The flow label and the scope of an address of version 6 are left out.
pub mod Text
use commeatus.Prelude.{ℕ, ◌≡◌, Bool, true, ◌&&◌, ◌==◌, ==_iff, and_iff, ◌↔◌}
use commeatus.Ip.{IpAddr, ip_eq, ip_eq_iff}

pub record SocketAddr : Type 0 where
  pub ip : IpAddr
  pub port : ℕ

unfoldable pub socket_eq : SocketAddr → SocketAddr → Bool
socket_eq a b = ip_eq a.ip b.ip && a.port == b.port

pub socket_eq_iff : (a b : SocketAddr) → (socket_eq a b ≡ true) ↔ (a ≡ b)
unfolding socket_eq
socket_eq_iff a b =
    let both =
      and_iff (ip_eq a.ip b.ip) (a.port == b.port) (ip_eq_iff a.ip b.ip) (==_iff a.port b.port) in
    (λ h. let (same_ip, same_port) = both.0 h in cc, λ e. both.1 (cc, cc))
