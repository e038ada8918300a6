-- ===== src/HttpConnect/Authority.antt =====
-- The authority of a CONNECT request as the outbound protocol writes it, read by the inbound.
use commeatus.Prelude.{
  all-append, length-append, all-map, ℕ, ◌≤◌, ◌<◌, ◌≡◌, refl, ap, ◌∙◌, Bool, true, false, not, ◌&&◌,
  ◌||◌, none, some, [], ◌∷◌, ◌++◌, append_assoc, arith, leb, ◌==◌, Bytes, bytes, length, all, any,
  not_below, not_zero,
}
use commeatus.Text.{dot, trim_end, to_ascii_lowercase, split_once}
use commeatus.Text.Decimal.{display_u16, display_u16-all, parse_uint-display_u16}
use commeatus.Text.Hostname.{is_empty}
use commeatus.Text.Number.{is_digit}
use commeatus.Text.Lines.Words.{is_visible}
use commeatus.Ip.{IpAddr, is_ipv6}
use commeatus.Ip.Parse.{parse_ip}
use commeatus.Flow.{DestinationHost, domain, ip}
use commeatus.Io.{ok}
use commeatus.Target.{new_target}
use commeatus.HttpConnect.{
  has_colon, rsplit_once, require, parse_port, strip_colon, bracketed_port, ipv6_only, bracketed,
  destination_of, plain_host, plain, parse_authority,
}
use commeatus.Protocol.Http.{host_text}

abbrev pub is_name_byte : ℕ → Bool
is_name_byte c = is_visible c && (not (c == b':') && not (c == b'['))

abbrev pub is_v4_byte : ℕ → Bool
is_v4_byte c = is_digit c || c == b'.'

abbrev pub is_v6_byte : ℕ → Bool
is_v6_byte c = is_digit c || (leb b'a' c && leb c b'f' || (c == b'.' || c == b':'))

-- A host that the request can name: a name as the inbounds give it, of visible characters, that is no
-- address; or an address whose text, by the standard library, reads back and has the characters of
-- its family.
abbrev pub IsNameable : (IpAddr → Bytes) → DestinationHost → Type 0
IsNameable display (domain name) =
    (all is_name_byte name ≡ true)
    × (0 < length name)
    × (length name ≤ 253)
    × (to_ascii_lowercase (trim_end dot name) ≡ name)
    × (parse_ip name ≡ none)
IsNameable display (ip (IpAddr.v4 n)) =
    (all is_v4_byte (display (IpAddr.v4 n)) ≡ true)
    × (0 < length (display (IpAddr.v4 n)))
    × (length (display (IpAddr.v4 n)) ≤ 45)
    × (parse_ip (display (IpAddr.v4 n)) ≡ some (IpAddr.v4 n))
IsNameable display (ip (IpAddr.v6 n)) =
    (all is_v6_byte (display (IpAddr.v6 n)) ≡ true)
    × (length (display (IpAddr.v6 n)) ≤ 45)
    × (parse_ip (display (IpAddr.v6 n)) ≡ some (IpAddr.v6 n))

none_of :
    (p q : ℕ → Bool) (s : Bytes)
    → ((c : ℕ) → q c ≡ true → p c ≡ false)
    → all q s ≡ true
    → any p s ≡ false
none_of p q [] f h = refl
none_of p q (c ∷ cs) f h =
    let here : q c ≡ true = ground arith in
    let later : all q cs ≡ true = ground arith in rw (f c here) (none_of p q cs f later)

rsplit_once-none : (s : Bytes) → has_colon s ≡ false → rsplit_once s ≡ none
unfolding rsplit_once has_colon
rsplit_once-none [] h = refl
rsplit_once-none (c ∷ cs) h =
    let here : (c == b':') ≡ false = ground arith in
    let later : any (λ b. b == b':') cs ≡ false = ground arith in
    rw (rsplit_once-none cs later, rsplit_once, here) refl

rsplit_once-last :
    (host port : Bytes)
    → has_colon port ≡ false
    → rsplit_once (host ++ (b':' ∷ port)) ≡ some (host, port)
unfolding rsplit_once
rsplit_once-last [] port h = rw (rsplit_once-none port h, rsplit_once) refl
rsplit_once-last (c ∷ cs) port h = rw (rsplit_once-last cs port h, rsplit_once) refl

split_once-first :
    (c : ℕ) (front back : Bytes)
    → any (λ b. b == c) front ≡ false
    → split_once c (front ++ (c ∷ back)) ≡ some (front, back)
unfolding split_once
split_once-first c [] back h = ground arith
split_once-first c (x ∷ xs) back h =
    let here : (x == c) ≡ false = ground arith in
    let later : any (λ b. b == c) xs ≡ false = ground arith in
    rw (here, split_once-first c xs back later) refl

filled_lem : (s : Bytes) → 0 < length s → is_empty s ≡ false
filled_lem [] h = absurd (omega arith)
filled_lem (c ∷ cs) h = refl

module _ (port : ℕ) (positive : 0 < port) (small : port ≤ 65535) where
  port_text : has_colon (display_u16 port) ≡ false
  unfolding has_colon
  port_text =
      none_of (λ b. b == b':') is_digit (display_u16 port) (λ c h. ground arith)
        (display_u16-all is_digit port (λ d h. ground arith))

  parse_port-display_u16 : parse_port (display_u16 port) ≡ ok port
  unfolding parse_port require
  parse_port-display_u16 = rw (parse_uint-display_u16 port small, not_zero port positive) refl

  new_target_lem :
      (host : DestinationHost) → new_target host port ≡ ok (record { host = host; port = port })
  unfolding new_target
  new_target_lem host = rw (not_zero port positive) refl

  plain_lem :
      (host : Bytes) (destination : DestinationHost)
      → is_empty host ≡ false
      → has_colon host ≡ false
      → destination_of host (parse_ip host) ≡ ok destination
      → plain (host ++ (b':' ∷ display_u16 port)) ≡ ok (record { host = destination; port = port })
  unfolding plain plain_host require
  plain_lem host destination filled colon found =
      rw
        (
          rsplit_once-last host (display_u16 port) port_text,
          filled,
          colon,
          found,
          parse_port-display_u16,
          new_target_lem destination,
        )
        refl

  bracketed_lem :
      (text : Bytes) (n : ℕ)
      → any (λ b. b == b']') text ≡ false
      → parse_ip text ≡ some (IpAddr.v6 n)
      → bracketed (text ++ (b']' ∷ (b':' ∷ display_u16 port)))
        ≡ ok (record { host = ip (IpAddr.v6 n); port = port })
  unfolding bracketed bracketed_port strip_colon require ipv6_only is_ipv6
  bracketed_lem text n inside found =
      rw
        (
          split_once-first b']' text (b':' ∷ display_u16 port) inside,
          port_text,
          found,
          parse_port-display_u16,
          new_target_lem (ip (IpAddr.v6 n)),
        )
        refl

  plain_authority :
      (host : Bytes) (destination : DestinationHost)
      → 0 < length host
      → has_colon host ≡ false
      → any (λ b. b == b'[') host ≡ false
      → destination_of host (parse_ip host) ≡ ok destination
      → parse_authority (host ++ (b':' ∷ display_u16 port))
        ≡ ok (record { host = destination; port = port })
  unfolding parse_authority
  plain_authority [] destination filled colon bracket found = absurd (omega arith)
  plain_authority (c ∷ cs) destination filled colon bracket found =
      let first : (c == b'[') ≡ false = ground arith in
      rw first (plain_lem (c ∷ cs) destination refl colon found)

  pub parse_authority-host :
      (display : IpAddr → Bytes) (host : DestinationHost)
      → IsNameable display host
      → parse_authority (host_text display host ++ (b':' ∷ display_u16 port))
        ≡ ok (record { host = host; port = port })
  unfolding host_text has_colon destination_of parse_authority
  parse_authority-host display (domain name) (named, filled, short, canonical, no_address) =
      let empty : is_empty name ≡ false = filled_lem name filled in
      plain_authority name (domain name) filled
        (none_of (λ b. b == b':') is_name_byte name (λ c h. ground arith) named)
        (none_of (λ b. b == b'[') is_name_byte name (λ c h. ground arith) named)
        (rw
          (no_address, destination_of, canonical, empty, not_below 253 (length name) (omega arith))
          refl)
  parse_authority-host display (ip (IpAddr.v4 n)) (digits, filled, short, found) =
      let text = display (IpAddr.v4 n) in
      plain_authority text (ip (IpAddr.v4 n)) filled
        (none_of (λ b. b == b':') is_v4_byte text (λ c h. ground arith) digits)
        (none_of (λ b. b == b'[') is_v4_byte text (λ c h. ground arith) digits)
        (ap (destination_of text) found)
  parse_authority-host display (ip (IpAddr.v6 n)) (digits, short, found) =
      let text = display (IpAddr.v6 n) in
      ap bracketed (append_assoc text (bytes "]") (b':' ∷ display_u16 port))
      ∙ bracketed_lem text n (none_of (λ b. b == b']') is_v6_byte text (λ c h. ground arith) digits)
          found

-- What is written of a host is visible.
pub host_text-is_visible :
    (display : IpAddr → Bytes) (host : DestinationHost)
    → IsNameable display host
    → (all is_visible (host_text display host) ≡ true)
      × (0 < length (host_text display host))
      × (length (host_text display host) ≤ 253)
unfolding host_text
host_text-is_visible display (domain name) (named, filled, short, _, _) =
    (all-map is_name_byte is_visible name (λ c h. ground arith) named, filled, short)
host_text-is_visible display (ip (IpAddr.v4 n)) (digits, filled, short, _) = (
  all-map is_v4_byte is_visible (display (IpAddr.v4 n)) (λ c h. ground arith) digits,
  filled,
  omega arith,
)
host_text-is_visible display (ip (IpAddr.v6 n)) (digits, short, _) =
    let text = display (IpAddr.v6 n) in
    let seen = all-map is_v6_byte is_visible text (λ c h. ground arith) digits in
    (
      rw (all-append is_visible text (bytes "]"), seen) refl,
      omega (arith, length-append text (bytes "]")),
      omega (arith, length-append text (bytes "]")),
    )
