-- ===== src/Dns/Answer.antt =====
-- crates/dns/src/lib.rs: errors and `DnsAnswer`. An error is its kind; messages are left out.
use commeatus.Prelude.{
  ◌⊎◌, inl, inr, ℕ, ◌≡◌, refl, true, Option, List, [], ◌∷◌, ◌++◌, if◌then◌else◌, Bool, false, any,
  take,
}
use commeatus.Ip.{IpAddr, ip_eq}

pub data DnsErrorKind : Type 0 where
  invalid_name hosts_parse no_resolvers no_records : DnsErrorKind
  resolver_failure invalid_response invalid_configuration : DnsErrorKind

pub data DnsResult (A : Type 0) : Type 0 where
  ok : A → DnsResult A
  err : DnsErrorKind → DnsResult A

pub record DnsAnswer : Type 0 where
  pub addresses : List IpAddr
  pub ttl : Option ℕ

abbrev pub max_resolved_addresses : ℕ
max_resolved_addresses = 16

unfoldable pub push_new : List IpAddr → List IpAddr → List IpAddr
push_new result [] = result
push_new result (address ∷ addresses) =
    push_new (if any (ip_eq address) result then result else result ++ (address ∷ [])) addresses

unfoldable pub deduplicate_bounded : List IpAddr → List IpAddr
unfolding push_new
deduplicate_bounded addresses = push_new [] (take max_resolved_addresses addresses)

abbrev pub no_addresses : List IpAddr → Bool
no_addresses [] = true
no_addresses (address ∷ addresses) = false

-- `DnsAnswer::new`
unfoldable pub new_answer : List IpAddr → Option ℕ → DnsResult DnsAnswer
new_answer given ttl =
    let addresses = deduplicate_bounded given in
    if no_addresses addresses
    then err no_records
    else ok (record { addresses = addresses; ttl = ttl })

-- `?`
infixl 5 ◌>>=◌
abbrev pub ◌>>=◌ : {A B : Type 0} → DnsResult A → (A → DnsResult B) → DnsResult B
err kind >>= next = err kind
ok value >>= next = next value

pub >>=-eq-ok :
    {A B : Type 0} {last : B} (first : DnsResult A) (next : A → DnsResult B)
    → (first >>= next) ≡ ok last
    → (value : A) × (first ≡ ok value) × (next value ≡ ok last)
>>=-eq-ok (err kind) next e = cc
>>=-eq-ok (ok value) next e = (value, refl, e)

pub DnsResult-cases :
    {A : Type 0} (r : DnsResult A)
    → ((kind : DnsErrorKind) × (r ≡ err kind)) ⊎ ((value : A) × (r ≡ ok value))
DnsResult-cases (err kind) = inl (kind, refl)
DnsResult-cases (ok value) = inr (value, refl)
