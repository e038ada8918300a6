-- ===== src/Dns/Aliases/Sources.antt =====
-- Where the addresses of an answer come from.
use commeatus.Prelude.{
  ℕ, zero, suc, ◌≡◌, refl, true, false, Option, none, some, List, [], ◌∷◌, ◌++◌, arith, Bytes, any,
  All, take, Bool-cases, inl, inr,
}
use commeatus.Ip.{IpAddr, ip_eq}
use commeatus.Dns.Answer.{
  DnsResult-cases, ok, >>=-eq-ok, DnsAnswer, new_answer, deduplicate_bounded, push_new,
  no_addresses, max_resolved_addresses,
}
use commeatus.Dns.Records.{AddressRecordType, code, class_in, ResourceRecord}
use commeatus.Dns.Aliases.{
  Aliases, contains, alias_rounds, is_address, address_of, collect, push_address,
  resolve_addresses_through_aliases, max_dns_alias_hops, min_ttl,
}
use commeatus.Dns.Aliases.Reached.{
  In, Reaches, itself, Reached, contains-Reached, alias_rounds-Reached,
}

is_address_parts :
    (t : AddressRecordType) (names : List Bytes) (item : ResourceRecord)
    → is_address t names item ≡ true
    → (item.rr_class ≡ class_in) × (item.rr_type ≡ code t) × (contains names item.owner ≡ true)
unfolding is_address
is_address_parts t names item h = ground arith

module _ (message : Bytes) (items : List ResourceRecord) (name : Bytes) where
  -- A record that gives the address, of the type that was asked for, and whose owner is reached.
  abbrev pub Sourced : AddressRecordType → IpAddr → Type 0
  Sourced record_type address =
      (item : ResourceRecord) × In item items
      × (item.rr_class ≡ class_in)
      × (item.rr_type ≡ code record_type)
      × Reaches message items name item.owner
      × (address_of record_type message item ≡ ok address)

  abbrev AllSourced : AddressRecordType → List IpAddr → Type 0
  AllSourced record_type = All (Sourced record_type)

  append-AllSourced :
      (t : AddressRecordType) (addresses : List IpAddr) (address : IpAddr)
      → AllSourced t addresses
      → Sourced t address
      → AllSourced t (addresses ++ (address ∷ []))
  append-AllSourced t [] address hs h = (h, tt)
  append-AllSourced t (x ∷ addresses) address (h', hs) h =
      (h', append-AllSourced t addresses address hs h)

  push_address-AllSourced :
      (t : AddressRecordType) (addresses : List IpAddr) (address : IpAddr)
      → AllSourced t addresses
      → Sourced t address
      → AllSourced t (push_address addresses address)
  push_address-AllSourced t addresses address hs h =
      elim (Bool-cases (any (ip_eq address) addresses)) [
        | inl old ↦ rw old hs
        | inr new ↦ rw new (append-AllSourced t addresses address hs h)
      ]

  collect-AllSourced :
      (t : AddressRecordType) (names : List Bytes) (rest : List ResourceRecord)
      (addresses found : List IpAddr) (ttl ttl' : Option ℕ)
      → ((item : ResourceRecord) → In item rest → In item items)
      → Reached message items name names
      → AllSourced t addresses
      → collect t message names rest addresses ttl ≡ ok (found, ttl')
      → AllSourced t found
  unfolding collect
  collect-AllSourced t names [] addresses found ttl ttl' sub reached hs e =
      let q : addresses ≡ found = cc e in rw (← q) hs
  collect-AllSourced t names (item ∷ rest) addresses found ttl ttl' sub reached hs e =
      elim (Bool-cases (is_address t names item)) [
        | inr other ↦
            collect-AllSourced t names rest addresses found ttl ttl' (λ x i. sub x (inr i)) reached
              hs (rw (other, collect) at e)
        | inl wanted ↦ elim (DnsResult-cases (address_of t message item)) [
          | inl (kind, failed) ↦ absurd (cc (rw (wanted, failed, collect) at e))
          | inr (address, given) ↦
              let (in_class, of_type, known) = is_address_parts t names item wanted in
              let source : Sourced t address = (
                item,
                sub item (inl refl),
                in_class,
                of_type,
                contains-Reached message items name names item.owner reached known,
                given,
              ) in
              collect-AllSourced t names rest (push_address addresses address) found
                (some (min_ttl ttl item.ttl)) ttl' (λ x i. sub x (inr i)) reached
                (push_address-AllSourced t addresses address hs source)
                (rw (wanted, given, collect) at e)
        ]
      ]

  push_new-AllSourced :
      (t : AddressRecordType) (result addresses : List IpAddr)
      → AllSourced t result
      → AllSourced t addresses
      → AllSourced t (push_new result addresses)
  unfolding push_new
  push_new-AllSourced t result [] hs given = hs
  push_new-AllSourced t result (address ∷ addresses) hs (h, given) =
      push_new-AllSourced t (push_address result address) addresses
        (push_address-AllSourced t result address hs h) given

  take-AllSourced :
      (t : AddressRecordType) (n : ℕ) (addresses : List IpAddr)
      → AllSourced t addresses
      → AllSourced t (take n addresses)
  take-AllSourced t zero addresses hs = tt
  take-AllSourced t (suc n) [] hs = tt
  take-AllSourced t (suc n) (x ∷ addresses) (h, hs) = (h, take-AllSourced t n addresses hs)

  new_answer-AllSourced :
      (t : AddressRecordType) (found : List IpAddr) (ttl : Option ℕ) (answer : DnsAnswer)
      → AllSourced t found
      → new_answer found ttl ≡ ok answer
      → AllSourced t answer.addresses
  unfolding new_answer deduplicate_bounded
  new_answer-AllSourced t found ttl answer hs e =
      elim (Bool-cases (no_addresses (deduplicate_bounded found))) [
        | inl empty ↦ absurd (cc (rw empty at e))
        | inr some_left ↦
            let q : record { addresses = deduplicate_bounded found; ttl = ttl } ≡ answer =
              cc (rw some_left at e) in
            rw (← q) (
              push_new-AllSourced t [] (take max_resolved_addresses found) tt
                (take-AllSourced t max_resolved_addresses found hs))
      ]

  -- Every address of an answer comes from a record of the class and type that were asked for, whose
  -- data is the address, and whose owner is the name that was asked for or one that the CNAME
  -- records lead to from it.
  pub resolve_addresses_through_aliases-Sourced :
      (t : AddressRecordType) (answer : DnsAnswer)
      → resolve_addresses_through_aliases name t message items ≡ ok answer
      → All (Sourced t) answer.addresses
  unfolding resolve_addresses_through_aliases
  resolve_addresses_through_aliases-Sourced t answer e =
      let start : Aliases = record {
        accepted_names = name ∷ [];
        chain_ttl = none;
        changed = false;
      } in
      let (s, ended, e₁) = >>=-eq-ok (alias_rounds max_dns_alias_hops message items start) _ e in
      let ((found, ttl), collected, e₂) =
        >>=-eq-ok (collect t message s.accepted_names items [] s.chain_ttl) _ e₁ in
      let reached =
        alias_rounds-Reached message items name max_dns_alias_hops start s (itself, tt) ended in
      let sourced =
        collect-AllSourced t s.accepted_names items [] found s.chain_ttl ttl (λ x i. i) reached tt
          collected in
      new_answer-AllSourced t found ttl answer sourced e₂
