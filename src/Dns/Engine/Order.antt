-- ===== src/Dns/Engine/Order.antt =====
-- The order in which names are resolved.
use commeatus.Prelude.{
  ℕ, ◌≡◌, refl, ap, ◌∙◌, true, false, Option, none, some, List, [], ◌∷◌, ◌++◌, Bytes, All, inl, inr,
  ◌⊎◌,
}
use commeatus.Text.Hostname.{hostname}
use commeatus.Ip.{IpAddr}
use commeatus.Dns.{get, insert}
use commeatus.Dns.Answer.{
  DnsErrorKind, no_records, DnsResult, ok, err, DnsAnswer, deduplicate_bounded, no_addresses,
}
use commeatus.Dns.Engine.{Resolver, DnsEngine, resolve_hosts, ask, resolve}

-- A resolver that gives no address for the name: an error, or an empty answer.
abbrev pub Fails : Bytes → DnsResult DnsAnswer → Type 0
Fails query (err error) = Unit
Fails query (ok answer) = no_addresses (deduplicate_bounded answer.addresses) ≡ true

answered :
    (result : DnsResult DnsAnswer)
    → ((answer : DnsAnswer) × (result ≡ ok answer))
      ⊎ ((error : DnsErrorKind) × (result ≡ err error))
answered (ok answer) = inl (answer, refl)
answered (err error) = inr (error, refl)

ask-append :
    (front rest : List Resolver) (query : Bytes) (last_error : DnsErrorKind) (answer : DnsAnswer)
    (resolver : Resolver)
    → All (λ (r : Resolver). Fails query (r query)) front
    → resolver query ≡ ok answer
    → no_addresses (deduplicate_bounded answer.addresses) ≡ false
    → (ask (front ++ (resolver ∷ rest)) query last_error).0
      ≡ ok (deduplicate_bounded answer.addresses, answer.ttl)
unfolding ask
ask-append [] rest query last_error answer resolver failed answers found =
    rw (answers, ask, found) refl
ask-append (r ∷ front) rest query last_error answer resolver (fails, failed) answers found =
    elim (answered (r query)) [
      | inl (a, e) ↦
          let empty : no_addresses (deduplicate_bounded a.addresses) ≡ true = rw e at fails in
          rw (e, empty)
            (ask-append front rest query no_records answer resolver failed answers found)
      | inr (error, e) ↦
          rw e (ask-append front rest query error answer resolver failed answers found)
    ]

pub resolve-cached :
    (engine : DnsEngine) (name : Bytes) (now : ℕ) (addresses : List IpAddr) {query : Bytes}
    → hostname name ≡ some query
    → resolve_hosts engine.hosts query ≡ none
    → (get engine.cache query now).0 ≡ some addresses
    → (resolve engine name now).0 ≡ ok addresses
unfolding resolve
resolve-cached engine name now addresses valid no_host cached = rw (valid, no_host, cached) refl

module _ (engine : DnsEngine) (name : Bytes) (now : ℕ) {query : Bytes}
    (valid : hostname name ≡ some query) (no_host : resolve_hosts engine.hosts query ≡ none)
    (not_cached : (get engine.cache query now).0 ≡ none) where
  pub resolve-ask :
      {addresses : List IpAddr} {ttl : Option ℕ}
      → (ask engine.resolvers query no_records).0 ≡ ok (addresses, ttl)
      → ((resolve engine name now).0 ≡ ok addresses)
        × ((resolve engine name now).1.hosts ≡ engine.hosts)
        × ((resolve engine name now).1.cache
            ≡ insert (get engine.cache query now).1 query addresses ttl now)
  unfolding resolve
  resolve-ask e = rw (valid, no_host, not_cached, e) (refl, refl, refl)

  -- A valid name that neither the hosts nor the cache answers: the first resolver that gives an
  -- address decides, whatever resolvers come behind it, and whatever errors or empty answers those
  -- in front of it gave. The result is its addresses, as `deduplicate_bounded` leaves them.
  pub resolve-first :
      (front rest : List Resolver) (resolver : Resolver) (answer : DnsAnswer)
      → engine.resolvers ≡ front ++ (resolver ∷ rest)
      → All (λ (r : Resolver). Fails query (r query)) front
      → resolver query ≡ ok answer
      → no_addresses (deduplicate_bounded answer.addresses) ≡ false
      → (resolve engine name now).0 ≡ ok (deduplicate_bounded answer.addresses)
  resolve-first front rest resolver answer shape failed answers found =
      (resolve-ask (
        ap (λ (rs : List Resolver). (ask rs query no_records).0) shape
        ∙ ask-append front rest query no_records answer resolver failed answers found)).0
