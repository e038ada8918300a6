-- ===== src/Tests/Engine.antt =====
-- The order of resolution at an engine of two resolvers, of which the first fails.
use commeatus.Prelude.{
  ℕ, ◌+◌, ◌≡◌, ◌≤◌, length, ap, sym, ◌∙◌, Option, refl, false, none, some, [], ◌∷◌, arith, Bytes,
  bytes,
}
use commeatus.Text
use commeatus.Text.Hostname.{hostname}
use commeatus.Ip.{IpAddr, ip_eq}
use commeatus.Dns
use commeatus.Dns.{DnsCache, new_cache, get, lookup}
use commeatus.Dns.Answer.{
  no_records, resolver_failure, ok, err, DnsAnswer, deduplicate_bounded, no_addresses,
}
use commeatus.Dns.Engine.{Resolver, DnsEngine, resolve_hosts, ask, resolve}
use commeatus.Dns.Engine.Order.{resolve-first}
use commeatus.Dns.Engine.Again.{Call, resolve_all, IsOther, with_resolvers, resolve-resolve}

abbrev name : Bytes
name = bytes "A.example"

abbrev query : Bytes
query = bytes "a.example"

abbrev given : DnsAnswer
given = record { addresses = IpAddr.v4 1 ∷ IpAddr.v4 1 ∷ []; ttl = some 30 }

abbrev broken : Resolver
broken _ = err resolver_failure

abbrev working : Resolver
working _ = ok given

abbrev engine : DnsEngine
engine = record {
  hosts = [];
  cache = record { entries = []; capacity = 2; max_ttl = 60 };
  resolvers = broken ∷ working ∷ broken ∷ [];
  stats = record { hosts_hits = 0; cache_hits = 0; cache_misses = 0; resolver_failures = 0 };
}

valid : hostname name ≡ some query
unfolding hostname Text.to_ascii_lowercase Text.trim Text.trim_end Text.trim_start Text.is_ascii
    Text.lower Text.split
valid = refl

no_host : resolve_hosts engine.hosts query ≡ none
unfolding resolve_hosts
no_host = refl

not_cached : (get engine.cache query 100).0 ≡ none
unfolding get lookup
not_cached = refl

once : deduplicate_bounded given.addresses ≡ IpAddr.v4 1 ∷ []
unfolding deduplicate_bounded ip_eq
once = refl

found : no_addresses (deduplicate_bounded given.addresses) ≡ false
unfolding deduplicate_bounded ip_eq
found = refl

resolve-first_example : (resolve engine name 100).0 ≡ ok (deduplicate_bounded given.addresses)
resolve-first_example =
    resolve-first engine name 100 valid no_host not_cached (broken ∷ []) (broken ∷ []) working given
      refl (tt, tt) refl found

asked : (ask engine.resolvers query no_records).0 ≡ ok (IpAddr.v4 1 ∷ [], some 30)
unfolding ask deduplicate_bounded ip_eq
asked = refl

abbrev fresh : DnsCache
fresh = record { entries = []; capacity = 2; max_ttl = 60 }

built : new_cache 2 60 ≡ some fresh
unfolding new_cache
built = refl

-- Another name, which is resolved in between.
abbrev other : Call
other = record { name = bytes "www.example"; time = 110; resolvers = working ∷ [] }

other_valid : hostname other.name ≡ some (bytes "www.example")
unfolding hostname Text.to_ascii_lowercase Text.trim Text.trim_end Text.trim_start Text.is_ascii
    Text.lower Text.split
other_valid = refl

size : Option Bytes → ℕ
size none = 0
size (some text) = length text

other-IsOther : IsOther query 129 other
unfolding size
other-IsOther = (
  λ e. let sizes : 11 ≡ 9 = ap size (sym other_valid ∙ e) in absurd (omega (arith, sizes)),
  omega arith,
)

room : length (resolve engine name 100).1.cache.entries + 1 ≤ 2
unfolding resolve hostname Text.to_ascii_lowercase Text.trim Text.trim_end Text.trim_start
    Text.is_ascii Text.lower Text.split resolve_hosts get lookup Dns.insert ask deduplicate_bounded
    ip_eq Dns.ttl_of Dns.retain Dns.remove
room = omega arith

-- Resolved again after another name, by resolvers that fail.
resolve-resolve_example :
    ((resolve engine name 100).0 ≡ ok (IpAddr.v4 1 ∷ []))
    × ((resolve
          (with_resolvers (resolve_all (other ∷ []) (resolve engine name 100).1) (broken ∷ []))
          name
          129).0
        ≡ ok (IpAddr.v4 1 ∷ []))
resolve-resolve_example =
    resolve-resolve 2 60 fresh [] engine name 100 (other ∷ []) 129 (broken ∷ []) (IpAddr.v4 1 ∷ [])
      (some 30) built refl valid no_host not_cached asked (other-IsOther, tt) room (omega arith)
      (omega arith)
