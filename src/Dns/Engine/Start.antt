-- ===== src/Dns/Engine/Start.antt =====
-- crates/dns/src/lib.rs: how a `DnsEngine` starts, with the system's resolver or with the given ones.
use commeatus.Prelude.{ℕ, Option, none, some, List, [], ◌∷◌}
use commeatus.Dns.{DnsCache, new_cache}
use commeatus.Dns.Answer.{no_resolvers, invalid_configuration, DnsResult, ok, err}
use commeatus.Dns.Engine.{Resolver, Hosts, DnsStats, DnsEngine}

abbrev pub default_cache_capacity : ℕ
default_cache_capacity = 4096

abbrev pub default_cache_ttl : ℕ
default_cache_ttl = 60000000000

-- `DnsCache::defaults`
abbrev pub default_cache : DnsCache
default_cache = record { entries = []; capacity = 4096; max_ttl = 60000000000 }

abbrev pub no_stats : DnsStats
no_stats = record { hosts_hits = 0; cache_hits = 0; cache_misses = 0; resolver_failures = 0 }

-- `DnsEngine::system`, with the function that `SystemResolver` stands for.
unfoldable pub system_engine : Resolver → Hosts → DnsEngine
system_engine system hosts = record {
  hosts = hosts;
  cache = default_cache;
  resolvers = system ∷ [];
  stats = no_stats;
}

unfoldable pub with_cache : Hosts → List Resolver → Option DnsCache → DnsResult DnsEngine
with_cache hosts resolvers none = err invalid_configuration
with_cache hosts resolvers (some cache) =
    ok (record { hosts = hosts; cache = cache; resolvers = resolvers; stats = no_stats })

-- `DnsEngine::with_resolvers`
unfoldable pub with_resolvers : Hosts → List Resolver → ℕ → ℕ → DnsResult DnsEngine
with_resolvers hosts [] capacity ttl = err no_resolvers
with_resolvers hosts (resolver ∷ resolvers) capacity ttl =
    with_cache hosts (resolver ∷ resolvers) (new_cache capacity ttl)
