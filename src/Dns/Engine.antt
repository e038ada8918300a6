-- ===== src/Dns/Engine.antt =====
-- crates/dns/src/lib.rs: `DnsEngine`. A resolver is the function that `dyn Resolver`
-- stands for. One call of `resolve` is one step: no other caller comes between its two locks.
pub mod Order
pub mod Again
pub mod Start
use commeatus.Prelude.{
  ℕ, ◌+◌, ◌%◌, ◌^◌, Bool, true, false, Option, none, some, List, [], ◌∷◌, ◌++◌, if◌then◌else◌,
  Bytes, eqb, any, take,
}
use commeatus.Text.Hostname.{hostname}
use commeatus.Ip.{IpAddr, ip_eq}
use commeatus.Dns.{DnsCache, get, insert}
use commeatus.Dns.Answer.{
  DnsErrorKind, invalid_name, no_records, DnsResult, ok, err, DnsAnswer, deduplicate_bounded,
  no_addresses,
}

abbrev pub Resolver : Type 0
Resolver = Bytes → DnsResult DnsAnswer

abbrev pub Hosts : Type 0
Hosts = List (Bytes × List IpAddr)

pub record DnsStats : Type 0 where
  pub hosts_hits : ℕ
  pub cache_hits : ℕ
  pub cache_misses : ℕ
  pub resolver_failures : ℕ

pub record DnsEngine : Type 0 where
  pub hosts : Hosts
  pub cache : DnsCache
  pub resolvers : List Resolver
  pub stats : DnsStats

-- `HostsTable::resolve`
unfoldable pub resolve_hosts : Hosts → Bytes → Option (List IpAddr)
resolve_hosts [] name = none
resolve_hosts ((key, addresses) ∷ records) name =
    let rest = resolve_hosts records name in if eqb key name then some addresses else rest

-- The loop over the resolvers: what it ends with, and how many failed.
unfoldable pub ask : List Resolver → Bytes → DnsErrorKind → DnsResult (List IpAddr × Option ℕ) × ℕ
unfolding deduplicate_bounded
ask [] query last_error = (err last_error, 0)
ask (resolver ∷ resolvers) query last_error = elim (resolver query) [
  | ok answer ↦
      let addresses = deduplicate_bounded answer.addresses in
      let rest = ask resolvers query no_records in
      if no_addresses addresses then rest else (ok (addresses, answer.ttl), 0)
  | err error ↦ let rest = ask resolvers query error in (rest.0, rest.1 + 1)
]

-- `fetch_add` on an `AtomicU64`
abbrev add_to : ℕ → ℕ → ℕ
add_to counter n = (counter + n) % 2 ^ 64

pub count_failures : DnsStats → ℕ → DnsStats
count_failures stats n = record {
  hosts_hits = stats.hosts_hits;
  cache_hits = stats.cache_hits;
  cache_misses = stats.cache_misses;
  resolver_failures = add_to stats.resolver_failures n;
}

pub count_hosts_hit : DnsStats → DnsStats
count_hosts_hit stats = record {
  hosts_hits = add_to stats.hosts_hits 1;
  cache_hits = stats.cache_hits;
  cache_misses = stats.cache_misses;
  resolver_failures = stats.resolver_failures;
}

pub count_cache_hit : DnsStats → DnsStats
count_cache_hit stats = record {
  hosts_hits = stats.hosts_hits;
  cache_hits = add_to stats.cache_hits 1;
  cache_misses = stats.cache_misses;
  resolver_failures = stats.resolver_failures;
}

pub count_cache_miss : DnsStats → DnsStats
count_cache_miss stats = record {
  hosts_hits = stats.hosts_hits;
  cache_hits = stats.cache_hits;
  cache_misses = add_to stats.cache_misses 1;
  resolver_failures = stats.resolver_failures;
}

-- `DnsEngine::resolve`, from the loop's result on.
pub store :
    DnsEngine
    → Bytes
    → ℕ
    → DnsResult (List IpAddr × Option ℕ) × ℕ
    → DnsResult (List IpAddr) × DnsEngine
store engine query now (ok (addresses, ttl), failures) = (
  ok addresses,
  record {
    hosts = engine.hosts;
    cache = insert engine.cache query addresses ttl now;
    resolvers = engine.resolvers;
    stats = count_failures engine.stats failures;
  },
)
store engine query now (err error, failures) = (
  err error,
  record {
    hosts = engine.hosts;
    cache = engine.cache;
    resolvers = engine.resolvers;
    stats = count_failures engine.stats failures;
  },
)

pub after_cache :
    DnsEngine → Bytes → ℕ → Option (List IpAddr) × DnsCache → DnsResult (List IpAddr) × DnsEngine
unfolding store
after_cache engine query now (some addresses, cache) = (
  ok addresses,
  record {
    hosts = engine.hosts;
    cache = cache;
    resolvers = engine.resolvers;
    stats = count_cache_hit engine.stats;
  },
)
after_cache engine query now (none, cache) =
    let missed : DnsEngine = record {
      hosts = engine.hosts;
      cache = cache;
      resolvers = engine.resolvers;
      stats = count_cache_miss engine.stats;
    } in
    store missed query now (ask engine.resolvers query no_records)

pub after_hosts : DnsEngine → Bytes → ℕ → Option (List IpAddr) → DnsResult (List IpAddr) × DnsEngine
unfolding after_cache
after_hosts engine query now (some addresses) = (
  ok addresses,
  record {
    hosts = engine.hosts;
    cache = engine.cache;
    resolvers = engine.resolvers;
    stats = count_hosts_hit engine.stats;
  },
)
after_hosts engine query now none = after_cache engine query now (get engine.cache query now)

-- `DnsQuery::new`, and the rest.
pub resolve_query : DnsEngine → ℕ → Option Bytes → DnsResult (List IpAddr) × DnsEngine
unfolding after_hosts
resolve_query engine now none = (err invalid_name, engine)
resolve_query engine now (some query) =
    after_hosts engine query now (resolve_hosts engine.hosts query)

-- `DnsEngine::resolve` at the time `now`
unfoldable pub resolve : DnsEngine → Bytes → ℕ → DnsResult (List IpAddr) × DnsEngine
unfolding resolve_query
resolve engine name now = resolve_query engine now (hostname name)
