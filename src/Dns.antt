-- ===== src/Dns.antt =====
-- crates/dns/src/lib.rs: `DnsCache`. Times and durations are their nanoseconds, and the map is the
-- list of its entries in the order in which it gives them.
pub mod Entries
pub mod Fresh
pub mod Lifetime
pub mod Answer
pub mod Engine
pub mod Hosts
pub mod Dot
pub mod Wire
pub mod Records
pub mod Aliases
pub mod Message
pub mod Capacity
use commeatus.Prelude.{
  ℕ, ◌+◌, Bool, true, false, not, ◌&&◌, ◌||◌, Option, none, some, List, [], ◌∷◌, ltb, leb, ◌==◌,
  if◌then◌else◌, Bytes, eqb, length,
}
use Prim.Native.Nat.{min}
use commeatus.Ip.{IpAddr}

pub record CacheEntry : Type 0 where
  pub name : Bytes
  pub addresses : List IpAddr
  pub inserted : ℕ
  pub expires : ℕ

pub record DnsCache : Type 0 where
  pub entries : List CacheEntry
  pub capacity : ℕ
  pub max_ttl : ℕ

abbrev pub max_cache_ttl : ℕ
max_cache_ttl = 300000000000

-- `DnsCache::new`; `none` is the error
unfoldable pub new_cache : ℕ → ℕ → Option DnsCache
new_cache capacity ttl =
    if capacity == 0 || ttl == 0 || ltb max_cache_ttl ttl
    then none
    else some (record { entries = []; capacity = capacity; max_ttl = ttl })

-- `HashMap::get`, `remove` and `retain`
unfoldable pub lookup : Bytes → List CacheEntry → Option CacheEntry
lookup key [] = none
lookup key (entry ∷ entries) =
    let rest = lookup key entries in if eqb entry.name key then some entry else rest

unfoldable pub remove : Bytes → List CacheEntry → List CacheEntry
remove key [] = []
remove key (entry ∷ entries) =
    let rest = remove key entries in if eqb entry.name key then rest else entry ∷ rest

unfoldable pub retain : ℕ → List CacheEntry → List CacheEntry
retain now [] = []
retain now (entry ∷ entries) =
    let rest = retain now entries in if ltb now entry.expires then entry ∷ rest else rest

-- `min_by_key` of the time of insertion: the first of the least
pub older : CacheEntry → Option CacheEntry → CacheEntry
older entry none = entry
older entry (some other) = if leb entry.inserted other.inserted then entry else other

unfoldable pub oldest : List CacheEntry → Option CacheEntry
unfolding older
oldest [] = none
oldest (entry ∷ entries) = some (older entry (oldest entries))

pub evict : Option CacheEntry → List CacheEntry → List CacheEntry
evict none entries = entries
evict (some entry) entries = remove entry.name entries

-- `contains_key`
pub is_known : Option CacheEntry → Bool
is_known none = false
is_known (some entry) = true

pub make_room : ℕ → Bytes → List CacheEntry → List CacheEntry
unfolding evict is_known
make_room capacity key entries =
    if not (is_known (lookup key entries)) && leb capacity (length entries)
    then evict (oldest entries) entries
    else entries

pub answer : Option CacheEntry → Option (List IpAddr)
answer none = none
answer (some entry) = some entry.addresses

pub is_expired : Option CacheEntry → ℕ → Bool
is_expired none now = false
is_expired (some entry) now = leb entry.expires now

-- `DnsCache::get`: the answer and the cache after it
unfoldable pub get : DnsCache → Bytes → ℕ → Option (List IpAddr) × DnsCache
unfolding answer is_expired
get cache name now =
    let found = lookup name cache.entries in
    if is_expired found now
    then (
      none,
      record {
        entries = remove name cache.entries;
        capacity = cache.capacity;
        max_ttl = cache.max_ttl;
      },
    )
    else (answer found, cache)

unfoldable pub ttl_of : DnsCache → Option ℕ → ℕ
ttl_of cache none = min cache.max_ttl cache.max_ttl
ttl_of cache (some resolver_ttl) = min resolver_ttl cache.max_ttl

-- `DnsCache::insert`. The entry of the name is replaced, or a new one is put in front.
unfoldable pub insert : DnsCache → Bytes → List IpAddr → Option ℕ → ℕ → DnsCache
unfolding make_room
insert cache name addresses resolver_ttl now =
    let ttl = ttl_of cache resolver_ttl in
    let kept = make_room cache.capacity name (retain now cache.entries) in
    let entry : CacheEntry = record {
      name = name;
      addresses = addresses;
      inserted = now;
      expires = now + ttl;
    } in
    if ttl == 0 then cache else record {
      entries = entry ∷ remove name kept;
      capacity = cache.capacity;
      max_ttl = cache.max_ttl;
    }
