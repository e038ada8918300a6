-- ===== src/Dns/Capacity.antt =====
-- The cache keeps one entry of a name, and at most as many entries as its capacity.
use commeatus.Prelude.{
  ℕ, suc, ◌≤◌, ◌<◌, ◌≡◌, refl, ap, ◌∙◌, true, not, ◌&&◌, ◌||◌, Option, none, some, List, [], ◌∷◌,
  arith, ltb, leb, ◌==◌, Bytes, eqb_refl, length, Bool-cases, Option-cases, inl, inr,
}
use commeatus.Ip.{IpAddr}
use commeatus.Dns.Entries.{
  Distinct, lookup-remove_self, remove-Distinct, retain-Distinct, length-retain, length-remove,
  length-remove_known,
}
use commeatus.Dns.{
  CacheEntry, DnsCache, new_cache, lookup, remove, retain, older, oldest, evict, is_known,
  make_room, get, ttl_of, insert, is_expired, max_cache_ttl,
}

pub record IsBounded (cache : DnsCache) : Type 0 where
  pub distinct : Distinct cache.entries
  pub within : length cache.entries ≤ cache.capacity
  pub room : 0 < cache.capacity

oldest-is_known :
    (entries : List CacheEntry) (entry : CacheEntry)
    → oldest entries ≡ some entry
    → is_known (lookup entry.name entries) ≡ true
unfolding oldest older lookup is_known
oldest-is_known [] entry h = cc
oldest-is_known (e ∷ entries) entry h = elim (Option-cases (oldest entries)) [
  | inl nothing ↦ let q : e ≡ entry = cc (rw nothing at h) in rw (← q, eqb_refl e.name) refl
  | inr (o, found) ↦ elim (Bool-cases (leb e.inserted o.inserted)) [
    | inl first ↦
        let q : e ≡ entry = cc (rw (found, older, first) at h) in rw (← q, eqb_refl e.name) refl
    | inr later ↦
        let q : o ≡ entry = cc (rw (found, older, later) at h) in
        let known = oldest-is_known entries entry (found ∙ ap some q) in ground arith
  ]
]

oldest-none : (entries : List CacheEntry) → oldest entries ≡ none → length entries ≡ 0
unfolding oldest
oldest-none [] h = refl
oldest-none (entry ∷ entries) h = cc

make_room-Distinct :
    (capacity : ℕ) (key : Bytes) (entries : List CacheEntry)
    → Distinct entries
    → Distinct (make_room capacity key entries)
unfolding make_room evict
make_room-Distinct capacity key entries h =
    elim (Bool-cases (not (is_known (lookup key entries)) && leb capacity (length entries))) [
      | inr stays ↦ rw stays h
      | inl full ↦ elim (Option-cases (oldest entries)) [
        | inl nothing ↦ rw (full, nothing, evict) h
        | inr (o, found) ↦ rw (full, found, evict) (remove-Distinct o.name entries h)
      ]
    ]

-- After that there is a place for the name.
make_room-length :
    (capacity : ℕ) (key : Bytes) (entries : List CacheEntry)
    → 0 < capacity
    → length entries ≤ capacity
    → suc (length (remove key (make_room capacity key entries))) ≤ capacity
unfolding make_room evict
make_room-length capacity key entries pos h = elim (Bool-cases (is_known (lookup key entries))) [
  | inl known ↦ rw known (omega (arith, length-remove_known key entries known))
  | inr unknown ↦ elim (Bool-cases (leb capacity (length entries))) [
    | inr roomy ↦
        let small = length-remove key entries in
        let below : length entries < capacity = ground arith in rw (unknown, roomy) (omega arith)
    | inl full ↦ elim (Option-cases (oldest entries)) [
      | inl nothing ↦ let none_left = oldest-none entries nothing in absurd (ground arith)
      | inr (o, found) ↦
          let less = length-remove_known o.name entries (oldest-is_known entries o found) in
          let less' = length-remove key (remove o.name entries) in
          rw (unknown, full, found, evict) (omega arith)
    ]
  ]
]

pub insert-IsBounded :
    (cache : DnsCache) (name : Bytes) (addresses : List IpAddr) (resolver_ttl : Option ℕ) (now : ℕ)
    → IsBounded cache
    → IsBounded (insert cache name addresses resolver_ttl now)
unfolding insert
insert-IsBounded cache name addresses resolver_ttl now h =
    elim (Bool-cases (ttl_of cache resolver_ttl == 0)) [
      | inl off ↦ rw off h
      | inr on ↦
          let small = length-retain now cache.entries in
          let live = retain-Distinct now cache.entries h.distinct in
          let kept = make_room cache.capacity name (retain now cache.entries) in
          rw on (record {
            distinct = (
              lookup-remove_self name kept,
              remove-Distinct name kept
                  (make_room-Distinct cache.capacity name (retain now cache.entries) live),
            );
            within =
                make_room-length cache.capacity name (retain now cache.entries) h.room
                  (omega (arith, h.within));
            room = h.room;
          })
    ]

pub get-IsBounded :
    (cache : DnsCache) (name : Bytes) (now : ℕ) → IsBounded cache → IsBounded (get cache name now).1
unfolding get
get-IsBounded cache name now h = elim (Bool-cases (is_expired (lookup name cache.entries) now)) [
  | inr live ↦ rw live h
  | inl expired ↦
      let small = length-remove name cache.entries in
      rw expired (record {
        distinct = remove-Distinct name cache.entries h.distinct;
        within = omega (arith, h.within);
        room = h.room;
      })
]

pub new_cache-IsBounded :
    (capacity ttl : ℕ) (cache : DnsCache)
    → new_cache capacity ttl ≡ some cache
    → IsBounded cache × (cache.capacity ≡ capacity)
unfolding new_cache
new_cache-IsBounded capacity ttl cache e =
    elim (Bool-cases (capacity == 0 || ttl == 0 || ltb max_cache_ttl ttl)) [
      | inl refused ↦ absurd (cc (rw refused at e))
      | inr allowed ↦
          let built : record { entries = []; capacity = capacity; max_ttl = ttl } ≡ cache =
            cc (rw allowed at e) in
          let pos : 0 < capacity = ground arith in
          rw (← built) (record { distinct = tt; within = omega arith; room = pos }, refl)
    ]

-- What happens to a cache, behind its lock: a name is looked up, or an answer comes in.
pub data CacheStep : Type 0 where
  looked_up : Bytes → ℕ → CacheStep
  answered : Bytes → List IpAddr → Option ℕ → ℕ → CacheStep

abbrev pub apply : CacheStep → DnsCache → DnsCache
apply (looked_up name now) cache = (get cache name now).1
apply (answered name addresses resolver_ttl now) cache =
    insert cache name addresses resolver_ttl now

abbrev pub run : List CacheStep → DnsCache → DnsCache
run [] cache = cache
run (step ∷ steps) cache = run steps (apply step cache)

pub get-capacity :
    (cache : DnsCache) (name : Bytes) (now : ℕ) → (get cache name now).1.capacity ≡ cache.capacity
unfolding get
get-capacity cache name now = elim (Bool-cases (is_expired (lookup name cache.entries) now)) [
  | inl expired ↦ rw expired refl
  | inr live ↦ rw live refl
]

pub insert-capacity :
    (cache : DnsCache) (name : Bytes) (addresses : List IpAddr) (resolver_ttl : Option ℕ) (now : ℕ)
    → (insert cache name addresses resolver_ttl now).capacity ≡ cache.capacity
unfolding insert
insert-capacity cache name addresses resolver_ttl now =
    elim (Bool-cases (ttl_of cache resolver_ttl == 0)) [
      | inl off ↦ rw off refl
      | inr on ↦ rw on refl
    ]

pub apply-IsBounded :
    (step : CacheStep) (cache : DnsCache)
    → IsBounded cache
    → IsBounded (apply step cache) × ((apply step cache).capacity ≡ cache.capacity)
apply-IsBounded (looked_up name now) cache h =
    (get-IsBounded cache name now h, get-capacity cache name now)
apply-IsBounded (answered name addresses resolver_ttl now) cache h = (
  insert-IsBounded cache name addresses resolver_ttl now h,
  insert-capacity cache name addresses resolver_ttl now,
)

pub run_from :
    (steps : List CacheStep) (cache : DnsCache)
    → IsBounded cache
    → IsBounded (run steps cache) × ((run steps cache).capacity ≡ cache.capacity)
run_from [] cache h = (h, refl)
run_from (step ∷ steps) cache h =
    let (kept, same) = apply-IsBounded step cache h in
    let (bounded, same') = run_from steps (apply step cache) kept in (bounded, same' ∙ same)

-- From the cache that is built with a capacity, whatever names are looked up and whatever answers
-- come in, at whatever times: the cache holds at most `capacity` entries, and no name twice.
pub run-within :
    (capacity ttl : ℕ) (cache : DnsCache) (steps : List CacheStep)
    → new_cache capacity ttl ≡ some cache
    → (length (run steps cache).entries ≤ capacity) × Distinct (run steps cache).entries
run-within capacity ttl cache steps e =
    let (start, size) = new_cache-IsBounded capacity ttl cache e in
    let (bounded, same) = run_from steps cache start in
    (omega (arith, bounded.within), bounded.distinct)
