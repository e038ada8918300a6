-- ===== src/Dns/Lifetime/Runs.antt =====
-- How long the cache serves an answer that came in, whatever it is asked and told afterwards.
use commeatus.Prelude.{
  ℕ, ◌+◌, ◌≤◌, ◌<◌, ◌≡◌, refl, ◌∙◌, false, ◌||◌, Option, none, some, List, [], ◌∷◌, arith, ltb,
  ◌==◌, if◌then◌else◌, Bytes, eqb_refl, length, All, Bool-cases, inl, inr, not_zero,
}
use commeatus.Ip.{IpAddr}
use commeatus.Dns.Entries.{length-remove}
use commeatus.Dns.{
  CacheEntry, DnsCache, new_cache, lookup, answer, get, ttl_of, insert, is_expired, max_cache_ttl,
}
use commeatus.Dns.Capacity.{
  IsBounded, CacheStep, looked_up, answered, run, new_cache-IsBounded, run_from, apply-IsBounded,
  insert-IsBounded, insert-capacity,
}
use commeatus.Dns.Fresh.{lifetime, ttl_of-lifetime}
use commeatus.Dns.Lifetime.{Leaves, answers, Stays, get-Stays, insert-Stays}

-- What holds while there are at most `room` more answers to come.
record IsKept (entry : CacheEntry) (later room : ℕ) (cache : DnsCache) : Type 0 where
  bounded : IsBounded cache
  roomy : length cache.entries + room ≤ cache.capacity
  stays : Stays entry later cache.entries

get-length :
    (cache : DnsCache) (name : Bytes) (now : ℕ)
    → length (get cache name now).1.entries ≤ length cache.entries
unfolding get
get-length cache name now = elim (Bool-cases (is_expired (lookup name cache.entries) now)) [
  | inl expired ↦ rw expired (length-remove name cache.entries)
  | inr live ↦ rw live (omega arith)
]

run-IsKept :
    (entry : CacheEntry) (later : ℕ) (steps : List CacheStep) (cache : DnsCache)
    → All (Leaves entry.name later) steps
    → IsKept entry later (answers steps) cache
    → IsKept entry later 0 (run steps cache)
run-IsKept entry later [] cache quiet h = h
run-IsKept entry later (looked_up name now ∷ steps) cache (soon, quiet) h =
    let (bounded, same) = apply-IsBounded (looked_up name now) cache h.bounded in
    run-IsKept entry later steps (get cache name now).1 quiet (record {
      bounded = bounded;
      roomy = omega (arith, h.roomy, same, get-length cache name now);
      stays = get-Stays entry cache name now later soon h.stays;
    })
run-IsKept entry later (answered name addresses resolver_ttl now ∷ steps) cache
      ((differ, soon), quiet) h =
    let (bounded, same) =
      apply-IsBounded (answered name addresses resolver_ttl now) cache h.bounded in
    let (stays, longer) =
      insert-Stays entry cache name addresses resolver_ttl now later h.bounded.distinct
        (omega (arith, h.roomy)) differ soon h.stays in
    run-IsKept entry later steps (insert cache name addresses resolver_ttl now) quiet
      (record { bounded = bounded; roomy = omega (arith, h.roomy, same, longer); stays = stays })

Stays-get :
    (entry : CacheEntry) (cache : DnsCache) (later : ℕ)
    → Stays entry later cache.entries
    → (get cache entry.name later).0
      ≡ (if ltb later entry.expires then some entry.addresses else none)
unfolding get answer is_expired
Stays-get entry cache later (inl there) = rw there (ground arith)
Stays-get entry cache later (inr (gone, expired)) = rw gone (ground arith)

pub get-max_ttl :
    (cache : DnsCache) (name : Bytes) (now : ℕ) → (get cache name now).1.max_ttl ≡ cache.max_ttl
unfolding get
get-max_ttl cache name now = elim (Bool-cases (is_expired (lookup name cache.entries) now)) [
  | inl expired ↦ rw expired refl
  | inr live ↦ rw live refl
]

insert-max_ttl :
    (cache : DnsCache) (name : Bytes) (addresses : List IpAddr) (resolver_ttl : Option ℕ) (now : ℕ)
    → (insert cache name addresses resolver_ttl now).max_ttl ≡ cache.max_ttl
unfolding insert
insert-max_ttl cache name addresses resolver_ttl now =
    elim (Bool-cases (ttl_of cache resolver_ttl == 0)) [
      | inl off ↦ rw off refl
      | inr on ↦ rw on refl
    ]

run-max_ttl :
    (steps : List CacheStep) (cache : DnsCache) → (run steps cache).max_ttl ≡ cache.max_ttl
run-max_ttl [] cache = refl
run-max_ttl (looked_up name now ∷ steps) cache =
    run-max_ttl steps (get cache name now).1 ∙ get-max_ttl cache name now
run-max_ttl (answered name addresses resolver_ttl now ∷ steps) cache =
    run-max_ttl steps (insert cache name addresses resolver_ttl now)
    ∙ insert-max_ttl cache name addresses resolver_ttl now

new_cache-max_ttl :
    (capacity max_ttl : ℕ) (cache : DnsCache)
    → new_cache capacity max_ttl ≡ some cache
    → cache.max_ttl ≡ max_ttl
unfolding new_cache
new_cache-max_ttl capacity max_ttl cache e =
    elim (Bool-cases (capacity == 0 || max_ttl == 0 || ltb max_cache_ttl max_ttl)) [
      | inl refused ↦ absurd (cc (rw refused at e))
      | inr allowed ↦
          let built : record { entries = []; capacity = capacity; max_ttl = max_ttl } ≡ cache =
            cc (rw allowed at e) in
          rw (← built) refl
    ]

-- The entry that an answer leaves.
abbrev entry_of : DnsCache → Bytes → List IpAddr → Option ℕ → ℕ → CacheEntry
entry_of cache name addresses resolver_ttl now = record {
  name = name;
  addresses = addresses;
  inserted = now;
  expires = now + lifetime cache.max_ttl resolver_ttl;
}

insert-lookup :
    (cache : DnsCache) (name : Bytes) (addresses : List IpAddr) (resolver_ttl : Option ℕ) (now : ℕ)
    → 0 < lifetime cache.max_ttl resolver_ttl
    → lookup name (insert cache name addresses resolver_ttl now).entries
      ≡ some (entry_of cache name addresses resolver_ttl now)
unfolding insert lookup
insert-lookup cache name addresses resolver_ttl now pos =
    let same = ttl_of-lifetime cache resolver_ttl in
    let on : (ttl_of cache resolver_ttl == 0) ≡ false = not_zero _ (omega (arith, same)) in
    rw (on, same, eqb_refl name) refl

pub kept-get :
    (cache : DnsCache) (after : List CacheStep) (name : Bytes) (addresses : List IpAddr)
    (resolver_ttl : Option ℕ) (now later : ℕ)
    → IsBounded cache
    → 0 < lifetime cache.max_ttl resolver_ttl
    → length (insert cache name addresses resolver_ttl now).entries + answers after ≤ cache.capacity
    → All (Leaves name later) after
    → (get (run after (insert cache name addresses resolver_ttl now)) name later).0
      ≡ (if ltb later (now + lifetime cache.max_ttl resolver_ttl) then some addresses else none)
kept-get cache after name addresses resolver_ttl now later bounded pos room quiet =
    let stored = insert cache name addresses resolver_ttl now in
    let entry = entry_of cache name addresses resolver_ttl now in
    let kept = run-IsKept entry later after stored quiet (record {
      bounded = insert-IsBounded cache name addresses resolver_ttl now bounded;
      roomy = omega (arith, room, insert-capacity cache name addresses resolver_ttl now);
      stays = inl (insert-lookup cache name addresses resolver_ttl now pos);
    }) in
    Stays-get entry (run after stored) later kept.stays

-- What every state of a cache has.
pub run-reached :
    (capacity max_ttl : ℕ) (cache : DnsCache) (steps : List CacheStep)
    → new_cache capacity max_ttl ≡ some cache
    → IsBounded (run steps cache)
      × ((run steps cache).capacity ≡ capacity)
      × ((run steps cache).max_ttl ≡ max_ttl)
run-reached capacity max_ttl cache steps built =
    let (start, size) = new_cache-IsBounded capacity max_ttl cache built in
    let (bounded, same) = run_from steps cache start in
    (bounded, same ∙ size, run-max_ttl steps cache ∙ new_cache-max_ttl capacity max_ttl cache built)

-- Of a cache in any state that it can come to, an answer that comes in for a time that is not zero
-- is served until its time has passed, and not from then on. Its time is what the resolver gave, but
-- no longer than the `max_ttl` that the cache was built with, and that where the resolver gave none.
-- That holds whatever other names are asked for and answered in the meantime, and however often the
-- name itself is asked for, none of it after the time of the last look, where no other answer for
-- the name comes in and the cache has room for the answers that do.
pub get-run :
    (capacity max_ttl : ℕ) (cache : DnsCache) (before after : List CacheStep) (name : Bytes)
    (addresses : List IpAddr) (resolver_ttl : Option ℕ) (now later : ℕ)
    → new_cache capacity max_ttl ≡ some cache
    → 0 < lifetime max_ttl resolver_ttl
    → length (insert (run before cache) name addresses resolver_ttl now).entries + answers after
      ≤ capacity
    → All (Leaves name later) after
    → (get (run after (insert (run before cache) name addresses resolver_ttl now)) name later).0
      ≡ (if ltb later (now + lifetime max_ttl resolver_ttl) then some addresses else none)
get-run capacity max_ttl cache before after name addresses resolver_ttl now later built pos room
      quiet =
    let (bounded, size, same) = run-reached capacity max_ttl cache before built in
    rw (← same) (
      kept-get (run before cache) after name addresses resolver_ttl now later bounded (rw same pos)
        (rw size room) quiet)
