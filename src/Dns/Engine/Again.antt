-- ===== src/Dns/Engine/Again.antt =====
-- A name that is resolved again, after other names.
use commeatus.Prelude.{
  is_below, ℕ, ◌+◌, ◌<◌, ◌≤◌, ◌≡◌, ◌≢◌, refl, ap, ◌∙◌, true, false, Option, none, some, List, [],
  ◌∷◌, arith, ltb, Bytes, eqb, eqb_iff, length, All, Bool-cases, Option-cases, inl, inr, ◌⊎◌,
}
use commeatus.Text.Hostname.{hostname}
use commeatus.Ip.{IpAddr}
use commeatus.Dns.{DnsCache, new_cache, get, insert}
use commeatus.Dns.Capacity.{
  IsBounded, CacheStep, looked_up, answered, run, get-IsBounded, get-capacity,
}
use commeatus.Dns.Fresh.{lifetime}
use commeatus.Dns.Lifetime.{Leaves, answers}
use commeatus.Dns.Lifetime.Runs.{kept-get, run-reached, get-max_ttl}
use commeatus.Dns.Answer.{DnsErrorKind, no_records, DnsResult, ok, err}
use commeatus.Dns.Engine.{
  Resolver, Hosts, DnsEngine, resolve_hosts, ask, resolve, resolve_query, after_hosts, after_cache,
  store,
}
use commeatus.Dns.Engine.Order.{resolve-ask, resolve-cached}

-- The engine with other resolvers.
abbrev pub with_resolvers : DnsEngine → List Resolver → DnsEngine
with_resolvers engine resolvers = record {
  hosts = engine.hosts;
  cache = engine.cache;
  resolvers = resolvers;
  stats = engine.stats;
}

-- A call of `resolve`, and what the resolvers do by then.
pub record Call : Type 0 where
  pub name : Bytes
  pub time : ℕ
  pub resolvers : List Resolver

abbrev pub resolve_all : List Call → DnsEngine → DnsEngine
resolve_all [] engine = engine
resolve_all (call ∷ calls) engine =
    resolve_all calls (resolve (with_resolvers engine call.resolvers) call.name call.time).1

-- A call for another name, and not after `later`.
abbrev pub IsOther : Bytes → ℕ → Call → Type 0
IsOther query later call = (hostname call.name ≢ some query) × (call.time ≤ later)

-- What a call does to the cache.
abbrev Moves : Bytes → ℕ → DnsCache → DnsCache → Type 0
Moves query now cache after =
    (after ≡ (get cache query now).1)
    ⊎ ((addresses : List IpAddr) × (ttl : Option ℕ) × (after
          ≡ insert (get cache query now).1 query addresses ttl now))

asked :
    (result : DnsResult (List IpAddr × Option ℕ))
    → ((addresses : List IpAddr) × (ttl : Option ℕ) × (result ≡ ok (addresses, ttl)))
      ⊎ ((error : DnsErrorKind) × (result ≡ err error))
asked (ok (addresses, ttl)) = inl (addresses, ttl, refl)
asked (err error) = inr (error, refl)

after_cache-Moves :
    (engine : DnsEngine) (query : Bytes) (now : ℕ)
    → ((after_cache engine query now (get engine.cache query now)).1.hosts ≡ engine.hosts)
      × Moves query now engine.cache
          (after_cache engine query now (get engine.cache query now)).1.cache
unfolding after_cache store
after_cache-Moves engine query now = elim (Option-cases (get engine.cache query now).0) [
  | inr (addresses, found) ↦ rw found (refl, inl refl)
  | inl missed ↦ elim (asked (ask engine.resolvers query no_records).0) [
    | inl (addresses, ttl, e) ↦ rw (missed, e) (refl, inr (addresses, ttl, refl))
    | inr (error, e) ↦ rw (missed, e) (refl, inl refl)
  ]
]

resolve-Moves :
    (engine : DnsEngine) (name : Bytes) (now : ℕ)
    → ((resolve engine name now).1.hosts ≡ engine.hosts)
      × (((resolve engine name now).1.cache ≡ engine.cache)
          ⊎ ((query : Bytes) × (hostname name ≡ some query)
              × Moves query now engine.cache (resolve engine name now).1.cache))
unfolding resolve resolve_query after_hosts
resolve-Moves engine name now = elim (Option-cases (hostname name)) [
  | inl refused ↦ rw refused (refl, inl refl)
  | inr (query, valid) ↦ elim (Option-cases (resolve_hosts engine.hosts query)) [
    | inr (addresses, known) ↦ rw (valid, known) (refl, inl refl)
    | inl unknown ↦
        let (hosts, moved) = after_cache-Moves engine query now in
        rw (valid, unknown) (hosts, inr (query, refl, moved))
  ]
]

-- What several calls do to the cache, and that they leave the hosts.
abbrev Passes : Bytes → ℕ → ℕ → DnsEngine → DnsEngine → Type 0
Passes query later calls engine after =
    (after.hosts ≡ engine.hosts)
    × (steps : List CacheStep) × (after.cache ≡ run steps engine.cache)
    × All (Leaves query later) steps
    × (answers steps ≤ calls)

resolve_all-Passes :
    (query : Bytes) (later : ℕ) (calls : List Call) (engine : DnsEngine)
    → All (IsOther query later) calls
    → Passes query later (length calls) engine (resolve_all calls engine)
resolve_all-Passes query later [] engine quiet = (refl, [], refl, tt, omega arith)
resolve_all-Passes query later (call ∷ calls) engine ((differ, soon), quiet) =
    let asking = with_resolvers engine call.resolvers in
    let next = (resolve asking call.name call.time).1 in
    let (same, moved) = resolve-Moves asking call.name call.time in
    let (hosts, steps, ran, leaves, few) = resolve_all-Passes query later calls next quiet in
    elim moved [
      | inl kept ↦ (
        hosts ∙ same,
        steps,
        ran ∙ ap (λ (c : DnsCache). run steps c) kept,
        leaves,
        omega (arith, few),
      )
      | inr (other, named, moves) ↦
          let apart : eqb other query ≡ false = elim (Bool-cases (eqb other query)) [
            | inr e ↦ e
            | inl e ↦ absurd (differ (named ∙ ap some ((eqb_iff other query).0 e)))
          ] in
          elim moves [
            | inl looked ↦ (
              hosts ∙ same,
              looked_up other call.time ∷ steps,
              ran ∙ ap (λ (c : DnsCache). run steps c) looked,
              (soon, leaves),
              omega (arith, few),
            )
            | inr (addresses, ttl, told) ↦ (
              hosts ∙ same,
              looked_up other call.time ∷ answered other addresses ttl call.time ∷ steps,
              ran ∙ ap (λ (c : DnsCache). run steps c) told,
              (soon, ((apart, soon), leaves)),
              omega (arith, few),
            )
          ]
    ]

-- A valid name that neither the hosts nor the cache answers, in an engine whose cache is in any state
-- that it can come to: what the resolvers gave is given again, whatever the resolvers do by then,
-- until its time has passed. Its time is what the resolver gave, but no longer than the `max_ttl`
-- that the cache was built with, and that where the resolver gave none. Other names may be resolved
-- in the meantime, none of them after the second resolution of this one, as long as the cache has
-- room for an answer to each.
pub resolve-resolve :
    (capacity max_ttl : ℕ) (fresh : DnsCache) (before : List CacheStep) (engine : DnsEngine)
    (name : Bytes) (now : ℕ) {query : Bytes} (calls : List Call) (later : ℕ)
    (resolvers : List Resolver) (addresses : List IpAddr) (ttl : Option ℕ)
    → new_cache capacity max_ttl ≡ some fresh
    → engine.cache ≡ run before fresh
    → hostname name ≡ some query
    → resolve_hosts engine.hosts query ≡ none
    → (get engine.cache query now).0 ≡ none
    → (ask engine.resolvers query no_records).0 ≡ ok (addresses, ttl)
    → All (IsOther query later) calls
    → length (resolve engine name now).1.cache.entries + length calls ≤ capacity
    → 0 < lifetime max_ttl ttl
    → later < now + lifetime max_ttl ttl
    → ((resolve engine name now).0 ≡ ok addresses)
      × ((resolve
            (with_resolvers (resolve_all calls (resolve engine name now).1) resolvers)
            name
            later).0
          ≡ ok addresses)
resolve-resolve capacity max_ttl fresh before engine name now {query} calls later resolvers
      addresses ttl built reached valid no_host missed e quiet room pos soon =
    let (given, same_hosts, stored) = resolve-ask engine name now valid no_host missed e in
    let (bounded, size, same) = run-reached capacity max_ttl fresh before built in
    let cache = engine.cache in
    let looked = (get cache query now).1 in
    let first = (resolve engine name now).1 in
    let last = resolve_all calls first in
    let (hosts, steps, ran, leaves, few) = resolve_all-Passes query later calls first quiet in
    let fits = ap (λ (c : DnsCache). length c.entries) stored in
    let size' : looked.capacity ≡ capacity =
      get-capacity cache query now ∙ ap (λ (c : DnsCache). c.capacity) reached ∙ size in
    let same' : looked.max_ttl ≡ max_ttl =
      get-max_ttl cache query now ∙ ap (λ (c : DnsCache). c.max_ttl) reached ∙ same in
    let bounded' : IsBounded looked = get-IsBounded cache query now (rw reached bounded) in
    let kept =
      kept-get looked steps query addresses ttl now later bounded' (rw same' pos)
        (omega (arith, room, fits, few, size')) leaves in
    let in_time : ltb later (now + lifetime looked.max_ttl ttl) ≡ true =
      is_below later _ (rw same' soon) in
    let served : (get last.cache query later).0 ≡ some addresses =
      rw (ran, stored) (kept ∙ rw in_time refl) in
    (
      given,
      resolve-cached (with_resolvers last resolvers) name later addresses valid
          (ap (λ (h : Hosts). resolve_hosts h query) (hosts ∙ same_hosts) ∙ no_host) served,
    )
