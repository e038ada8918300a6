-- ===== src/Dns/Lifetime.antt =====
-- An entry of the cache, whatever the cache is asked and told afterwards.
pub mod Runs
use commeatus.Prelude.{
  ℕ, ◌+◌, ◌≤◌, ◌<◌, ◌≡◌, refl, sym, ap, ◌∙◌, true, false, not, ◌&&◌, ◌||◌, Option, none, some, List,
  [], ◌∷◌, arith, ltb, leb, ◌==◌, if◌then◌else◌, Bytes, eqb, eqb_iff, eqb_refl, length, All,
  Bool-cases, Option-cases, inl, inr, ◌⊎◌, not_zero,
}
use commeatus.Ip.{IpAddr}
use commeatus.Dns.Entries.{
  Distinct, lookup-remove, lookup-remove_self, retain-none, length-retain, length-remove,
}
use commeatus.Dns.{
  CacheEntry, DnsCache, new_cache, lookup, remove, retain, is_known, make_room, answer, get, ttl_of,
  insert, is_expired, max_cache_ttl,
}
use commeatus.Dns.Capacity.{
  IsBounded, CacheStep, looked_up, answered, apply, run, new_cache-IsBounded, run_from,
  apply-IsBounded, insert-IsBounded, insert-capacity,
}
use commeatus.Dns.Fresh.{lifetime, ttl_of-lifetime, retain-lookup}

-- A step that is not after `later` and brings no answer for the name.
abbrev pub Leaves : Bytes → ℕ → CacheStep → Type 0
Leaves name later (looked_up other time) = time ≤ later
Leaves name later (answered other addresses resolver_ttl time) =
    (eqb other name ≡ false) × (time ≤ later)

-- How many answers come in.
abbrev pub answers : List CacheStep → ℕ
answers [] = 0
answers (looked_up name now ∷ steps) = answers steps
answers (answered name addresses resolver_ttl now ∷ steps) = answers steps + 1

-- The entry is there, or has expired by `later` and is gone.
abbrev pub Stays : CacheEntry → ℕ → List CacheEntry → Type 0
Stays entry later entries =
    (lookup entry.name entries ≡ some entry)
    ⊎ ((lookup entry.name entries ≡ none) × (entry.expires ≤ later))

-- What is retained has not expired.
retain-live :
    (key : Bytes) (now : ℕ) (entries : List CacheEntry) (entry : CacheEntry)
    → lookup key (retain now entries) ≡ some entry
    → now < entry.expires
unfolding lookup retain
retain-live key now [] entry e = absurd (cc e)
retain-live key now (x ∷ entries) entry e =
    let rest = retain-live key now entries entry in ground (arith, rest, e)

lookup-retain :
    (key : Bytes) (now : ℕ) (entries : List CacheEntry) (entry : CacheEntry)
    → lookup key entries ≡ some entry
    → now < entry.expires
    → lookup key (retain now entries) ≡ some entry
unfolding lookup retain
lookup-retain key now [] entry e live = e
lookup-retain key now (x ∷ entries) entry e live =
    let rest = lookup-retain key now entries entry in ground (arith, rest, e, live)

retain-Stays :
    (entry : CacheEntry) (now later : ℕ) (entries : List CacheEntry)
    → Distinct entries
    → now ≤ later
    → Stays entry later entries
    → Stays entry later (retain now entries)
retain-Stays entry now later entries h soon (inr (gone, expired)) =
    inr (retain-none entry.name now entries gone, expired)
retain-Stays entry now later entries h soon (inl there) =
    elim (Option-cases (lookup entry.name (retain now entries))) [
      | inr (x, found) ↦
          let before = retain-lookup entry.name now entries x h found in
          inl (cc (before, there, found))
      | inl dropped ↦ elim (Bool-cases (ltb now entry.expires)) [
        | inl live ↦
            let kept = lookup-retain entry.name now entries entry there (ground arith) in
            absurd (cc (kept, dropped))
        | inr dead ↦ inr (dropped, ground arith)
      ]
    ]

remove-Stays :
    (entry : CacheEntry) (other : Bytes) (later : ℕ) (entries : List CacheEntry)
    → eqb other entry.name ≡ false
    → Stays entry later entries
    → Stays entry later (remove other entries)
remove-Stays entry other later entries differ h =
    rw (lookup-remove entry.name other entries differ) h

pub get-Stays :
    (entry : CacheEntry) (cache : DnsCache) (name : Bytes) (now later : ℕ)
    → now ≤ later
    → Stays entry later cache.entries
    → Stays entry later (get cache name now).1.entries
unfolding get is_expired
get-Stays entry cache name now later soon h =
    elim (Bool-cases (is_expired (lookup name cache.entries) now)) [
      | inr live ↦ rw live h
      | inl expired ↦ elim (Bool-cases (eqb name entry.name)) [
        | inr other ↦ rw expired (remove-Stays entry name later cache.entries other h)
        | inl same ↦
            let q : name ≡ entry.name = (eqb_iff name entry.name).0 same in
            let gone = lookup-remove_self entry.name cache.entries in
            elim h [
              | inl there ↦
                  let late : leb entry.expires now ≡ true = rw (q, there, is_expired) at expired in
                  rw expired (rw q (inr (gone, ground arith)))
              | inr (absent, dead) ↦ rw expired (rw q (inr (gone, dead)))
            ]
      ]
    ]

pub insert-Stays :
    (entry : CacheEntry) (cache : DnsCache) (name : Bytes) (addresses : List IpAddr)
    (resolver_ttl : Option ℕ) (now later : ℕ)
    → Distinct cache.entries
    → length cache.entries < cache.capacity
    → eqb name entry.name ≡ false
    → now ≤ later
    → Stays entry later cache.entries
    → Stays entry later (insert cache name addresses resolver_ttl now).entries
      × (length (insert cache name addresses resolver_ttl now).entries ≤ length cache.entries + 1)
unfolding insert make_room lookup
insert-Stays entry cache name addresses resolver_ttl now later distinct room differ soon h =
    elim (Bool-cases (ttl_of cache resolver_ttl == 0)) [
      | inl off ↦ rw off (h, omega arith)
      | inr on ↦
          let retained = retain now cache.entries in
          let fewer = length-retain now cache.entries in
          let roomy : leb cache.capacity (length retained) ≡ false = ground arith in
          let stays : (not (is_known (lookup name retained))
                && leb cache.capacity (length retained))
              ≡ false =
            ground (arith, roomy) in
          let kept = retain-Stays entry now later cache.entries distinct soon h in
          let fewer' = length-remove name retained in
          rw (on, stays, differ) (remove-Stays entry name later retained differ kept, omega arith)
    ]
