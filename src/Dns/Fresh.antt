-- ===== src/Dns/Fresh.antt =====
-- What the cache serves, and how long an answer is to be served.
use commeatus.Prelude.{
  ℕ, ◌+◌, ◌<◌, ◌≡◌, sym, ap, ◌∙◌, false, not, ◌&&◌, Option, none, some, List, [], ◌∷◌, arith, ltb,
  leb, ◌==◌, if◌then◌else◌, Bytes, eqb, eqb_iff, length, Bool-cases, Option-cases, inl, inr,
}
use commeatus.Ip.{IpAddr}
use commeatus.Dns.Entries.{Distinct, lookup-remove, lookup-remove_self}
use commeatus.Dns.{
  CacheEntry, DnsCache, lookup, remove, retain, oldest, evict, is_known, make_room, answer, get,
  ttl_of, insert, is_expired,
}

-- How long an answer is to be served: for the time that the resolver gave, but for no longer than
-- the longest time of the cache, and for that where the resolver gave none.
abbrev pub lifetime : ℕ → Option ℕ → ℕ
lifetime max_ttl none = max_ttl
lifetime max_ttl (some resolver_ttl) = if ltb resolver_ttl max_ttl then resolver_ttl else max_ttl

pub ttl_of-lifetime :
    (cache : DnsCache) (resolver_ttl : Option ℕ)
    → ttl_of cache resolver_ttl ≡ lifetime cache.max_ttl resolver_ttl
unfolding ttl_of
ttl_of-lifetime cache none = ground arith
ttl_of-lifetime cache (some resolver_ttl) = ground arith

pub retain-lookup :
    (key : Bytes) (now : ℕ) (entries : List CacheEntry) (entry : CacheEntry)
    → Distinct entries
    → lookup key (retain now entries) ≡ some entry
    → lookup key entries ≡ some entry
unfolding lookup retain
retain-lookup key now [] entry h e = e
retain-lookup key now (x ∷ entries) entry (fresh, h) e = elim (Bool-cases (eqb x.name key)) [
  | inl same ↦
      let q : x.name ≡ key = (eqb_iff x.name key).0 same in
      elim (Bool-cases (ltb now x.expires)) [
        | inl kept ↦ rw same (rw (kept, same) at e)
        | inr dropped ↦
            let there = retain-lookup key now entries entry h (rw dropped at e) in
            absurd (cc (rw q at fresh))
      ]
  | inr other ↦ let rest = retain-lookup key now entries entry h in ground arith
]

remove-lookup :
    (key other : Bytes) (entries : List CacheEntry) (entry : CacheEntry)
    → lookup key (remove other entries) ≡ some entry
    → lookup key entries ≡ some entry
remove-lookup key other entries entry e = elim (Bool-cases (eqb other key)) [
  | inl same ↦
      let q : other ≡ key = (eqb_iff other key).0 same in
      absurd (cc (sym (lookup-remove_self key entries) ∙ (rw q at e)))
  | inr different ↦ sym (lookup-remove key other entries different) ∙ e
]

make_room-lookup :
    (capacity : ℕ) (key name : Bytes) (entries : List CacheEntry) (entry : CacheEntry)
    → lookup key (make_room capacity name entries) ≡ some entry
    → lookup key entries ≡ some entry
unfolding make_room evict
make_room-lookup capacity key name entries entry e =
    elim (Bool-cases (not (is_known (lookup name entries)) && leb capacity (length entries))) [
      | inr stays ↦ rw stays at e
      | inl full ↦ elim (Option-cases (oldest entries)) [
        | inl nothing ↦ rw (full, nothing, evict) at e
        | inr (o, found) ↦ remove-lookup key o.name entries entry (rw (full, found, evict) at e)
      ]
    ]

-- Served from an entry that has not expired.
abbrev ServedBy : List CacheEntry → Bytes → ℕ → List IpAddr → Type 0
ServedBy entries name now served =
    (entry : CacheEntry) × (lookup name entries ≡ some entry)
    × (now < entry.expires)
    × (entry.addresses ≡ served)

get-ServedBy :
    (cache : DnsCache) (name : Bytes) (now : ℕ) (served : List IpAddr)
    → (get cache name now).0 ≡ some served
    → ServedBy cache.entries name now served
unfolding get answer is_expired
get-ServedBy cache name now served e = elim (Option-cases (lookup name cache.entries)) [
  | inl nothing ↦ absurd (cc (rw (nothing, is_expired, answer) at e))
  | inr (entry, found) ↦ elim (Bool-cases (leb entry.expires now)) [
    | inl expired ↦ absurd (cc (rw (found, is_expired, answer, expired) at e))
    | inr live ↦ (entry, found, ground arith, cc (rw (found, is_expired, answer, live) at e))
  ]
]

ServedBy-get :
    (cache : DnsCache) (name : Bytes) (now : ℕ) (served : List IpAddr)
    → ServedBy cache.entries name now served
    → (get cache name now).0 ≡ some served
unfolding get answer is_expired
ServedBy-get cache name now served (entry, found, live, same) =
    let fresh : leb entry.expires now ≡ false = ground arith in rw (found, fresh) (ap some same)

-- An insertion for one name never changes what is served for another to anything but nothing: what
-- the cache serves for another name afterwards, it would have served before, at the same time. The
-- cache holds no name twice.
pub get-insert_other :
    (cache : DnsCache) (name other : Bytes) (addresses served : List IpAddr)
    (resolver_ttl : Option ℕ) (now later : ℕ)
    → Distinct cache.entries
    → eqb name other ≡ false
    → (get (insert cache name addresses resolver_ttl now) other later).0 ≡ some served
    → (get cache other later).0 ≡ some served
unfolding insert
get-insert_other cache name other addresses served resolver_ttl now later h differ e =
    elim (Bool-cases (ttl_of cache resolver_ttl == 0)) [
      | inl off ↦ rw off at e
      | inr on ↦
          let kept = make_room cache.capacity name (retain now cache.entries) in
          let after : DnsCache = record {
            entries =
                record {
                  name = name;
                  addresses = addresses;
                  inserted = now;
                  expires = now + ttl_of cache resolver_ttl;
                }
                ∷ remove name kept;
            capacity = cache.capacity;
            max_ttl = cache.max_ttl;
          } in
          let (entry, found, live, same) = get-ServedBy after other later served (rw on at e) in
          let in_kept =
            remove-lookup other name kept entry (unfold lookup in (rw differ at found)) in
          let in_retained =
            make_room-lookup cache.capacity other name (retain now cache.entries) entry in_kept in
          let before = retain-lookup other now cache.entries entry h in_retained in
          ServedBy-get cache other later served (entry, before, live, same)
    ]
