-- ===== src/Dns/Entries.antt =====
-- The entries of the cache as a map: looking up, removing, and dropping what has expired.
use commeatus.Prelude.{
  ℕ, ◌≤◌, ◌<◌, ◌≡◌, refl, ap, ◌∙◌, true, false, none, List, [], ◌∷◌, arith, ltb, Bytes, eqb,
  eqb_iff, length, Bool-cases, inl, inr,
}
use commeatus.Dns.{CacheEntry, lookup, remove, retain, is_known}

-- No name twice.
abbrev pub Distinct : List CacheEntry → Type 0
Distinct [] = Unit
Distinct (entry ∷ entries) = (lookup entry.name entries ≡ none) × Distinct entries

pub lookup-remove_self :
    (key : Bytes) (entries : List CacheEntry) → lookup key (remove key entries) ≡ none
unfolding lookup remove
lookup-remove_self key [] = refl
lookup-remove_self key (entry ∷ entries) = ground (arith, lookup-remove_self key entries)

pub lookup-remove :
    (key other : Bytes) (entries : List CacheEntry)
    → eqb other key ≡ false
    → lookup key (remove other entries) ≡ lookup key entries
unfolding lookup remove
lookup-remove key other [] h = refl
lookup-remove key other (entry ∷ entries) h = elim (Bool-cases (eqb entry.name other)) [
  | inl same ↦
      let e : entry.name ≡ other = (eqb_iff entry.name other).0 same in
      let apart : eqb entry.name key ≡ false = ap (λ (s : Bytes). eqb s key) e ∙ h in
      rw (same, apart) (lookup-remove key other entries h)
  | inr different ↦ rw different (ground (arith, lookup-remove key other entries h))
]

-- What is dropped does not come back.
pub remove-none :
    (key other : Bytes) (entries : List CacheEntry)
    → lookup key entries ≡ none
    → lookup key (remove other entries) ≡ none
unfolding lookup remove
remove-none key other [] h = refl
remove-none key other (entry ∷ entries) h = ground (arith, remove-none key other entries)

pub retain-none :
    (key : Bytes) (now : ℕ) (entries : List CacheEntry)
    → lookup key entries ≡ none
    → lookup key (retain now entries) ≡ none
unfolding lookup retain
retain-none key now [] h = refl
retain-none key now (entry ∷ entries) h = ground (arith, retain-none key now entries)

pub remove-Distinct :
    (key : Bytes) (entries : List CacheEntry) → Distinct entries → Distinct (remove key entries)
unfolding remove
remove-Distinct key [] h = tt
remove-Distinct key (entry ∷ entries) (fresh, h) = elim (Bool-cases (eqb entry.name key)) [
  | inl same ↦ rw same (remove-Distinct key entries h)
  | inr other ↦ rw other (remove-none entry.name key entries fresh, remove-Distinct key entries h)
]

pub retain-Distinct :
    (now : ℕ) (entries : List CacheEntry) → Distinct entries → Distinct (retain now entries)
unfolding retain
retain-Distinct now [] h = tt
retain-Distinct now (entry ∷ entries) (fresh, h) = elim (Bool-cases (ltb now entry.expires)) [
  | inl kept ↦ rw kept (retain-none entry.name now entries fresh, retain-Distinct now entries h)
  | inr dropped ↦ rw dropped (retain-Distinct now entries h)
]

pub length-retain :
    (now : ℕ) (entries : List CacheEntry) → length (retain now entries) ≤ length entries
unfolding retain
length-retain now [] = omega arith
length-retain now (entry ∷ entries) = ground (arith, length-retain now entries)

pub length-remove :
    (key : Bytes) (entries : List CacheEntry) → length (remove key entries) ≤ length entries
unfolding remove
length-remove key [] = omega arith
length-remove key (entry ∷ entries) = ground (arith, length-remove key entries)

-- A name that is known leaves a place.
pub length-remove_known :
    (key : Bytes) (entries : List CacheEntry)
    → is_known (lookup key entries) ≡ true
    → length (remove key entries) < length entries
unfolding lookup remove is_known
length-remove_known key [] h = cc
length-remove_known key (entry ∷ entries) h =
    ground (arith, length-remove key entries, length-remove_known key entries)
