-- ===== src/DomainSet.antt =====
-- crates/core/src/domain_set.rs: compiled sets of domains, and the filter built from two of them.
pub mod Order
pub mod Search
pub mod Matching
use commeatus.Prelude.{
  ℕ, zero, suc, ◌+◌, ◌-◌, ◌/◌, Bool, true, false, not, ◌&&◌, ◌||◌, Option, none, some, List, [],
  ◌∷◌, ltb, leb, ◌==◌, if◌then◌else◌, Bytes, eqb, length, get_or, any,
}
use commeatus.Text.{dot, trim, trim_end, to_ascii_lowercase, is_ascii, split, split_once}
use commeatus.Text.Hostname.{hostname, max_domain_length, is_empty}

-- `sort_unstable` and `dedup` are at work on these, and `binary_search` on the result.
pub record DomainSet : Type 0 where
  pub exact : List Bytes
  pub suffixes : List Bytes

-- `a.cmp(b)` is `Greater`
unfoldable pub gtb : Bytes → Bytes → Bool
gtb [] b = false
gtb (x ∷ a) [] = true
gtb (x ∷ a) (y ∷ b) = ltb y x || x == y && gtb a b

insert : Bytes → List Bytes → List Bytes
insert x [] = x ∷ []
insert x (y ∷ ys) = let rest = insert x ys in if gtb x y then y ∷ rest else x ∷ y ∷ ys

-- Items that compare equal are equal, so every sorting gives this list.
pub sort : List Bytes → List Bytes
unfolding insert gtb
sort [] = []
sort (x ∷ xs) = insert x (sort xs)

-- an item in front of a list without repetitions
cons_new : Bytes → List Bytes → List Bytes
cons_new x [] = x ∷ []
cons_new x (y ∷ ys) = if eqb x y then y ∷ ys else x ∷ y ∷ ys

pub dedup : List Bytes → List Bytes
unfolding cons_new
dedup [] = []
dedup (x ∷ xs) = cons_new x (dedup xs)

-- `normalize_domain` over a list, `collect`ed into a result; `none` is `DomainSetError`
pub normalize_all : List Bytes → Option (List Bytes)
normalize_all [] = some []
normalize_all (x ∷ xs) = elim (hostname x) [
  | none ↦ none
  | some y ↦ elim (normalize_all xs) [ none ↦ none | some ys ↦ some (y ∷ ys) ]
]

pub of_names : Option (List Bytes) → Option (List Bytes) → Option DomainSet
unfolding sort dedup
of_names (some exact) (some suffixes) =
    some (record { exact = dedup (sort exact); suffixes = dedup (sort suffixes) })
of_names _ _ = none

unfoldable pub compile : List Bytes → List Bytes → Option DomainSet
unfolding of_names normalize_all
compile exact suffixes = of_names (normalize_all exact) (normalize_all suffixes)

-- The halving of `binary_search_by`, and its last comparison. The fuel is the length.
pub search_from : ℕ → List Bytes → Bytes → ℕ → ℕ → Bool
search_from zero xs key base size = eqb (get_or xs base []) key
search_from (suc fuel) xs key base size =
    let half = size / 2 in
    let next =
      search_from fuel xs key (if gtb (get_or xs (base + half) []) key then base else base + half)
        (size - half) in
    if ltb 1 size then next else eqb (get_or xs base []) key

-- `binary_search_by(|item| item.cmp(key)).is_ok()`
unfoldable pub binary_search : List Bytes → Bytes → Bool
unfolding search_from gtb
binary_search [] key = false
binary_search (x ∷ xs) key = search_from (length (x ∷ xs)) (x ∷ xs) key 0 (length (x ∷ xs))

-- The loop of `matches`: the candidate, then what is behind its next dot. The fuel is one more
-- than the length.
pub suffix_loop : ℕ → List Bytes → Bytes → Bool
suffix_loop zero suffixes candidate = false
suffix_loop (suc fuel) suffixes candidate =
    let next : Bool = elim (split_once dot candidate) [
      | none ↦ false
      | some (label, rest) ↦ suffix_loop fuel suffixes rest
    ] in
    if binary_search suffixes candidate then true else next

unfoldable pub matches : DomainSet → Bytes → Bool
unfolding suffix_loop binary_search
matches set domain =
    let name = trim_end dot domain in
    if is_empty name || ltb max_domain_length (length name) || not (is_ascii name)
    then false
    else if binary_search set.exact name
    then true
    else suffix_loop (length name + 1) set.suffixes name

pub record DomainFilter : Type 0 where
  pub blocked : DomainSet
  pub allowed : DomainSet

unfoldable pub is_blocked : DomainFilter → Bytes → Bool
is_blocked filter domain = matches filter.blocked domain && not (matches filter.allowed domain)

unfoldable pub len : DomainSet → ℕ
len set = length set.exact + length set.suffixes
