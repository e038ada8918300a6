-- ===== src/DomainSet/Search.antt =====
-- Binary search over a sorted list finds exactly what the list holds.
use commeatus.Prelude.{
  ℕ, zero, suc, ◌+◌, ◌-◌, ◌/◌, ◌≤◌, ◌<◌, ◌≡◌, refl, sym, true, false, List, [], ◌∷◌, arith, ltb,
  Bytes, eqb, eqb_iff, any, get_or, length, Bool-cases, Bool-iff, ltb→lt, inl, inr,
}
use commeatus.DomainSet.{gtb, search_from, binary_search}
use commeatus.DomainSet.Order.{Below, IsSorted, gtb_irrefl, gtb_antisymm}

Below-get_or :
    (x : Bytes) (xs : List Bytes) (i : ℕ)
    → Below x xs
    → i < length xs
    → gtb x (get_or xs i []) ≡ false
Below-get_or x [] i b h = elim h [ ]
Below-get_or x (y ∷ ys) zero b h = b.0
Below-get_or x (y ∷ ys) (suc i) b h = Below-get_or x ys i b.1 (omega arith)

-- In a sorted list, positions and items are in the same order.
get_or_mono :
    (xs : List Bytes) (i j : ℕ)
    → IsSorted xs
    → i ≤ j
    → j < length xs
    → gtb (get_or xs i []) (get_or xs j []) ≡ false
get_or_mono [] i j s le h = elim h [ ]
get_or_mono (x ∷ xs) zero zero s le h = gtb_irrefl x
get_or_mono (x ∷ xs) zero (suc j) s le h = Below-get_or x xs j s.0 (omega arith)
get_or_mono (x ∷ xs) (suc i) zero s le h = absurd (omega arith)
get_or_mono (x ∷ xs) (suc i) (suc j) s le h = get_or_mono xs i j s.1 (omega arith) (omega arith)

any-get_or :
    (key : Bytes) (xs : List Bytes) (i : ℕ)
    → i < length xs
    → get_or xs i [] ≡ key
    → any (eqb key) xs ≡ true
any-get_or key [] i h e = elim h [ ]
any-get_or key (x ∷ xs) zero h e = ground (arith, eqb_iff key x)
any-get_or key (x ∷ xs) (suc i) h e = ground (arith, any-get_or key xs i)

get_or-any :
    (key : Bytes) (xs : List Bytes)
    → any (eqb key) xs ≡ true
    → (i : ℕ) × (i < length xs) × (get_or xs i [] ≡ key)
get_or-any key [] h = cc
get_or-any key (x ∷ xs) h = elim (Bool-cases (eqb key x)) [
  | inl same ↦ (0, omega arith, sym ((eqb_iff key x).0 same))
  | inr other ↦ let (i, lt, e) = get_or-any key xs (rw other at h) in (suc i, omega arith, e)
]

module _ (xs : List Bytes) (key : Bytes) (sorted : IsSorted xs) where
  last_comparison :
      (base size i : ℕ)
      → size ≤ 1
      → base ≤ i
      → i < base + size
      → get_or xs i [] ≡ key
      → eqb (get_or xs base []) key ≡ true
  last_comparison base size i one lo hi e =
      let here : i ≡ base = omega arith in (eqb_iff (get_or xs base []) key).1 (rw here at e)

  -- A middle item above the key: the key stands in the lower half.
  key_is_lower :
      (mid i : ℕ)
      → i < length xs
      → get_or xs i [] ≡ key
      → gtb (get_or xs mid []) key ≡ true
      → i < mid
  key_is_lower mid i lt e above = elim (Bool-cases (ltb i mid)) [
    | inl below ↦ ground arith
    | inr not_below ↦
        let le = get_or_mono xs mid i sorted (ground arith) lt in absurd (cc (rw e at le, above))
  ]

  -- A middle item not above the key is the key itself, if the key also stands further down.
  key_is_mid :
      (mid i : ℕ)
      → i ≤ mid
      → mid < length xs
      → get_or xs i [] ≡ key
      → gtb (get_or xs mid []) key ≡ false
      → get_or xs mid [] ≡ key
  key_is_mid mid i le lt e below =
      let up = get_or_mono xs i mid sorted le lt in
      gtb_antisymm (get_or xs mid []) key below (rw e at up)

  search_from_complete :
      (fuel base size i : ℕ)
      → size ≤ fuel + 1
      → base + size ≤ length xs
      → base ≤ i
      → i < base + size
      → get_or xs i [] ≡ key
      → search_from fuel xs key base size ≡ true
  unfolding search_from
  search_from_complete zero base size i enough fits lo hi e =
      last_comparison base size i (omega arith) lo hi e
  search_from_complete (suc fuel) base size i enough fits lo hi e =
      let mid : ℕ = base + size / 2 in
      elim (Bool-cases (ltb 1 size)) [
        | inr one ↦ rw one (last_comparison base size i (ground arith) lo hi e)
        | inl many ↦
            let two : 1 < size = ltb→lt 1 size many in
            elim (Bool-cases (gtb (get_or xs mid []) key)) [
              | inl above ↦
                  let lower = key_is_lower mid i (omega arith) e above in
                  rw (many, above)
                    (search_from_complete fuel base (size - size / 2) i (omega arith) (omega arith)
                      lo (omega arith) e)
              | inr below ↦
                  rw (many, below)
                    (elim (Bool-cases (ltb i mid)) [
                      | inl left ↦
                          search_from_complete fuel mid (size - size / 2) mid (omega arith)
                            (omega arith) (omega arith) (omega arith)
                            (key_is_mid mid i (ground arith) (omega arith) e below)
                      | inr right ↦
                          search_from_complete fuel mid (size - size / 2) i (omega arith)
                            (omega arith) (ground arith) (omega arith) e
                    ])
            ]
      ]

  search_from_sound :
      (fuel base size : ℕ)
      → 0 < size
      → base + size ≤ length xs
      → search_from fuel xs key base size ≡ true
      → any (eqb key) xs ≡ true
  unfolding search_from
  search_from_sound zero base size pos fits e =
      any-get_or key xs base (omega arith) ((eqb_iff (get_or xs base []) key).0 e)
  search_from_sound (suc fuel) base size pos fits e = elim (Bool-cases (ltb 1 size)) [
    | inr one ↦
        any-get_or key xs base (omega arith) ((eqb_iff (get_or xs base []) key).0 (rw one at e))
    | inl many ↦
        let two : 1 < size = ltb→lt 1 size many in
        elim (Bool-cases (gtb (get_or xs (base + size / 2) []) key)) [
          | inl above ↦
              search_from_sound fuel base (size - size / 2) (omega arith) (omega arith)
                (rw (many, above) at e)
          | inr below ↦
              search_from_sound fuel (base + size / 2) (size - size / 2) (omega arith) (omega arith)
                (rw (many, below) at e)
        ]
  ]

-- Over a sorted list the search answers whether the key is in the list.
pub binary_search-any :
    (xs : List Bytes) (key : Bytes) → IsSorted xs → binary_search xs key ≡ any (eqb key) xs
unfolding binary_search
binary_search-any [] key s = refl
binary_search-any (x ∷ xs) key s =
    let n : ℕ = length (x ∷ xs) in
    Bool-iff (search_from n (x ∷ xs) key 0 n) (any (eqb key) (x ∷ xs))
      (search_from_sound (x ∷ xs) key s n 0 n (omega arith) (omega arith))
      (λ h.
        let (i, lt, e) = get_or-any key (x ∷ xs) h in
        search_from_complete (x ∷ xs) key s n 0 n i (omega arith) (omega arith) (omega arith)
          (omega arith) e)
